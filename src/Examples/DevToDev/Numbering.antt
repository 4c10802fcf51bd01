-- ===== src/Examples/DevToDev/Numbering.antt =====
-- The number that the sender writes into a packet.
use xdpsock.Prelude.{
  inr, ℕ, ◌+◌, ◌-◌, ◌^◌, ◌≤◌, ◌<◌, ◌≡◌, refl, sym, ap, ◌∙◌, List, ret, index_range_lem, length,
  slice, splice, length-splice, sub64, add64, arith,
}
use xdpsock.Umem.Frame.Isolation.{slice-splice_apart}
use xdpsock.Umem.Frame.Copies.{slice-splice_self}
use xdpsock.Examples.Wire.{Etherparse, LittleEndian, IsLittleEndian}
use xdpsock.Examples.DevToDev.Sending.{number_pkt}

-- For a byte order crate that reads back what it writes: for a packet of at least eight bytes in a
-- frame that it fits, the closure of `tx_pkts` returns, with the packet's length and eight more.
-- The size of the frame stays, the last eight bytes of the packet are read back as the number, and
-- the bytes before them are as they were.
pub number_pkt_lem :
    (eth : Etherparse) (le : LittleEndian)
    → IsLittleEndian le
    → (len_pkt i : ℕ) (pkt : List ℕ) → 8 ≤ len_pkt
    → len_pkt ≤ length pkt
    → len_pkt + 8 < 2 ^ 64
    → i < 2 ^ 64
    → (pkt' : List ℕ) × (number_pkt eth le len_pkt i pkt ≡ ret (pkt', len_pkt + 8))
      × (length pkt' ≡ length pkt)
      × (le.read_u64 (slice pkt' (len_pkt - 8) len_pkt) ≡ i)
      × (slice pkt' 0 (len_pkt - 8) ≡ slice pkt 0 (len_pkt - 8))
unfolding number_pkt
number_pkt_lem eth le law len_pkt i pkt enough room small number =
    let s = len_pkt - 8 in
    let at : sub64 len_pkt 8 ≡ s = omega arith in
    let total : add64 len_pkt 8 ≡ len_pkt + 8 = omega arith in
    let size = law.length_write i in
    let whole : s + length (le.write_u64 i) ≡ len_pkt = omega (arith, size) in
    (
      splice pkt s (le.write_u64 i),
      rw (at, total, index_range_lem pkt s len_pkt (omega arith) room) refl,
      length-splice pkt s (le.write_u64 i),
      ap le.read_u64 (
            ap (slice (splice pkt s (le.write_u64 i)) s) (sym whole)
            ∙ slice-splice_self pkt s (le.write_u64 i) (omega (arith, whole)))
          ∙ law.read_write i number,
      slice-splice_apart pkt s 0 s (le.write_u64 i) (omega arith) (inr (omega arith)),
    )
