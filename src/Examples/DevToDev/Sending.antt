-- ===== src/Examples/DevToDev/Sending.antt =====
-- `tx_pkts` of examples/dev_to_dev.rs: every frame gets a packet, which is numbered when it is sent.

use xdpsock.Prelude.{
  ℕ, zero, suc, List, [], ◌∷◌, Outcome, ret, panic, spinning, ◌>>=◌, ok, err, expect, index_range,
  length, splice, replicate, add64, sub64, ltb, if◌then◌else◌,
}
use xdpsock.Kernel.{Kernel, Machine}
use xdpsock.Examples.Wire.{UdpPacket, Etherparse, LittleEndian}
use xdpsock.Xsk.Tx.{XskTx, prefill, send_apply, drain}
use xdpsock.Examples.DevToDev.{Filter}

module _ (eth : Etherparse) (le : LittleEndian) where
  open eth use {from_ethernet, udp_size, udp_write}
  open le use {read_u64, write_u64}

  -- `generate_pkt`: the packet's length, and the buffer with the packet at its front. A buffer that
  -- is too short makes `write` fail.
  unfoldable pub generate_pkt : List ℕ → List ℕ → UdpPacket → Outcome (ℕ × List ℕ)
  generate_pkt pkt payload builder = do
    bytes ← expect (udp_write builder payload)
    (if ltb (length pkt) (length bytes)
        then panic
        else ret (udp_size builder (length payload), splice pkt 0 bytes))

  -- The beginning of `tx_pkts`: all frames get the packet, whose length is returned.
  unfoldable pub prefill_pkts :
      (k : Kernel) → Filter → XskTx → Machine k.World → Outcome (ℕ × XskTx × Machine k.World)
  prefill_pkts k filter xsk m = do
    (len_pkt, prefill_pkt) ← generate_pkt (replicate 1500 0) (replicate 8 0) (record {
      src_mac = filter.src_mac;
      dest_mac = filter.dest_mac;
      src_ip = filter.src_ip;
      dest_ip = filter.dest_ip;
      time_to_live = 20;
      src_port = filter.src_port;
      dest_port = filter.dest_port;
    })
    front ← index_range prefill_pkt 0 len_pkt
    (tx', m') ← prefill k front xsk m
    ret (len_pkt, tx', m')

  -- The closure of `tx_pkts`: the frame with the number in it, and the length to send.
  unfoldable pub number_pkt : ℕ → ℕ → List ℕ → Outcome (List ℕ × ℕ)
  number_pkt len_pkt i pkt = do
    payload ← index_range pkt (sub64 len_pkt 8) len_pkt
    ret (splice pkt (sub64 len_pkt 8) (write_u64 i), add64 len_pkt 8)

  module _ (k : Kernel) where
    open k use {World}

    -- `while let Err(_) = xsk.tx.send_apply(..) {}`, for packet `i`.
    unfoldable pub send_pkt :
        ℕ → ℕ → ℕ → ℕ → XskTx → Machine World → Outcome (XskTx × Machine World)
    send_pkt zero fuel len_pkt i xsk m = spinning
    send_pkt (suc tries) fuel len_pkt i xsk m = do
      (sent, xsk', m') ← send_apply k fuel (number_pkt len_pkt i) xsk m
      elim sent [ ok done ↦ ret (xsk', m') | err e ↦ send_pkt tries fuel len_pkt i xsk' m' ]

    unfoldable pub send_pkts :
        ℕ → ℕ → ℕ → List ℕ → XskTx → Machine World → Outcome (XskTx × Machine World)
    send_pkts tries fuel len_pkt [] xsk m = ret (xsk, m)
    send_pkts tries fuel len_pkt (i ∷ pkts) xsk m = do
      (xsk', m') ← send_pkt tries fuel len_pkt i xsk m
      send_pkts tries fuel len_pkt pkts xsk' m'

    -- At most `tries` attempts for a packet, and `rounds` rounds of `drain`.
    unfoldable pub tx_pkts :
        ℕ → ℕ → ℕ → Filter → List ℕ → XskTx → Machine World → Outcome (XskTx × Machine World)
    tx_pkts tries rounds fuel filter pkts xsk m = do
      (len_pkt, filled, m1) ← prefill_pkts k filter xsk m
      (sent, m2) ← send_pkts tries fuel len_pkt pkts filled m1
      drain k fuel rounds sent m2
