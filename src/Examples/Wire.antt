-- ===== src/Examples/Wire.antt =====
-- What the programs under examples/ use of the etherparse crate, which reads and writes packets: the
-- parts of a read packet, and the packets that its builder is asked for.
use xdpsock.Prelude.{
  length, ◌^◌, ◌<◌, ℕ, ◌≡◌, ◌↔◌, refl, Bool, true, false, ◌&&◌, Option, List, [], ◌∷◌, Result, ◌==◌,
  ==_iff, arith,
}

-- `link.source()` and `link.destination()`
pub record Ethernet2 : Type 0 where
  pub source : List ℕ
  pub destination : List ℕ

pub record Ipv4 : Type 0 where
  pub source : List ℕ
  pub destination : List ℕ

pub record Udp : Type 0 where
  pub source_port : ℕ
  pub destination_port : ℕ

pub record Tcp : Type 0 where
  pub source_port : ℕ
  pub destination_port : ℕ
  pub sequence_number : ℕ
  pub window_size : ℕ

pub data LinkSlice : Type 0 where
  ethernet2 : Ethernet2 → LinkSlice

pub data InternetSlice : Type 0 where
  ipv4 : Ipv4 → InternetSlice
  ipv6 : InternetSlice

pub data TransportSlice : Type 0 where
  udp : Udp → TransportSlice
  tcp : Tcp → TransportSlice

pub record SlicedPacket : Type 0 where
  pub link : Option LinkSlice
  pub ip : Option InternetSlice
  pub transport : Option TransportSlice
  pub payload : List ℕ

-- `PacketBuilder::ethernet2(..).ipv4(..).udp(..)`
pub record UdpPacket : Type 0 where
  pub src_mac : List ℕ
  pub dest_mac : List ℕ
  pub src_ip : List ℕ
  pub dest_ip : List ℕ
  pub time_to_live : ℕ
  pub src_port : ℕ
  pub dest_port : ℕ

-- `PacketBuilder::ethernet2(..).ipv4(..).tcp(..)`, with the flags and numbers that were set.
pub record TcpPacket : Type 0 where
  pub src_mac : List ℕ
  pub dest_mac : List ℕ
  pub src_ip : List ℕ
  pub dest_ip : List ℕ
  pub time_to_live : ℕ
  pub src_port : ℕ
  pub dest_port : ℕ
  pub sequence_number : ℕ
  pub window_size : ℕ
  pub syn : Bool
  pub ack : Option ℕ

-- The functions of the crate. The two that write return the bytes that they write.
pub record Etherparse : Type 1 where
  pub Error : Type 0
  pub from_ethernet : List ℕ → Result Error SlicedPacket
  pub udp_size : UdpPacket → ℕ → ℕ
  pub udp_write : UdpPacket → List ℕ → Result Error (List ℕ)
  pub tcp_write : TcpPacket → List ℕ → Result Error (List ℕ)

-- `LittleEndian` of the byteorder crate: the bytes that `write_u64` writes, and what `read_u64` reads.
pub record LittleEndian : Type 0 where
  pub write_u64 : ℕ → List ℕ
  pub read_u64 : List ℕ → ℕ

pub record IsLittleEndian (le : LittleEndian) : Type 0 where
  pub length_write : (n : ℕ) → length (le.write_u64 n) ≡ 8
  pub read_write : (n : ℕ) → n < 2 ^ 64 → le.read_u64 (le.write_u64 n) ≡ n

-- `==` on slices of bytes
abbrev pub same_bytes : List ℕ → List ℕ → Bool
same_bytes [] [] = true
same_bytes [] (y ∷ ys) = false
same_bytes (x ∷ xs) [] = false
same_bytes (x ∷ xs) (y ∷ ys) = (x == y) && same_bytes xs ys

pub same_bytes_iff : (xs ys : List ℕ) → (same_bytes xs ys ≡ true) ↔ (xs ≡ ys)
same_bytes_iff [] [] = (λ h. refl, λ h. refl)
same_bytes_iff [] (y ∷ ys) = (λ h. cc, λ h. cc)
same_bytes_iff (x ∷ xs) [] = (λ h. cc, λ h. cc)
same_bytes_iff (x ∷ xs) (y ∷ ys) =
    let ih = same_bytes_iff xs ys in
    let at = ==_iff x y in (λ h. ground (arith, ih, at), λ h. ground (arith, ih, at))
