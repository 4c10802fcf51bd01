-- ===== src/Tests/Programs/Wire.antt =====
-- A packet format on which the hypotheses about the crates hold: the numbers, the lengths of the
-- addresses and the addresses of a TCP packet. Other bytes, from the eighth on, are a datagram's payload.
use mathlib.Core.Path.{subst}
use xdpsock.Prelude.{
  ◌<◌, ℕ, zero, suc, ◌+◌, ◌*◌, ◌/◌, ◌%◌, ◌≡◌, refl, ap, none, some, List, [], ◌∷◌, ◌++◌, Result, ok,
  err, length, take, drop, arith,
}
use xdpsock.Examples.Wire.{
  TcpPacket, Etherparse, LinkSlice, InternetSlice, TransportSlice, SlicedPacket, LittleEndian,
  IsLittleEndian,
}
use xdpsock.Examples.Synacker.Reply.{ReadsBack}

abbrev write : TcpPacket → List ℕ
write p =
    p.src_port
    ∷ p.dest_port
    ∷ p.sequence_number
    ∷ p.window_size
    ∷ length p.src_mac
    ∷ length p.dest_mac
    ∷ length p.src_ip
    ∷ length p.dest_ip
    ∷ 0
    ∷ (p.src_mac ++ (p.dest_mac ++ (p.src_ip ++ (p.dest_ip ++ []))))

abbrev read : List ℕ → Result (Unit {0}) SlicedPacket
read (sp ∷ dp ∷ number ∷ window ∷ sm ∷ dm ∷ si ∷ di ∷ mark ∷ rest) = ok (record {
  link = some (
      LinkSlice.ethernet2 (record { source = take sm rest; destination = take dm (drop sm rest) }));
  ip = some (
      InternetSlice.ipv4 (record {
        source = take si (drop dm (drop sm rest));
        destination = take di (drop si (drop dm (drop sm rest)));
      }));
  transport = some (
      TransportSlice.tcp (record {
        source_port = sp;
        destination_port = dp;
        sequence_number = number;
        window_size = window;
      }));
  payload = [];
})
read (a ∷ b ∷ c ∷ d ∷ e ∷ f ∷ g ∷ h ∷ []) = ok (record {
  link = none;
  ip = some (
      InternetSlice.ipv4
        (record { source = 10 ∷ 0 ∷ 0 ∷ 1 ∷ []; destination = 10 ∷ 0 ∷ 0 ∷ 2 ∷ [] }));
  transport = some (TransportSlice.udp (record { source_port = 1; destination_port = 2 }));
  payload = a ∷ b ∷ c ∷ d ∷ e ∷ f ∷ g ∷ h ∷ [];
})
read _ = err tt

abbrev pub eth : Etherparse
eth = record {
  Error = Unit {0};
  from_ethernet = read;
  udp_size = λ p n. 42 + n;
  udp_write = λ p payload. ok payload;
  tcp_write = λ p payload. ok (write p);
}

take-append : (xs ys : List ℕ) → take (length xs) (xs ++ ys) ≡ xs
take-append [] ys = refl
take-append (x ∷ xs) ys = ap (λ zs. x ∷ zs) (take-append xs ys)

drop-append : (xs ys : List ℕ) → drop (length xs) (xs ++ ys) ≡ ys
drop-append [] ys = refl
drop-append (x ∷ xs) ys = drop-append xs ys

pub eth-ReadsBack : ReadsBack eth
eth-ReadsBack = record {
  read_write = λ p bytes written.
      let same : write p ≡ bytes = cc in
      subst
        (λ b.
          (pkt : SlicedPacket) × (read b ≡ ok pkt)
          × (pkt.link
              ≡ some
                  (LinkSlice.ethernet2 (record { source = p.src_mac; destination = p.dest_mac })))
          × (pkt.ip
              ≡ some (InternetSlice.ipv4 (record { source = p.src_ip; destination = p.dest_ip })))
          × (pkt.transport
              ≡ some (
                  TransportSlice.tcp (record {
                    source_port = p.src_port;
                    destination_port = p.dest_port;
                    sequence_number = p.sequence_number;
                    window_size = p.window_size;
                  }))))
        same
        (
          _,
          refl,
          rw (take-append p.src_mac, drop-append p.src_mac) (rw (take-append p.dest_mac) refl),
          rw (drop-append p.src_mac) (
              rw (drop-append p.dest_mac) (
                rw (take-append p.src_ip, drop-append p.src_ip) (rw (take-append p.dest_ip) refl))),
          refl,
        );
}

-- The lowest byte first.
abbrev write_bytes : ℕ → ℕ → List ℕ
write_bytes zero n = []
write_bytes (suc k) n = n % 256 ∷ write_bytes k (n / 256)

abbrev read_bytes : List ℕ → ℕ
read_bytes [] = 0
read_bytes (b ∷ bytes) = b + 256 * read_bytes bytes

abbrev bound : ℕ → ℕ
bound zero = 1
bound (suc k) = 256 * bound k

read-write_bytes : (k n : ℕ) → n < bound k → read_bytes (write_bytes k n) ≡ n
read-write_bytes zero n h = omega arith
read-write_bytes (suc k) n h = omega (arith, read-write_bytes k (n / 256))

abbrev pub le : LittleEndian
le = record { write_u64 = write_bytes 8; read_u64 = read_bytes }

pub le-IsLittleEndian : IsLittleEndian le
le-IsLittleEndian = record {
  length_write = λ n. refl;
  read_write = λ n small. read-write_bytes 8 n small;
}
