-- ===== src/Examples/Synacker/Reply.antt =====
-- The answer to a TCP packet.
use xdpsock.Prelude.{
  ℕ, ◌+◌, ◌%◌, ◌^◌, ◌≡◌, refl, ap, ◌∙◌, ◌⊎◌, inl, inr, true, some, List, [], panic, ret, ◌>>=◌,
  Result, ok, err, expect, index_range, index_range_lem, length, take, take-length, arith,
}
use xdpsock.Examples.Wire.{
  Ethernet2, Ipv4, Tcp, LinkSlice, InternetSlice, TransportSlice, SlicedPacket, TcpPacket,
  Etherparse,
}
use xdpsock.Examples.Synacker.{synack, generate_synack}

-- A TCP packet over IPv4 over Ethernet, with addresses of their lengths.
pub record IsTcp (pkt : SlicedPacket) : Type 0 where
  pub frame : Ethernet2
  pub over_ethernet : pkt.link ≡ some (LinkSlice.ethernet2 frame)
  pub header : Ipv4
  pub over_ip : pkt.ip ≡ some (InternetSlice.ipv4 header)
  pub segment : Tcp
  pub over_tcp : pkt.transport ≡ some (TransportSlice.tcp segment)
  pub source_six : length frame.source ≡ 6
  pub destination_six : length frame.destination ≡ 6
  pub source_four : length header.source ≡ 4
  pub destination_four : length header.destination ≡ 4

-- What the packet that answers `pkt` has to be: from its destination to its source, with both flags,
-- and acknowledging the number behind its own.
abbrev pub reply_to : (pkt : SlicedPacket) → IsTcp pkt → TcpPacket
reply_to pkt v = record {
  src_mac = v.frame.destination;
  dest_mac = v.frame.source;
  src_ip = v.header.destination;
  dest_ip = v.header.source;
  time_to_live = 20;
  src_port = v.segment.destination_port;
  dest_port = v.segment.source_port;
  sequence_number = v.segment.sequence_number;
  window_size = v.segment.window_size;
  syn = true;
  ack = some ((v.segment.sequence_number + 1) % 2 ^ 32);
}

-- `from_ethernet` reads the headers that `write` was asked for.
pub record ReadsBack (eth : Etherparse) : Type 0 where
  pub read_write :
      (p : TcpPacket) (bytes : List ℕ)
      → eth.tcp_write p [] ≡ ok bytes
      → (pkt : SlicedPacket) × (eth.from_ethernet bytes ≡ ok pkt)
        × (pkt.link
            ≡ some (LinkSlice.ethernet2 (record { source = p.src_mac; destination = p.dest_mac })))
        × (pkt.ip
            ≡ some (InternetSlice.ipv4 (record { source = p.src_ip; destination = p.dest_ip })))
        × (pkt.transport
            ≡ some (
                TransportSlice.tcp (record {
                  source_port = p.src_port;
                  destination_port = p.dest_port;
                  sequence_number = p.sequence_number;
                  window_size = p.window_size;
                })))

front_whole : (xs : List ℕ) (n : ℕ) → length xs ≡ n → index_range xs 0 n ≡ ret xs
front_whole xs n h =
    index_range_lem xs 0 n (omega arith) (omega (arith, h))
    ∙ ap ret (ap (λ i. take i xs) (omega (arith, h)) ∙ take-length xs)

module _ (eth : Etherparse) (pkt : SlicedPacket) (v : IsTcp pkt) where
  synack_run :
      generate_synack eth pkt
      ≡ (expect (eth.tcp_write (reply_to pkt v) []) >>= λ bytes. ret (some bytes))
  unfolding generate_synack synack
  synack_run =
      rw (v.over_ethernet, v.over_ip, v.over_tcp, generate_synack)
        (rw
          (
            synack,
            front_whole v.frame.source 6 v.source_six,
            front_whole v.frame.destination 6 v.destination_six,
            front_whole v.header.source 4 v.source_four,
            front_whole v.header.destination 4 v.destination_four,
          )
          refl)

-- The packet goes back where `pkt` came from.
pub record GoesBack (pkt answer : SlicedPacket) (v : IsTcp pkt) : Type 0 where
  pub is_tcp : IsTcp answer
  pub from_mac : is_tcp.frame.source ≡ v.frame.destination
  pub to_mac : is_tcp.frame.destination ≡ v.frame.source
  pub from_ip : is_tcp.header.source ≡ v.header.destination
  pub to_ip : is_tcp.header.destination ≡ v.header.source
  pub from_port : is_tcp.segment.source_port ≡ v.segment.destination_port
  pub to_port : is_tcp.segment.destination_port ≡ v.segment.source_port

-- With a crate that reads back the headers that it writes: for a TCP packet over IPv4 over Ethernet,
-- either `generate_synack` returns the bytes that are written for a SYN-ACK that acknowledges the
-- number behind the packet's, modulo 2 ^ 32, and these are read back as a TCP packet from the
-- packet's destination to its source; or writing fails, and it panics.
pub generate_synack_lem :
    (eth : Etherparse)
    → ReadsBack eth
    → (pkt : SlicedPacket) (v : IsTcp pkt)
    → ((bytes : List ℕ) × (answer : SlicedPacket) × (generate_synack eth pkt ≡ ret (some bytes))
        × (eth.tcp_write (reply_to pkt v) [] ≡ ok bytes)
        × (eth.from_ethernet bytes ≡ ok answer)
        × GoesBack pkt answer v)
      ⊎ ((e : eth.Error) × (eth.tcp_write (reply_to pkt v) [] ≡ err e)
          × (generate_synack eth pkt ≡ panic))
generate_synack_lem eth law pkt v = go (eth.tcp_write (reply_to pkt v) []) refl
  where
    go :
        (written : Result eth.Error (List ℕ))
        → eth.tcp_write (reply_to pkt v) [] ≡ written
        → ((bytes : List ℕ) × (answer : SlicedPacket) × (generate_synack eth pkt ≡ ret (some bytes))
            × (eth.tcp_write (reply_to pkt v) [] ≡ ok bytes)
            × (eth.from_ethernet bytes ≡ ok answer)
            × GoesBack pkt answer v)
          ⊎ ((e : eth.Error) × (eth.tcp_write (reply_to pkt v) [] ≡ err e)
              × (generate_synack eth pkt ≡ panic))
    go (err e) q = inr (e, q, synack_run eth pkt v ∙ rw q refl)
    go (ok bytes) q =
        let (answer, read, link, ip, transport) = law.read_write (reply_to pkt v) bytes q in
        inl (
          bytes,
          answer,
          synack_run eth pkt v ∙ rw q refl,
          q,
          read,
          record {
            is_tcp = record {
              frame = record { source = v.frame.destination; destination = v.frame.source };
              over_ethernet = link;
              header = record { source = v.header.destination; destination = v.header.source };
              over_ip = ip;
              segment = record {
                source_port = v.segment.destination_port;
                destination_port = v.segment.source_port;
                sequence_number = v.segment.sequence_number;
                window_size = v.segment.window_size;
              };
              over_tcp = transport;
              source_six = v.destination_six;
              destination_six = v.source_six;
              source_four = v.destination_four;
              destination_four = v.source_four;
            };
            from_mac = refl;
            to_mac = refl;
            from_ip = refl;
            to_ip = refl;
            from_port = refl;
            to_port = refl;
          },
        )
