-- ===== src/Tests/Programs.antt =====
-- Witnesses of the theorems on the programs under examples/.
pub mod Wire
use xdpsock.Prelude.{
  ℕ, ◌+◌, ◌-◌, ◌/◌, ◌%◌, ◌≤◌, ◌<◌, ◌≡◌, ◌≢◌, ◌↔◌, ◌⊎◌, refl, true, false, none, some, List, [], ◌∷◌,
  map, ret, panic, ok, err, length, get_elem?, replicate, slice, arith,
}
use mathlib.Core.List.{foldl}
use xdpsock.Umem.Config.{UmemConfig, LibbpfDefaults}
use xdpsock.Umem.Config.Checked as UmemChecked
use xdpsock.Umem.Config.Checked.{IsPowerOfTwo}
use xdpsock.Socket.Config.{SocketConfig}
use xdpsock.Socket.Config.Checked as SocketChecked
use xdpsock.Examples.Wire.{SlicedPacket, LinkSlice, InternetSlice, TransportSlice}
use xdpsock.Examples.DevToDev.{
  Mode, BindOption, SocketOption, Opts, Filter, build_umem_socket_config, split_pkts, filter_pkt,
}
use xdpsock.Examples.DevToDev.Sending.{number_pkt}
use xdpsock.Examples.DevToDev.Receipt.{Received, note_next}
use xdpsock.Examples.DevToDev.Mac.{MacError, split, u8_from_hex, parse_mac}
use xdpsock.Examples.DevToDev.Mac.Laws.{mac_text, parse_mac_cases, parse_mac-mac_text}
use xdpsock.Examples.DevToDev.Split.{count, split_pkts_lem}
use xdpsock.Examples.DevToDev.Filtering.{Matches, filter_pkt_iff}
use xdpsock.Examples.DevToDev.Numbering.{number_pkt_lem}
use xdpsock.Examples.DevToDev.Receiving.{ComesTo, note_all_lem}
use xdpsock.Examples.DevToDev.Setup.{build_umem_socket_config_lem}
use xdpsock.Examples.Synacker as Synacker
use xdpsock.Examples.Synacker.{generate_synack}
use xdpsock.Examples.Synacker.Filtering.{IpFits, TransportFits, filter_iff}
use xdpsock.Examples.Synacker.Reply.{IsTcp, reply_to, GoesBack, generate_synack_lem}
use xdpsock.Tests.Programs.Wire.{eth, eth-ReadsBack, le, le-IsLittleEndian}

abbrev mac : List ℕ
mac = 10 ∷ 255 ∷ 0 ∷ 1 ∷ 2 ∷ 3 ∷ []

parse_mac-mac_text_example : parse_mac (mac_text mac) ≡ ret (ok mac)
parse_mac-mac_text_example =
    parse_mac-mac_text mac refl
      (omega arith, (omega arith, (omega arith, (omega arith, (omega arith, (omega arith, tt))))))

-- `A:+b::`
abbrev short : List ℕ
short = 65 ∷ 58 ∷ 43 ∷ 98 ∷ 58 ∷ 58 ∷ []

parse_mac_cases_example :
    let parts = split 58 short in
    ((bytes : List ℕ) × (length parts ≡ 6)
      × (map u8_from_hex parts ≡ map some bytes)
      × (parse_mac short ≡ ret (ok bytes)))
    ⊎ ((length parts ≢ 6) × (parse_mac short ≡ ret (err MacError.wrong_len)))
    ⊎ ((j : ℕ) × (length parts ≡ 6)
        × (get_elem? (map u8_from_hex parts) j ≡ some none)
        × (parse_mac short ≡ ret (err MacError.bad_byte)))
parse_mac_cases_example = parse_mac_cases short

split_pkts_lem_example :
    (pkts : List ℕ) × (split_pkts 10 1 3 ≡ ret pkts)
    × ((a : ℕ)
        → (((a < 10) × (a % 3 ≡ 1)) → count a pkts ≡ 1)
          × (((10 ≤ a) ⊎ (a % 3 ≢ 1)) → count a pkts ≡ 0))
split_pkts_lem_example = split_pkts_lem 10 1 3 (omega arith)

abbrev opts : Opts
opts = record {
  dev = 118 ∷ 48 ∷ [];
  src_mac = mac_text mac;
  dest_mac = mac_text mac;
  src_ip = [];
  src_port = 1;
  dest_ip = [];
  dest_port = 2;
  mode = Mode.tx;
  n_pkts = 10;
  queues = 0 ∷ [];
  bind_option = BindOption.zero_copy;
  socket_option = SocketOption.drv;
  timeout_sec = none;
  xdp_queue_size = 8192;
  batch_size = 64;
}

abbrev defaults : LibbpfDefaults
defaults = record {
  default_frame_size = 4096;
  prod_num_descs = 2048;
  cons_num_descs = 2048;
  default_frame_headroom = 0;
}

build_umem_socket_config_lem_example :
    ((umem : UmemConfig) × (socket : SocketConfig) × (build_umem_socket_config defaults opts
        ≡ ret (umem, socket))
      × IsPowerOfTwo (8192 / 2)
      × UmemChecked.IsChecked umem
      × SocketChecked.IsChecked socket
      × (umem.frame_count ≡ 8192)
      × (umem.fill_queue_size ≡ 8192 / 2)
      × (umem.comp_queue_size ≡ 8192 / 2)
      × (socket.tx_queue_size ≡ 8192 / 2)
      × (socket.rx_queue_size ≡ 8192 / 2))
    ⊎ ((IsPowerOfTwo (8192 / 2) → ⊥) × (build_umem_socket_config defaults opts ≡ panic))
build_umem_socket_config_lem_example = build_umem_socket_config_lem defaults opts (omega arith)

abbrev wanted : Filter
wanted = record {
  src_mac = mac;
  dest_mac = mac;
  src_ip = 10 ∷ 0 ∷ 0 ∷ 1 ∷ [];
  src_port = 1;
  dest_ip = 10 ∷ 0 ∷ 0 ∷ 2 ∷ [];
  dest_port = 2;
}

abbrev datagram : SlicedPacket
datagram = record {
  link = none;
  ip = some (
      InternetSlice.ipv4
        (record { source = 10 ∷ 0 ∷ 0 ∷ 1 ∷ []; destination = 10 ∷ 0 ∷ 0 ∷ 2 ∷ [] }));
  transport = some (TransportSlice.udp (record { source_port = 1; destination_port = 2 }));
  payload = [];
}

filter_pkt_iff_example : (filter_pkt datagram wanted ≡ true) ↔ Matches datagram wanted
filter_pkt_iff_example = filter_pkt_iff datagram wanted

number_pkt_lem_example :
    (pkt' : List ℕ) × (number_pkt eth le 50 258 (replicate 64 7) ≡ ret (pkt', 58))
    × (length pkt' ≡ 64)
    × (le.read_u64 (slice pkt' 42 50) ≡ 258)
    × (slice pkt' 0 42 ≡ slice (replicate 64 7) 0 42)
number_pkt_lem_example =
    number_pkt_lem eth le le-IsLittleEndian 50 258 (replicate 64 7) (omega arith) (omega arith)
      (omega arith) (omega arith)

-- Four packets to come; one is no packet, and one comes twice.
abbrev waiting : Received
waiting = record { matched_recvd_pkts = 0; recvd_nums = replicate 4 false }

abbrev pkts : List (List ℕ)
pkts = (2 ∷ replicate 7 0) ∷ (300 ∷ []) ∷ (2 ∷ replicate 7 0) ∷ []

note_all_lem_example :
    ComesTo eth le wanted 4 pkts waiting (foldl (note_next eth le wanted) (ret waiting) pkts)
note_all_lem_example = note_all_lem eth le wanted pkts waiting (omega arith)

abbrev segment : SlicedPacket
segment = record {
  link =
      some
        (LinkSlice.ethernet2 (record { source = mac; destination = 6 ∷ 5 ∷ 4 ∷ 3 ∷ 2 ∷ 1 ∷ [] }));
  ip = datagram.ip;
  transport = some (
      TransportSlice.tcp (record {
        source_port = 1;
        destination_port = 2;
        sequence_number = 0xffff_ffff;
        window_size = 9;
      }));
  payload = [];
}

segment-IsTcp : IsTcp segment
segment-IsTcp = record {
  frame = record { source = mac; destination = 6 ∷ 5 ∷ 4 ∷ 3 ∷ 2 ∷ 1 ∷ [] };
  over_ethernet = refl;
  header = record { source = 10 ∷ 0 ∷ 0 ∷ 1 ∷ []; destination = 10 ∷ 0 ∷ 0 ∷ 2 ∷ [] };
  over_ip = refl;
  segment = record {
    source_port = 1;
    destination_port = 2;
    sequence_number = 0xffff_ffff;
    window_size = 9;
  };
  over_tcp = refl;
  source_six = refl;
  destination_six = refl;
  source_four = refl;
  destination_four = refl;
}

generate_synack_lem_example :
    ((bytes : List ℕ) × (answer : SlicedPacket) × (generate_synack eth segment ≡ ret (some bytes))
      × (eth.tcp_write (reply_to segment segment-IsTcp) [] ≡ ok bytes)
      × (eth.from_ethernet bytes ≡ ok answer)
      × GoesBack segment answer segment-IsTcp)
    ⊎ ((e : eth.Error) × (eth.tcp_write (reply_to segment segment-IsTcp) [] ≡ err e)
        × (generate_synack eth segment ≡ panic))
generate_synack_lem_example = generate_synack_lem eth eth-ReadsBack segment segment-IsTcp

-- A filter with both ports takes the segment, whose source port is another.
abbrev both_ports : Synacker.Filter
both_ports = record { src_ip = none; src_port = some 7; dest_ip = none; dest_port = some 2 }

filter_iff_example :
    (Synacker.filter both_ports segment ≡ true)
    ↔ (IpFits both_ports segment.ip × TransportFits both_ports segment.transport)
filter_iff_example = filter_iff both_ports segment
