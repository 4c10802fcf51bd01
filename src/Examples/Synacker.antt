-- ===== src/Examples/Synacker.antt =====
-- examples/synacker.rs: every received packet that a filter takes is answered by a SYN-ACK. The command
-- line is the record `Opts`; logging, statistics and the option for it are left out.
pub mod Filtering
pub mod Reply
use xdpsock.Prelude.{
  ℕ, zero, suc, ◌*◌, ◌/◌, ◌==◌, ◌^◌, Bool, true, false, ◌&&◌, Option, none, some, List, [], ◌∷◌,
  Outcome, ret, spinning, ◌>>=◌, ◌>>◌, Result, ok, err, expect, unwrap, index_range, length, add32,
  ltb, replicate, if◌then◌else◌,
}
use xdpsock.Kernel.{Kernel, Machine}
use xdpsock.Examples.Wire.{
  Ethernet2, Ipv4, Tcp, LinkSlice, InternetSlice, TransportSlice, SlicedPacket, TcpPacket,
  Etherparse, same_bytes,
}
use xdpsock.Umem.Config as UmemSizes
use xdpsock.Umem.Config.{UmemConfig, LibbpfDefaults}
use xdpsock.Socket.Config as SocketSizes
use xdpsock.Socket.Config.{SocketConfig, BindFlag, bind_flag_bits, XdpFlag, xdp_flag_bits}
use xdpsock.Xsk.Build as Build
use xdpsock.Xsk.Build.{Xsk2}
use xdpsock.Xsk.Rx.{XskRx, recv}
use xdpsock.Xsk.Tx.{XskTx, send}

pub record Opts : Type 0 where
  pub dev : List ℕ
  pub src_ip : Option (List ℕ)
  pub src_port : Option ℕ
  pub dest_ip : Option (List ℕ)
  pub dest_port : Option ℕ
  pub timeout_sec : Option ℕ

pub record Filter : Type 0 where
  pub src_ip : Option (List ℕ)
  pub src_port : Option ℕ
  pub dest_ip : Option (List ℕ)
  pub dest_port : Option ℕ

-- The sizes that `main` asks for, and the socket that it builds of them.
unfoldable pub configs : LibbpfDefaults → Outcome (UmemConfig × SocketConfig)
configs d = do
  let counted = UmemSizes.set (UmemSizes.new_builder d) (UmemSizes.Setting.frame_count 8192)
  let with_comp = UmemSizes.set counted (UmemSizes.Setting.comp_queue_size 4096)
  let with_fill = UmemSizes.set with_comp (UmemSizes.Setting.fill_queue_size 4096)
  umem_config ← expect (UmemSizes.build with_fill)
  let fresh = SocketSizes.new_builder d.cons_num_descs d.prod_num_descs
  let with_tx = SocketSizes.set fresh (SocketSizes.Setting.tx_queue_size 4096)
  let with_rx = SocketSizes.set with_tx (SocketSizes.Setting.rx_queue_size 4096)
  let bound =
      SocketSizes.set with_rx (SocketSizes.Setting.bind_flags (bind_flag_bits BindFlag.copy))
  let flagged =
      SocketSizes.set bound (SocketSizes.Setting.xdp_flags (xdp_flag_bits XdpFlag.skb_mode))
  socket_config ← expect (SocketSizes.build flagged)
  ret (umem_config, socket_config)

unfoldable pub main_xsk :
    (k : Kernel) → LibbpfDefaults → Opts → k.World → Outcome (Xsk2 × Machine k.World)
main_xsk k d opts w = do
  (umem_config, socket_config) ← configs d
  let n_tx_frames = umem_config.frame_count / 2
  built ← Build.new k opts.dev 0 umem_config socket_config n_tx_frames 1 w
  expect built

-- An address that is given has to be one; `none` stands for the error.
abbrev given_ip : (List ℕ → Option (List ℕ)) → Option (List ℕ) → Option (Option (List ℕ))
given_ip parse_ipv4 none = some none
given_ip parse_ipv4 (some text) = elim (parse_ipv4 text) [ none ↦ none | some ip ↦ some (some ip) ]

-- `Filter::new`, over the standard library's `parse` of an IPv4 address.
unfoldable pub new :
    (List ℕ → Option (List ℕ))
    → Option (List ℕ)
    → Option ℕ
    → Option (List ℕ)
    → Option ℕ
    → Option Filter
new parse_ipv4 src_ip src_port dest_ip dest_port = elim (given_ip parse_ipv4 src_ip) [
  | none ↦ none
  | some src_ipv4 ↦ elim (given_ip parse_ipv4 dest_ip) [
    | none ↦ none
    | some dest_ipv4 ↦ some (record {
      src_ip = src_ipv4;
      src_port = src_port;
      dest_ip = dest_ipv4;
      dest_port = dest_port;
    })
  ]
]

-- `if let Some(..) = self.src_ip`, and so on: a value that is not given leaves the match as it is.
abbrev pub match_src_ip : Option (List ℕ) → Ipv4 → Bool
match_src_ip none h = true
match_src_ip (some src_ip) h = same_bytes h.source src_ip

abbrev pub match_dest_ip : Option (List ℕ) → Ipv4 → Bool → Bool
match_dest_ip none h ip_match = ip_match
match_dest_ip (some dest_ip) h ip_match = ip_match && same_bytes h.destination dest_ip

abbrev pub match_src_port : Option ℕ → Tcp → Bool
match_src_port none h = true
match_src_port (some src_port) h = h.source_port == src_port

abbrev pub match_dest_port : Option ℕ → Tcp → Bool → Bool
match_dest_port none h transport_match = transport_match
match_dest_port (some dest_port) h transport_match = h.destination_port == dest_port

abbrev pub ip_match : Filter → Option InternetSlice → Bool
ip_match self (some (InternetSlice.ipv4 h)) =
    match_dest_ip self.dest_ip h (match_src_ip self.src_ip h)
ip_match self (some InternetSlice.ipv6) = true
ip_match self none = true

abbrev pub transport_match : Filter → Option TransportSlice → Bool
transport_match self (some (TransportSlice.tcp h)) =
    match_dest_port self.dest_port h (match_src_port self.src_port h)
transport_match self (some (TransportSlice.udp h)) = true
transport_match self none = true

-- `Filter::filter`
unfoldable pub filter : Filter → SlicedPacket → Bool
filter self parsed_pkt = ip_match self parsed_pkt.ip && transport_match self parsed_pkt.transport

abbrev pub default_timeout : ℕ
default_timeout = 30

-- The end of `generate_synack`: the answer to one TCP packet. Too short a slice panics.
unfoldable pub synack : Etherparse → Ethernet2 → Ipv4 → Tcp → Outcome (List ℕ)
synack eth link ipv4 tcp = do
  src_mac ← index_range link.source 0 6
  dest_mac ← index_range link.destination 0 6
  src_ip ← index_range ipv4.source 0 4
  dest_ip ← index_range ipv4.destination 0 4
  expect (
      eth.tcp_write
        (record {
          src_mac = dest_mac;
          dest_mac = src_mac;
          src_ip = dest_ip;
          dest_ip = src_ip;
          time_to_live = 20;
          src_port = tcp.destination_port;
          dest_port = tcp.source_port;
          sequence_number = tcp.sequence_number;
          window_size = tcp.window_size;
          syn = true;
          ack = some (add32 tcp.sequence_number 1);
        })
        [])

abbrev synack_of :
    Etherparse
    → Option LinkSlice
    → Option InternetSlice
    → Option TransportSlice
    → Outcome (Option (List ℕ))
synack_of eth none ip transport = ret none
synack_of eth (some (LinkSlice.ethernet2 link)) none transport = ret none
synack_of eth (some (LinkSlice.ethernet2 link)) (some InternetSlice.ipv6) transport = ret none
synack_of eth (some (LinkSlice.ethernet2 link)) (some (InternetSlice.ipv4 ipv4)) none = ret none
synack_of eth (some (LinkSlice.ethernet2 link)) (some (InternetSlice.ipv4 ipv4))
      (some (TransportSlice.udp h)) =
    ret none
synack_of eth (some (LinkSlice.ethernet2 link)) (some (InternetSlice.ipv4 ipv4))
      (some (TransportSlice.tcp tcp)) =
    synack eth link ipv4 tcp >>= λ bytes. ret (some bytes)

unfoldable pub generate_synack : Etherparse → SlicedPacket → Outcome (Option (List ℕ))
generate_synack eth recvd = synack_of eth recvd.link recvd.ip recvd.transport

module _ (eth : Etherparse) (k : Kernel) where
  open k use {World}

  -- `while let Err(_) = xsk.tx.send(..) {}`
  unfoldable pub send_until :
      ℕ → ℕ → List ℕ → XskTx → Machine World → Outcome (XskTx × Machine World)
  send_until zero fuel bytes xsk m = spinning
  send_until (suc tries) fuel bytes xsk m = do
    (sent, xsk', m') ← send k fuel bytes xsk m
    elim sent [ ok done ↦ ret (xsk', m') | err e ↦ send_until tries fuel bytes xsk' m' ]

  -- What the loop does with a packet.
  unfoldable pub answer :
      ℕ → ℕ → Filter → List ℕ → XskTx → Machine World → Outcome (XskTx × Machine World)
  answer tries fuel self bytes xsk m = elim (eth.from_ethernet bytes) [
    | err e ↦ ret (xsk, m)
    | ok pkt ↦ elim (filter self pkt) [
      | false ↦ ret (xsk, m)
      | true ↦ do
        reply ← generate_synack eth pkt
        elim reply [ none ↦ ret (xsk, m) | some bytes ↦ send_until tries fuel bytes xsk m ]
    ]
  ]

  -- One round of the loop: the caller's buffer and the two halves of the socket.
  unfoldable pub round :
      ℕ → ℕ → Filter → List ℕ → Xsk2 → Machine World → Outcome (List ℕ × Xsk2 × Machine World)
  round tries fuel self pkt xsk m = do
    (len_recvd, pkt', rx', m') ← recv k fuel pkt xsk.rx m
    elim (ltb 0 len_recvd) [
      | false ↦ ret (pkt', record xsk { rx = rx' }, m')
      | true ↦ do
        bytes ← index_range pkt' 0 len_recvd
        (tx', m'') ← answer tries fuel self bytes xsk.tx m'
        ret (pkt', record xsk { tx = tx'; rx = rx' }, m'')
    ]

  -- The loop of `spawn_rx`. `running` and `elapsed`, in nanoseconds, are what the flag and the clock say
  -- when so many rounds are left.
  unfoldable pub rx_loop :
      ℕ
      → ℕ
      → ℕ
      → (ℕ → Bool)
      → (ℕ → ℕ)
      → ℕ
      → Filter
      → List ℕ
      → Xsk2
      → Machine World
      → Outcome (Xsk2 × Machine World)
  rx_loop zero tries fuel running elapsed timeout self pkt xsk m = spinning
  rx_loop (suc rounds) tries fuel running elapsed timeout self pkt xsk m =
      elim (running rounds && ltb (elapsed rounds) (timeout * 10 ^ 9)) [
        | false ↦ ret (xsk, m)
        | true ↦ do
          (pkt', xsk', m') ← round tries fuel self pkt xsk m
          rx_loop rounds tries fuel running elapsed timeout self pkt' xsk' m'
      ]

  unfoldable pub spawn_rx :
      (List ℕ → Option (List ℕ))
      → ℕ
      → ℕ
      → ℕ
      → (ℕ → Bool)
      → (ℕ → ℕ)
      → Opts
      → Xsk2
      → Machine World
      → Outcome (Xsk2 × Machine World)
  spawn_rx parse_ipv4 rounds tries fuel running elapsed opts xsk m = do
    self ← unwrap (new parse_ipv4 opts.src_ip opts.src_port opts.dest_ip opts.dest_port)
    let timeout : ℕ = elim opts.timeout_sec [ some timeout ↦ timeout | none ↦ default_timeout ]
    rx_loop rounds tries fuel running elapsed timeout self (replicate 1500 0) xsk m
