-- ===== src/Examples/DevToDev.antt =====
-- examples/dev_to_dev.rs: numbered UDP packets between two devices, one thread for each queue. The
-- command line is the record `Opts`. What the program prints is left out, with the option for it,
-- and so is the start of the threads, which share nothing: `run_queue` is what one of them does.
pub mod Mac
pub mod Filtering
pub mod Sending
pub mod Receipt
pub mod Thread
pub mod Notes
pub mod Receiving
pub mod Split
pub mod Setup
pub mod Numbering
use Prim.Native.Nat.{◌-◌}
use xdpsock.Prelude.{
  ℕ, zero, suc, ◌+◌, ◌*◌, ◌/◌, ◌%◌, ◌^◌, Bool, true, false, ◌&&◌, not, Option, none, some, List, [],
  ◌∷◌, Outcome, ret, panic, spinning, ◌>>=◌, ◌>>◌, Result, ok, err, expect, assign, index_range,
  rem, length, splice, replicate, add32, add64, sub64, ◌||◌, ltb, ◌==◌, if◌then◌else◌,
}
use xdpsock.Kernel.{Kernel, Machine}
use xdpsock.Umem.Config as UmemSizes
use xdpsock.Umem.Config.{UmemConfig, LibbpfDefaults}
use xdpsock.Socket.Config as SocketSizes
use xdpsock.Socket.Config.{
  SocketConfig, SocketConfigBuilder, BindFlag, bind_flag_bits, XdpFlag, xdp_flag_bits,
}
use xdpsock.Examples.Wire.{
  Ipv4, Udp, InternetSlice, TransportSlice, SlicedPacket, UdpPacket, Etherparse, LittleEndian,
  same_bytes,
}
use xdpsock.Examples.DevToDev.Mac.{MacError, parse_mac}
use xdpsock.Xsk.Build as Build
use xdpsock.Xsk.Build.{Xsk2}
use xdpsock.Xsk.Rx.{XskRx, recv_apply}
use xdpsock.Xsk.Tx.{XskTx, prefill, send_apply, drain}

pub data Mode : Type 0 where
  tx rx : Mode

pub data BindOption : Type 0 where
  copy zero_copy : BindOption

pub data SocketOption : Type 0 where
  drv skb : SocketOption

pub record Opts : Type 0 where
  pub dev : List ℕ
  pub src_mac : List ℕ
  pub dest_mac : List ℕ
  pub src_ip : List ℕ
  pub src_port : ℕ
  pub dest_ip : List ℕ
  pub dest_port : ℕ
  pub mode : Mode
  pub n_pkts : ℕ
  pub queues : List ℕ
  pub bind_option : BindOption
  pub socket_option : SocketOption
  pub timeout_sec : Option ℕ
  pub xdp_queue_size : ℕ
  pub batch_size : ℕ

pub record Filter : Type 0 where
  pub src_mac : List ℕ
  pub dest_mac : List ℕ
  pub src_ip : List ℕ
  pub src_port : ℕ
  pub dest_ip : List ℕ
  pub dest_port : ℕ

pub data OptsError : Type 0 where
  bad_mac : MacError → OptsError
  bad_ip : OptsError

-- `?`, for an error of `parse_mac` and one of `str::parse`.
abbrev try_mac :
    {A : Type 0}
    → Result MacError (List ℕ)
    → (List ℕ → Outcome (Result OptsError A))
    → Outcome (Result OptsError A)
try_mac (ok mac) f = f mac
try_mac (err e) f = ret (err (OptsError.bad_mac e))

abbrev try_ip : {A : Type 0} → Option (List ℕ) → (List ℕ → Result OptsError A) → Result OptsError A
try_ip (some ip) f = f ip
try_ip none f = err OptsError.bad_ip

-- `Filter::from_opts`. Which strings are IPv4 addresses depends on the version of the standard
-- library, so its `parse` is an argument.
unfoldable pub from_opts : (List ℕ → Option (List ℕ)) → Opts → Outcome (Result OptsError Filter)
from_opts parse_ipv4 opts = do
  src ← parse_mac opts.src_mac
  try_mac src λ src_mac. do
    dest ← parse_mac opts.dest_mac
    try_mac dest λ dest_mac. ret (
        try_ip (parse_ipv4 opts.src_ip) λ src_ip. try_ip (parse_ipv4 opts.dest_ip) λ dest_ip.
          ok (record {
            src_mac = src_mac;
            dest_mac = dest_mac;
            src_ip = src_ip;
            src_port = opts.src_port;
            dest_ip = dest_ip;
            dest_port = opts.dest_port;
          }))

abbrev pub with_bind_option : BindOption → SocketConfigBuilder → SocketConfigBuilder
with_bind_option BindOption.zero_copy b =
    SocketSizes.set b (SocketSizes.Setting.bind_flags (bind_flag_bits BindFlag.zerocopy))
with_bind_option BindOption.copy b =
    SocketSizes.set b (SocketSizes.Setting.bind_flags (bind_flag_bits BindFlag.copy))

abbrev pub with_socket_option : SocketOption → SocketConfigBuilder → SocketConfigBuilder
with_socket_option SocketOption.drv b =
    SocketSizes.set b (SocketSizes.Setting.xdp_flags (xdp_flag_bits XdpFlag.drv_mode))
with_socket_option SocketOption.skb b =
    SocketSizes.set b (SocketSizes.Setting.xdp_flags (xdp_flag_bits XdpFlag.skb_mode))

unfoldable pub build_umem_socket_config :
    LibbpfDefaults → Opts → Outcome (UmemConfig × SocketConfig)
build_umem_socket_config d opts = do
  let n = opts.xdp_queue_size
  let sized = UmemSizes.set (UmemSizes.new_builder d) (UmemSizes.Setting.frame_count n)
  let with_comp = UmemSizes.set sized (UmemSizes.Setting.comp_queue_size (n / 2))
  let with_fill = UmemSizes.set with_comp (UmemSizes.Setting.fill_queue_size (n / 2))
  umem_config ← expect (UmemSizes.build with_fill)
  let fresh = SocketSizes.new_builder d.cons_num_descs d.prod_num_descs
  let with_tx = SocketSizes.set fresh (SocketSizes.Setting.tx_queue_size (n / 2))
  let with_rx = SocketSizes.set with_tx (SocketSizes.Setting.rx_queue_size (n / 2))
  let bound = with_bind_option opts.bind_option with_rx
  socket_config ← expect (SocketSizes.build (with_socket_option opts.socket_option bound))
  ret (umem_config, socket_config)

-- The loop behind the iterator of `split_pkts`, for the `n` numbers from `i` on.
unfoldable pub split_from : ℕ → ℕ → ℕ → ℕ → Outcome (List ℕ)
split_from zero i queue_index n_queues = ret []
split_from (suc n) i queue_index n_queues = do
  r ← rem i n_queues
  rest ← split_from n (suc i) queue_index n_queues
  ret (if r == queue_index then i ∷ rest else rest)

unfoldable pub split_pkts : ℕ → ℕ → ℕ → Outcome (List ℕ)
split_pkts n_pkts queue_index n_queues = split_from n_pkts 0 queue_index n_queues

abbrev pub ip_match : Filter → Option InternetSlice → Bool
ip_match filter (some (InternetSlice.ipv4 h)) =
    same_bytes h.source filter.src_ip && same_bytes h.destination filter.dest_ip
ip_match filter (some InternetSlice.ipv6) = false
ip_match filter none = false

abbrev pub transport_match : Filter → Option TransportSlice → Bool
transport_match filter (some (TransportSlice.udp h)) =
    (h.source_port == filter.src_port) && (h.destination_port == filter.dest_port)
transport_match filter (some (TransportSlice.tcp h)) = false
transport_match filter none = false

unfoldable pub filter_pkt : SlicedPacket → Filter → Bool
filter_pkt parsed_pkt filter =
    ip_match filter parsed_pkt.ip && transport_match filter parsed_pkt.transport
