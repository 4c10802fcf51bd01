-- ===== src/Tests/Config.antt =====
-- Witnesses of the theorems on the socket's configuration and the interface's counters.
use Prim.Native.String.{String}
use text.Mathlib.Text.{◌==◌ as str_eq}
use mathlib.Core.List.{foldl}
use xdpsock.Prelude.{
  ℕ, ◌^◌, if◌then◌else◌, ◌<◌, ◌≡◌, refl, List, [], ◌∷◌, ret, some, ok, err, arith,
}
use xdpsock.Socket.Config.{SocketConfig, SocketConfigBuilder, Setting, set, build}
use xdpsock.Socket.Config.Checked.{Checks, build-Checks}
use xdpsock.Iface.{Files, InterfaceStats, field_path, new, sub}
use xdpsock.Iface.Counters.{Holds, Fits, rx_of, tx_of, add, new_lem, sub-add}

abbrev builder : SocketConfigBuilder
builder = record {
  rx_queue_size = 3;
  tx_queue_size = 5;
  libbpf_flags = 0;
  xdp_flags = 0;
  bind_flags = 0;
}

-- The rx queue's size is set twice, and the flags of libbpf and of XDP stay.
abbrev calls : List Setting
calls =
    Setting.rx_queue_size 7
    ∷ Setting.tx_queue_size 32
    ∷ Setting.bind_flags 4
    ∷ Setting.rx_queue_size 64
    ∷ []

abbrev config : SocketConfig
config = record {
  rx_queue_size = 64;
  tx_queue_size = 32;
  libbpf_flags = 0;
  xdp_flags = 0;
  bind_flags = 4;
}

build-Checks_example : Checks config (build (foldl set builder calls))
build-Checks_example = build-Checks builder calls

-- One counter reads 60 and the others 12.
abbrev number : String → ℕ
number path = if str_eq path "/sys/class/net/lo/statistics/rx_bytes" then 60 else 12

-- One other name has no file.
abbrev files : Files
files = record {
  read_to_string =
      λ path. if str_eq path "/sys/class/net/lo/statistics/rx_bogus" then err 2 else ok path;
  parse = λ contents. some (number contents);
}

abbrev value : String → ℕ
value field = number (field_path "lo" field)

files-Holds : Holds files "lo" value
files-Holds = record {
  rx_bytes_shown = (field_path "lo" "rx_bytes", refl, refl);
  rx_compressed_shown = (field_path "lo" "rx_compressed", refl, refl);
  rx_crc_errors_shown = (field_path "lo" "rx_crc_errors", refl, refl);
  rx_dropped_shown = (field_path "lo" "rx_dropped", refl, refl);
  rx_errors_shown = (field_path "lo" "rx_errors", refl, refl);
  rx_fifo_errors_shown = (field_path "lo" "rx_fifo_errors", refl, refl);
  rx_frame_errors_shown = (field_path "lo" "rx_frame_errors", refl, refl);
  rx_length_errors_shown = (field_path "lo" "rx_length_errors", refl, refl);
  rx_missed_errors_shown = (field_path "lo" "rx_missed_errors", refl, refl);
  rx_nohandler_shown = (field_path "lo" "rx_nohandler", refl, refl);
  rx_over_errors_shown = (field_path "lo" "rx_over_errors", refl, refl);
  rx_packets_shown = (field_path "lo" "rx_packets", refl, refl);
  tx_aborted_errors_shown = (field_path "lo" "tx_aborted_errors", refl, refl);
  tx_bytes_shown = (field_path "lo" "tx_bytes", refl, refl);
  tx_carrier_errors_shown = (field_path "lo" "tx_carrier_errors", refl, refl);
  tx_compressed_shown = (field_path "lo" "tx_compressed", refl, refl);
  tx_dropped_shown = (field_path "lo" "tx_dropped", refl, refl);
  tx_errors_shown = (field_path "lo" "tx_errors", refl, refl);
  tx_fifo_errors_shown = (field_path "lo" "tx_fifo_errors", refl, refl);
  tx_heartbeat_errors_shown = (field_path "lo" "tx_heartbeat_errors", refl, refl);
  tx_packets_shown = (field_path "lo" "tx_packets", refl, refl);
  tx_window_errors_shown = (field_path "lo" "tx_window_errors", refl, refl);
}

new_lem_example : new files "lo" ≡ ret (record { tx = tx_of value; rx = rx_of value })
new_lem_example = new_lem files "lo" value files-Holds

abbrev same : ℕ → InterfaceStats
same n = record { tx = tx_of λ field. n; rx = rx_of λ field. n }

same-Fits : (n : ℕ) → n < 2 ^ 64 → Fits (same n)
same-Fits n h = record {
  tx_fits = record {
    tx_aborted_errors_u64 = h;
    tx_bytes_u64 = h;
    tx_carrier_errors_u64 = h;
    tx_compressed_u64 = h;
    tx_dropped_u64 = h;
    tx_errors_u64 = h;
    tx_fifo_errors_u64 = h;
    tx_heartbeat_errors_u64 = h;
    tx_packets_u64 = h;
    tx_window_errors_u64 = h;
  };
  rx_fits = record {
    rx_bytes_u64 = h;
    rx_compressed_u64 = h;
    rx_crc_errors_u64 = h;
    rx_dropped_u64 = h;
    rx_errors_u64 = h;
    rx_fifo_errors_u64 = h;
    rx_frame_errors_u64 = h;
    rx_length_errors_u64 = h;
    rx_missed_errors_u64 = h;
    rx_nohandler_u64 = h;
    rx_over_errors_u64 = h;
    rx_packets_u64 = h;
  };
}

sub-add_example :
    sub (add (same 0xffff_ffff_ffff_ffff) (same 12)) (same 0xffff_ffff_ffff_ffff) ≡ same 12
sub-add_example =
    sub-add (same 0xffff_ffff_ffff_ffff) (same 12) (same-Fits 0xffff_ffff_ffff_ffff (omega arith))
      (same-Fits 12 (omega arith))
