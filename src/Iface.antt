-- ===== src/Iface.antt =====
-- src/iface.rs: the counters of a network interface, as the kernel shows them in files.
pub mod Counters
use Prim.Native.String.{String, ◌++◌}
use text.Mathlib.Text.{◌==◌ as str_eq}
use xdpsock.Prelude.{
  ℕ, Bool, List, [], ◌∷◌, Option, none, some, Outcome, ret, ◌>>=◌ as ◌then_do◌, Result, ok, err,
  unwrap, expect, sub64, if◌then◌else◌,
}

-- A `HashMap<String, u64>`, as the function that looks a key up.
abbrev pub FieldMap : Type 0
FieldMap = String → Option ℕ

abbrev pub empty : FieldMap
empty key = none

abbrev pub insert : String → ℕ → FieldMap → FieldMap
insert field value map key = if str_eq field key then some value else map key

-- The `?` on options.
infixl 5 ◌>>=◌
abbrev ◌>>=◌ {ℓ κ} : {A : Type ℓ} {B : Type κ} → Option A → (A → Option B) → Option B
none >>= f = none
some a >>= f = f a

-- `read_to_string` of the standard library, with the error's number, and `trim().parse()` as a `u64`.
pub record Files : Type 0 where
  pub read_to_string : String → Result ℕ String
  pub parse : String → Option ℕ

abbrev pub field_path : String → String → String
field_path if_name field = "/sys/class/net/" ++ (if_name ++ ("/statistics/" ++ field))

pub record InterfaceStatsRx : Type 0 where
  pub rx_bytes : ℕ
  pub rx_compressed : ℕ
  pub rx_crc_errors : ℕ
  pub rx_dropped : ℕ
  pub rx_errors : ℕ
  pub rx_fifo_errors : ℕ
  pub rx_frame_errors : ℕ
  pub rx_length_errors : ℕ
  pub rx_missed_errors : ℕ
  pub rx_nohandler : ℕ
  pub rx_over_errors : ℕ
  pub rx_packets : ℕ

abbrev pub rx_field_names : List String
rx_field_names =
    "rx_bytes" ∷ "rx_compressed" ∷ "rx_crc_errors" ∷ "rx_dropped" ∷ "rx_errors" ∷ "rx_fifo_errors"
    ∷ "rx_frame_errors" ∷ "rx_length_errors" ∷ "rx_missed_errors" ∷ "rx_nohandler"
    ∷ "rx_over_errors" ∷ "rx_packets" ∷ []

-- `InterfaceStatsRx::from_map`
unfoldable pub rx_from_map : FieldMap → Option InterfaceStatsRx
rx_from_map map = do
  rx_bytes ← map "rx_bytes"
  rx_compressed ← map "rx_compressed"
  rx_crc_errors ← map "rx_crc_errors"
  rx_dropped ← map "rx_dropped"
  rx_errors ← map "rx_errors"
  rx_fifo_errors ← map "rx_fifo_errors"
  rx_frame_errors ← map "rx_frame_errors"
  rx_length_errors ← map "rx_length_errors"
  rx_missed_errors ← map "rx_missed_errors"
  rx_nohandler ← map "rx_nohandler"
  rx_over_errors ← map "rx_over_errors"
  rx_packets ← map "rx_packets"
  some (record {
    rx_bytes = rx_bytes;
    rx_compressed = rx_compressed;
    rx_crc_errors = rx_crc_errors;
    rx_dropped = rx_dropped;
    rx_errors = rx_errors;
    rx_fifo_errors = rx_fifo_errors;
    rx_frame_errors = rx_frame_errors;
    rx_length_errors = rx_length_errors;
    rx_missed_errors = rx_missed_errors;
    rx_nohandler = rx_nohandler;
    rx_over_errors = rx_over_errors;
    rx_packets = rx_packets;
  })

-- `InterfaceStatsRx::sub`, on `u64` counters.
unfoldable pub rx_sub : InterfaceStatsRx → InterfaceStatsRx → InterfaceStatsRx
rx_sub a b = record {
  rx_bytes = sub64 a.rx_bytes b.rx_bytes;
  rx_compressed = sub64 a.rx_compressed b.rx_compressed;
  rx_crc_errors = sub64 a.rx_crc_errors b.rx_crc_errors;
  rx_dropped = sub64 a.rx_dropped b.rx_dropped;
  rx_errors = sub64 a.rx_errors b.rx_errors;
  rx_fifo_errors = sub64 a.rx_fifo_errors b.rx_fifo_errors;
  rx_frame_errors = sub64 a.rx_frame_errors b.rx_frame_errors;
  rx_length_errors = sub64 a.rx_length_errors b.rx_length_errors;
  rx_missed_errors = sub64 a.rx_missed_errors b.rx_missed_errors;
  rx_nohandler = sub64 a.rx_nohandler b.rx_nohandler;
  rx_over_errors = sub64 a.rx_over_errors b.rx_over_errors;
  rx_packets = sub64 a.rx_packets b.rx_packets;
}

pub record InterfaceStatsTx : Type 0 where
  pub tx_aborted_errors : ℕ
  pub tx_bytes : ℕ
  pub tx_carrier_errors : ℕ
  pub tx_compressed : ℕ
  pub tx_dropped : ℕ
  pub tx_errors : ℕ
  pub tx_fifo_errors : ℕ
  pub tx_heartbeat_errors : ℕ
  pub tx_packets : ℕ
  pub tx_window_errors : ℕ

abbrev pub tx_field_names : List String
tx_field_names =
    "tx_aborted_errors" ∷ "tx_bytes" ∷ "tx_carrier_errors" ∷ "tx_compressed" ∷ "tx_dropped"
    ∷ "tx_errors" ∷ "tx_fifo_errors" ∷ "tx_heartbeat_errors" ∷ "tx_packets" ∷ "tx_window_errors"
    ∷ []

-- `InterfaceStatsTx::from_map`
unfoldable pub tx_from_map : FieldMap → Option InterfaceStatsTx
tx_from_map map = do
  tx_aborted_errors ← map "tx_aborted_errors"
  tx_bytes ← map "tx_bytes"
  tx_carrier_errors ← map "tx_carrier_errors"
  tx_compressed ← map "tx_compressed"
  tx_dropped ← map "tx_dropped"
  tx_errors ← map "tx_errors"
  tx_fifo_errors ← map "tx_fifo_errors"
  tx_heartbeat_errors ← map "tx_heartbeat_errors"
  tx_packets ← map "tx_packets"
  tx_window_errors ← map "tx_window_errors"
  some (record {
    tx_aborted_errors = tx_aborted_errors;
    tx_bytes = tx_bytes;
    tx_carrier_errors = tx_carrier_errors;
    tx_compressed = tx_compressed;
    tx_dropped = tx_dropped;
    tx_errors = tx_errors;
    tx_fifo_errors = tx_fifo_errors;
    tx_heartbeat_errors = tx_heartbeat_errors;
    tx_packets = tx_packets;
    tx_window_errors = tx_window_errors;
  })

-- `InterfaceStatsTx::sub`, on `u64` counters.
unfoldable pub tx_sub : InterfaceStatsTx → InterfaceStatsTx → InterfaceStatsTx
tx_sub a b = record {
  tx_aborted_errors = sub64 a.tx_aborted_errors b.tx_aborted_errors;
  tx_bytes = sub64 a.tx_bytes b.tx_bytes;
  tx_carrier_errors = sub64 a.tx_carrier_errors b.tx_carrier_errors;
  tx_compressed = sub64 a.tx_compressed b.tx_compressed;
  tx_dropped = sub64 a.tx_dropped b.tx_dropped;
  tx_errors = sub64 a.tx_errors b.tx_errors;
  tx_fifo_errors = sub64 a.tx_fifo_errors b.tx_fifo_errors;
  tx_heartbeat_errors = sub64 a.tx_heartbeat_errors b.tx_heartbeat_errors;
  tx_packets = sub64 a.tx_packets b.tx_packets;
  tx_window_errors = sub64 a.tx_window_errors b.tx_window_errors;
}

-- The loop over the field names.
unfoldable pub read_fields : Files → String → List String → FieldMap → Outcome (Result ℕ FieldMap)
read_fields files if_name [] map = ret (ok map)
read_fields files if_name (field ∷ fields) map =
    elim (files.read_to_string (field_path if_name field)) [
      | err errno ↦ ret (err errno)
      | ok contents ↦ unwrap (files.parse contents) then_do λ value.
          read_fields files if_name fields (insert field value map)
    ]

-- `stats missing field` is a panic.
abbrev pub of_fields :
    {A : Type 0} → (FieldMap → Option A) → Result ℕ FieldMap → Outcome (Result ℕ A)
of_fields from_map (err errno) = ret (err errno)
of_fields from_map (ok map) = unwrap (from_map map) then_do λ stats. ret (ok stats)

-- `InterfaceStatsRx::new`
unfoldable pub rx_new : Files → String → Outcome (Result ℕ InterfaceStatsRx)
rx_new files if_name = read_fields files if_name rx_field_names empty then_do of_fields rx_from_map

-- `InterfaceStatsTx::new`
unfoldable pub tx_new : Files → String → Outcome (Result ℕ InterfaceStatsTx)
tx_new files if_name = read_fields files if_name tx_field_names empty then_do of_fields tx_from_map

pub record InterfaceStats : Type 0 where
  pub tx : InterfaceStatsTx
  pub rx : InterfaceStatsRx

-- `InterfaceStats::new`
unfoldable pub new : Files → String → Outcome InterfaceStats
new files if_name = rx_new files if_name then_do λ rx'. expect rx' then_do λ rx.
    tx_new files if_name then_do λ tx'. expect tx' then_do λ tx. ret (record { tx = tx; rx = rx })

-- `InterfaceStats::sub`
unfoldable pub sub : InterfaceStats → InterfaceStats → InterfaceStats
sub a b = record { tx = tx_sub a.tx b.tx; rx = rx_sub a.rx b.rx }
