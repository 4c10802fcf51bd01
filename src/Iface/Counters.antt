-- ===== src/Iface/Counters.antt =====
-- What reading the counters gives, and the difference of two readings.
use Prim.Native.String.{String}
use xdpsock.Prelude.{ℕ, ◌^◌, ◌<◌, ◌≡◌, refl, List, [], ◌∷◌, some, ret, ok, add64, sub64, arith}
use xdpsock.Iface.{
  FieldMap, Files, field_path, empty, insert, InterfaceStats, InterfaceStatsRx, InterfaceStatsTx,
  rx_field_names, tx_field_names, rx_from_map, tx_from_map, read_fields, rx_new, tx_new, new,
  rx_sub, tx_sub, sub,
}

-- The file of a counter can be read and parsed, and holds the counter's value.
abbrev pub Shows : Files → String → (String → ℕ) → String → Type 0
Shows files if_name value field =
    (contents : String) × (files.read_to_string (field_path if_name field) ≡ ok contents)
    × (files.parse contents ≡ some (value field))

-- The counters that an interface has. Of other names nothing is said.
pub record Holds (files : Files) (if_name : String) (value : String → ℕ) : Type 0 where
  pub rx_bytes_shown : Shows files if_name value "rx_bytes"
  pub rx_compressed_shown : Shows files if_name value "rx_compressed"
  pub rx_crc_errors_shown : Shows files if_name value "rx_crc_errors"
  pub rx_dropped_shown : Shows files if_name value "rx_dropped"
  pub rx_errors_shown : Shows files if_name value "rx_errors"
  pub rx_fifo_errors_shown : Shows files if_name value "rx_fifo_errors"
  pub rx_frame_errors_shown : Shows files if_name value "rx_frame_errors"
  pub rx_length_errors_shown : Shows files if_name value "rx_length_errors"
  pub rx_missed_errors_shown : Shows files if_name value "rx_missed_errors"
  pub rx_nohandler_shown : Shows files if_name value "rx_nohandler"
  pub rx_over_errors_shown : Shows files if_name value "rx_over_errors"
  pub rx_packets_shown : Shows files if_name value "rx_packets"
  pub tx_aborted_errors_shown : Shows files if_name value "tx_aborted_errors"
  pub tx_bytes_shown : Shows files if_name value "tx_bytes"
  pub tx_carrier_errors_shown : Shows files if_name value "tx_carrier_errors"
  pub tx_compressed_shown : Shows files if_name value "tx_compressed"
  pub tx_dropped_shown : Shows files if_name value "tx_dropped"
  pub tx_errors_shown : Shows files if_name value "tx_errors"
  pub tx_fifo_errors_shown : Shows files if_name value "tx_fifo_errors"
  pub tx_heartbeat_errors_shown : Shows files if_name value "tx_heartbeat_errors"
  pub tx_packets_shown : Shows files if_name value "tx_packets"
  pub tx_window_errors_shown : Shows files if_name value "tx_window_errors"

abbrev AllShown : Files → String → (String → ℕ) → List String → Type 0
AllShown files if_name value [] = Unit {0}
AllShown files if_name value (field ∷ fields) =
    Shows files if_name value field × AllShown files if_name value fields

abbrev collect : (String → ℕ) → List String → FieldMap → FieldMap
collect value [] map = map
collect value (field ∷ fields) map = collect value fields (insert field (value field) map)

module _ (files : Files) (if_name : String) (value : String → ℕ) where
  read_fields-collect :
      (fields : List String)
      → AllShown files if_name value fields
      → (map : FieldMap)
      → read_fields files if_name fields map ≡ ret (ok (collect value fields map))
  unfolding read_fields
  read_fields-collect [] h map = refl
  read_fields-collect (field ∷ fields) (shown, rest) map =
      rw (shown.1, read_fields)
        (rw (shown.2) (read_fields-collect fields rest (insert field (value field) map)))

  all_rx : Holds files if_name value → AllShown files if_name value rx_field_names
  all_rx h = (
    h.rx_bytes_shown,
    (
      h.rx_compressed_shown,
      (
        h.rx_crc_errors_shown,
        (
          h.rx_dropped_shown,
          (
            h.rx_errors_shown,
            (
              h.rx_fifo_errors_shown,
              (
                h.rx_frame_errors_shown,
                (
                  h.rx_length_errors_shown,
                  (
                    h.rx_missed_errors_shown,
                    (h.rx_nohandler_shown, (h.rx_over_errors_shown, (h.rx_packets_shown, tt))),
                  ),
                ),
              ),
            ),
          ),
        ),
      ),
    ),
  )

  all_tx : Holds files if_name value → AllShown files if_name value tx_field_names
  all_tx h = (
    h.tx_aborted_errors_shown,
    (
      h.tx_bytes_shown,
      (
        h.tx_carrier_errors_shown,
        (
          h.tx_compressed_shown,
          (
            h.tx_dropped_shown,
            (
              h.tx_errors_shown,
              (
                h.tx_fifo_errors_shown,
                (h.tx_heartbeat_errors_shown, (h.tx_packets_shown, (h.tx_window_errors_shown, tt))),
              ),
            ),
          ),
        ),
      ),
    ),
  )

abbrev pub rx_of : (String → ℕ) → InterfaceStatsRx
rx_of value = record {
  rx_bytes = value "rx_bytes";
  rx_compressed = value "rx_compressed";
  rx_crc_errors = value "rx_crc_errors";
  rx_dropped = value "rx_dropped";
  rx_errors = value "rx_errors";
  rx_fifo_errors = value "rx_fifo_errors";
  rx_frame_errors = value "rx_frame_errors";
  rx_length_errors = value "rx_length_errors";
  rx_missed_errors = value "rx_missed_errors";
  rx_nohandler = value "rx_nohandler";
  rx_over_errors = value "rx_over_errors";
  rx_packets = value "rx_packets";
}

abbrev pub tx_of : (String → ℕ) → InterfaceStatsTx
tx_of value = record {
  tx_aborted_errors = value "tx_aborted_errors";
  tx_bytes = value "tx_bytes";
  tx_carrier_errors = value "tx_carrier_errors";
  tx_compressed = value "tx_compressed";
  tx_dropped = value "tx_dropped";
  tx_errors = value "tx_errors";
  tx_fifo_errors = value "tx_fifo_errors";
  tx_heartbeat_errors = value "tx_heartbeat_errors";
  tx_packets = value "tx_packets";
  tx_window_errors = value "tx_window_errors";
}

-- Where the files of the 22 counters of an interface can be read and parsed, whatever other files
-- there are, `InterfaceStats::new` does not panic, and each counter is the number in the file that
-- bears its name.
pub new_lem :
    (files : Files) (if_name : String) (value : String → ℕ)
    → Holds files if_name value
    → new files if_name ≡ ret (record { tx = tx_of value; rx = rx_of value })
unfolding new rx_new tx_new rx_from_map tx_from_map
new_lem files if_name value h =
    rw (read_fields-collect files if_name value rx_field_names (all_rx files if_name value h) empty)
      (rw
        (read_fields-collect files if_name value tx_field_names (all_tx files if_name value h)
          empty)
        refl)

abbrev pub rx_add : InterfaceStatsRx → InterfaceStatsRx → InterfaceStatsRx
rx_add a d = record {
  rx_bytes = add64 a.rx_bytes d.rx_bytes;
  rx_compressed = add64 a.rx_compressed d.rx_compressed;
  rx_crc_errors = add64 a.rx_crc_errors d.rx_crc_errors;
  rx_dropped = add64 a.rx_dropped d.rx_dropped;
  rx_errors = add64 a.rx_errors d.rx_errors;
  rx_fifo_errors = add64 a.rx_fifo_errors d.rx_fifo_errors;
  rx_frame_errors = add64 a.rx_frame_errors d.rx_frame_errors;
  rx_length_errors = add64 a.rx_length_errors d.rx_length_errors;
  rx_missed_errors = add64 a.rx_missed_errors d.rx_missed_errors;
  rx_nohandler = add64 a.rx_nohandler d.rx_nohandler;
  rx_over_errors = add64 a.rx_over_errors d.rx_over_errors;
  rx_packets = add64 a.rx_packets d.rx_packets;
}

abbrev pub tx_add : InterfaceStatsTx → InterfaceStatsTx → InterfaceStatsTx
tx_add a d = record {
  tx_aborted_errors = add64 a.tx_aborted_errors d.tx_aborted_errors;
  tx_bytes = add64 a.tx_bytes d.tx_bytes;
  tx_carrier_errors = add64 a.tx_carrier_errors d.tx_carrier_errors;
  tx_compressed = add64 a.tx_compressed d.tx_compressed;
  tx_dropped = add64 a.tx_dropped d.tx_dropped;
  tx_errors = add64 a.tx_errors d.tx_errors;
  tx_fifo_errors = add64 a.tx_fifo_errors d.tx_fifo_errors;
  tx_heartbeat_errors = add64 a.tx_heartbeat_errors d.tx_heartbeat_errors;
  tx_packets = add64 a.tx_packets d.tx_packets;
  tx_window_errors = add64 a.tx_window_errors d.tx_window_errors;
}

pub record RxFits (a : InterfaceStatsRx) : Type 0 where
  pub rx_bytes_u64 : a.rx_bytes < 2 ^ 64
  pub rx_compressed_u64 : a.rx_compressed < 2 ^ 64
  pub rx_crc_errors_u64 : a.rx_crc_errors < 2 ^ 64
  pub rx_dropped_u64 : a.rx_dropped < 2 ^ 64
  pub rx_errors_u64 : a.rx_errors < 2 ^ 64
  pub rx_fifo_errors_u64 : a.rx_fifo_errors < 2 ^ 64
  pub rx_frame_errors_u64 : a.rx_frame_errors < 2 ^ 64
  pub rx_length_errors_u64 : a.rx_length_errors < 2 ^ 64
  pub rx_missed_errors_u64 : a.rx_missed_errors < 2 ^ 64
  pub rx_nohandler_u64 : a.rx_nohandler < 2 ^ 64
  pub rx_over_errors_u64 : a.rx_over_errors < 2 ^ 64
  pub rx_packets_u64 : a.rx_packets < 2 ^ 64

pub record TxFits (a : InterfaceStatsTx) : Type 0 where
  pub tx_aborted_errors_u64 : a.tx_aborted_errors < 2 ^ 64
  pub tx_bytes_u64 : a.tx_bytes < 2 ^ 64
  pub tx_carrier_errors_u64 : a.tx_carrier_errors < 2 ^ 64
  pub tx_compressed_u64 : a.tx_compressed < 2 ^ 64
  pub tx_dropped_u64 : a.tx_dropped < 2 ^ 64
  pub tx_errors_u64 : a.tx_errors < 2 ^ 64
  pub tx_fifo_errors_u64 : a.tx_fifo_errors < 2 ^ 64
  pub tx_heartbeat_errors_u64 : a.tx_heartbeat_errors < 2 ^ 64
  pub tx_packets_u64 : a.tx_packets < 2 ^ 64
  pub tx_window_errors_u64 : a.tx_window_errors < 2 ^ 64

sub64-add64 : (a d : ℕ) → a < 2 ^ 64 → d < 2 ^ 64 → sub64 (add64 a d) a ≡ d
sub64-add64 a d h k = omega arith

rx_sub-add : (a d : InterfaceStatsRx) → RxFits a → RxFits d → rx_sub (rx_add a d) a ≡ d
unfolding rx_sub
rx_sub-add a d v w = λ i. record {
  rx_bytes = sub64-add64 a.rx_bytes d.rx_bytes v.rx_bytes_u64 w.rx_bytes_u64 i;
  rx_compressed =
      sub64-add64 a.rx_compressed d.rx_compressed v.rx_compressed_u64 w.rx_compressed_u64 i;
  rx_crc_errors =
      sub64-add64 a.rx_crc_errors d.rx_crc_errors v.rx_crc_errors_u64 w.rx_crc_errors_u64 i;
  rx_dropped = sub64-add64 a.rx_dropped d.rx_dropped v.rx_dropped_u64 w.rx_dropped_u64 i;
  rx_errors = sub64-add64 a.rx_errors d.rx_errors v.rx_errors_u64 w.rx_errors_u64 i;
  rx_fifo_errors =
      sub64-add64 a.rx_fifo_errors d.rx_fifo_errors v.rx_fifo_errors_u64 w.rx_fifo_errors_u64 i;
  rx_frame_errors =
      sub64-add64 a.rx_frame_errors d.rx_frame_errors v.rx_frame_errors_u64 w.rx_frame_errors_u64 i;
  rx_length_errors =
      sub64-add64 a.rx_length_errors d.rx_length_errors v.rx_length_errors_u64
        w.rx_length_errors_u64 i;
  rx_missed_errors =
      sub64-add64 a.rx_missed_errors d.rx_missed_errors v.rx_missed_errors_u64
        w.rx_missed_errors_u64 i;
  rx_nohandler = sub64-add64 a.rx_nohandler d.rx_nohandler v.rx_nohandler_u64 w.rx_nohandler_u64 i;
  rx_over_errors =
      sub64-add64 a.rx_over_errors d.rx_over_errors v.rx_over_errors_u64 w.rx_over_errors_u64 i;
  rx_packets = sub64-add64 a.rx_packets d.rx_packets v.rx_packets_u64 w.rx_packets_u64 i;
}

tx_sub-add : (a d : InterfaceStatsTx) → TxFits a → TxFits d → tx_sub (tx_add a d) a ≡ d
unfolding tx_sub
tx_sub-add a d v w = λ i. record {
  tx_aborted_errors =
      sub64-add64 a.tx_aborted_errors d.tx_aborted_errors v.tx_aborted_errors_u64
        w.tx_aborted_errors_u64 i;
  tx_bytes = sub64-add64 a.tx_bytes d.tx_bytes v.tx_bytes_u64 w.tx_bytes_u64 i;
  tx_carrier_errors =
      sub64-add64 a.tx_carrier_errors d.tx_carrier_errors v.tx_carrier_errors_u64
        w.tx_carrier_errors_u64 i;
  tx_compressed =
      sub64-add64 a.tx_compressed d.tx_compressed v.tx_compressed_u64 w.tx_compressed_u64 i;
  tx_dropped = sub64-add64 a.tx_dropped d.tx_dropped v.tx_dropped_u64 w.tx_dropped_u64 i;
  tx_errors = sub64-add64 a.tx_errors d.tx_errors v.tx_errors_u64 w.tx_errors_u64 i;
  tx_fifo_errors =
      sub64-add64 a.tx_fifo_errors d.tx_fifo_errors v.tx_fifo_errors_u64 w.tx_fifo_errors_u64 i;
  tx_heartbeat_errors =
      sub64-add64 a.tx_heartbeat_errors d.tx_heartbeat_errors v.tx_heartbeat_errors_u64
        w.tx_heartbeat_errors_u64 i;
  tx_packets = sub64-add64 a.tx_packets d.tx_packets v.tx_packets_u64 w.tx_packets_u64 i;
  tx_window_errors =
      sub64-add64 a.tx_window_errors d.tx_window_errors v.tx_window_errors_u64
        w.tx_window_errors_u64 i;
}

abbrev pub add : InterfaceStats → InterfaceStats → InterfaceStats
add a d = record { tx = tx_add a.tx d.tx; rx = rx_add a.rx d.rx }

pub record Fits (a : InterfaceStats) : Type 0 where
  pub tx_fits : TxFits a.tx
  pub rx_fits : RxFits a.rx

-- Where every counter of `a` has grown by that of `d` since, on `u64` counters that may have wrapped,
-- the difference of the two readings is `d`.
pub sub-add : (a d : InterfaceStats) → Fits a → Fits d → sub (add a d) a ≡ d
unfolding sub
sub-add a d v w = λ i. record {
  tx = tx_sub-add a.tx d.tx v.tx_fits w.tx_fits i;
  rx = rx_sub-add a.rx d.rx v.rx_fits w.rx_fits i;
}
