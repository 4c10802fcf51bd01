-- ===== src/Socket/Config.antt =====
-- src/socket/config.rs: the sizes and flags of a socket, checked on construction, and their builder.
-- A flag set is its bits; the messages that the errors carry are left out.
pub mod Checked
use Prim.Native.Nat.{bit_or}
use xdpsock.Prelude.{ℕ, Bool, not, Result, ok, err, if◌then◌else◌}
use xdpsock.Util.{is_pow_of_two}

-- `LibbpfFlags`
abbrev pub xsk_libbpf_flags__inhibit_prog_load : ℕ
xsk_libbpf_flags__inhibit_prog_load = 1

-- `XdpFlags`
pub data XdpFlag : Type 0 where
  update_if_noexist skb_mode drv_mode hw_mode replace : XdpFlag

pub xdp_flag_bits : XdpFlag → ℕ
xdp_flag_bits XdpFlag.update_if_noexist = 1
xdp_flag_bits XdpFlag.skb_mode = 2
xdp_flag_bits XdpFlag.drv_mode = 4
xdp_flag_bits XdpFlag.hw_mode = 8
xdp_flag_bits XdpFlag.replace = 16

-- `BindFlags`
pub data BindFlag : Type 0 where
  shared_umem copy zerocopy use_need_wakeup : BindFlag

pub bind_flag_bits : BindFlag → ℕ
bind_flag_bits BindFlag.shared_umem = 1
bind_flag_bits BindFlag.copy = 2
bind_flag_bits BindFlag.zerocopy = 4
bind_flag_bits BindFlag.use_need_wakeup = 8

pub data SocketConfigError : Type 0 where
  tx_size_invalid rx_size_invalid : SocketConfigError

pub record SocketConfig : Type 0 where
  pub rx_queue_size : ℕ
  pub tx_queue_size : ℕ
  pub libbpf_flags : ℕ
  pub xdp_flags : ℕ
  pub bind_flags : ℕ

-- `SocketConfig::new`
unfoldable pub new : ℕ → ℕ → ℕ → ℕ → ℕ → Result SocketConfigError SocketConfig
new rx_queue_size tx_queue_size libbpf_flags xdp_flags bind_flags =
    if not (is_pow_of_two rx_queue_size)
    then err SocketConfigError.rx_size_invalid
    else if not (is_pow_of_two tx_queue_size)
    then err SocketConfigError.tx_size_invalid
    else ok (record {
      rx_queue_size = rx_queue_size;
      tx_queue_size = tx_queue_size;
      libbpf_flags = libbpf_flags;
      xdp_flags = xdp_flags;
      bind_flags = bind_flags;
    })

-- `SocketConfig::default`, with libbpf's default ring sizes.
unfoldable pub default_config : ℕ → ℕ → SocketConfig
default_config cons_num_descs prod_num_descs = record {
  rx_queue_size = cons_num_descs;
  tx_queue_size = prod_num_descs;
  libbpf_flags = 0;
  xdp_flags = 0;
  bind_flags = 0;
}

pub record SocketConfigBuilder : Type 0 where
  pub rx_queue_size : ℕ
  pub tx_queue_size : ℕ
  pub libbpf_flags : ℕ
  pub xdp_flags : ℕ
  pub bind_flags : ℕ

-- `SocketConfigBuilder::new`, and its `default`.
unfoldable pub new_builder : ℕ → ℕ → SocketConfigBuilder
new_builder cons_num_descs prod_num_descs = record {
  rx_queue_size = cons_num_descs;
  tx_queue_size = prod_num_descs;
  libbpf_flags = 0;
  xdp_flags = 0;
  bind_flags = 0;
}

-- The setters of the builder.
pub data Setting : Type 0 where
  rx_queue_size tx_queue_size libbpf_flags xdp_flags bind_flags : ℕ → Setting

unfoldable pub set : SocketConfigBuilder → Setting → SocketConfigBuilder
set b (Setting.rx_queue_size n) = record b { rx_queue_size = n }
set b (Setting.tx_queue_size n) = record b { tx_queue_size = n }
set b (Setting.libbpf_flags n) = record b { libbpf_flags = n }
set b (Setting.xdp_flags n) = record b { xdp_flags = n }
set b (Setting.bind_flags n) = record b { bind_flags = n }

unfoldable pub build : SocketConfigBuilder → Result SocketConfigError SocketConfig
build b = new b.rx_queue_size b.tx_queue_size b.libbpf_flags b.xdp_flags b.bind_flags
