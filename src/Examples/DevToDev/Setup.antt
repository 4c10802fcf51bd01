-- ===== src/Examples/DevToDev/Setup.antt =====
-- Which queue sizes `build_umem_socket_config` takes.
use xdpsock.Prelude.{
  zero, suc, true, ◌<◌, refl, false, Bool-cases, ℕ, ◌/◌, ◌≤◌, ◌≡◌, ◌⊎◌, inl, inr, ret, panic, arith,
}
use xdpsock.Util.PowerOfTwo.{is_pow_of_two_iff}
use xdpsock.Util.{is_pow_of_two}
use xdpsock.Umem.Config as UmemSizes
use xdpsock.Umem.Config.{UmemConfig, LibbpfDefaults}
use xdpsock.Umem.Config.Checked.{IsPowerOfTwo}
use xdpsock.Umem.Config.Checked as UmemChecked
use xdpsock.Socket.Config as SocketSizes
use xdpsock.Socket.Config.{
  SocketConfig, SocketConfigBuilder, BindFlag, bind_flag_bits, XdpFlag, xdp_flag_bits,
}
use xdpsock.Socket.Config.Checked as SocketChecked
use xdpsock.Examples.DevToDev.{
  Opts, BindOption, SocketOption, with_bind_option, with_socket_option, build_umem_socket_config,
}

bind_bits : BindOption → ℕ
bind_bits BindOption.copy = bind_flag_bits BindFlag.copy
bind_bits BindOption.zero_copy = bind_flag_bits BindFlag.zerocopy

xdp_bits : SocketOption → ℕ
xdp_bits SocketOption.drv = xdp_flag_bits XdpFlag.drv_mode
xdp_bits SocketOption.skb = xdp_flag_bits XdpFlag.skb_mode

-- The two options leave the queue sizes.
with_options :
    (bind : BindOption) (mode : SocketOption) (b : SocketConfigBuilder)
    → with_socket_option mode (with_bind_option bind b)
      ≡ record b { bind_flags = bind_bits bind; xdp_flags = xdp_bits mode }
unfolding SocketSizes.set bind_bits xdp_bits
with_options BindOption.copy SocketOption.drv b = refl
with_options BindOption.copy SocketOption.skb b = refl
with_options BindOption.zero_copy SocketOption.drv b = refl
with_options BindOption.zero_copy SocketOption.skb b = refl

some_frames : (n : ℕ) → is_pow_of_two (n / 2) ≡ true → 0 < n
unfolding is_pow_of_two
some_frames zero h = cc
some_frames (suc n) h = omega arith

-- With libbpf's frames of at least 2048 bytes: where half of the given queue size is a power of
-- two, both configurations are built and checked, with as many frames as the queue size and all four
-- queues of half of it; otherwise the program panics.
pub build_umem_socket_config_lem :
    (d : LibbpfDefaults) (opts : Opts)
    → 2048 ≤ d.default_frame_size
    → ((umem : UmemConfig) × (socket : SocketConfig) × (build_umem_socket_config d opts
          ≡ ret (umem, socket))
        × IsPowerOfTwo (opts.xdp_queue_size / 2)
        × UmemChecked.IsChecked umem
        × SocketChecked.IsChecked socket
        × (umem.frame_count ≡ opts.xdp_queue_size)
        × (umem.fill_queue_size ≡ opts.xdp_queue_size / 2)
        × (umem.comp_queue_size ≡ opts.xdp_queue_size / 2)
        × (socket.tx_queue_size ≡ opts.xdp_queue_size / 2)
        × (socket.rx_queue_size ≡ opts.xdp_queue_size / 2))
      ⊎ ((IsPowerOfTwo (opts.xdp_queue_size / 2) → ⊥) × (build_umem_socket_config d opts ≡ panic))
unfolding build_umem_socket_config UmemSizes.set UmemSizes.new_builder UmemSizes.build UmemSizes.new
    SocketSizes.set SocketSizes.new_builder SocketSizes.build SocketSizes.new
build_umem_socket_config_lem d opts frames =
    let half = opts.xdp_queue_size / 2 in
    let b : SocketConfigBuilder = record {
      rx_queue_size = half;
      tx_queue_size = half;
      libbpf_flags = 0;
      xdp_flags = 0;
      bind_flags = 0;
    } in
    let options = with_options opts.bind_option opts.socket_option b in
    elim (Bool-cases (is_pow_of_two half)) [
      | inl power ↦
          let e = (is_pow_of_two_iff half).0 power in
          let pos : 0 < opts.xdp_queue_size = some_frames opts.xdp_queue_size power in
          inl (
            record {
              frame_count = opts.xdp_queue_size;
              frame_size = d.default_frame_size;
              fill_queue_size = half;
              comp_queue_size = half;
              frame_headroom = d.default_frame_headroom;
              use_huge_pages = false;
            },
            record {
              rx_queue_size = half;
              tx_queue_size = half;
              libbpf_flags = 0;
              xdp_flags = xdp_bits opts.socket_option;
              bind_flags = bind_bits opts.bind_option;
            },
            rw (options, power, build_umem_socket_config) (ground (arith, pos, frames)),
            e,
            record { some_frames = pos; fill_size = e; comp_size = e; frame_size = frames },
            record { rx_size = e; tx_size = e },
            refl,
            refl,
            refl,
            refl,
            refl,
          )
      | inr no_power ↦ inr (
        λ e. absurd (ground (arith, (is_pow_of_two_iff half).1 e, no_power)),
        rw (no_power, build_umem_socket_config) (ground arith),
      )
    ]
