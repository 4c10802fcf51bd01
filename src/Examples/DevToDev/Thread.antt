-- ===== src/Examples/DevToDev/Thread.antt =====
-- What one thread of examples/dev_to_dev.rs does.

use xdpsock.Prelude.{ℕ, ◌/◌, Option, List, Outcome, ret, ◌>>=◌, expect}
use xdpsock.Kernel.{Kernel, Machine}
use xdpsock.Umem.Config.{UmemConfig}
use xdpsock.Socket.Config.{SocketConfig}
use xdpsock.Examples.Wire.{Etherparse, LittleEndian}
use xdpsock.Xsk.Build as Build
use xdpsock.Xsk.Build.{Xsk2}
use xdpsock.Examples.DevToDev.{Mode, Opts, from_opts, split_pkts}
use xdpsock.Examples.DevToDev.Sending.{tx_pkts}
use xdpsock.Examples.DevToDev.Receipt.{rx_pkts}

-- `build_xsk`: half of the frames are for sending.
unfoldable pub build_xsk :
    (k : Kernel)
    → UmemConfig
    → SocketConfig
    → List ℕ
    → ℕ
    → ℕ
    → k.World
    → Outcome (Xsk2 × Machine k.World)
build_xsk k umem_config socket_config ifname queue tx_batch_size w = do
  let n_tx_frames = umem_config.frame_count / 2
  built ← Build.new k ifname queue umem_config socket_config n_tx_frames tx_batch_size w
  expect built

-- What the thread of queue `i` does, of `n_queues`.
unfoldable pub run_queue :
    (eth : Etherparse)
    → LittleEndian
    → (k : Kernel) → (List ℕ → Option (List ℕ))
    → (ℕ → ℕ)
    → ℕ
    → ℕ
    → ℕ
    → Opts
    → UmemConfig
    → SocketConfig
    → ℕ
    → ℕ
    → ℕ
    → k.World
    → Outcome (Xsk2 × Machine k.World)
run_queue eth le k parse_ipv4 elapsed tries rounds fuel opts umem_config socket_config queue i
      n_queues w =
    do
      (xsk, m) ← build_xsk k umem_config socket_config opts.dev queue opts.batch_size w
      built ← from_opts parse_ipv4 opts
      filter ← expect built
      pkts ← split_pkts opts.n_pkts i n_queues
      elim opts.mode [
        | Mode.tx ↦ do
          (sender, m') ← tx_pkts eth le k tries rounds fuel filter pkts xsk.tx m
          ret (record xsk { tx = sender }, m')
        | Mode.rx ↦ do
          (n_missing, s, receiver, m') ←
              rx_pkts eth le k rounds fuel elapsed filter opts.n_pkts opts.timeout_sec xsk.rx m
          ret (record xsk { rx = receiver }, m')
      ]
