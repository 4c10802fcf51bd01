-- ===== src/Xsk/Build.antt =====
-- src/xsk/xsk.rs: a socket over a UMEM of its own, with some frames for sending and the rest for
-- receiving.
pub mod Split
pub mod Start
use xdpsock.Prelude.{
  ℕ, List, Outcome, ret, ◌>>=◌, Result, ok, err, expect, index_range, length, as_u32, ltb,
  if◌then◌else◌,
}
use xdpsock.Kernel.{Kernel, Machine}
use xdpsock.Umem.Config.{UmemConfig}
use xdpsock.Umem.Build.{create_mmap, create_umem}
use xdpsock.Umem.Frame.{Frame}
use xdpsock.Umem.FillQueue.{FillQueue}
use xdpsock.Umem.CompQueue.{CompQueue}
use xdpsock.Socket.Config.{SocketConfig}
use xdpsock.Socket.Create
use xdpsock.Socket.TxQueue.{TxQueue}
use xdpsock.Socket.RxQueue.{RxQueue}
use xdpsock.Xsk.Tx
use xdpsock.Xsk.Tx.{XskTx}
use xdpsock.Xsk.Rx
use xdpsock.Xsk.Rx.{XskRx}

pub data Xsk2Error : Type 0 where
  tx_batch_size_too_large : Xsk2Error

-- The parts of `Xsk`.
pub record Xsk : Type 0 where
  pub if_name : List ℕ
  pub fill_q : FillQueue
  pub comp_q : CompQueue
  pub tx_q : TxQueue
  pub rx_q : RxQueue
  pub tx_frames : List Frame
  pub rx_frames : List Frame
  pub umem_config : UmemConfig
  pub socket_config : SocketConfig

pub record Xsk2Config : Type 0 where
  pub if_name : List ℕ
  pub queue_id : ℕ
  pub n_tx_frames : ℕ
  pub tx_batch_size : ℕ
  pub umem_config : UmemConfig
  pub socket_config : SocketConfig

pub record Xsk2 : Type 0 where
  pub if_name : List ℕ
  pub tx : XskTx
  pub rx : XskRx

module _ (k : Kernel) where
  open k use {World}

  -- `Xsk::new`, which is also the first part of `Xsk2::new`.
  unfoldable pub new_xsk :
      List ℕ → ℕ → UmemConfig → SocketConfig → ℕ → World → Outcome (Xsk × Machine World)
  new_xsk if_name queue_id umem_config socket_config n_tx_frames w = do
    mapped ← create_mmap k umem_config w
    m ← expect mapped
    (parts, m') ← expect (create_umem k umem_config m)
    (tx_q, rx_q, m'') ← expect (Create.new k socket_config if_name queue_id m')
    tx_frames ← index_range parts.frames 0 n_tx_frames
    rx_frames ← index_range parts.frames n_tx_frames (length parts.frames)
    ret (
      record {
        if_name = if_name;
        fill_q = parts.fill_q;
        comp_q = parts.comp_q;
        tx_q = tx_q;
        rx_q = rx_q;
        tx_frames = tx_frames;
        rx_frames = rx_frames;
        umem_config = umem_config;
        socket_config = socket_config;
      },
      m'',
    )

  -- `Xsk2::new`
  unfoldable pub new :
      List ℕ
      → ℕ
      → UmemConfig
      → SocketConfig
      → ℕ
      → ℕ
      → World
      → Outcome (Result Xsk2Error (Xsk2 × Machine World))
  new if_name queue_id umem_config socket_config n_tx_frames tx_batch_size w =
      if ltb socket_config.tx_queue_size (as_u32 tx_batch_size)
      then ret (err Xsk2Error.tx_batch_size_too_large)
      else do
        (xsk, m) ← new_xsk if_name queue_id umem_config socket_config n_tx_frames w
        let tx = Tx.new xsk.tx_q xsk.comp_q xsk.tx_frames umem_config.frame_size tx_batch_size
        (rx, m') ← Rx.new k xsk.rx_q xsk.fill_q xsk.rx_frames umem_config.frame_size m
        ret (ok (record { if_name = if_name; tx = tx; rx = rx }, m'))

  -- `Xsk2::from_config`
  unfoldable pub from_config :
      Xsk2Config → World → Outcome (Result Xsk2Error (Xsk2 × Machine World))
  from_config config w =
      new config.if_name config.queue_id config.umem_config config.socket_config config.n_tx_frames
        config.tx_batch_size w
