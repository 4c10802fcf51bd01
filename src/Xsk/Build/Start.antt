-- ===== src/Xsk/Build/Start.antt =====
-- `Xsk2::new`: the sending half starts out valid, and the receiving half has the other frames.

use xdpsock.Prelude.{
  ℕ, ◌+◌, ◌-◌, ◌*◌, ◌^◌, ◌≤◌, ◌<◌, ◌≡◌, refl, ap, ◌∙◌, false, List, ret, ok, length, as_u32, le→ltb,
  arith,
}
use xdpsock.Kernel.{Kernel, Machine}
use xdpsock.Umem.Frame.{Frame}
use xdpsock.Umem.FillQueue
use xdpsock.Umem.FillQueue.{FillQueue}
use xdpsock.Umem.Config.{UmemConfig}
use xdpsock.Umem.Build.{cut_frames, mtu_of}
use xdpsock.Umem.Build.Layout.{length-cut_frames, get_elem?-cut_frames}
use xdpsock.Socket.Config.{SocketConfig}
use xdpsock.Socket.RxQueue.{RxQueue}
use xdpsock.Xsk.Tx
use xdpsock.Xsk.Tx.{XskTx}
use xdpsock.Xsk.Tx.Lent.{TxContract}
use xdpsock.Xsk.Tx.Frames.{mul-lt}
use xdpsock.Xsk.Tx.Valid.{IsValid}
use xdpsock.Xsk.Tx.Fresh.{new-IsValid}
use xdpsock.Xsk.Rx
use xdpsock.Xsk.Rx.Contract.{RxContract}
use xdpsock.Xsk.Rx.Valid as RxValid
use xdpsock.Xsk.Rx.Fresh.{fresh_rx, fresh_rx-IsValid}
use xdpsock.Xsk.Rx.{XskRx}
use xdpsock.Xsk.Build.{Xsk2, new}
use xdpsock.Xsk.Build.Split.{IsSetUp, frames_from, shared_out, new_xsk_lem}

rx_new_lem :
    (k : Kernel) (rx_q : RxQueue) (fill_q : FillQueue) (frame_size mtu i n : ℕ)
    (m : Machine k.World)
    → 0 < n
    → let frames = cut_frames frame_size mtu i n in
      Rx.new k rx_q fill_q frames frame_size m
      ≡ ret (
        fresh_rx rx_q fill_q frames ((i + 0) * frame_size) frame_size,
        record m { world = (FillQueue.produce k frames m.world).1 },
      )
unfolding Rx.new
rx_new_lem k rx_q fill_q frame_size mtu i n m pos =
    rw (get_elem?-cut_frames frame_size mtu i n 0 pos, Rx.new) refl

rows : (a b fs : ℕ) → a * fs + b * fs ≡ (a + b) * fs
rows a b fs = grind arith

module _ (k : Kernel) (if_name : List ℕ) (queue_id : ℕ) (umem_config : UmemConfig)
    (socket_config : SocketConfig) (w : k.World) (c : TxContract k)
    (rc : RxContract k umem_config.frame_size) where
  open k use {World}

  abbrev rx_frames : ℕ → List Frame
  rx_frames n_tx_frames =
      frames_from k if_name queue_id umem_config socket_config w n_tx_frames
        (umem_config.frame_count - n_tx_frames)

  -- What `Xsk2::new` comes to: both halves, over different frames of one area.
  pub record Starts (n_tx_frames tx_batch_size : ℕ) : Type 0 where
    pub xsk : Xsk2
    pub machine : Machine World
    pub run :
        new k if_name queue_id umem_config socket_config n_tx_frames tx_batch_size w
        ≡ ret (ok (xsk, machine))
    pub tx_valid : IsValid c (mtu_of k umem_config) xsk.tx machine
    pub tx_number : length xsk.tx.tx_frames ≡ n_tx_frames
    pub rx_others : xsk.rx.rx_frames ≡ rx_frames n_tx_frames
    pub rx_valid : RxValid.IsValid rc xsk.rx machine
    pub rx_offset : xsk.rx.rx_frame_offset ≡ n_tx_frames * umem_config.frame_size

  -- Where the area was mapped and the kernel accepted the UMEM and the socket, for a whole number
  -- of batches of sending frames that leaves some frame to receive into, a batch that fits the tx
  -- ring, a headroom that fits the frame and an area of at most 2 ^ 32 bytes, with a fill ring that
  -- takes all the receiving frames and is for at least one, and a kernel that held none of them and
  -- holds no frame for sending once they are lent, `Xsk2::new` returns: the sending half is in a
  -- valid state over the first frames, and the receiving half is in a valid state over all the
  -- others.
  pub new-Starts :
      (s : IsSetUp k if_name queue_id umem_config socket_config w) (rounds tx_batch_size : ℕ)
      → 0 < tx_batch_size
      → 0 < rounds
      → rounds * tx_batch_size < umem_config.frame_count
      → tx_batch_size ≤ socket_config.tx_queue_size
      → socket_config.tx_queue_size < 2 ^ 32
      → socket_config.tx_queue_size ≤ c.capacity
      → 0 < umem_config.frame_size
      → k.xdp_packet_headroom + umem_config.frame_headroom ≤ umem_config.frame_size
      → umem_config.frame_count * umem_config.frame_size ≤ 2 ^ 32
      → umem_config.frame_count * umem_config.frame_size ≤ length s.bound.mem
      → ((a : ℕ)
          → c.lent (FillQueue.produce k (rx_frames (rounds * tx_batch_size)) s.bound.world).1 a
            ≡ false)
      → 1 ≤ rc.fill.capacity
      → ((a : ℕ) → rc.fill.lent s.bound.world a ≡ false)
      → let n_rx = umem_config.frame_count - rounds * tx_batch_size in
        (k.fill_ring.reserve n_rx s.bound.world).0.count ≡ n_rx
        → Starts (rounds * tx_batch_size) tx_batch_size
  unfolding new mtu_of Tx.new
  new-Starts s rounds batch batch_pos rounds_pos fewer fits_q q_u32 capacity pos headroom fits
        inside unlent ring_pos none_filled granted =
      let n_tx = rounds * batch in
      let fs = umem_config.frame_size in
      let m' = record (s.bound) {
        world = (FillQueue.produce k (rx_frames n_tx) s.bound.world).1;
      } in
      let n_rx = umem_config.frame_count - n_tx in
      let sum : n_tx * fs + n_rx * fs ≡ umem_config.frame_count * fs =
        rows n_tx n_rx fs ∙ ap (λ (n : ℕ). n * fs) (omega (arith, fewer)) in
      let row = mul-lt n_tx umem_config.frame_count fs fewer in
      let xsk = shared_out k if_name queue_id umem_config socket_config w s n_tx in
      record {
        xsk = record {
          if_name = if_name;
          tx = Tx.new xsk.tx_q xsk.comp_q xsk.tx_frames fs batch;
          rx = fresh_rx xsk.rx_q xsk.fill_q (rx_frames n_tx) ((n_tx + 0) * fs) fs;
        };
        machine = m';
        run =
            rw (le→ltb socket_config.tx_queue_size (as_u32 batch) (omega arith), new)
              (rw (new_xsk_lem k if_name queue_id umem_config socket_config w s n_tx (omega arith))
                (rw
                  (rx_new_lem k xsk.rx_q xsk.fill_q fs (mtu_of k umem_config) n_tx
                    (umem_config.frame_count - n_tx) s.bound (omega arith))
                  refl));
        tx_valid =
            new-IsValid k c m' xsk.tx_q xsk.comp_q fs (mtu_of k umem_config) rounds batch unlent pos
              (omega (arith, headroom, row, fits)) (omega (arith, row)) (omega (arith, row))
              (omega (arith, mul-lt 0 rounds batch rounds_pos)) batch_pos (omega arith);
        tx_number = length-cut_frames fs (mtu_of k umem_config) 0 n_tx;
        rx_others = refl;
        rx_valid =
            fresh_rx-IsValid k fs (mtu_of k umem_config) n_tx n_rx rc xsk.rx_q xsk.fill_q
              s.bound.world m' ((n_tx + 0) * fs) (ap (λ i. i * fs) (omega arith)) pos
              (omega (arith, fewer)) (omega (arith, sum, fits)) (omega (arith, sum, inside))
              ring_pos none_filled granted refl;
        rx_offset = ap (λ i. i * fs) (omega arith);
      }
