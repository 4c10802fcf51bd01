-- ===== src/Xsk/Rx/Batch.antt =====
-- `apply_batch`: every received packet goes to the caller's function, and every frame back to the
-- kernel.
use mathlib.Core.List.{foldl, map}
use xdpsock.Prelude.{
  ℕ, ◌≤◌, ◌<◌, ◌≡◌, refl, ap, List, [], ret, index_range_lem, length, slice, length-slice, add64,
  arith,
}
use xdpsock.Kernel.{Kernel, Machine, Desc}
use xdpsock.Kernel.Laws.{IsProdRing}
use xdpsock.Umem.Frame.{Frame}
use xdpsock.Xsk.Rx.{XskRx, apply_frames, refill, apply_batch}
use xdpsock.Xsk.Rx.Place.{IsArea, AllOurs}
use xdpsock.Xsk.Rx.Apply.{packet, apply_frames_lem}
use xdpsock.Xsk.Rx.Refill.{FillContract, refill_lem}

-- The descriptors of the batch.
abbrev pub received : XskRx → ℕ → List Desc
received rx n_frames_recv = slice rx.filled_frames 0 n_frames_recv

-- The state after a batch of `n` packets, with the frames that it left.
abbrev pub returned : XskRx → ℕ → List Frame → XskRx
returned rx n frames = record rx {
  rx_frames = frames;
  processed_frames = [];
  stats = record (rx.stats) { pkts_rx_delivered = add64 rx.stats.pkts_rx_delivered n };
  n_frames_to_be_filled = add64 rx.n_frames_to_be_filled n;
}

module _ (k : Kernel) (size : ℕ) (l : IsProdRing k.fill_ring size) {frame_size : ℕ}
    (c : FillContract k frame_size) {S : Type 0} where
  open k use {World}

  pub apply_batch_run :
      (fuel : ℕ) (f : S → List ℕ → S) (n : ℕ) (s s' : S) (rx : XskRx) (m m' : Machine World)
      (frames processed : List Frame)
      → n ≤ length rx.filled_frames
      → apply_frames f m.mem (received rx n) s rx
        ≡ ret (s', record rx { rx_frames = frames; processed_frames = processed })
      → refill k fuel rx.rx_q.fd rx.poll_ms_timeout processed (length processed) m ≡ ret m'
      → apply_batch k fuel f n s rx m ≡ ret (s', returned rx n frames, m')
  unfolding apply_batch
  apply_batch_run fuel f n s s' rx m m' frames processed room run again =
      rw (index_range_lem rx.filled_frames 0 n (omega arith) room, apply_batch)
        (rw run (rw again refl))

  -- Under the contract of the fill ring and of `poll`, where the receive frames lie in the first 2
  -- ^ 32 bytes of the mapped memory, every one of the `n` descriptors is for one of them and no
  -- frame waits to be lent again, for a batch that is not empty and fits the fill ring, with more
  -- fuel than refusals to come, `apply_batch` returns: the caller's function was applied to the
  -- bytes of exactly the received packets, in the order of the ring, threading its state; the
  -- packets count as delivered and the frames as to be filled; and no frame waits to be lent again.
  -- The number of frames and the size of the memory stay.
  pub apply_batch_lem :
      (fuel : ℕ) (f : S → List ℕ → S) (n : ℕ) (s : S) (rx : XskRx) (m : Machine World)
      → IsArea m.mem rx
      → AllOurs rx (received rx n)
      → rx.processed_frames ≡ []
      → 0 < n
      → n ≤ length rx.filled_frames
      → n ≤ c.capacity
      → c.refusals m.world < fuel
      → (frames : List Frame) × (m' : Machine World) × (apply_batch k fuel f n s rx m
          ≡ ret (foldl f s (map (packet m.mem) (received rx n)), returned rx n frames, m'))
        × (length frames ≡ length rx.rx_frames)
        × (length m'.mem ≡ length m.mem)
  apply_batch_lem fuel f n s rx m area ours clear pos room ring enough =
      let (frames, processed, run, count, same) =
        apply_frames_lem f m.mem (received rx n) s rx area ours in
      let number : length processed ≡ n =
        omega (arith, count, ap length clear, length-slice rx.filled_frames 0 n room) in
      let (m', again, mem, held) =
        refill_lem k size l c fuel rx.rx_q.fd rx.poll_ms_timeout processed m (omega (arith, number))
          (omega (arith, number)) enough in
      (
        frames,
        m',
        apply_batch_run fuel f n s (foldl f s (map (packet m.mem) (received rx n))) rx m m' frames
            processed room run again,
        same,
        mem,
      )
