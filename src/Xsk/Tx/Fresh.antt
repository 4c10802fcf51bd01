-- ===== src/Xsk/Tx/Fresh.antt =====
-- A new `XskTx` over frames that the kernel does not hold is valid.
use xdpsock.Prelude.{
  ℕ, zero, suc, ◌+◌, ◌*◌, ◌^◌, ◌≤◌, ◌<◌, ◌≡◌, refl, sym, inr, false, some, length, length-replicate,
  get_elem?, arith,
}
use xdpsock.Kernel.{Kernel, Machine}
use xdpsock.Umem.Frame.{Frame}
use xdpsock.Umem.CompQueue.{CompQueue}
use xdpsock.Umem.Build.{cut_frames}
use xdpsock.Umem.Build.Layout.{length-cut_frames, cut_frames-frame_of}
use xdpsock.Socket.TxQueue.{TxQueue}
use xdpsock.Xsk.Tx
use xdpsock.Xsk.Tx.{XskTx}
use xdpsock.Xsk.Lent.{Lent}
use xdpsock.Xsk.Tx.Lent.{TxContract}
use xdpsock.Xsk.Tx.Frames.{AreFrames, FrameAt, on_tx}
use xdpsock.Xsk.Tx.Valid.{IsValid}

on_tx-cut_frames : (fs mtu s n : ℕ) → on_tx (cut_frames fs mtu s n) ≡ 0
unfolding cut_frames
on_tx-cut_frames fs mtu s zero = refl
on_tx-cut_frames fs mtu s (suc n) = omega (arith, on_tx-cut_frames fs mtu (s + 1) n)

fresh-AreFrames :
    (fs mtu n : ℕ) (lent : Lent)
    → ((a : ℕ) → lent a ≡ false)
    → AreFrames fs mtu lent (cut_frames fs mtu 0 n)
fresh-AreFrames fs mtu n lent unlent = record {
  each = each';
  owned = λ a q. absurd (ground (arith, unlent a));
}
  where
    each' :
        (i : ℕ) (f : Frame) → get_elem? (cut_frames fs mtu 0 n) i ≡ some f → FrameAt fs mtu lent i f
    each' i f q =
        rw (cut_frames-frame_of fs mtu n i f q)
          (record { placed = refl; sized = refl; agrees = inr (refl, unlent (i * fs)) })

-- `XskTx::new` over the first `rounds * batch_size` frames of a UMEM, none of which the kernel holds,
-- is a valid state, where these frames lie in the first 2 ^ 32 bytes of the mapped memory, there is
-- at least one, and the batch fits the tx ring.
pub new-IsValid :
    (k : Kernel) (c : TxContract k) (m : Machine k.World) (tx_q : TxQueue) (comp_q : CompQueue)
    (frame_size mtu rounds batch_size : ℕ)
    → ((a : ℕ) → c.lent m.world a ≡ false)
    → 0 < frame_size
    → mtu ≤ frame_size
    → rounds * batch_size * frame_size ≤ 2 ^ 32
    → rounds * batch_size * frame_size ≤ length m.mem
    → 0 < rounds * batch_size
    → 0 < batch_size
    → batch_size ≤ c.capacity
    → IsValid c mtu
        (Tx.new tx_q comp_q
          (cut_frames frame_size mtu 0 (rounds * batch_size))
          frame_size
          batch_size)
        m
unfolding Tx.new
new-IsValid k c m tx_q comp_q fs mtu rounds batch_size unlent pos mtu_le fits inside some_frames
      batch_pos batch_le =
    let n = length-cut_frames fs mtu 0 (rounds * batch_size) in
    record {
      coherent = record {
        size_pos = pos;
        fits = rw n fits;
        inside = rw n inside;
        mtu_le = mtu_le;
        buffer = length-replicate (length (cut_frames fs mtu 0 (rounds * batch_size))) 0;
        cursor_in = rw n some_frames;
        frames = fresh-AreFrames fs mtu (rounds * batch_size) (c.lent m.world) unlent;
        counted = sym (on_tx-cut_frames fs mtu 0 (rounds * batch_size));
      };
      aligned = record {
        batch_pos = batch_pos;
        below = batch_pos;
        rounds = rounds;
        whole = n;
        turn = 0;
        aligned = omega arith;
        ours = λ j lo hi. absurd (omega (arith, hi));
      };
      accounted = omega arith;
      batch_le = batch_le;
    }
