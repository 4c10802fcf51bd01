-- ===== src/Xsk/Tx/Wrap.antt =====
-- A batch that would cross the end of the frames.
use xdpsock.Prelude.{ℕ, ◌^◌, ◌<◌, ◌≡◌, refl, panic, sub64, pos-==_zero, arith}
use xdpsock.Kernel.{Kernel, Machine}
use xdpsock.Xsk.Tx.{XskTx, batch_range, put_batch_on_tx_queue}

module _ (tx : XskTx) (pos : 0 < tx.tx_cursor) (crosses : tx.tx_cursor < tx.cur_batch_size)
    (small : tx.cur_batch_size < 2 ^ 64) where
  batch_range_wraps : batch_range tx ≡ (sub64 tx.tx_cursor tx.cur_batch_size, tx.tx_cursor)
  unfolding batch_range
  batch_range_wraps = rw (pos-==_zero tx.tx_cursor pos) refl

  start_behind : tx.tx_cursor < sub64 tx.tx_cursor tx.cur_batch_size
  start_behind = omega arith

  -- Where the cursor stands past the first frame but fewer frames in than the batch has, the
  -- batch's range begins behind its end, and `put_batch_on_tx_queue` panics, for a batch size that
  -- fits `u64`, whatever the kernel does.
  pub put_batch_panics :
      (k : Kernel) (fuel : ℕ) (m : Machine k.World) → put_batch_on_tx_queue k fuel tx m ≡ panic
  unfolding put_batch_on_tx_queue
  put_batch_panics k fuel m =
      rw (pos-==_zero tx.cur_batch_size (omega arith))
        (rw batch_range_wraps (ground (arith, start_behind)))
