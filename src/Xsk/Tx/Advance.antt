-- ===== src/Xsk/Tx/Advance.antt =====
-- `advance`, the end of a send, under the kernel's contract: it returns at a valid state.

use mathlib.Core.Path.{subst}
use native.Mathlib.Decide.{ℕ_discrete}
use xdpsock.Umem.Frame.{Frame}
use xdpsock.Prelude.{
  ℕ, ◌+◌, ◌*◌, ◌≤◌, ◌<◌, ◌≡◌, refl, true, false, ret, List, ◌-◌, ◌≢◌, ap, ◌⊎◌, inl, inr, length,
  add64, pos-==_zero, ◌==◌, arith,
}
use xdpsock.Kernel.{Kernel, Machine}
use xdpsock.Kernel.Laws.{IsProdRing, IsConsRing}
use xdpsock.Xsk.Tx
use xdpsock.Xsk.Tx.{XskTx, advance, produce_all}
use xdpsock.Xsk.Tx.Lent.{TxContract}
use xdpsock.Xsk.Tx.Complete.{IsCoherent}
use xdpsock.Xsk.Tx.Batch.{batch, flushed, put_batch-Flushes}
use xdpsock.Xsk.Tx.Valid.{
  no_wrap, room, next_inside, IsAligned, IsAccounted, IsValid, moved, moved-IsCoherent,
  moved-IsAligned, moved-IsPending, flushed-IsAligned,
}

-- Packets accepted so far: handed over, or waiting in the batch.
abbrev pub accepted : XskTx → ℕ
accepted tx = add64 tx.stats.pkts_tx tx.cur_batch_size

-- The batch that the frame at the cursor completes, as it is handed over.
abbrev pub handed_over : XskTx → List Frame
handed_over tx = batch (moved tx) (tx.tx_cursor - tx.cur_batch_size)

module _ (k : Kernel) (size : ℕ) (l : IsProdRing k.tx_ring size) (lc : IsConsRing k.comp_ring)
    (c : TxContract k) where
  open k use {World}

  pub record Advances (fuel mtu : ℕ) (tx : XskTx) (m : Machine World) : Type 0 where
    pub tx' : XskTx
    pub machine : Machine World
    pub run : advance k fuel tx m ≡ ret (tx', machine)
    pub valid : IsValid c mtu tx' machine
    pub cursor : tx'.tx_cursor ≡ (moved tx).tx_cursor
    pub counts : accepted tx' ≡ add64 (accepted tx) 1
    pub branch :
        ((tx.cur_batch_size + 1 ≢ tx.batch_size)
          × (tx' ≡ moved tx)
          × (machine ≡ m)
          × ((moved tx).tx_cursor ≡ tx.tx_cursor + 1))
        ⊎ ((tx.cur_batch_size + 1 ≡ tx.batch_size)
            × (tx' ≡ flushed (moved tx) (tx.tx_cursor - tx.cur_batch_size))
            × (produce_all k fuel tx.tx_q (handed_over tx) (length (handed_over tx)) m
                ≡ ret machine))

  module _ (fuel mtu : ℕ) (tx : XskTx) (m : Machine World)
      (v : IsCoherent mtu (c.lent m.world) m.mem tx) (a : IsAligned (c.lent m.world) tx)
      (e : IsAccounted tx) (here : c.lent m.world (tx.tx_cursor * tx.frame_size) ≡ false) where
    advance_waits :
        (add64 tx.cur_batch_size 1 == tx.batch_size) ≡ false
        → advance k fuel tx m ≡ ret (moved tx, m)
    unfolding advance
    advance_waits h =
        rw (pos-==_zero (length tx.tx_frames) (omega (arith, v.cursor_in))) (rw h refl)

    advance_flushes :
        (tx' : XskTx) (m' : Machine World)
        → (add64 tx.cur_batch_size 1 == tx.batch_size) ≡ true
        → Tx.put_batch_on_tx_queue k fuel (moved tx) m ≡ ret (tx', m')
        → advance k fuel tx m ≡ ret (tx', m')
    unfolding advance
    advance_flushes tx' m' h run =
        rw (pos-==_zero (length tx.tx_frames) (omega (arith, v.cursor_in))) (rw h run)

    small : add64 tx.cur_batch_size 1 ≡ tx.cur_batch_size + 1
    small = (no_wrap (c.lent m.world) tx v a here).1

    pub advance-Advances :
        tx.batch_size ≤ c.capacity → c.refusals m.world < fuel → Advances fuel mtu tx m
    advance-Advances queue_fits enough = elim (ℕ_discrete (tx.cur_batch_size + 1) tx.batch_size) [
      | no ne ↦ record {
        tx' = moved tx;
        machine = m;
        run = advance_waits (ground (arith, small));
        valid = record {
          coherent = moved-IsCoherent mtu (c.lent m.world) m.mem tx v;
          aligned = moved-IsAligned (c.lent m.world) tx v a here ne;
          accounted = e;
          batch_le = queue_fits;
        };
        cursor = refl;
        counts = omega arith;
        branch = inl (
          ne,
          refl,
          refl,
          next_inside (c.lent m.world) tx v a here
              (omega (arith, room (c.lent m.world) tx v a here, a.aligned, a.below)),
        );
      }
      | yes full ↦
          let s = a.turn * tx.batch_size in
          let f =
            put_batch-Flushes k size l c fuel mtu (moved tx) m s
              (moved-IsCoherent mtu (c.lent m.world) m.mem tx v)
              (moved-IsPending (c.lent m.world) tx v a here full) (omega (arith, small))
              (omega (arith, small)) enough in
          record {
            tx' = flushed (moved tx) s;
            machine = f.machine;
            run = advance_flushes (flushed (moved tx) s) f.machine (ground (arith, small)) f.run;
            valid = record {
              coherent = f.coherent;
              aligned =
                  flushed-IsAligned (c.lent m.world) tx v a here full (c.lent f.machine.world);
              accounted = omega (arith, e);
              batch_le = queue_fits;
            };
            cursor = refl;
            counts = omega arith;
            branch = inr (
              full,
              ap (flushed (moved tx)) begins,
              subst
                  (λ i.
                    produce_all k fuel tx.tx_q (batch (moved tx) i) (length (batch (moved tx) i)) m
                    ≡ ret f.machine)
                  begins f.produced,
            );
          }
    ]
      where
        begins : a.turn * tx.batch_size ≡ tx.tx_cursor - tx.cur_batch_size
        begins = omega (arith, a.aligned)
