-- ===== src/Xsk/Tx/Drain.antt =====
-- `drain` ends where the kernel completes what was sent, and nothing is outstanding then.
use mathlib.Core.Path.{subst}
use native.Mathlib.Decide.{ℕ_discrete}
use xdpsock.Prelude.{
  ℕ, zero, suc, ◌+◌, ◌*◌, ◌≤◌, ◌^◌, ◌<◌, ◌≡◌, refl, sym, ap, ◌∙◌, false, ret, length,
  length-update_range, sub64, ◌==◌, arith,
}
use xdpsock.Kernel.{Kernel, Machine}
use xdpsock.Kernel.Laws.{IsProdRing, IsConsRing}
use xdpsock.Xsk.Tx.{XskTx, complete_frames, put_batch_on_tx_queue, drain}
use xdpsock.Xsk.Tx.Lent.{TxContract}
use xdpsock.Xsk.Tx.Frames.{on_tx, mul-lt}
use xdpsock.Xsk.Tx.Complete.{
  IsCoherent, Completes, complete_frames-Completes, completed, on_tx-le, few_frames,
}
use xdpsock.Xsk.Tx.Lending.{queue}
use xdpsock.Xsk.Tx.Batch.{IsPending, flushed, put_batch-Flushes}
use xdpsock.Xsk.Tx.Valid.{
  IsAccounted, IsValid, completed-IsAligned, completed-IsAccounted, batch_range_inside,
}
use xdpsock.Xsk.Tx.Advance.{accepted}
use xdpsock.Xsk.Tx.Prompt.{IsPrompt, none_lent, one_lent}

module _ (k : Kernel) (size : ℕ) (l : IsProdRing k.tx_ring size) (lc : IsConsRing k.comp_ring)
    (c : TxContract k) (p : IsPrompt c) (fuel mtu : ℕ) where
  open k use {World}

  -- What `drain` comes to: nothing is waiting or outstanding, the kernel holds none of the frames, and
  -- every packet that was accepted was handed over and completed.
  pub record Drains (rounds : ℕ) (tx : XskTx) (m : Machine World) (packets : ℕ) : Type 0 where
    pub tx' : XskTx
    pub machine : Machine World
    pub run : drain k fuel rounds tx m ≡ ret (tx', machine)
    pub coherent : IsCoherent mtu (c.lent machine.world) machine.mem tx'
    pub none_outstanding : tx'.outstanding_tx_frames ≡ 0
    pub none_waiting : tx'.cur_batch_size ≡ 0
    pub none_held : (a : ℕ) → c.lent machine.world a ≡ false
    pub all_sent : tx'.stats.pkts_tx ≡ packets
    pub all_completed : tx'.stats.pkts_tx_completed ≡ packets

  put_batch_none :
      (tx : XskTx) (m : Machine World)
      → tx.cur_batch_size ≡ 0
      → put_batch_on_tx_queue k fuel tx m ≡ ret (tx, m)
  unfolding put_batch_on_tx_queue
  put_batch_none tx m e = ground arith

  -- One round: after the completions and the batch, the loop ends or goes on.
  drain_ends :
      (rounds : ℕ) (tx tx1 tx2 : XskTx) (m m1 m2 : Machine World) (n : ℕ)
      → complete_frames k tx m ≡ ret (n, tx1, m1)
      → put_batch_on_tx_queue k fuel tx1 m1 ≡ ret (tx2, m2)
      → tx2.outstanding_tx_frames ≡ 0
      → drain k fuel (suc rounds) tx m ≡ ret (tx2, m2)
  unfolding drain
  drain_ends rounds tx tx1 tx2 m m1 m2 n done batch e = rw (done, drain) (rw batch (rw (e) refl))

  drain_goes_on :
      (rounds : ℕ) (tx tx1 tx2 : XskTx) (m m1 m2 : Machine World) (n : ℕ)
      → complete_frames k tx m ≡ ret (n, tx1, m1)
      → put_batch_on_tx_queue k fuel tx1 m1 ≡ ret (tx2, m2)
      → (tx2.outstanding_tx_frames == 0) ≡ false
      → drain k fuel (suc rounds) tx m ≡ drain k fuel rounds tx2 m2
  unfolding drain
  drain_goes_on rounds tx tx1 tx2 m m1 m2 n done batch e =
      rw (done, drain) (rw batch (ground (arith, e)))

  -- A round, and the rounds after it where something is outstanding still.
  drain_step :
      (rounds : ℕ) (tx tx1 tx2 : XskTx) (m m1 m2 : Machine World) (n : ℕ)
      → complete_frames k tx m ≡ ret (n, tx1, m1)
      → put_batch_on_tx_queue k fuel tx1 m1 ≡ ret (tx2, m2)
      → IsCoherent mtu (c.lent m2.world) m2.mem tx2
      → IsAccounted tx2
      → tx2.stats.pkts_tx_completed < 2 ^ 64
      → tx2.cur_batch_size ≡ 0
      → (0 < tx2.outstanding_tx_frames → Drains rounds tx2 m2 tx2.stats.pkts_tx)
      → Drains (suc rounds) tx m tx2.stats.pkts_tx
  drain_step rounds tx tx1 tx2 m m1 m2 n done batch v e small none_new go_on =
      elim (ℕ_discrete tx2.outstanding_tx_frames 0) [
        | yes ended ↦ record {
          tx' = tx2;
          machine = m2;
          run = drain_ends rounds tx tx1 tx2 m m1 m2 n done batch ended;
          coherent = v;
          none_outstanding = ended;
          none_waiting = none_new;
          none_held =
              none_lent tx2.frame_size mtu (c.lent m2.world) tx2.tx_frames v.frames
                (omega (arith, v.counted, ended));
          all_sent = refl;
          all_completed = omega (arith, e, ended);
        }
        | no more ↦
            let rest = go_on (omega (arith, more)) in
            record {
              tx' = rest.tx';
              machine = rest.machine;
              run =
                  drain_goes_on rounds tx tx1 tx2 m m1 m2 n done batch (ground (arith, more))
                  ∙ rest.run;
              coherent = rest.coherent;
              none_outstanding = rest.none_outstanding;
              none_waiting = rest.none_waiting;
              none_held = rest.none_held;
              all_sent = rest.all_sent;
              all_completed = rest.all_completed;
            }
      ]

  left : ℕ → World → ℕ
  left outstanding w = outstanding * suc p.patience + p.delay w

  mul-le : (a b q : ℕ) → a ≤ b → a * q ≤ b * q
  mul-le a b q h = grind arith

  left_le :
      (n : ℕ) (tx : XskTx) (w : World)
      → tx.outstanding_tx_frames ≤ n
      → left tx.outstanding_tx_frames w ≤ n * suc p.patience + p.patience
  unfolding left
  left_le n tx w h =
      omega (arith, mul-le tx.outstanding_tx_frames n (suc p.patience) h, p.delay_le w)

  -- The rounds that are left fall with each.
  left-completed :
      (tx : XskTx) (m : Machine World) (v : IsCoherent mtu (c.lent m.world) m.mem tx)
      (done : Completes k lc c mtu tx m)
      → 0 < tx.outstanding_tx_frames
      → left (completed tx done.addrs done.frames).outstanding_tx_frames done.machine.world
        < left tx.outstanding_tx_frames m.world
  unfolding left
  left-completed tx m v done pos =
      let few : on_tx done.frames + length done.addrs ≡ tx.outstanding_tx_frames =
        omega (arith, done.back, v.counted) in
      let now : sub64 tx.outstanding_tx_frames (length done.addrs) ≡ on_tx done.frames =
        done.coherent.counted in
      elim (ℕ_discrete (length done.addrs) 0) [
        | yes none_back ↦
            let (a, held) =
              one_lent tx.frame_size mtu (c.lent m.world) tx.tx_frames v.frames
                (omega (arith, v.counted)) in
            let less =
              p.waits tx.outstanding_tx_frames m a pos held
                (omega (arith, ap length done.took, none_back)) in
            let same : sub64 tx.outstanding_tx_frames (length done.addrs)
                ≡ tx.outstanding_tx_frames =
              omega (arith, now, few, none_back) in
            let rows = ap (λ (o : ℕ). o * suc p.patience) same in
            omega (arith, rows, less, ap p.delay done.released)
        | no some_back ↦
            let row =
              mul-lt (sub64 tx.outstanding_tx_frames (length done.addrs)) tx.outstanding_tx_frames
                (suc p.patience) (omega (arith, now, few, some_back)) in
            omega (arith, row, p.delay_le done.machine.world)
      ]

  drain_rounds :
      (rounds : ℕ) (tx : XskTx) (m : Machine World)
      → IsCoherent mtu (c.lent m.world) m.mem tx
      → IsAccounted tx
      → tx.cur_batch_size ≡ 0
      → left tx.outstanding_tx_frames m.world < rounds
      → Drains rounds tx m tx.stats.pkts_tx
  drain_rounds zero tx m v e none_new enough = absurd (omega arith)
  drain_rounds (suc rounds) tx m v e none_new enough =
      let done = complete_frames-Completes k lc c mtu tx m v in
      let tx1 = completed tx done.addrs done.frames in
      let e1 : IsAccounted tx1 =
        completed-IsAccounted tx done.addrs done.frames (omega (arith, done.back, v.counted))
          (omega (arith, v.counted, on_tx-le tx.tx_frames, few_frames tx v)) e in
      drain_step rounds tx tx1 tx1 m done.machine done.machine (length done.addrs) done.run
        (put_batch_none tx1 done.machine none_new) done.coherent e1 (omega arith) none_new
        (λ more. drain_rounds rounds tx1 done.machine done.coherent e1 none_new (
          omega (
            arith,
            left-completed tx m v done
                (omega (arith, more, done.coherent.counted, done.back, v.counted)),
          )))

  -- The first round hands over the packets that wait, and the others see them completed.
  drain_waiting :
      (rounds : ℕ) (tx : XskTx) (m : Machine World) (v : IsValid c mtu tx m)
      → 0 < tx.cur_batch_size
      → c.refusals m.world < fuel
      → length tx.tx_frames * suc p.patience + p.patience < rounds
      → Drains (suc rounds) tx m (accepted tx)
  drain_waiting rounds tx m v waiting enough enough_rounds =
      let done = complete_frames-Completes k lc c mtu tx m v.coherent in
      let tx1 = completed tx done.addrs done.frames in
      let a =
        completed-IsAligned (c.lent m.world) tx done.addrs done.frames done.same_number v.aligned in
      let s = a.turn * tx.batch_size in
      let pending : IsPending (c.lent done.machine.world) tx1 s = record {
        range =
            batch_range_inside tx1 s (omega (arith, a.aligned)) (sym a.aligned)
              (omega (arith, few_frames tx1 done.coherent, done.coherent.cursor_in));
        inside = omega (arith, a.aligned, done.coherent.cursor_in);
        ours = λ j lo hi. rw (done.lent) (a.ours j lo (omega (arith, a.aligned)));
      } in
      let f =
        put_batch-Flushes k size l c fuel mtu tx1 done.machine s done.coherent pending waiting
          (omega (arith, v.aligned.below, v.batch_le)) (omega (arith, done.refusals)) in
      let tx2 = flushed tx1 s in
      let few2 : tx2.outstanding_tx_frames ≤ length tx.tx_frames = omega (
        arith,
        f.coherent.counted,
        on_tx-le tx2.tx_frames,
        length-update_range queue s tx.cur_batch_size done.frames,
        done.same_number,
      ) in
      let e1 : IsAccounted tx1 =
        completed-IsAccounted tx done.addrs done.frames
          (omega (arith, done.back, v.coherent.counted))
          (omega (arith, v.coherent.counted, on_tx-le tx.tx_frames, few_frames tx v.coherent))
          v.accounted in
      let e2 : IsAccounted tx2 = omega (arith, e1) in
      let left2 : left tx2.outstanding_tx_frames f.machine.world < rounds =
        omega (arith, left_le (length tx.tx_frames) tx2 f.machine.world few2) in
      drain_step rounds tx tx1 tx2 m done.machine f.machine (length done.addrs) done.run f.run
        f.coherent e2 (omega arith) refl
        (λ more. drain_rounds rounds tx2 f.machine f.coherent e2 refl left2)

  -- Under the contract of the rings and of `sendto`, with a kernel whose completion ring is empty
  -- only so many times in a row while it holds a frame, at a valid state, with more fuel than
  -- refusals of the tx ring to come and more rounds than all frames together may have to wait,
  -- `drain` returns: no frame is outstanding, no packet waits and the kernel holds no frame; every
  -- accepted packet was sent and is counted as completed; and the state is coherent.
  pub drain_lem :
      (rounds : ℕ) (tx : XskTx) (m : Machine World)
      → IsValid c mtu tx m
      → c.refusals m.world < fuel
      → length tx.tx_frames * suc p.patience + p.patience + 1 < rounds
      → Drains rounds tx m (accepted tx)
  drain_lem zero tx m v enough enough_rounds = absurd (omega arith)
  drain_lem (suc rounds) tx m v enough enough_rounds = elim (ℕ_discrete tx.cur_batch_size 0) [
    | yes none_new ↦
        let sent : tx.stats.pkts_tx ≡ accepted tx = omega (arith, none_new, v.accounted) in
        subst (Drains (suc rounds) tx m) sent (
          drain_rounds (suc rounds) tx m v.coherent v.accounted none_new (
            omega (
              arith,
              left_le (length tx.tx_frames) tx m.world
                  (omega (arith, v.coherent.counted, on_tx-le tx.tx_frames)),
            )))
    | no waiting ↦ drain_waiting rounds tx m v (omega (arith, waiting)) enough (omega arith)
  ]
