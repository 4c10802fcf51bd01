-- ===== src/Xsk/Tx/Produce.antt =====
-- The loop that puts a batch on the tx queue ends, and lends the batch to the kernel.
use mathlib.Core.Path.{fun_ext, subst}
use xdpsock.Prelude.{
  ℕ, zero, suc, ◌≤◌, ◌<◌, ◌≡◌, refl, sym, ap, ◌∙◌, ◌⊎◌, inl, inr, List, [], ◌∷◌, map, ret, Result,
  ok, length, length-map, ==_refl, zero-==_pos, arith,
}
use xdpsock.Kernel.{Kernel, Machine}
use xdpsock.Kernel.Stores.{stores}
use xdpsock.Kernel.Laws.{IsProdRing}
use xdpsock.Umem.Frame.{Frame}
use xdpsock.Socket.TxQueue
use xdpsock.Socket.TxQueue.{TxQueue, tx_desc}
use xdpsock.Socket.TxQueue.Publish.{produce_granted, produce_refused, tx_descs}
use xdpsock.Xsk.Tx.{produce_all}
use xdpsock.Xsk.Lent.{with_all}
use xdpsock.Xsk.Tx.Lent.{TxContract}

abbrev pub addrs : List Frame → List ℕ
addrs = map λ f. f.addr

addrs-tx_descs :
    (k : Kernel) (frames : List Frame) → map (λ e. e.addr) (tx_descs k frames) ≡ addrs frames
addrs-tx_descs k [] = refl
addrs-tx_descs k (f ∷ frames) = ap (◌∷◌ f.addr) (addrs-tx_descs k frames)

module _ (k : Kernel) (size : ℕ) (l : IsProdRing k.tx_ring size) (c : TxContract k) where
  open k use {World, tx_ring}

  -- What one attempt comes to: the whole batch, or nothing and one refusal fewer to come.
  data Attempt (frames : List Frame) (m : Machine World) (r : Result ℕ ℕ) (m' : Machine World)
      : Type 0 where
    granted :
        r ≡ ok (length frames)
        → c.lent m'.world ≡ with_all (c.lent m.world) (addrs frames)
        → length m'.mem ≡ length m.mem
        → Attempt frames m r m'
    refused :
        r ≡ ok 0
        → c.lent m'.world ≡ c.lent m.world
        → c.refusals m'.world < c.refusals m.world
        → length m'.mem ≡ length m.mem
        → Attempt frames m r m'

  pub produce_and_wakeup_cases :
      (q : TxQueue) (frames : List Frame) (m : Machine World) (n : ℕ) (w : World)
      → TxQueue.produce k frames m.world ≡ (n, w)
      → (TxQueue.produce_and_wakeup k q frames m ≡ (ok n, record m { world = w }))
        ⊎ (TxQueue.produce_and_wakeup k q frames m
            ≡ (ok n, (k.sendto q.fd.id (record m { world = w })).1))
  unfolding TxQueue.produce_and_wakeup TxQueue.wakeup
  produce_and_wakeup_cases q frames m n w e =
      rw (e, TxQueue.produce_and_wakeup) (ground (arith, c.wakeup_ok q (record m { world = w })))

  sendto-Attempt :
      (fd : ℕ) (frames : List Frame) (m : Machine World) (r : Result ℕ ℕ) (m' : Machine World)
      → Attempt frames m r m'
      → Attempt frames m r (k.sendto fd m').1
  sendto-Attempt fd frames m r m' (granted e lent mem) =
      granted e (fun_ext (λ a. c.sendto_lent fd m' a) ∙ lent) (c.sendto_mem fd m' ∙ mem)
  sendto-Attempt fd frames m r m' (refused e lent fewer mem) =
      refused e (fun_ext (λ a. c.sendto_lent fd m' a) ∙ lent)
        (omega (arith, c.sendto_refusals fd m')) (c.sendto_mem fd m' ∙ mem)

  -- Waking the kernel up, or not, changes none of this.
  woken :
      (q : TxQueue) (frames : List Frame) (m : Machine World) (n : ℕ) (w : World)
      → TxQueue.produce k frames m.world ≡ (n, w)
      → Attempt frames m (ok n) (record m { world = w })
      → let (r, m') = TxQueue.produce_and_wakeup k q frames m in Attempt frames m r m'
  woken q frames m n w e attempt = elim (produce_and_wakeup_cases q frames m n w e) [
    | inl same ↦ subst (λ p. Attempt frames m p.0 p.1) (sym same) attempt
    | inr sent ↦
        subst (λ p. Attempt frames m p.0 p.1) (sym sent)
          (sendto-Attempt q.fd.id frames m (ok n) (record m { world = w }) attempt)
  ]

  grant :
      (w : World) (frames : List Frame)
      → let (g, w') = tx_ring.reserve (length frames) w in
        g.count ≡ length frames
        → (a : ℕ)
        → c.lent (tx_ring.submit g.count (stores tx_ring g.start (tx_descs k frames) w')) a
          ≡ with_all (c.lent w) (addrs frames) a
  grant w frames all a =
      c.granted_lent (length frames) (tx_descs k frames) w (sym (length-map tx_desc frames)) all a
      ∙ ap (λ xs. with_all (c.lent w) xs a) (addrs-tx_descs k frames)

  attempt_lem :
      (q : TxQueue) (frames : List Frame) (m : Machine World)
      → 0 < length frames
      → length frames ≤ c.capacity
      → let (r, m') = TxQueue.produce_and_wakeup k q frames m in Attempt frames m r m'
  attempt_lem q frames m pos le = elim (l.reserve_all_or_none (length frames) m.world) [
    | inl all ↦
        woken q frames m _ _ (produce_granted k frames m.world all pos)
          (granted (ap ok all) (fun_ext (λ a. grant m.world frames all a)) refl)
    | inr none_free ↦ woken q frames m _ _ (produce_refused k frames m.world none_free pos) (
        refused refl (fun_ext λ a. c.refused_lent (length frames) m.world none_free a)
          (c.refused_refusals (length frames) m.world none_free pos le) refl)
  ]

  -- With more fuel than refusals to come, the loop ends with the whole batch lent.
  pub produce_all_lem :
      (fuel : ℕ) (q : TxQueue) (frames : List Frame) (m : Machine World)
      → 0 < length frames
      → length frames ≤ c.capacity
      → c.refusals m.world < fuel
      → (m' : Machine World) × (produce_all k fuel q frames (length frames) m ≡ ret m')
        × (c.lent m'.world ≡ with_all (c.lent m.world) (addrs frames))
        × (length m'.mem ≡ length m.mem)
  unfolding produce_all
  produce_all_lem zero q frames m pos le h = absurd (omega arith)
  produce_all_lem (suc fuel) q frames m pos le h = elim (attempt_lem q frames m pos le) [
    | granted e lent mem ↦ (_, rw (e, produce_all) (rw (==_refl (length frames))), lent, mem)
    | refused e lent fewer mem ↦
        let (m', run, lent', mem') =
          produce_all_lem fuel q frames (TxQueue.produce_and_wakeup k q frames m).1 pos le
            (omega arith) in
        (
          m',
          rw (e, produce_all) (rw (zero-==_pos (length frames) pos) run),
          lent' ∙ ap (λ x. with_all x (addrs frames)) lent,
          mem' ∙ mem,
        )
  ]
