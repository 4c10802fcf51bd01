-- ===== src/Xsk/Tx/Transcript.antt =====
-- What the kernel was given to send, as a history, and which bytes the kernel leaves alone.
use xdpsock.Prelude.{
  ℕ, zero, suc, ◌<◌, ◌≡◌, refl, sym, ap, ◌∙◌, inl, inr, List, ◌++◌, ret, ret-injective, Result, ok,
  length, take, length-map, ==_refl, zero-==_pos,
}
use mathlib.Core.Path.{subst}
use xdpsock.Kernel.{Kernel, Machine, Desc}
use xdpsock.Kernel.Stores.{stores}
use xdpsock.Kernel.Laws.{IsProdRing}
use xdpsock.Umem.Frame.{Frame}
use xdpsock.Socket.TxQueue
use xdpsock.Socket.TxQueue.{TxQueue, tx_desc}
use xdpsock.Socket.TxQueue.Publish.{produce_granted, produce_refused, tx_descs}
use xdpsock.Xsk.Tx.{produce_all}
use xdpsock.Xsk.Tx.Lent.{TxContract}
use xdpsock.Xsk.Tx.Produce.{produce_and_wakeup_cases}

-- `handed` is the history of the descriptors that were submitted on the tx ring, oldest first: what
-- is stored under a grant and submitted joins it in order, and nothing else does. The first `area`
-- bytes of the UMEM belong to the transmit end: the kernel reads them only.
pub record Transcript (k : Kernel) : Type 0 where
  pub handed : k.World → List Desc
  pub area : ℕ
  pub granted_handed :
      (n : ℕ) (es : List Desc) (w : k.World)
      → n ≡ length es
      → let (g, w') = k.tx_ring.reserve n w in
        g.count ≡ n
        → handed (k.tx_ring.submit g.count (stores k.tx_ring g.start es w')) ≡ handed w ++ es
  pub refused_handed :
      (n : ℕ) (w : k.World)
      → (k.tx_ring.reserve n w).0.count ≡ 0
      → handed (k.tx_ring.reserve n w).1 ≡ handed w
  pub released_handed :
      (n : ℕ) (m : Machine k.World)
      → let (g, m') = k.comp_ring.peek n m in
        handed (k.comp_ring.release g.count m'.world) ≡ handed m.world
  pub sendto_handed :
      (fd : ℕ) (m : Machine k.World) → handed (k.sendto fd m).1.world ≡ handed m.world
  pub peek_area :
      (n : ℕ) (m : Machine k.World) → take area (k.comp_ring.peek n m).1.mem ≡ take area m.mem
  pub sendto_area :
      (fd : ℕ) (m : Machine k.World) → take area (k.sendto fd m).1.mem ≡ take area m.mem

module _ (k : Kernel) (size : ℕ) (l : IsProdRing k.tx_ring size) (c : TxContract k)
    (t : Transcript k) where
  open k use {World}

  -- The transcript after one attempt to put a batch on the tx ring.
  data Entered (frames : List Frame) (m : Machine World) (r : Result ℕ ℕ) (m' : Machine World)
      : Type 0 where
    entered :
        r ≡ ok (length frames)
        → t.handed m'.world ≡ t.handed m.world ++ tx_descs k frames
        → take t.area m'.mem ≡ take t.area m.mem
        → Entered frames m r m'
    left :
        r ≡ ok 0
        → t.handed m'.world ≡ t.handed m.world
        → take t.area m'.mem ≡ take t.area m.mem
        → Entered frames m r m'

  sendto-Entered :
      (fd : ℕ) (frames : List Frame) (m : Machine World) (r : Result ℕ ℕ) (m' : Machine World)
      → Entered frames m r m'
      → Entered frames m r (k.sendto fd m').1
  sendto-Entered fd frames m r m' (entered e joined kept) =
      entered e (t.sendto_handed fd m' ∙ joined) (t.sendto_area fd m' ∙ kept)
  sendto-Entered fd frames m r m' (left e same kept) =
      left e (t.sendto_handed fd m' ∙ same) (t.sendto_area fd m' ∙ kept)

  woken :
      (q : TxQueue) (frames : List Frame) (m : Machine World) (n : ℕ) (w : World)
      → TxQueue.produce k frames m.world ≡ (n, w)
      → Entered frames m (ok n) (record m { world = w })
      → let (r, m') = TxQueue.produce_and_wakeup k q frames m in Entered frames m r m'
  woken q frames m n w e found = elim (produce_and_wakeup_cases k size l c q frames m n w e) [
    | inl same ↦ subst (λ p. Entered frames m p.0 p.1) (sym same) found
    | inr sent ↦
        subst (λ p. Entered frames m p.0 p.1) (sym sent)
          (sendto-Entered q.fd.id frames m (ok n) (record m { world = w }) found)
  ]

  attempt-Entered :
      (q : TxQueue) (frames : List Frame) (m : Machine World)
      → 0 < length frames
      → let (r, m') = TxQueue.produce_and_wakeup k q frames m in Entered frames m r m'
  attempt-Entered q frames m pos = elim (l.reserve_all_or_none (length frames) m.world) [
    | inl all ↦ woken q frames m _ _ (produce_granted k frames m.world all pos) (
        entered (ap ok all)
          (t.granted_handed (length frames) (tx_descs k frames) m.world
            (sym (length-map tx_desc frames)) all)
          refl)
    | inr none_free ↦
        woken q frames m _ _ (produce_refused k frames m.world none_free pos)
          (left refl (t.refused_handed (length frames) m.world none_free) refl)
  ]

  -- Where the loop ends, exactly the batch has joined the transcript.
  pub produce_all-handed :
      (fuel : ℕ) (q : TxQueue) (frames : List Frame) (m m' : Machine World)
      → 0 < length frames
      → produce_all k fuel q frames (length frames) m ≡ ret m'
      → (t.handed m'.world ≡ t.handed m.world ++ tx_descs k frames)
        × (take t.area m'.mem ≡ take t.area m.mem)
  unfolding produce_all
  produce_all-handed zero q frames m m' pos run = cc
  produce_all-handed (suc fuel) q frames m m' pos run = elim (attempt-Entered q frames m pos) [
    | entered e joined kept ↦
        let ends : produce_all k (suc fuel) q frames (length frames) m
            ≡ ret (TxQueue.produce_and_wakeup k q frames m).1 =
          rw (e, produce_all) (rw (==_refl (length frames)) refl) in
        subst
          (λ (x : Machine World).
            (t.handed x.world ≡ t.handed m.world ++ tx_descs k frames)
            × (take t.area x.mem ≡ take t.area m.mem))
          (ret-injective (sym ends ∙ run)) (joined, kept)
    | left e same kept ↦
        let again : produce_all k (suc fuel) q frames (length frames) m
            ≡ produce_all k fuel q frames (length frames)
                (TxQueue.produce_and_wakeup k q frames m).1 =
          rw (e, produce_all) (rw (zero-==_pos (length frames) pos) refl) in
        let (joined, kept') =
          produce_all-handed fuel q frames (TxQueue.produce_and_wakeup k q frames m).1 m' pos
            (sym again ∙ run) in
        (joined ∙ ap (λ ds. ds ++ tx_descs k frames) same, kept' ∙ kept)
  ]
