-- ===== src/Tests/Toy/Sending.antt =====
-- The small kernel keeps the contract of the transmit end, and is prompt.
use xdpsock.Prelude.{
  ℕ, zero, suc, ◌≡◌, refl, ap, ◌⊎◌, inl, inr, Bool, true, false, List, [], ◌∷◌, map, length, add32,
  if◌then◌else◌, arith,
}
use xdpsock.Kernel.{Desc}
use xdpsock.Kernel.Stores.{stores}
use xdpsock.Umem.CompQueue.Consume.{length-entries}
use xdpsock.Socket.TxQueue
use xdpsock.Xsk.Lent.{with_all}
use xdpsock.Xsk.Tx.Lent.{TxContract}
use xdpsock.Xsk.Tx.Prompt.{IsPrompt}
use xdpsock.Tests.Toy.{
  World, toy, completions, tx_reserve, tx_reserve_cases, member, member-remove, front, ready_cases,
}

sent-stores :
    (idx : ℕ) (es : List Desc) (w : World) (a : ℕ)
    → member a (stores (toy.tx_ring) idx es w).sent
      ≡ with_all (λ b. member b w.sent) (map (λ e. e.addr) es) a
sent-stores idx [] w a = refl
sent-stores idx (e ∷ es) w a = sent-stores (add32 idx 1) es (toy.tx_ring.store idx e w) a

granted :
    (n : ℕ) (es : List Desc) (w : World)
    → n ≡ length es
    → let (g, w') = tx_reserve n w.busy w in
      g.count ≡ n
      → (a : ℕ)
      → member a (toy.tx_ring.submit g.count (stores (toy.tx_ring) g.start es w')).sent
        ≡ with_all (λ b. member b w.sent) (map (λ e. e.addr) es) a
granted n es w len = go w.busy
  where
    go :
        (b : ℕ)
        → let (g, w') = tx_reserve n b w in
          g.count ≡ n
          → (a : ℕ)
          → member a (toy.tx_ring.submit g.count (stores (toy.tx_ring) g.start es w')).sent
            ≡ with_all (λ b. member b w.sent) (map (λ e. e.addr) es) a
    go zero all a = sent-stores _ es w a
    go (suc b) all a = sent-stores 0 es (record w { busy = b }) a

-- One completion, of a frame that is held, or none: then the ring is late, or nothing is held.
taken_cases :
    (n : ℕ) (w : World)
    → ((completions w.late n w ≡ 1) × (member (front w.sent) w.sent ≡ true))
      ⊎ ((completions w.late n w ≡ 0) × ((w.late ≡ true) ⊎ (n ≡ 0) ⊎ (w.sent ≡ [])))
taken_cases n w = go w.late refl
  where
    go :
        (late : Bool)
        → w.late ≡ late
        → ((completions late n w ≡ 1) × (member (front w.sent) w.sent ≡ true))
          ⊎ ((completions late n w ≡ 0) × ((w.late ≡ true) ⊎ (n ≡ 0) ⊎ (w.sent ≡ [])))
    go true h = inr (refl, inl h)
    go false h = elim (ready_cases n w.sent) [ inl one ↦ inl one | inr (e, why) ↦ inr (e, inr why) ]

unfoldable pub contract : TxContract toy
unfolding TxQueue.wakeup sent-stores taken_cases granted tx_reserve_cases
contract = record {
  lent = λ w a. member a w.sent;
  refusals = λ w. w.busy;
  capacity = 4;
  completed_AreLent =
      λ n m. elim (taken_cases n m.world) [ inl (e, h) ↦ rw e (h, tt) | inr (e, why) ↦ rw e tt ];
  release_lent = λ n m a. elim (taken_cases n m.world) [
    | inl (e, h) ↦ rw e (member-remove (front m.world.sent) m.world.sent a)
    | inr (e, why) ↦ rw e refl
  ];
  peek_mem = λ n m. refl;
  release_refusals = λ n m. elim (taken_cases n m.world) [
    | inl (e, h) ↦ rw e (omega arith)
    | inr (e, why) ↦ rw e (omega arith)
  ];
  granted_lent = granted;
  refused_lent = λ n w none_free a. elim (tx_reserve_cases n w) [
    | inl e ↦ rw e refl
    | inr (b, q, e) ↦ rw e refl
  ];
  refused_refusals = λ n w none_free pos le. elim (tx_reserve_cases n w) [
    | inl e ↦ absurd (ground arith)
    | inr (b, q, e) ↦ rw e (omega (arith, q))
  ];
  sendto_lent = λ fd m a. refl;
  sendto_refusals = λ fd m. omega arith;
  sendto_mem = λ fd m. refl;
  wakeup_ok = λ q m. refl;
}

-- The completion ring is empty at most once in a row.
unfoldable pub prompt : IsPrompt contract
unfolding contract taken_cases
prompt = record {
  patience = 1;
  delay = λ w. if w.late then 1 else 0;
  delay_le = λ w. ground arith;
  waits = λ n m a pos held none_back. elim (taken_cases n m.world) [
    | inl (e, h) ↦ absurd (
        omega (
          arith,
          e,
          length-entries toy (completions m.world.late n m.world) 0 0
              (record m.world { late = false }),
          none_back,
        ))
    | inr (e, inl late) ↦ rw (e, late) (omega arith)
    | inr (e, inr (inl none_wanted)) ↦ absurd (omega (arith, none_wanted, pos))
    | inr (e, inr (inr none_held)) ↦ absurd (ground (arith, ap (member a) none_held, held))
  ];
}
