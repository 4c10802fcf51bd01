-- ===== src/Tests/Toy/History.antt =====
-- The small kernel keeps a history of what it was given to send.
use mathlib.Core.List.{append-nil, append_assoc}
use xdpsock.Prelude.{false, ℕ, zero, suc, ◌≡◌, refl, sym, ◌∙◌, inl, inr, List, [], ◌∷◌, ◌++◌, add32}
use xdpsock.Kernel.{Desc}
use xdpsock.Kernel.Stores.{stores}
use xdpsock.Xsk.Tx.Transcript.{Transcript}
use xdpsock.Tests.Toy.{World, toy, completions, tx_reserve_cases, took}

handed-stores :
    (idx : ℕ) (es : List Desc) (w : World) → (stores (toy.tx_ring) idx es w).handed ≡ w.handed ++ es
handed-stores idx [] w = sym (append-nil w.handed)
handed-stores idx (e ∷ es) w =
    handed-stores (add32 idx 1) es (toy.tx_ring.store idx e w) ∙ append_assoc w.handed (e ∷ []) es

handed-took : (n : ℕ) (w : World) → (took n w).handed ≡ w.handed
handed-took zero w = refl
handed-took (suc n) w = refl

unfoldable pub history : Transcript toy
unfolding handed-stores tx_reserve_cases handed-took
history = record {
  handed = λ w. w.handed;
  area = 16;
  granted_handed = λ n es w len all. elim (tx_reserve_cases n w) [
    | inl e ↦ rw e (handed-stores _ es w)
    | inr (b, q, e) ↦ rw e (handed-stores 0 es (record w { busy = b }))
  ];
  refused_handed = λ n w none_free. elim (tx_reserve_cases n w) [
    | inl e ↦ rw e refl
    | inr (b, q, e) ↦ rw e refl
  ];
  released_handed =
      λ n m. handed-took (completions m.world.late n m.world) (record m.world { late = false });
  sendto_handed = λ fd m. refl;
  peek_area = λ n m. refl;
  sendto_area = λ fd m. refl;
}
