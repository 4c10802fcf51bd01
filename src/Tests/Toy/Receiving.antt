-- ===== src/Tests/Toy/Receiving.antt =====
-- The small kernel keeps the contract of the receiving end, for frames of four bytes.
use mathlib.Core.List.{append-nil, append_assoc}
use xdpsock.Xsk.Rx.Fifo.{FifoContract}
use xdpsock.Prelude.{
  ◌++◌, sym, ◌∙◌, inl, inr, ◌*◌, ◌+◌, ℕ, ◌≡◌, refl, true, List, [], ◌∷◌, add32, arith,
}
use xdpsock.Kernel.Stores.{stores}
use xdpsock.Socket.Poll.{poll_read}
use xdpsock.Xsk.Lent.{with_all}
use xdpsock.Xsk.Rx.Contract.{RxContract}
use xdpsock.Xsk.Rx.Refill.{chunk, chunks, FillContract}
use xdpsock.Tests.Toy.{front, arrived_cases, member-remove, World, toy, member}

fills-stores :
    (idx : ℕ) (es : List ℕ) (w : World) (a : ℕ)
    → member a (stores (toy.fill_ring) idx es w).fills
      ≡ with_all (λ b. member b w.fills) (chunks 4 es) a
fills-stores idx [] w a = refl
fills-stores idx (e ∷ es) w a = fills-stores (add32 idx 1) es (toy.fill_ring.store idx e w) a

piece_front : (n : ℕ) → chunk 4 (n * 4 + 1) ≡ n
piece_front n = omega arith

unfoldable pub fill_contract : FillContract toy 4
unfolding poll_read fills-stores
fill_contract = record {
  lent = λ w a. member a w.fills;
  refusals = λ w. 0;
  capacity = 4;
  refused_refusals = λ n w none_free pos le. absurd (ground arith);
  granted_lent = λ n addrs w len all a. fills-stores _ addrs w a;
  refused_lent = λ n w none_free a. refl;
  poll_ok = λ fd timeout m. (true, refl);
  poll_lent = λ fd timeout m a. refl;
  poll_refusals = λ fd timeout m. omega arith;
  poll_mem = λ fd timeout m. refl;
}

-- One packet, in a piece that is held, or none.
unfoldable pub rx_contract : RxContract toy 4
unfolding fill_contract piece_front
rx_contract = record {
  fill = fill_contract;
  taken_AreLent = λ n m. elim (arrived_cases n m.world.queue m.world.fills) [
    | inl (e, held, at) ↦ rw e (rw (piece_front (front m.world.queue)) (held, tt))
    | inr e ↦ rw e tt
  ];
  taken_AllFit = λ n m. elim (arrived_cases n m.world.queue m.world.fills) [
    | inl (e, held, at) ↦ rw e (rw (piece_front (front m.world.queue)) (omega arith, tt))
    | inr e ↦ rw e tt
  ];
  taken_lent = λ n m a. elim (arrived_cases n m.world.queue m.world.fills) [
    | inl (e, held, at) ↦ rw e (
        rw (piece_front (front m.world.queue))
          (member-remove (front m.world.queue) m.world.fills a))
    | inr e ↦ rw e refl
  ];
  taken_refusals = λ n m. omega arith;
  peek_lent = λ n m a none_there. refl;
  peek_refusals = λ n m. omega arith;
  peek_mem = λ n m. refl;
}

queue-stores :
    (idx : ℕ) (es : List ℕ) (w : World)
    → (stores (toy.fill_ring) idx es w).queue ≡ w.queue ++ chunks 4 es
queue-stores idx [] w = sym (append-nil w.queue)
queue-stores idx (e ∷ es) w =
    queue-stores (add32 idx 1) es (toy.fill_ring.store idx e w)
    ∙ append_assoc w.queue (chunk 4 e ∷ []) (chunks 4 es)

unfoldable pub fifo : FifoContract rx_contract
unfolding rx_contract fill_contract poll_read queue-stores piece_front
fifo = record {
  order = λ w. w.queue;
  taken_order = λ n m. elim (arrived_cases n m.world.queue m.world.fills) [
    | inl (e, held, at) ↦ rw e (rw (piece_front (front m.world.queue)) at)
    | inr e ↦ rw e refl
  ];
  peek_order = λ n m none_there. refl;
  poll_order = λ fd timeout m. refl;
  granted_order = λ n es w len all. queue-stores _ es w;
  refused_order = λ n w none_free. refl;
  peek_bytes = λ n m p a b lo le hi free. refl;
  poll_bytes = λ fd timeout m p a b lo le hi free. refl;
}
