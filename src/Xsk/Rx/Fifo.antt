-- ===== src/Xsk/Rx/Fifo.antt =====
-- The order in which the kernel uses the receive frames, and which bytes it leaves alone.

use mathlib.Core.Path.{subst, fun_ext}
use xdpsock.Prelude.{
  ℕ, zero, suc, ◌+◌, ◌*◌, ◌≤◌, ◌<◌, ◌≡◌, refl, sym, ap, ◌∙◌, inl, inr, false, Bool-cases, List,
  ◌++◌, ret, ret-injective, Result, ok, length, length-map, slice, ==_refl, zero-==_pos,
}
use xdpsock.Kernel.{Kernel, Machine, Desc}
use xdpsock.Kernel.Laws.{IsConsRing, IsProdRing}
use xdpsock.Kernel.Stores.{stores}
use xdpsock.Umem.Frame.{Frame}
use xdpsock.Umem.FillQueue
use xdpsock.Umem.FillQueue.Publish.{addrs, produce_granted, produce_refused}
use xdpsock.Socket.Poll.{Fd, poll_read}
use xdpsock.Socket.RxQueue.Consume.{taken, after_taken}
use xdpsock.Xsk.Lent.{Lent, with_all, with_all-true, without_all-le}
use xdpsock.Xsk.Rx.{refill}
use xdpsock.Xsk.Rx.Refill.{chunks, woken_cases}
use xdpsock.Xsk.Rx.Frames.{pieces}
use xdpsock.Xsk.Rx.Contract.{RxContract, Looks, begin, polled, saw_none, consumed}

-- Bytes within one piece that is not lent are the same in both memories.
abbrev pub Spares : ℕ → Lent → List ℕ → List ℕ → Type 0
Spares fs lent mem mem' =
    (p a b : ℕ)
    → p * fs ≤ a
    → a ≤ b
    → b ≤ p * fs + fs
    → lent p ≡ false
    → slice mem' a b ≡ slice mem a b

unlent_before :
    (lent : Lent) (addrs : List ℕ) (a : ℕ) → with_all lent addrs a ≡ false → lent a ≡ false
unlent_before lent addrs a h = elim (Bool-cases (lent a)) [
  | inl held ↦ absurd (cc (with_all-true lent addrs a held, h))
  | inr free ↦ free
]

-- The kernel receives packets into the pieces on the fill ring in the order in which they were put
-- there, and gives them back in that order; `order` are those that it holds. It writes to no other
-- piece.
pub record FifoContract {k : Kernel} {frame_size : ℕ} (c : RxContract k frame_size) : Type 0 where
  pub order : k.World → List ℕ
  pub taken_order :
      (n : ℕ) (m : Machine k.World)
      → order m.world ≡ pieces frame_size (taken k n m) ++ order (after_taken k n m).world
  pub peek_order :
      (n : ℕ) (m : Machine k.World)
      → (k.rx_ring.peek n m).0.count ≡ 0
      → order (k.rx_ring.peek n m).1.world ≡ order m.world
  pub poll_order :
      (fd : Fd) (timeout : ℕ) (m : Machine k.World)
      → order (poll_read k fd timeout m).1.world ≡ order m.world
  pub granted_order :
      (n : ℕ) (es : List ℕ) (w : k.World)
      → n ≡ length es
      → let (g, w') = k.fill_ring.reserve n w in
        g.count ≡ n
        → order (k.fill_ring.submit g.count (stores k.fill_ring g.start es w'))
          ≡ order w ++ chunks frame_size es
  pub refused_order :
      (n : ℕ) (w : k.World)
      → (k.fill_ring.reserve n w).0.count ≡ 0
      → order (k.fill_ring.reserve n w).1 ≡ order w
  pub peek_bytes :
      (n : ℕ) (m : Machine k.World)
      → Spares frame_size (c.fill.lent m.world) m.mem (k.rx_ring.peek n m).1.mem
  pub poll_bytes :
      (fd : Fd) (timeout : ℕ) (m : Machine k.World)
      → Spares frame_size (c.fill.lent m.world) m.mem (poll_read k fd timeout m).1.mem

module _ (k : Kernel) {frame_size : ℕ} (c : RxContract k frame_size) (o : FifoContract c) where
  open k use {World}

  module _ (lc : IsConsRing k.rx_ring) where
    -- What a look at the rx ring does to the order, to the loans and to the bytes.
    pub record Sees (m m' : Machine World) (descs : List Desc) : Type 0 where
      pub order : o.order m.world ≡ pieces frame_size descs ++ o.order m'.world
      pub unlent : (p : ℕ) → c.fill.lent m.world p ≡ false → c.fill.lent m'.world p ≡ false
      pub bytes : Spares frame_size (c.fill.lent m.world) m.mem m'.mem

    pub Looks-Sees :
        {m m' : Machine World} {descs : List Desc} → Looks k lc c m m' descs → Sees m m' descs
    Looks-Sees begin = record {
      order = refl;
      unlent = λ p h. h;
      bytes = λ p a b lo le hi free. refl;
    }
    Looks-Sees (polled {m'} {descs} s fd timeout) =
        let seen = Looks-Sees s in
        record {
          order =
              seen.order
              ∙ ap (λ x. pieces frame_size descs ++ x) (sym (o.poll_order fd timeout m'));
          unlent = λ p h. c.fill.poll_lent fd timeout m' p ∙ seen.unlent p h;
          bytes = λ p a b lo le hi free.
              o.poll_bytes fd timeout m' p a b lo le hi (seen.unlent p free)
              ∙ seen.bytes p a b lo le hi free;
        }
    Looks-Sees (saw_none {m'} s n none_there) =
        let seen = Looks-Sees s in
        record {
          order = seen.order ∙ sym (o.peek_order n m' none_there);
          unlent = λ p h. c.peek_lent n m' p none_there ∙ seen.unlent p h;
          bytes = λ p a b lo le hi free.
              o.peek_bytes n m' p a b lo le hi (seen.unlent p free)
              ∙ seen.bytes p a b lo le hi free;
        }
    Looks-Sees (consumed {m'} s n) =
        let seen = Looks-Sees s in
        record {
          order = seen.order ∙ o.taken_order n m';
          unlent = λ p h.
              c.taken_lent n m' p
              ∙ without_all-le (c.fill.lent m'.world) (pieces frame_size (taken k n m')) p
                  (seen.unlent p h);
          bytes = λ p a b lo le hi free.
              o.peek_bytes n m' p a b lo le hi (seen.unlent p free)
              ∙ seen.bytes p a b lo le hi free;
        }

  module _ (size : ℕ) (l : IsProdRing k.fill_ring size) where
    abbrev numbers : List Frame → List ℕ
    numbers descs = chunks frame_size (addrs k descs)

    -- One attempt to lend frames again: they join the order, or nothing changes.
    data Refilled (descs : List Frame) (m : Machine World) (r : Result ℕ ℕ) (m' : Machine World)
        : Type 0 where
      joined :
          r ≡ ok (length descs)
          → o.order m'.world ≡ o.order m.world ++ numbers descs
          → Spares frame_size (with_all (c.fill.lent m.world) (numbers descs)) m.mem m'.mem
          → Refilled descs m r m'
      left :
          r ≡ ok 0
          → o.order m'.world ≡ o.order m.world
          → c.fill.lent m'.world ≡ c.fill.lent m.world
          → Spares frame_size (c.fill.lent m.world) m.mem m'.mem
          → Refilled descs m r m'

    poll-Refilled :
        (fd : Fd) (timeout : ℕ) (descs : List Frame) (m : Machine World) (w : World)
        (r : Result ℕ ℕ)
        → ((a : ℕ)
            → with_all (c.fill.lent m.world) (numbers descs) a ≡ false
            → c.fill.lent w a ≡ false)
        → Refilled descs m r (record m { world = w })
        → Refilled descs m r (poll_read k fd timeout (record m { world = w })).1
    poll-Refilled fd timeout descs m w r less (joined e order bytes) =
        joined e (o.poll_order fd timeout (record m { world = w }) ∙ order) (λ p a b lo le hi free.
          o.poll_bytes fd timeout (record m { world = w }) p a b lo le hi (less p free))
    poll-Refilled fd timeout descs m w r less (left e order lent bytes) =
        left e (o.poll_order fd timeout (record m { world = w }) ∙ order)
          (fun_ext (λ a. c.fill.poll_lent fd timeout (record m { world = w }) a) ∙ lent)
          (λ p a b lo le hi free.
            o.poll_bytes fd timeout (record m { world = w }) p a b lo le hi
              (ap (λ x. x p) lent ∙ free))

    woken :
        (fd : Fd) (timeout : ℕ) (descs : List Frame) (m : Machine World) (n : ℕ) (w : World)
        → ((a : ℕ)
            → with_all (c.fill.lent m.world) (numbers descs) a ≡ false
            → c.fill.lent w a ≡ false)
        → FillQueue.produce k descs m.world ≡ (n, w)
        → Refilled descs m (ok n) (record m { world = w })
        → let (r, m') = FillQueue.produce_and_wakeup k descs fd timeout m in Refilled descs m r m'
    woken fd timeout descs m n w less e found =
        elim (woken_cases k size l c.fill descs fd timeout m n w e) [
          | inl same ↦ subst (λ p. Refilled descs m p.0 p.1) (sym same) found
          | inr answered ↦
              subst (λ p. Refilled descs m p.0 p.1) (sym answered)
                (poll-Refilled fd timeout descs m w (ok n) less found)
        ]

    attempt-Refilled :
        (fd : Fd) (timeout : ℕ) (descs : List Frame) (m : Machine World)
        → 0 < length descs
        → let (r, m') = FillQueue.produce_and_wakeup k descs fd timeout m in Refilled descs m r m'
    attempt-Refilled fd timeout descs m pos =
        let number = sym (length-map (λ (f : Frame). f.addr) descs) in
        elim (l.reserve_all_or_none (length descs) m.world) [
          | inl all ↦
              woken fd timeout descs m _ _
                (λ a free.
                  c.fill.granted_lent (length descs) (addrs k descs) m.world number all a ∙ free)
                (produce_granted k descs m.world all pos)
                (joined (ap ok all)
                  (o.granted_order (length descs) (addrs k descs) m.world number all)
                  (λ p a b lo le hi free. refl))
          | inr none_free ↦
              let same = c.fill.refused_lent (length descs) m.world none_free in
              woken fd timeout descs m _ _
                (λ a free. same a ∙ unlent_before (c.fill.lent m.world) (numbers descs) a free)
                (produce_refused k descs m.world none_free pos)
                (left refl (o.refused_order (length descs) m.world none_free) (fun_ext same)
                  (λ p a b lo le hi free. refl))
        ]

    -- Where the loop ends, the frames stand at the end of the order.
    pub refill-order :
        (fuel : ℕ) (fd : Fd) (timeout : ℕ) (descs : List Frame) (m m' : Machine World)
        → 0 < length descs
        → refill k fuel fd timeout descs (length descs) m ≡ ret m'
        → (o.order m'.world ≡ o.order m.world ++ chunks frame_size (addrs k descs))
          × Spares frame_size
              (with_all (c.fill.lent m.world) (chunks frame_size (addrs k descs)))
              m.mem
              m'.mem
    unfolding refill
    refill-order zero fd timeout descs m m' pos run = cc
    refill-order (suc fuel) fd timeout descs m m' pos run =
        let m1 = (FillQueue.produce_and_wakeup k descs fd timeout m).1 in
        elim (attempt-Refilled fd timeout descs m pos) [
          | joined e order bytes ↦
              let ends : refill k (suc fuel) fd timeout descs (length descs) m ≡ ret m1 =
                rw (e, refill) (rw (==_refl (length descs)) refl) in
              subst
                (λ (x : Machine World).
                  (o.order x.world ≡ o.order m.world ++ numbers descs)
                  × Spares frame_size (with_all (c.fill.lent m.world) (numbers descs)) m.mem x.mem)
                (ret-injective (sym ends ∙ run)) (order, bytes)
          | left e order lent bytes ↦
              let again : refill k (suc fuel) fd timeout descs (length descs) m
                  ≡ refill k fuel fd timeout descs (length descs) m1 =
                rw (e, refill) (rw (zero-==_pos (length descs) pos) refl) in
              let (order', bytes') =
                refill-order fuel fd timeout descs m1 m' pos (sym again ∙ run) in
              (
                order' ∙ ap (λ x. x ++ numbers descs) order,
                λ p a b lo le hi free.
                    bytes' p a b lo le hi (ap (λ x. with_all x (numbers descs) p) lent ∙ free)
                    ∙ bytes p a b lo le hi
                        (unlent_before (c.fill.lent m.world) (numbers descs) p free),
              )
        ]
