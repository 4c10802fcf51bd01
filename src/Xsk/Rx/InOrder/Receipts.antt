-- ===== src/Xsk/Rx/InOrder/Receipts.antt =====
-- Any sequence of calls of `recv`, with anything between them that leaves the receiving end alone.
use mathlib.Core.Path.{subst, fun_ext, ap₂}
use mathlib.Core.List.{append-nil, append_assoc}
use xdpsock.Prelude.{
  ℕ, ◌+◌, ◌-◌, ◌*◌, ◌≤◌, ◌<◌, ◌≡◌, refl, sym, ap, ◌∙◌, inl, inr, false, List, [], ◌∷◌, ◌++◌, map,
  ret, ret-injective, length, take, slice, splice, slice-splice_zero, ◌==◌, pos-==_zero,
  if◌then◌else◌, arith,
}
use xdpsock.Kernel.{Kernel, Machine}
use xdpsock.Kernel.Laws.{IsConsRing, IsProdRing}
use xdpsock.Xsk.Rx.{XskRx, recv, check_rx}
use xdpsock.Xsk.Rx.Apply.{packet}
use xdpsock.Xsk.Rx.Frames.{AreFrames}
use xdpsock.Xsk.Rx.Contract.{RxContract}
use xdpsock.Xsk.Rx.Valid.{IsValid}
use xdpsock.Xsk.Rx.Fifo.{FifoContract}
use xdpsock.Xsk.Rx.InOrder.{InOrder, base_of, base_of_lem, content-same}
use xdpsock.Xsk.Rx.InOrder.Delivery.{recv-Dequeues, Served}

-- What the caller gets: the packet at the front of the buffer, or nothing where the length is 0.
abbrev pub given : ℕ → List ℕ → List (List ℕ)
given len bytes = if len == 0 then [] else take len bytes ∷ []

abbrev pub AreSome : List (List ℕ) → Type 0
AreSome [] = Unit {0}
AreSome (p ∷ ps) = (0 < length p) × AreSome ps

AreSome-append : (ps qs : List (List ℕ)) → AreSome ps → AreSome qs → AreSome (ps ++ qs)
AreSome-append [] qs h h' = h'
AreSome-append (p ∷ ps) qs h h' = (h.0, AreSome-append ps qs h.1 h')

given_lem :
    (pkt_receiver p : List ℕ) (len : ℕ) (bytes : List ℕ)
    → len ≡ length p
    → 0 < len
    → len ≤ length pkt_receiver
    → bytes ≡ splice pkt_receiver 0 p
    → given len bytes ≡ p ∷ []
given_lem pkt_receiver p len bytes number pos fits written = rw (pos-==_zero len pos) (
    ap (λ x. x ∷ [])
      (ap₂ take number written
        ∙ ap (λ n. take n (splice pkt_receiver 0 p)) {x = length p} {y = length p - 0} (omega arith)
        ∙ slice-splice_zero pkt_receiver p (omega (arith, number, fits))))

module _ (k : Kernel) (size : ℕ) (l : IsProdRing k.fill_ring size) (lc : IsConsRing k.rx_ring)
    {frame_size : ℕ} (c : RxContract k frame_size) (o : FifoContract c) where
  open k use {World}

  -- The machine moves, by the kernel or through the sending half; the receive frames, from piece
  -- `base` on, that the kernel does not hold, and what it holds in which order are as they were.
  pub record LeavesRx (base : ℕ) (m m' : Machine World) : Type 0 where
    pub lent : (a : ℕ) → c.fill.lent m'.world a ≡ c.fill.lent m.world a
    pub order : o.order m'.world ≡ o.order m.world
    pub bytes :
        (p a b : ℕ)
        → base ≤ p
        → p * frame_size ≤ a
        → a ≤ b
        → b ≤ p * frame_size + frame_size
        → c.fill.lent m.world p ≡ false
        → slice m'.mem a b ≡ slice m.mem a b
    pub mapped : length m'.mem ≡ length m.mem

  -- The states that a sequence of calls of `recv` reaches, with the packets that the looks at the rx
  -- ring found, and those that the callers got. A call has a buffer for a whole frame and fuel for the
  -- refusals to come, and no packet is empty.
  pub data Receipts (rx0 : XskRx) (m0 : Machine World)
      : XskRx → Machine World → List (List ℕ) → List (List ℕ) → Type 0 where
    begin : Receipts rx0 m0 rx0 m0 [] []
    call :
        {rx : XskRx} {m : Machine World} {arrived delivered : List (List ℕ)}
        → Receipts rx0 m0 rx m arrived delivered
        → (fuel : ℕ) (pkt_receiver : List ℕ) (n : ℕ) (rx1 : XskRx) (seen : Machine World) (len : ℕ)
          (bytes : List ℕ) (rx' : XskRx) (m' : Machine World)
        → frame_size ≤ length pkt_receiver
        → c.fill.refusals m.world < fuel
        → check_rx k rx m ≡ ret (n, rx1, seen)
        → AreSome (map (packet seen.mem) (slice rx1.filled_frames 0 n))
        → recv k fuel pkt_receiver rx m ≡ ret (len, bytes, rx', m')
        → Receipts rx0 m0 rx' m'
            (arrived ++ map (packet seen.mem) (slice rx1.filled_frames 0 n))
            (delivered ++ given len bytes)
    other :
        {rx : XskRx} {m : Machine World} {arrived delivered : List (List ℕ)}
        → Receipts rx0 m0 rx m arrived delivered
        → (m' : Machine World) → LeavesRx (base_of o rx) m m'
        → Receipts rx0 m0 rx m' arrived delivered

  -- What holds all the time: the packets that waited at first and those that arrived are those that
  -- were delivered and `ps`, which wait.
  pub record Kept (waited : List (List ℕ)) (rx : XskRx) (m : Machine World)
      (arrived delivered : List (List ℕ)) : Type 0 where
    pub valid : IsValid c rx m
    pub ps : List (List ℕ)
    pub waits : InOrder o rx m ps
    pub some_bytes : AreSome ps
    pub in_order : waited ++ arrived ≡ delivered ++ ps

  -- One call of `recv`: what was delivered and what waits then are what waited and what arrived.
  record Passed (len : ℕ) (bytes : List ℕ) (rx' : XskRx) (m' : Machine World) (qs : List (List ℕ))
      : Type 0 where
    rest : List (List ℕ)
    waits : InOrder o rx' m' rest
    some_bytes : AreSome rest
    same : qs ≡ given len bytes ++ rest

  Served-Passed :
      (pkt_receiver : List ℕ) (qs : List (List ℕ)) (len : ℕ) (bytes : List ℕ) (rx' : XskRx)
      (m' : Machine World)
      → AreSome qs
      → Served k size l lc c o pkt_receiver qs len bytes rx' m'
      → Passed len bytes rx' m' qs
  Served-Passed pkt_receiver qs len bytes rx' m' each_some (inl (none_there, zero_len, same, q)) =
      record { rest = []; waits = q; some_bytes = tt; same = rw (none_there, zero_len) refl }
  Served-Passed pkt_receiver qs len bytes rx' m' each_some
        (inr (p, rest, e, number, fits, written, q)) =
      let some' : AreSome (p ∷ rest) = subst AreSome e each_some in
      record {
        rest = rest;
        waits = q;
        some_bytes = some'.1;
        same =
            e
            ∙ ap (λ x. x ++ rest)
                (sym (
                  given_lem pkt_receiver p len bytes number (omega (arith, some'.0)) fits written));
      }

  recv-Kept :
      {waited : List (List ℕ)} {rx : XskRx} {m : Machine World} {arrived delivered : List (List ℕ)}
      (fuel : ℕ) (pkt_receiver : List ℕ) (n : ℕ) (rx1 : XskRx) (seen : Machine World) (len : ℕ)
      (bytes : List ℕ) (rx' : XskRx) (m' : Machine World)
      → frame_size ≤ length pkt_receiver
      → c.fill.refusals m.world < fuel
      → check_rx k rx m ≡ ret (n, rx1, seen)
      → AreSome (map (packet seen.mem) (slice rx1.filled_frames 0 n))
      → recv k fuel pkt_receiver rx m ≡ ret (len, bytes, rx', m')
      → Kept waited rx m arrived delivered
      → Kept waited rx' m'
          (arrived ++ map (packet seen.mem) (slice rx1.filled_frames 0 n))
          (delivered ++ given len bytes)
  recv-Kept {waited} {rx} {m} {arrived} {delivered} fuel pkt_receiver n rx1 seen len bytes rx' m'
        room enough look each_some run h =
      let d =
        recv-Dequeues k size l lc c o fuel pkt_receiver h.ps rx m h.valid h.waits room enough in
      let new = map (packet seen.mem) (slice rx1.filled_frames 0 n) in
      let found : map (packet d.seen.mem) d.descs ≡ new =
        ap (map (packet d.seen.mem)) (sym (slice-splice_zero rx.filled_frames d.descs d.found_room))
        ∙ ap
            (λ (x : ℕ × XskRx × Machine World).
              map (packet x.2.mem) (slice x.1.filled_frames 0 x.0))
            (ret-injective (sym d.look ∙ look)) in
      let served : Served k size l lc c o pkt_receiver (h.ps ++ new) len bytes rx' m' =
        subst
          (λ (x : ℕ × List ℕ × XskRx × Machine World).
            Served k size l lc c o pkt_receiver (h.ps ++ new) x.0 x.1 x.2 x.3)
          (ret-injective (sym d.run ∙ run))
          (subst
            (λ x. Served k size l lc c o pkt_receiver (h.ps ++ x) d.len d.bytes d.rx' d.machine)
            found d.served) in
      let p =
        Served-Passed pkt_receiver (h.ps ++ new) len bytes rx' m'
          (AreSome-append h.ps new h.some_bytes each_some) served in
      record {
        valid =
            subst (λ (x : ℕ × List ℕ × XskRx × Machine World). IsValid c x.2 x.3)
              (ret-injective (sym d.run ∙ run)) d.valid;
        ps = p.rest;
        waits = p.waits;
        some_bytes = p.some_bytes;
        in_order =
            sym (append_assoc waited arrived new)
            ∙ ap (λ x. x ++ new) h.in_order
            ∙ append_assoc delivered h.ps new
            ∙ ap (λ x. delivered ++ x) p.same
            ∙ sym (append_assoc delivered (given len bytes) p.rest);
      }

  LeavesRx-Kept :
      {waited : List (List ℕ)} {rx : XskRx} {m : Machine World} {arrived delivered : List (List ℕ)}
      (m' : Machine World)
      → LeavesRx (base_of o rx) m m'
      → Kept waited rx m arrived delivered
      → Kept waited rx m' arrived delivered
  LeavesRx-Kept {waited} {rx} {m} m' same h =
      let v = h.valid in
      let e : c.fill.lent m.world ≡ c.fill.lent m'.world = fun_ext (λ a. sym (same.lent a)) in
      record {
        valid = record {
          size = v.size;
          base = v.base;
          offset = v.offset;
          area = record {
            size_pos = v.area.size_pos;
            fits = v.area.fits;
            inside = omega (arith, v.area.inside, same.mapped);
          };
          buffer = v.buffer;
          cursor_in = v.cursor_in;
          clear = v.clear;
          frames = subst (λ x. AreFrames frame_size v.base x rx.rx_frames) e v.frames;
          counted = v.counted;
          accounted = v.accounted;
          ring_pos = v.ring_pos;
        };
        ps = h.ps;
        waits = record {
          waiting = h.waits.waiting;
          number = h.waits.number;
          window = h.waits.window;
          order = same.order ∙ h.waits.order;
          contents =
              content-same (length rx.rx_frames) frame_size v.base (c.fill.lent m.world)
                rx.rx_frames m.mem m'.mem rx.rx_cursor h.waits.waiting
                (omega (arith, v.area.size_pos, v.size)) v.frames
                (λ p a b low. same.bytes p a b (omega (arith, low, base_of_lem k lc c o rx m v)))
                h.waits.window
              ∙ h.waits.contents;
        };
        some_bytes = h.some_bytes;
        in_order = h.in_order;
      }

  -- Under the same contract, from a valid state in which packets wait in order, none of them empty,
  -- whatever sequence of calls of `recv` is made, each with a buffer for a whole frame and more
  -- fuel than refusals to come, while no empty packet arrives, and whatever happens between them
  -- that leaves the receive frames that the kernel does not hold, the kernel's holds and their
  -- order alone: the state stays valid, and the packets that waited at first and those that the
  -- looks at the rx ring found since are, in this order, those that the callers got at the front of
  -- their buffers and those that wait. So no packet is lost, doubled, changed or overtaken.
  pub Receipts-Kept :
      {rx0 : XskRx} {m0 : Machine World} {waited : List (List ℕ)} {rx : XskRx} {m : Machine World}
      {arrived delivered : List (List ℕ)}
      → IsValid c rx0 m0
      → InOrder o rx0 m0 waited
      → AreSome waited
      → Receipts rx0 m0 rx m arrived delivered
      → Kept waited rx m arrived delivered
  Receipts-Kept {waited = waited} v q each_some begin = record {
    valid = v;
    ps = waited;
    waits = q;
    some_bytes = each_some;
    in_order = append-nil waited;
  }
  Receipts-Kept v q each_some
        (call s fuel pkt_receiver n rx1 seen len bytes rx' m' room enough look some_new run) =
      recv-Kept fuel pkt_receiver n rx1 seen len bytes rx' m' room enough look some_new run
        (Receipts-Kept v q each_some s)
  Receipts-Kept v q each_some (other s m' same) =
      LeavesRx-Kept m' same (Receipts-Kept v q each_some s)
