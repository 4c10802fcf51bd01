-- ===== src/Xsk/Rx/InOrder.antt =====
-- Packets that were received and not delivered, in the order in which they arrived.
pub mod Delivery
pub mod Receipts
pub mod Relent
use mathlib.Core.Path.{subst, ap₂}
use native.Mathlib.Nat.{mul-div_cancel}
use xdpsock.Prelude.{
  ℕ, suc, ◌+◌, ◌-◌, ◌*◌, ◌%◌, ◌≤◌, ◌<◌, ◌≡◌, refl, sym, ap, ◌∙◌, inl, inr, List, [], ◌∷◌, ◌++◌, map,
  map-append_lists, false, slice, length, length-append, length-map, arith,
}
use xdpsock.Kernel.{Kernel, Machine, Desc}
use xdpsock.Kernel.Laws.{IsConsRing}
use xdpsock.Umem.Frame.{Frame}
use xdpsock.Xsk.Lent.{Lent}
use xdpsock.Xsk.Rx.{XskRx}
use xdpsock.Xsk.Rx.Apply.{packet}
use xdpsock.Xsk.Rx.Refill.{chunk}
use xdpsock.Xsk.Rx.Frames.{undelivered, packets, pieces, AreFrames, chunk_below}
use xdpsock.Xsk.Rx.Contract.{RxContract, received, Checks}
use xdpsock.Xsk.Rx.Valid.{IsValid, Updates, few_frames}
use xdpsock.Xsk.Rx.Window.{Window, round, round-split, content, Window-AreMarked}
use xdpsock.Xsk.Rx.Fifo.{FifoContract, Spares, Looks-Sees}

-- The bytes of packets that wait in frames that are not lent stay as they are.
pub content-same :
    (n fs base : ℕ) (lent : Lent) (frames : List Frame) (mem mem' : List ℕ) (i : ℕ)
    (waiting : List Frame)
    → 0 < fs
    → AreFrames fs base lent frames
    → ((p a b : ℕ)
        → base ≤ p
        → p * fs ≤ a
        → a ≤ b
        → b ≤ p * fs + fs
        → lent p ≡ false
        → slice mem' a b ≡ slice mem a b)
    → Window n frames i waiting
    → map (content mem') waiting ≡ map (content mem) waiting
content-same n fs base lent frames mem mem' i [] pos v spares w = refl
content-same n fs base lent frames mem mem' i (f ∷ waiting) pos v spares w =
    let at = v.each (i % n) f w.0 in
    let (lo, hi) = chunk_below fs f.addr pos in
    let piece : chunk fs f.addr * fs ≡ (base + i % n) * fs = ap (λ (p : ℕ). p * fs) at.placed in
    ap₂ ◌∷◌
      (elim at.agrees [
        | inl (e, free, fit) ↦
            spares (base + i % n) f.addr (f.addr + f.len) (omega arith) (omega (arith, lo, piece))
              (omega arith) fit free
        | inr (e, held) ↦ absurd (omega (arith, e, w.1))
      ])
      (content-same n fs base lent frames mem mem' (suc i) waiting pos v spares w.2)

module _ {k : Kernel} {frame_size : ℕ} {c : RxContract k frame_size} (o : FifoContract c) where
  open k use {World}

  -- The piece of the first receive frame.
  abbrev pub base_of : XskRx → ℕ
  base_of rx = chunk frame_size rx.rx_frame_offset

  -- `waiting` are the frames with the packets `ps`, from the cursor on, and the kernel will fill the
  -- other frames in the order in which they follow them, round the end.
  pub record InOrder (rx : XskRx) (m : Machine World) (ps : List (List ℕ)) : Type 0 where
    pub waiting : List Frame
    pub number : length waiting ≡ undelivered rx.rx_frames
    pub window : Window (length rx.rx_frames) rx.rx_frames rx.rx_cursor waiting
    pub order :
        o.order m.world
        ≡ round
            (length rx.rx_frames)
            (base_of rx)
            (rx.rx_cursor + length waiting)
            (length rx.rx_frames - length waiting)
    pub contents : map (content m.mem) waiting ≡ ps

module _ (k : Kernel) (lc : IsConsRing k.rx_ring) {frame_size : ℕ} (c : RxContract k frame_size)
    (o : FifoContract c) where
  open k use {World}

  pub base_of_lem : (rx : XskRx) (m : Machine World) (v : IsValid c rx m) → base_of o rx ≡ v.base
  base_of_lem rx m v =
      ap (chunk frame_size) v.offset
      ∙ mul-div_cancel v.base (omega (arith, v.area.size_pos, v.size))

  module _ (rx : XskRx) (m : Machine World) (ps : List (List ℕ)) (v : IsValid c rx m)
      (q : InOrder o rx m ps) (d : Checks k lc c rx m) (u : Updates k lc c rx m d v.base) where
    abbrev pub rx1 : XskRx
    rx1 = record (received rx d.descs) { rx_frames = u.frames }

    -- The packets that a look at the rx ring finds join those that wait.
    pub arrived-InOrder : InOrder o rx1 d.machine (ps ++ map (packet d.machine.mem) d.descs)
    arrived-InOrder =
        let n = length rx.rx_frames in
        let seen = Looks-Sees k c o lc d.took.looks in
        let count = length-map (λ (x : Desc). chunk frame_size x.addr) d.descs in
        let (front, back) =
          round-split n (base_of o rx) (rx.rx_cursor + length q.waiting) (n - length q.waiting)
            (pieces frame_size d.descs) (o.order d.machine.world) (sym q.order ∙ seen.order) in
        let few = few_frames rx v.area in
        let (new, window, more, same) =
          Window-AreMarked n v.base frame_size rx.rx_cursor d.descs rx.rx_frames u.frames q.waiting
            refl (omega (arith, q.number, d.few, v.counted)) q.window
            (front
              ∙ ap₂ (λ b x. round n b (rx.rx_cursor + length q.waiting) x) (base_of_lem rx m v)
                  count)
            u.marked in
        let longer = length-append q.waiting new in
        record {
          waiting = q.waiting ++ new;
          number =
              omega (arith, longer, more, q.number, v.counted, u.valid.counted, d.few, u.same, few);
          window =
              subst (λ x. Window x u.frames rx.rx_cursor (q.waiting ++ new)) (sym u.same) window;
          order =
              back
              ∙ ap₂ (round n (base_of o rx))
                  {x = rx.rx_cursor + length q.waiting + length (pieces frame_size d.descs)}
                  {y = rx.rx_cursor + length (q.waiting ++ new)}
                  {u = n - length q.waiting - length (pieces frame_size d.descs)}
                  {v = n - length (q.waiting ++ new)} (omega (arith, count, longer, more))
                  (omega (arith, count, longer, more))
              ∙ ap
                  (λ x.
                    round x (base_of o rx) (rx.rx_cursor + length (q.waiting ++ new))
                      (x - length (q.waiting ++ new)))
                  (sym u.same);
          contents =
              map-append_lists (content d.machine.mem) q.waiting new
              ∙ ap₂ ◌++◌
                  (content-same n frame_size v.base (c.fill.lent m.world) rx.rx_frames m.mem
                      d.machine.mem rx.rx_cursor q.waiting (omega (arith, v.area.size_pos, v.size))
                      v.frames (λ p a b low. seen.bytes p a b) q.window
                    ∙ q.contents)
                  (same d.machine.mem);
        }
