-- ===== src/Xsk/Rx/InOrder/Relent.antt =====
-- The frame in front after its packet was delivered: it is lent again, behind all others.
use mathlib.Core.Path.{subst, ap₂}
use native.Mathlib.Nat.{mod-eq_of_lt, mod-add-mod, add-mod_right}
use xdpsock.Prelude.{
  ℕ, suc, ◌+◌, ◌-◌, ◌%◌, ◌≤◌, ◌<◌, ◌≡◌, sym, ap, ◌∙◌, List, [], ◌∷◌, ◌++◌, map, ret, length,
  length-set, set, some, get_elem?, add64, arith,
}
use xdpsock.Kernel.{Kernel, Machine}
use xdpsock.Kernel.Laws.{IsConsRing, IsProdRing}
use xdpsock.Umem.Frame.{Frame, FrameStatus, set_status}
use xdpsock.Xsk.Lent.{with_}
use xdpsock.Xsk.Rx.{XskRx, refill}
use xdpsock.Xsk.Rx.Refill.{chunk}
use xdpsock.Xsk.Rx.Deliver.{delivered}
use xdpsock.Xsk.Rx.Frames.{undelivered, undelivered-set, packets}
use xdpsock.Xsk.Rx.Contract.{RxContract}
use xdpsock.Xsk.Rx.Valid.{IsValid, few_frames}
use xdpsock.Xsk.Rx.Window.{Window, Window-mod, Window-next, round, round-mod, round-snoc, content}
use xdpsock.Xsk.Rx.Fifo.{FifoContract, refill-order}
use xdpsock.Xsk.Rx.InOrder.{InOrder, base_of, base_of_lem, content-same}

module _ (k : Kernel) (size : ℕ) (l : IsProdRing k.fill_ring size) (lc : IsConsRing k.rx_ring)
    {frame_size : ℕ} (c : RxContract k frame_size) (o : FifoContract c) where
  open k use {World}

  module _ (fuel : ℕ) (rx : XskRx) (m : Machine World) (v : IsValid c rx m) where
    -- The frame in front was delivered and is lent again, behind all others.
    pub served-InOrder :
        (f : Frame) (rest : List Frame) (m' : Machine World)
        → suc (length rest) ≡ undelivered rx.rx_frames
        → Window (length rx.rx_frames) rx.rx_frames rx.rx_cursor (f ∷ rest)
        → o.order m.world
          ≡ round
              (length rx.rx_frames)
              (base_of o rx)
              (rx.rx_cursor + suc (length rest))
              (length rx.rx_frames - suc (length rest))
        → get_elem? rx.rx_frames rx.rx_cursor ≡ some f
        → IsValid c (delivered rx f) m'
        → c.fill.lent m'.world ≡ with_ (c.fill.lent m.world) (chunk frame_size f.addr)
        → refill k fuel rx.rx_q.fd rx.poll_ms_timeout (f ∷ []) 1 m ≡ ret m'
        → InOrder o (delivered rx f) m' (map (content m.mem) rest)
    served-InOrder f rest m' number window order found v' held refilled =
        let n = length rx.rx_frames in
        let g = set_status f FrameStatus.free in
        let same = length-set rx.rx_frames rx.rx_cursor g in
        let count = undelivered-set rx.rx_frames rx.rx_cursor f g found in
        let at = (v.frames.each rx.rx_cursor f found).placed in
        let (behind, bytes) =
          refill-order k c o size l fuel rx.rx_q.fd rx.poll_ms_timeout (f ∷ []) m m' (omega arith)
            refilled in
        let few = few_frames rx v.area in
        let in_round : rx.rx_cursor % n ≡ rx.rx_cursor = mod-eq_of_lt v.cursor_in in
        let r = length rest in
        let one : packets f.status ≡ 1 = window.1 in
        let room : suc r ≤ n = omega (arith, number, v.counted) in
        let below : (delivered rx f).rx_cursor < n = omega (arith, v'.cursor_in, same) in
        let next : suc rx.rx_cursor % n ≡ (delivered rx f).rx_cursor % n =
          ap (λ (x : ℕ). x % n) {x = suc rx.rx_cursor} {y = add64 rx.rx_cursor 1}
            (omega (arith, few, v.cursor_in))
          ∙ sym (mod-eq_of_lt below) in
        let window' : Window n (delivered rx f).rx_frames (delivered rx f).rx_cursor rest =
          Window-mod n (delivered rx f).rx_frames (suc rx.rx_cursor) (delivered rx f).rx_cursor rest
            next
            (subst (λ i. Window n (set rx.rx_frames i g) (suc rx.rx_cursor) rest) in_round
              (Window-next n rx.rx_frames rx.rx_cursor f g rest room window)) in
        record {
          waiting = rest;
          number = omega (arith, count, number, one);
          window =
              subst (λ x. Window x (delivered rx f).rx_frames (delivered rx f).rx_cursor rest)
                (sym same) window';
          order =
              subst
                (λ x.
                  o.order m'.world
                  ≡ round x (base_of o rx) ((delivered rx f).rx_cursor + r) (x - r))
                (sym same)
                (behind
                  ∙ ap₂ ◌++◌ order (ap (λ p. p ∷ []) (at ∙ sym last))
                  ∙ sym (round-snoc n (base_of o rx) (rx.rx_cursor + suc r) (n - suc r))
                  ∙ ap (round n (base_of o rx) (rx.rx_cursor + suc r)) {x = suc (n - suc r)}
                      {y = n - r} (omega (arith, room))
                  ∙ round-mod n (base_of o rx) (rx.rx_cursor + suc r)
                      ((delivered rx f).rx_cursor + r) (n - r) (shifted next));
          contents =
              content-same n frame_size v'.base (c.fill.lent m'.world) (delivered rx f).rx_frames
                m.mem m'.mem (delivered rx f).rx_cursor rest
                (omega (arith, v.area.size_pos, v.size)) v'.frames
                (rw held (λ p a b low. bytes p a b)) window';
        }
      where
        shifted :
            suc rx.rx_cursor % length rx.rx_frames
              ≡ (delivered rx f).rx_cursor % length rx.rx_frames
            → (rx.rx_cursor + suc (length rest)) % length rx.rx_frames
              ≡ ((delivered rx f).rx_cursor + length rest) % length rx.rx_frames
        shifted next =
            ap (λ (x : ℕ). x % length rx.rx_frames) {x = rx.rx_cursor + suc (length rest)}
              {y = suc rx.rx_cursor + length rest} (omega arith)
            ∙ sym (mod-add-mod (suc rx.rx_cursor) (length rx.rx_frames) (length rest))
            ∙ ap (λ (x : ℕ). (x + length rest) % length rx.rx_frames) next
            ∙ mod-add-mod (delivered rx f).rx_cursor (length rx.rx_frames) (length rest)

        last :
            base_of o rx
              + (rx.rx_cursor + suc (length rest) + (length rx.rx_frames - suc (length rest)))
                % length rx.rx_frames
            ≡ v.base + rx.rx_cursor
        last = ap₂ ◌+◌ (base_of_lem k lc c o rx m v) (
            ap (λ (x : ℕ). x % length rx.rx_frames)
              {x = rx.rx_cursor + suc (length rest) + (length rx.rx_frames - suc (length rest))}
              {y = rx.rx_cursor + length rx.rx_frames} (omega (arith, number, v.counted))
            ∙ add-mod_right rx.rx_cursor (length rx.rx_frames)
            ∙ mod-eq_of_lt v.cursor_in)
