-- ===== src/Xsk/Tx/Prompt.antt =====
-- Kernels that complete what they were given, and whether they hold a frame.

use xdpsock.Prelude.{
  ℕ, zero, suc, ◌≤◌, ◌<◌, ◌≡◌, refl, ◌⊎◌, inl, inr, true, false, Bool-cases, List, [], ◌∷◌, some,
  length, get_elem?, get_elem?-some, arith,
}
use xdpsock.Kernel.{Kernel, Machine}
use xdpsock.Umem.CompQueue.Consume.{consumed}
use xdpsock.Umem.Frame.{Frame, FrameStatus}
use xdpsock.Xsk.Lent.{Lent}
use xdpsock.Xsk.Tx.Lent.{TxContract}
use xdpsock.Xsk.Tx.Frames.{AreFrames, weight, on_tx}

-- The kernel completes what it was given: while it holds a frame, the completion ring is empty at most
-- `patience` times in a row. `delay` is how often it still will be.
pub record IsPrompt {k : Kernel} (c : TxContract k) : Type 0 where
  pub patience : ℕ
  pub delay : k.World → ℕ
  pub delay_le : (w : k.World) → delay w ≤ patience
  pub waits :
      (n : ℕ) (m : Machine k.World) (a : ℕ)
      → 0 < n
      → c.lent m.world a ≡ true
      → length (consumed k n m) ≡ 0
      → let (g, m') = k.comp_ring.peek n m in
        delay (k.comp_ring.release g.count m'.world) < delay m.world

on_tx-ge :
    (frames : List Frame) (i : ℕ) (f : Frame)
    → get_elem? frames i ≡ some f
    → weight f.status ≤ on_tx frames
on_tx-ge [] i f h = cc
on_tx-ge (x ∷ frames) zero f h = ground arith
on_tx-ge (x ∷ frames) (suc i) f h = omega (arith, on_tx-ge frames i f h)

weight_cases : (s : FrameStatus) → (s ≡ FrameStatus.on_tx_queue) ⊎ (weight s ≡ 0)
weight_cases FrameStatus.free = inr refl
weight_cases FrameStatus.filled = inr refl
weight_cases FrameStatus.on_tx_queue = inl refl
weight_cases FrameStatus.on_fill_queue = inr refl

some-on_tx :
    (frames : List Frame)
    → 0 < on_tx frames
    → (i : ℕ) × (f : Frame) × (get_elem? frames i ≡ some f) × (f.status ≡ FrameStatus.on_tx_queue)
some-on_tx [] h = absurd (omega arith)
some-on_tx (x ∷ frames) h =
    let ih = some-on_tx frames in
    elim (weight_cases x.status) [
      | inl taken ↦ (0, x, refl, taken)
      | inr none_here ↦
          let (i, f, found, taken) = ih (omega (arith, none_here)) in (suc i, f, found, taken)
    ]

module _ (fs mtu : ℕ) (lent : Lent) (frames : List Frame) (v : AreFrames fs mtu lent frames) where
  pub none_lent : on_tx frames ≡ 0 → (a : ℕ) → lent a ≡ false
  none_lent e a = elim (Bool-cases (lent a)) [
    | inl held ↦
        let (i, lt, at) = v.owned a held in
        let (f, found) = get_elem?-some frames i lt in
        let place = v.each i f found in
        ground (arith, place.agrees, place.placed, on_tx-ge frames i f found)
    | inr free ↦ free
  ]

  pub one_lent : 0 < on_tx frames → (a : ℕ) × (lent a ≡ true)
  one_lent h =
      let (i, f, found, taken) = some-on_tx frames h in
      let place = v.each i f found in (f.addr, ground (arith, place.agrees))
