-- ===== src/Xsk/Tx/Lending.antt =====
-- A batch of frames that goes to the kernel.
use mathlib.Core.Path.{subst, ap₂}
use native.Mathlib.Decide.{ℕ_discrete}
use xdpsock.Prelude.{
  ℕ, zero, suc, ◌+◌, ◌*◌, ◌≤◌, ◌<◌, ◌≡◌, refl, sym, ◌∙◌, ◌⊎◌, inl, inr, true, List, [], ◌∷◌, map,
  some, length, take, drop, get_elem?, get_elem?-some, arith, update_range, length-update_range,
  get_elem?-update_range, drop-get_elem?,
}
use xdpsock.Umem.Frame.{Frame, FrameStatus, set_status}
use xdpsock.Xsk.Lent.{with_all-true, Lent, with_, with_all}
use xdpsock.Xsk.Tx.Frames.{AreFrames, FrameAt, on_tx, mul-cancel}

abbrev pub queue : Frame → Frame
queue f = set_status f FrameStatus.on_tx_queue

-- The addresses of the `n` frames from number `s` on.
abbrev pub rows : ℕ → ℕ → ℕ → List ℕ
rows fs s zero = []
rows fs s (suc n) = s * fs ∷ rows fs (suc s) n

module _ (fs : ℕ) where
  with_rows_within :
      (n s : ℕ) (lent : Lent) (j : ℕ)
      → s ≤ j
      → j < s + n
      → with_all lent (rows fs s n) (j * fs) ≡ true
  with_rows_within zero s lent j h h' = absurd (omega arith)
  with_rows_within (suc n) s lent j h h' = elim (ℕ_discrete s j) [
    | yes e ↦ with_all-true (with_ lent (s * fs)) (rows fs (suc s) n) (j * fs) (rw e (ground arith))
    | no ne ↦ with_rows_within n (suc s) (with_ lent (s * fs)) j (omega arith) (omega arith)
  ]

  with_rows_outside :
      (n s : ℕ) (lent : Lent) (j : ℕ)
      → 0 < fs
      → (j < s) ⊎ (s + n ≤ j)
      → with_all lent (rows fs s n) (j * fs) ≡ lent (j * fs)
  with_rows_outside zero s lent j pos h = refl
  with_rows_outside (suc n) s lent j pos h =
      with_rows_outside n (suc s) (with_ lent (s * fs)) j pos (omega arith)
      ∙ ground (arith, mul-cancel s j fs pos)

  with_rows_inv :
      (n s : ℕ) (lent : Lent) (a : ℕ)
      → with_all lent (rows fs s n) a ≡ true
      → (lent a ≡ true) ⊎ ((j : ℕ) × (s ≤ j) × (j < s + n) × (a ≡ j * fs))
  with_rows_inv zero s lent a h = inl h
  with_rows_inv (suc n) s lent a h = elim (with_rows_inv n (suc s) (with_ lent (s * fs)) a h) [
    | inl held ↦ elim (ℕ_discrete (s * fs) a) [
      | yes e ↦ inr (s, omega arith, omega arith, sym e)
      | no ne ↦ inl (ground arith)
    ]
    | inr (j, lo, hi, e) ↦ inr (j, omega arith, omega arith, e)
  ]

  module _ (mtu : ℕ) where
    pub slice-rows :
        (lent : Lent) (frames : List Frame) (n s : ℕ)
        → AreFrames fs mtu lent frames
        → s + n ≤ length frames
        → map (λ f. f.addr) (take n (drop s frames)) ≡ rows fs s n
    slice-rows lent frames zero s v h = refl
    slice-rows lent frames (suc n) s v h =
        let (f, found) = get_elem?-some frames s (omega arith) in
        rw (drop-get_elem? frames s f found)
          (ap₂ ◌∷◌ ((v.each s f found).placed) (slice-rows lent frames n (suc s) v (omega arith)))

    -- The batch is put on the queue frame by frame; only its frames change hands.
    pub AreFrames-lend :
        (lent : Lent) (frames : List Frame) (s n : ℕ)
        → 0 < fs
        → s + n ≤ length frames
        → AreFrames fs mtu lent frames
        → AreFrames fs mtu (with_all lent (rows fs s n)) (update_range queue s n frames)
    AreFrames-lend lent frames s n pos h v = record { each = each'; owned = owned' }
      where
        each' :
            (j : ℕ) (x : Frame)
            → get_elem? (update_range queue s n frames) j ≡ some x
            → FrameAt fs mtu (with_all lent (rows fs s n)) j x
        each' j x q = elim (get_elem?-update_range queue s n frames j x q) [
          | inl ((lo, hi), (y, found, e)) ↦
              let old = v.each j y found in
              subst (FrameAt fs mtu (with_all lent (rows fs s n)) j) (sym e) (record {
                placed = old.placed;
                sized = old.sized;
                agrees = inl (refl, rw (old.placed) (with_rows_within n s lent j lo hi));
              })
          | inr (out, found) ↦
              let old = v.each j x found in
              record {
                placed = old.placed;
                sized = old.sized;
                agrees =
                    ground (arith, old.agrees, old.placed, with_rows_outside n s lent j pos out);
              }
        ]

        owned' :
            (a : ℕ)
            → with_all lent (rows fs s n) a ≡ true
            → (j : ℕ) × (j < length (update_range queue s n frames)) × (a ≡ j * fs)
        owned' a q = elim (with_rows_inv n s lent a q) [
          | inl held ↦
              let (j, lt, e) = v.owned a held in
              (j, omega (arith, lt, length-update_range queue s n frames), e)
          | inr (j, lo, hi, e) ↦
              (j, omega (arith, lo, hi, h, length-update_range queue s n frames), e)
        ]

-- As many frames more are on the queue, if those of the batch were free.
pub on_tx-update_range :
    (frames : List Frame) (s n : ℕ)
    → s + n ≤ length frames
    → ((j : ℕ) (f : Frame)
        → get_elem? frames j ≡ some f
        → s ≤ j
        → j < s + n
        → f.status ≡ FrameStatus.free)
    → on_tx (update_range queue s n frames) ≡ on_tx frames + n
on_tx-update_range [] s n h are_free = omega arith
on_tx-update_range (x ∷ frames) zero zero h are_free = omega arith
on_tx-update_range (x ∷ frames) zero (suc n) h are_free =
    let free_head = are_free 0 x refl (omega arith) (omega arith) in
    let rest =
      on_tx-update_range frames zero n (omega arith)
        (λ j f q lo hi. are_free (suc j) f q (omega arith) (omega arith)) in
    rw free_head (omega (arith, rest))
on_tx-update_range (x ∷ frames) (suc s) n h are_free =
    let rest =
      on_tx-update_range frames s n (omega arith)
        (λ j f q lo hi. are_free (suc j) f q (omega arith) (omega arith)) in
    omega (arith, rest)
