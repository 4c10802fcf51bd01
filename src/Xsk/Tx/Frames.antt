-- ===== src/Xsk/Tx/Frames.antt =====
-- The transmit frames: where they lie, and that their status says who holds them.
use mathlib.Core.Path.{subst, subst₂}
use native.Mathlib.Nat.{mul-div_cancel, mod-eq_of_lt, le_trans}
use native.Mathlib.Decide.{ℕ_discrete}
use xdpsock.Prelude.{
  ℕ, zero, suc, ◌+◌, ◌*◌, ◌/◌, ◌^◌, ◌≤◌, ◌<◌, ◌≡◌, ◌≢◌, refl, sym, ap, ◌∙◌, ◌⊎◌, inl, inr, true,
  false, List, [], ◌∷◌, some, ret, div, length, get_elem?, set, length-set, get_elem?-set_self,
  get_elem?-set_ne, get_elem?-some, get_elem?-lt, as_u32, arith,
}
use xdpsock.Umem.Frame.{Frame, FrameStatus, set_status}
use xdpsock.Xsk.Tx.{mark_free}
use xdpsock.Xsk.Lent.{Lent, without, without_all, AreLent}

abbrev pub weight : FrameStatus → ℕ
weight FrameStatus.on_tx_queue = 1
weight _ = 0

-- How many frames are on the tx queue.
abbrev pub on_tx : List Frame → ℕ
on_tx [] = 0
on_tx (f ∷ frames) = weight f.status + on_tx frames

pub on_tx-set :
    (frames : List Frame) (i : ℕ) (f g : Frame)
    → get_elem? frames i ≡ some f
    → on_tx (set frames i g) + weight f.status ≡ on_tx frames + weight g.status
on_tx-set [] i f g h = cc
on_tx-set (x ∷ frames) zero f g h = ground arith
on_tx-set (x ∷ frames) (suc i) f g h = ground (arith, on_tx-set frames i f g h)

-- The kernel holds the frame and its status says so, or neither.
abbrev pub Agrees : Lent → Frame → Type 0
Agrees lent f =
    ((f.status ≡ FrameStatus.on_tx_queue) × (lent f.addr ≡ true))
    ⊎ ((f.status ≡ FrameStatus.free) × (lent f.addr ≡ false))

pub record FrameAt (fs mtu : ℕ) (lent : Lent) (i : ℕ) (f : Frame) : Type 0 where
  pub placed : f.addr ≡ i * fs
  pub sized : f.mtu ≡ mtu
  pub agrees : Agrees lent f

-- Frame `i` begins at `i * fs`, and the kernel holds no address but those of its frames.
pub record AreFrames (fs mtu : ℕ) (lent : Lent) (frames : List Frame) : Type 0 where
  pub each : (i : ℕ) (f : Frame) → get_elem? frames i ≡ some f → FrameAt fs mtu lent i f
  pub owned : (a : ℕ) → lent a ≡ true → (i : ℕ) × (i < length frames) × (a ≡ i * fs)

pub mul-cancel : (i j fs : ℕ) → 0 < fs → i * fs ≡ j * fs → i ≡ j
mul-cancel i j fs pos h =
    sym (mul-div_cancel i pos) ∙ ap (λ (a : ℕ). a / fs) h ∙ mul-div_cancel j pos

pub mul-lt : (i n fs : ℕ) → i < n → i * fs + fs ≤ n * fs
mul-lt i n fs h = le_trans (omega arith) rows
  where
    rows : suc i * fs ≤ n * fs
    rows = grind arith

-- The index that the code computes from an address is the frame's.
pub index_of_addr : (i n fs : ℕ) → i < n → 0 < fs → n * fs ≤ 2 ^ 32 → as_u32 (i * fs) / fs ≡ i
index_of_addr i n fs h pos fits =
    let small : i * fs < 2 ^ 32 = omega (arith, mul-lt i n fs h) in
    rw (mod-eq_of_lt small) (mul-div_cancel i pos)

module _ (fs mtu : ℕ) where
  -- A change of one frame, with the kernel's hold on the other frames as it was.
  module _ (lent lent' : Lent) (frames : List Frame) (i : ℕ) (f g : Frame) where
    pub AreFrames-set :
        AreFrames fs mtu lent frames
        → get_elem? frames i ≡ some f
        → FrameAt fs mtu lent' i g
        → ((j : ℕ) → i ≢ j → lent' (j * fs) ≡ lent (j * fs))
        → ((a : ℕ) → lent' a ≡ true → (lent a ≡ true) ⊎ (a ≡ i * fs))
        → AreFrames fs mtu lent' (set frames i g)
    AreFrames-set v h new others inside = record { each = each'; owned = owned' }
      where
        below : i < length frames
        below = get_elem?-lt frames i f h

        each' :
            (j : ℕ) (x : Frame) → get_elem? (set frames i g) j ≡ some x → FrameAt fs mtu lent' j x
        each' j x q = elim (ℕ_discrete i j) [
          | yes same ↦
              let e : g ≡ x = cc (get_elem?-set_self frames i g below) in
              subst₂ (FrameAt fs mtu lent') same e new
          | no other ↦
              let old = v.each j x (sym (get_elem?-set_ne frames i j g other) ∙ q) in
              let kept = others j other in
              let placed : x.addr ≡ j * fs = old.placed in
              record {
                placed = old.placed;
                sized = old.sized;
                agrees = rw (placed, kept, ← placed) (old.agrees);
              }
        ]

        owned' : (a : ℕ) → lent' a ≡ true → (j : ℕ) × (j < length (set frames i g)) × (a ≡ j * fs)
        owned' a q = elim (inside a q) [
          | inl held ↦
              let (j, lt, e) = v.owned a held in (j, omega (arith, length-set frames i g), e)
          | inr e ↦ (i, omega (arith, below, length-set frames i g), e)
        ]

  -- A frame that the kernel gives back.
  AreFrames-set_free :
      (lent : Lent) (frames : List Frame) (i : ℕ) (f : Frame)
      → 0 < fs
      → AreFrames fs mtu lent frames
      → get_elem? frames i ≡ some f
      → AreFrames fs mtu (without lent (i * fs)) (set frames i (set_status f FrameStatus.free))
  AreFrames-set_free lent frames i f pos v h =
      let old = v.each i f h in
      AreFrames-set lent (without lent (i * fs)) frames i f (set_status f FrameStatus.free) v h
        (record {
          placed = old.placed;
          sized = old.sized;
          agrees = inr (refl, rw old.placed (ground arith));
        })
        (λ j other. ground (arith, mul-cancel i j fs pos)) (λ a q. inl (ground arith))

  -- One round of the loop of `update_tx_frames`.
  mark_one :
      (lent : Lent) (a : ℕ) (frames : List Frame)
      → 0 < fs
      → length frames * fs ≤ 2 ^ 32
      → AreFrames fs mtu lent frames
      → lent a ≡ true
      → (i : ℕ) × (f : Frame) × (div (as_u32 a) fs ≡ ret i)
        × (get_elem? frames i ≡ some f)
        × AreFrames fs mtu (without lent a) (set frames i (set_status f FrameStatus.free))
        × (on_tx (set frames i (set_status f FrameStatus.free)) + 1 ≡ on_tx frames)
  mark_one lent a frames pos fits v held =
      let (i, lt, e) = v.owned a held in
      let (f, found) = get_elem?-some frames i lt in
      let old = v.each i f found in
      let addr : f.addr ≡ a = old.placed ∙ sym e in
      (
        i,
        f,
        rw e (ground (arith, index_of_addr i (length frames) fs)),
        found,
        subst
            (λ b. AreFrames fs mtu (without lent b) (set frames i (set_status f FrameStatus.free)))
            (sym e) (AreFrames-set_free lent frames i f pos v found),
        ground (arith, on_tx-set frames i f (set_status f FrameStatus.free), old.agrees),
      )

  -- The completed frames become free, and no other frame changes hands.
  pub mark_free_lem :
      (lent : Lent) (addrs : List ℕ) (frames : List Frame)
      → 0 < fs
      → length frames * fs ≤ 2 ^ 32
      → AreFrames fs mtu lent frames
      → AreLent lent addrs
      → (frames' : List Frame) × (mark_free fs addrs frames ≡ ret frames')
        × AreFrames fs mtu (without_all lent addrs) frames'
        × (on_tx frames' + length addrs ≡ on_tx frames)
        × (length frames' ≡ length frames)
  unfolding mark_free
  mark_free_lem lent [] frames pos fits v h = (frames, refl, v, omega arith, refl)
  mark_free_lem lent (a ∷ addrs) frames pos fits v h =
      let (i, f, at, found, v', one) = mark_one lent a frames pos fits v h.0 in
      let rest = set frames i (set_status f FrameStatus.free) in
      let (frames', run, v'', count, len) =
        mark_free_lem (without lent a) addrs rest pos
          (omega
            (arith, ap (λ (n : ℕ). n * fs) (length-set frames i (set_status f FrameStatus.free))))
          v' h.1 in
      (
        frames',
        rw at (rw found run),
        v'',
        omega (arith, one, count),
        len ∙ length-set frames i (set_status f FrameStatus.free),
      )
