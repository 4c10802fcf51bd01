-- ===== src/Xsk/Rx/Frames.antt =====
-- The receive frames and who holds them: a frame has a packet that was not delivered, or it is the
-- kernel's.
use native.Mathlib.Decide.{ℕ_discrete}
use native.Mathlib.Nat.{div-mul-le_self, lt-div-mul-add}
use mathlib.Core.Path.{subst₂}
use xdpsock.Prelude.{
  ℕ, zero, suc, ◌+◌, ◌*◌, ◌≤◌, ◌<◌, ◌≡◌, ◌≢◌, refl, sym, ap, ◌∙◌, ◌⊎◌, inl, inr, true, false, List,
  [], ◌∷◌, map, some, ret, length, set, length-set, get_elem?, get_elem?-some, get_elem?-set_self,
  get_elem?-set_ne, arith,
}
use xdpsock.Kernel.{Desc}
use xdpsock.Umem.Frame.{Frame, FrameStatus}
use xdpsock.Xsk.Lent.{Lent, without, without_all, AreLent}
use xdpsock.Xsk.Rx.{XskRx, mark_filled}
use xdpsock.Xsk.Rx.Place.{IsArea, IsOurs, rx_frame_index_lem}
use xdpsock.Xsk.Rx.Mark.{filled_by, marked, IsArea-marked}
use xdpsock.Xsk.Rx.Refill.{chunk}

abbrev pub packets : FrameStatus → ℕ
packets FrameStatus.filled = 1
packets _ = 0

-- How many frames have a packet that was not delivered.
abbrev pub undelivered : List Frame → ℕ
undelivered [] = 0
undelivered (f ∷ frames) = packets f.status + undelivered frames

pub undelivered-set :
    (frames : List Frame) (i : ℕ) (f g : Frame)
    → get_elem? frames i ≡ some f
    → undelivered (set frames i g) + packets f.status ≡ undelivered frames + packets g.status
undelivered-set [] i f g h = cc
undelivered-set (x ∷ frames) zero f g h = ground arith
undelivered-set (x ∷ frames) (suc i) f g h = ground (arith, undelivered-set frames i f g h)

module _ (fs base : ℕ) where
  -- Frame `j` is piece `base + j` of the UMEM. Its packet, if it has one, ends in it.
  pub record FrameAt (lent : Lent) (j : ℕ) (f : Frame) : Type 0 where
    pub placed : chunk fs f.addr ≡ base + j
    pub agrees :
        ((packets f.status ≡ 1)
          × (lent (base + j) ≡ false)
          × (f.addr + f.len ≤ (base + j) * fs + fs))
        ⊎ ((packets f.status ≡ 0) × (lent (base + j) ≡ true))

  -- The kernel holds no piece but those of the frames.
  pub record AreFrames (lent : Lent) (frames : List Frame) : Type 0 where
    pub each : (j : ℕ) (f : Frame) → get_elem? frames j ≡ some f → FrameAt lent j f
    pub owned : (a : ℕ) → lent a ≡ true → (j : ℕ) × (j < length frames) × (a ≡ base + j)

  -- A change of one frame, with the kernel's hold on the other frames as it was.
  module _ (lent lent' : Lent) (frames : List Frame) (i : ℕ) (g : Frame) where
    pub AreFrames-set :
        AreFrames lent frames
        → i < length frames
        → FrameAt lent' i g
        → ((j : ℕ) → i ≢ j → lent' (base + j) ≡ lent (base + j))
        → ((a : ℕ) → lent' a ≡ true → (lent a ≡ true) ⊎ (a ≡ base + i))
        → AreFrames lent' (set frames i g)
    AreFrames-set v below new others inside = record { each = each'; owned = owned' }
      where
        each' : (j : ℕ) (x : Frame) → get_elem? (set frames i g) j ≡ some x → FrameAt lent' j x
        each' j x q = elim (ℕ_discrete i j) [
          | yes same ↦
              let e : g ≡ x = cc (get_elem?-set_self frames i g below) in
              subst₂ (FrameAt lent') same e new
          | no other ↦
              let old = v.each j x (sym (get_elem?-set_ne frames i j g other) ∙ q) in
              record { placed = old.placed; agrees = rw (others j other) (old.agrees) }
        ]

        owned' : (a : ℕ) → lent' a ≡ true → (j : ℕ) × (j < length (set frames i g)) × (a ≡ base + j)
        owned' a q = elim (inside a q) [
          | inl held ↦
              let (j, lt, e) = v.owned a held in (j, omega (arith, length-set frames i g), e)
          | inr e ↦ (i, omega (arith, below, length-set frames i g), e)
        ]

-- Where a received packet has to be: in a piece of the UMEM, to whose end it goes at most.
abbrev pub AllFit : ℕ → List Desc → Type 0
AllFit fs [] = Unit {0}
AllFit fs (d ∷ descs) = (d.addr + d.len ≤ chunk fs d.addr * fs + fs) × AllFit fs descs

abbrev pub pieces : ℕ → List Desc → List ℕ
pieces fs descs = map (λ (d : Desc). chunk fs d.addr) descs

pub chunk_below : (fs a : ℕ) → 0 < fs → (chunk fs a * fs ≤ a) × (a < chunk fs a * fs + fs)
chunk_below fs a pos = (div-mul-le_self a fs, lt-div-mul-add pos)

module _ (base : ℕ) where
  -- A received packet is in one of the frames.
  pub ours :
      (lent : Lent) (rx : XskRx) (d : Desc)
      → 0 < rx.frame_size
      → rx.rx_frame_offset ≡ base * rx.frame_size
      → AreFrames rx.frame_size base lent rx.rx_frames
      → lent (chunk rx.frame_size d.addr) ≡ true
      → d.addr + d.len ≤ chunk rx.frame_size d.addr * rx.frame_size + rx.frame_size
      → (o : IsOurs rx d) × (chunk rx.frame_size d.addr ≡ base + o.number)
  ours lent rx d pos offset v held fit =
      let (j, lt, e) = v.owned (chunk rx.frame_size d.addr) held in
      let (lo, hi) = chunk_below rx.frame_size d.addr pos in
      let row : (base + j) * rx.frame_size ≡ base * rx.frame_size + j * rx.frame_size =
        grind arith in
      let at = ap (λ (n : ℕ). n * rx.frame_size) e ∙ row in
      (
        record {
          number = j;
          below = lt;
          behind = omega (arith, offset, at, lo);
          starts = omega (arith, offset, at, hi);
          ends = omega (arith, offset, at, fit);
        },
        e,
      )

  -- `frames'` are `frames` with every descriptor entered in the frame of its piece, one after the other.
  abbrev pub AreMarked : ℕ → List Desc → List Frame → List Frame → Type 0
  AreMarked fs [] frames frames' = frames' ≡ frames
  AreMarked fs (d ∷ descs) frames frames' =
      (j : ℕ) × (old : Frame) × (chunk fs d.addr ≡ base + j)
      × (get_elem? frames j ≡ some old)
      × AreMarked fs descs (set frames j (filled_by old d)) frames'

  -- The received packets are marked in their frames, which are the kernel's no more.
  pub mark_filled-AreFrames :
      (mem : List ℕ) (lent : Lent) (descs : List Desc) (rx : XskRx)
      → IsArea mem rx
      → rx.rx_frame_offset ≡ base * rx.frame_size
      → AreFrames rx.frame_size base lent rx.rx_frames
      → AreLent lent (pieces rx.frame_size descs)
      → AllFit rx.frame_size descs
      → (frames : List Frame) × (mark_filled descs rx ≡ ret (record rx { rx_frames = frames }))
        × AreFrames rx.frame_size base (without_all lent (pieces rx.frame_size descs)) frames
        × (undelivered frames ≡ undelivered rx.rx_frames + length descs)
        × (length frames ≡ length rx.rx_frames)
        × AreMarked rx.frame_size descs rx.rx_frames frames
  unfolding mark_filled
  mark_filled-AreFrames mem lent [] rx area offset v h fit =
      (rx.rx_frames, refl, v, omega arith, refl, refl)
  mark_filled-AreFrames mem lent (d ∷ descs) rx area offset v h fit =
      let (o, e) = ours lent rx d area.size_pos offset v h.0 fit.0 in
      let (old, found) = get_elem?-some rx.rx_frames o.number o.below in
      let before = v.each o.number old found in
      let f = filled_by old d in
      let none_there : packets old.status ≡ 0 = ground (arith, before.agrees, e, h.0) in
      let v' =
        AreFrames-set rx.frame_size base lent (without lent (chunk rx.frame_size d.addr))
          rx.rx_frames o.number f v o.below
          (record {
            placed = e;
            agrees = inl (
              refl,
              ground (arith, e),
              omega (arith, fit.0, ap (λ (n : ℕ). n * rx.frame_size) e),
            );
          })
          (λ j other. ground (arith, e)) (λ a q. inl (ground arith)) in
      let (frames, run, after, count, same, entered) =
        mark_filled-AreFrames mem (without lent (chunk rx.frame_size d.addr)) descs
          (marked rx o.number f) (IsArea-marked mem rx o.number f area) offset v' h.1 fit.1 in
      (
        frames,
        rw (rx_frame_index_lem mem rx d area o) (rw found run),
        after,
        omega (arith, count, undelivered-set rx.rx_frames o.number old f found, none_there),
        same ∙ length-set rx.rx_frames o.number f,
        (o.number, old, e, found, entered),
      )
