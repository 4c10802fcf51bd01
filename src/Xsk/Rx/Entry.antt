-- ===== src/Xsk/Rx/Entry.antt =====
-- The frame that a received packet is in, after `update_rx_frames`.
use mathlib.Core.Option.{some-injective}
use native.Mathlib.Decide.{ℕ_discrete}
use xdpsock.Xsk.Rx.Mark.{filled_by}
use xdpsock.Prelude.{
  ℕ, ◌+◌, ◌≡◌, ◌≢◌, sym, ap, ◌∙◌, ◌⊎◌, inl, inr, List, [], ◌∷◌, set, get_elem?, get_elem?-lt,
  get_elem?-set_self, get_elem?-set_ne, some, arith,
}
use xdpsock.Kernel.{Desc}
use xdpsock.Umem.Frame.{Frame, FrameStatus}
use xdpsock.Xsk.Rx.Refill.{chunk}
use xdpsock.Xsk.Rx.Frames.{AreMarked}

-- Frame `f` is filled, with the address and the length of one of the descriptors, which is in piece `p`.
abbrev pub EnteredBy : ℕ → ℕ → List Desc → Frame → Type 0
EnteredBy fs p [] f = ⊥
EnteredBy fs p (d ∷ descs) f =
    ((chunk fs d.addr ≡ p) × (f.addr ≡ d.addr) × (f.len ≡ d.len) × (f.status ≡ FrameStatus.filled))
    ⊎ EnteredBy fs p descs f

abbrev pub NoneIn : ℕ → ℕ → List Desc → Type 0
NoneIn fs p [] = Unit {0}
NoneIn fs p (d ∷ descs) = (chunk fs d.addr ≢ p) × NoneIn fs p descs

-- Frame `j`, which is piece `p`, once the descriptors were entered.
abbrev pub Entry : ℕ → ℕ → List Desc → List Frame → ℕ → Frame → Type 0
Entry fs p descs frames j f =
    (NoneIn fs p descs × (get_elem? frames j ≡ some f)) ⊎ EnteredBy fs p descs f

-- A frame once the received packets are marked.
pub AreMarked-Entry :
    (fs base : ℕ) (descs : List Desc) (frames frames' : List Frame) (j : ℕ) (f : Frame)
    → AreMarked base fs descs frames frames'
    → get_elem? frames' j ≡ some f
    → Entry fs (base + j) descs frames j f
AreMarked-Entry fs base [] frames frames' j f same h =
    inl (tt, ap (λ xs. get_elem? xs j) (sym same) ∙ h)
AreMarked-Entry fs base (d ∷ descs) frames frames' j f (i, old, place, found, rest) h =
    let g = filled_by old d in
    elim (AreMarked-Entry fs base descs (set frames i g) frames' j f rest h) [
      | inr by ↦ inr (inr by)
      | inl (others, at) ↦ elim (ℕ_discrete i j) [
        | yes same ↦
            let e : g ≡ f = some-injective g f (
              sym (get_elem?-set_self frames i g (get_elem?-lt frames i old found))
              ∙ ap (get_elem? (set frames i g)) same
              ∙ at) in
            inr (
              inl (
                place ∙ ap (λ n. base + n) same,
                ap (λ (x : Frame). x.addr) (sym e),
                ap (λ (x : Frame). x.len) (sym e),
                ap (λ (x : Frame). x.status) (sym e),
              ))
        | no other ↦ inl (
          (λ here. other (omega (arith, place, here)), others),
          sym (get_elem?-set_ne frames i j g other) ∙ at,
        )
      ]
    ]
