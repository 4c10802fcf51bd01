-- ===== src/Xsk/Rx/Mark.antt =====
-- How `update_rx_frames` writes received descriptors to the frames that they are for.
use native.Mathlib.Decide.{ℕ_discrete}
use xdpsock.Prelude.{
  ℕ, ◌+◌, ◌*◌, ◌≤◌, ◌<◌, ◌≡◌, refl, sym, ap, ◌∙◌, ◌⊎◌, inl, inr, List, [], ◌∷◌, ret, length, set,
  length-set, get_elem?, get_elem?-some, get_elem?-set_self, get_elem?-set_ne, some, arith,
}
use mathlib.Core.Option.{some-injective}
use xdpsock.Kernel.{Desc}
use xdpsock.Umem.Frame.{Frame, FrameStatus, set_status}
use xdpsock.Xsk.Rx.{XskRx, describe, mark_filled}
use xdpsock.Xsk.Rx.Place.{IsArea, IsOurs, AllOurs, number_unique, rx_frame_index_lem}

-- The descriptor's packet begins in frame `j`.
abbrev pub IsFor : XskRx → ℕ → Desc → Type 0
IsFor rx j d =
    (rx.rx_frame_offset + j * rx.frame_size ≤ d.addr)
    × (d.addr < rx.rx_frame_offset + j * rx.frame_size + rx.frame_size)

abbrev pub NoneFor : XskRx → ℕ → List Desc → Type 0
NoneFor rx j [] = Unit {0}
NoneFor rx j (d ∷ rest) = (IsFor rx j d → ⊥) × NoneFor rx j rest

-- The frame is marked as filled, with the fields of one of the descriptors for its number.
abbrev pub IsFilledBy : XskRx → ℕ → List Desc → Frame → Type 0
IsFilledBy rx j [] f = ⊥
IsFilledBy rx j (d ∷ rest) f =
    (IsFor rx j d
      × (f.addr ≡ d.addr)
      × (f.len ≡ d.len)
      × (f.options ≡ d.options)
      × (f.status ≡ FrameStatus.filled))
    ⊎ IsFilledBy rx j rest f

abbrev pub filled_by : Frame → Desc → Frame
filled_by frame d = set_status (describe frame d) FrameStatus.filled

abbrev pub marked : XskRx → ℕ → Frame → XskRx
marked rx i frame = record rx { rx_frames = set rx.rx_frames i frame }

AllOurs-marked :
    (rx : XskRx) (i : ℕ) (frame : Frame) (rest : List Desc)
    → AllOurs rx rest
    → AllOurs (marked rx i frame) rest
AllOurs-marked rx i frame [] h = tt
AllOurs-marked rx i frame (d ∷ rest) h = (
  record {
    number = h.0.number;
    below = omega (arith, h.0.below, length-set rx.rx_frames i frame);
    behind = h.0.behind;
    starts = h.0.starts;
    ends = h.0.ends;
  },
  AllOurs-marked rx i frame rest h.1,
)

pub IsArea-marked :
    (mem : List ℕ) (rx : XskRx) (i : ℕ) (frame : Frame)
    → IsArea mem rx
    → IsArea mem (marked rx i frame)
IsArea-marked mem rx i frame a =
    let n = length-set rx.rx_frames i frame in
    record { size_pos = a.size_pos; fits = rw n (a.fits); inside = rw n (a.inside) }

-- Frame `j` before and after the loop.
abbrev pub Changes : XskRx → List Desc → ℕ → Frame → Type 0
Changes rx descs j f =
    (NoneFor rx j descs × (get_elem? rx.rx_frames j ≡ some f)) ⊎ IsFilledBy rx j descs f

-- One round more in front.
Changes-step :
    (rx : XskRx) (d : Desc) (rest : List Desc) (o : IsOurs rx d) (old : Frame) (j : ℕ) (f : Frame)
    → Changes (marked rx o.number (filled_by old d)) rest j f
    → Changes rx (d ∷ rest) j f
Changes-step rx d rest o old j f (inr by) = inr (inr by)
Changes-step rx d rest o old j f (inl (others, at)) = elim (ℕ_discrete o.number j) [
  | yes same ↦
      let e : filled_by old d ≡ f = some-injective (filled_by old d) f (
        sym (get_elem?-set_self rx.rx_frames o.number (filled_by old d) o.below)
        ∙ ap (get_elem? (set rx.rx_frames o.number (filled_by old d))) same
        ∙ at) in
      rw⁻¹ e (inr (inl (rw⁻¹ same (o.behind, o.starts), refl, refl, refl, refl)))
  | no other ↦ inl (
    (
      λ h. other (
          number_unique o.number j rx.frame_size rx.rx_frame_offset d.addr o.behind o.starts h.0
            h.1),
      others,
    ),
    sym (get_elem?-set_ne rx.rx_frames o.number j (filled_by old d) other) ∙ at,
  )
]

-- Where the receive frames lie in the first 2 ^ 32 bytes of the mapped memory and every descriptor
-- is for one of them, the loop of `update_rx_frames` returns, and afterwards each frame is marked
-- as filled with the address, length and options of a descriptor for it, or there is no descriptor
-- for it and it is as it was.
pub mark_filled_lem :
    (mem : List ℕ) (descs : List Desc) (rx : XskRx)
    → IsArea mem rx
    → AllOurs rx descs
    → (rx' : XskRx) × (mark_filled descs rx ≡ ret rx')
      × (length rx'.rx_frames ≡ length rx.rx_frames)
      × ((j : ℕ) (f : Frame) → get_elem? rx'.rx_frames j ≡ some f → Changes rx descs j f)
unfolding mark_filled
mark_filled_lem mem [] rx a h = (rx, refl, refl, λ j f at. inl (tt, at))
mark_filled_lem mem (d ∷ rest) rx a h =
    let (old, found) = get_elem?-some rx.rx_frames h.0.number h.0.below in
    let new_frame = filled_by old d in
    let (rx', run, same, changes) =
      mark_filled_lem mem rest (marked rx h.0.number new_frame)
        (IsArea-marked mem rx h.0.number new_frame a)
        (AllOurs-marked rx h.0.number new_frame rest h.1) in
    (
      rx',
      rw (rx_frame_index_lem mem rx d a h.0) (rw found run),
      same ∙ length-set rx.rx_frames h.0.number new_frame,
      λ j f at. Changes-step rx d rest h.0 old j f (changes j f at),
    )
