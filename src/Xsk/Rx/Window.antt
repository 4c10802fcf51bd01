-- ===== src/Xsk/Rx/Window.antt =====
-- Frames that follow each other round the end of the receive frames.
use mathlib.Core.Path.{subst, ap₂}
use mathlib.Core.List.{append-nil, append_assoc}
use native.Mathlib.Decide.{dec_lt}
use native.Mathlib.Nat.{mod-add-mod, div-add-mod'}
use xdpsock.Xsk.Tx.Frames.{mul-lt}
use xdpsock.Prelude.{
  ℕ, zero, suc, ◌+◌, ◌*◌, ◌/◌, ◌%◌, ◌-◌, ◌≤◌, ◌<◌, ◌≡◌, ◌≢◌, refl, sym, ap, ◌∙◌, List, [], ◌∷◌,
  ◌++◌, map, some, slice, length-append, length, set, length-set, get_elem?, get_elem?-set_self,
  get_elem?-set_ne, get_elem?-lt, arith,
}
use xdpsock.Kernel.{Desc}
use xdpsock.Umem.Frame.{Frame}
use xdpsock.Xsk.Rx.Mark.{filled_by}
use xdpsock.Xsk.Rx.Refill.{chunk}
use xdpsock.Xsk.Rx.Frames.{packets, pieces, AreMarked}
use xdpsock.Xsk.Rx.Apply.{packet}

-- The bytes of a frame's packet.
abbrev pub content : List ℕ → Frame → List ℕ
content mem f = slice mem f.addr (f.addr + f.len)

abbrev first : ℕ → List ℕ → ℕ
first a [] = a
first a (x ∷ xs) = x

abbrev rest_of : List ℕ → List ℕ
rest_of [] = []
rest_of (x ∷ xs) = xs

mul-le : (a b n : ℕ) → a ≤ b → a * n ≤ b * n
mul-le a b n h = grind arith

module _ (n : ℕ) where
  -- `waiting` are the frames from index `i` on, modulo `n`, and each has a packet.
  abbrev pub Window : List Frame → ℕ → List Frame → Type 0
  Window frames i [] = Unit {0}
  Window frames i (f ∷ waiting) =
      (get_elem? frames (i % n) ≡ some f) × (packets f.status ≡ 1) × Window frames (suc i) waiting

  -- The `m` pieces from that of index `i` on, modulo `n`, of the frames behind the first `base` pieces.
  abbrev pub round : ℕ → ℕ → ℕ → List ℕ
  round base i zero = []
  round base i (suc m) = (base + i % n) ∷ round base (suc i) m

  next_same : (i j : ℕ) → i % n ≡ j % n → suc i % n ≡ suc j % n
  next_same i j e =
      ap (λ (k : ℕ). k % n) {x = suc i} {y = i + 1} (omega arith)
      ∙ sym (mod-add-mod i n 1)
      ∙ ap (λ (k : ℕ). (k + 1) % n) e
      ∙ mod-add-mod j n 1
      ∙ ap (λ (k : ℕ). k % n) {x = j + 1} {y = suc j} (omega arith)

  pub Window-mod :
      (frames : List Frame) (i j : ℕ) (waiting : List Frame)
      → i % n ≡ j % n
      → Window frames i waiting
      → Window frames j waiting
  Window-mod frames i j [] e w = tt
  Window-mod frames i j (f ∷ waiting) e w = (
    ap (get_elem? frames) (sym e) ∙ w.0,
    w.1,
    Window-mod frames (suc i) (suc j) waiting (next_same i j e) w.2,
  )

  pub round-mod : (base i j m : ℕ) → i % n ≡ j % n → round base i m ≡ round base j m
  round-mod base i j zero e = refl
  round-mod base i j (suc m) e =
      ap₂ ◌∷◌ (ap (λ (k : ℕ). base + k) e) (round-mod base (suc i) (suc j) m (next_same i j e))

  pub round-snoc :
      (base i m : ℕ) → round base i (suc m) ≡ round base i m ++ ((base + (i + m) % n) ∷ [])
  round-snoc base i zero = ap (λ (k : ℕ). (base + k % n) ∷ []) {x = i} {y = i + 0} (omega arith)
  round-snoc base i (suc m) = ap (◌∷◌ (base + i % n)) (
      round-snoc base (suc i) m
      ∙ ap (λ (k : ℕ). round base (suc i) m ++ ((base + k % n) ∷ [])) {x = suc i + m}
          {y = i + suc m} (omega arith))

  -- Indices that are less than a whole round apart are different.
  apart : (i j : ℕ) → i < j → j < i + n → i % n ≢ j % n
  apart i j lt near e = elim (dec_lt (i / n) (j / n)) [
    | yes more ↦
        let rows = mul-lt (i / n) (j / n) n more in
        omega (arith, div-add-mod' i n, div-add-mod' j n, e, rows)
    | no less ↦
        let rows : j / n * n ≤ i / n * n = mul-le (j / n) (i / n) n (omega arith) in
        omega (arith, div-add-mod' i n, div-add-mod' j n, e, rows)
  ]

  Window-set :
      (frames : List Frame) (i j : ℕ) (g : Frame) (waiting : List Frame)
      → ((d : ℕ) → d < length waiting → (i + d) % n ≢ j)
      → Window frames i waiting
      → Window (set frames j g) i waiting
  Window-set frames i j g [] away w = tt
  Window-set frames i j g (f ∷ waiting) away w =
      let here : j ≢ i % n = λ e.
        away 0 (omega arith) (ap (λ (x : ℕ). x % n) {x = i + 0} {y = i} (omega arith) ∙ sym e) in
      (
        get_elem?-set_ne frames j (i % n) g here ∙ w.0,
        w.1,
        Window-set frames (suc i) j g waiting
            (λ d lt e.
              away (suc d) (omega arith)
                (ap (λ (x : ℕ). x % n) {x = i + suc d} {y = suc i + d} (omega arith) ∙ e))
            w.2,
      )

  Window-snoc :
      (frames : List Frame) (i : ℕ) (f : Frame) (waiting : List Frame)
      → Window frames i waiting
      → get_elem? frames ((i + length waiting) % n) ≡ some f
      → packets f.status ≡ 1
      → Window frames i (waiting ++ (f ∷ []))
  Window-snoc frames i f [] w found one =
      (ap (λ (x : ℕ). get_elem? frames (x % n)) {x = i} {y = i + 0} (omega arith) ∙ found, one, tt)
  Window-snoc frames i f (g ∷ waiting) w found one = (
    w.0,
    w.1,
    Window-snoc frames (suc i) f waiting w.2
        (ap (λ (x : ℕ). get_elem? frames (x % n)) {x = suc i + length waiting}
            {y = i + suc (length waiting)} (omega arith)
          ∙ found)
        one,
  )

  -- The frame in front is dealt with; the others of the window stay.
  pub Window-next :
      (frames : List Frame) (i : ℕ) (f g : Frame) (waiting : List Frame)
      → suc (length waiting) ≤ n
      → Window frames i (f ∷ waiting)
      → Window (set frames (i % n) g) (suc i) waiting
  Window-next frames i f g waiting le w =
      Window-set frames (suc i) (i % n) g waiting
        (λ d lt e. apart i (suc i + d) (omega arith) (omega arith) (sym e)) w.2

  -- Packets that arrive in the frames behind the window join it, in their order.
  pub Window-AreMarked :
      (base fs i : ℕ) (descs : List Desc) (frames frames' waiting : List Frame)
      → length frames ≡ n
      → length waiting + length descs ≤ n
      → Window frames i waiting
      → pieces fs descs ≡ round base (i + length waiting) (length descs)
      → AreMarked base fs descs frames frames'
      → (new : List Frame) × Window frames' i (waiting ++ new)
        × (length new ≡ length descs)
        × ((mem : List ℕ) → map (content mem) new ≡ map (packet mem) descs)
  Window-AreMarked base fs i [] frames frames' waiting number le w at marked = (
    [],
    subst (λ x. Window x i (waiting ++ [])) (sym marked)
        (subst (Window frames i) (sym (append-nil waiting)) w),
    refl,
    λ mem. refl,
  )
  Window-AreMarked base fs i (d ∷ descs) frames frames' waiting number le w at marked =
      let (j, old, piece, found, rest) = marked in
      let f = filled_by old d in
      let head : chunk fs d.addr ≡ base + (i + length waiting) % n = ap (first 0) at in
      let place : j ≡ (i + length waiting) % n = omega (arith, head, piece) in
      let inside = get_elem?-lt frames j old found in
      let stored : get_elem? (set frames j f) ((i + length waiting) % n) ≡ some f =
        ap (get_elem? (set frames j f)) (sym place) ∙ get_elem?-set_self frames j f inside in
      let w' =
        Window-snoc (set frames j f) i f waiting
          (Window-set frames i j f waiting
            (λ x lt e. apart (i + x) (i + length waiting) (omega arith) (omega arith) (e ∙ place))
            w)
          stored refl in
      let longer = length-append waiting (f ∷ []) in
      let (new, window, count, same) =
        Window-AreMarked base fs i descs (set frames j f) frames' (waiting ++ (f ∷ []))
          (length-set frames j f ∙ number) (omega (arith, longer)) w'
          (ap rest_of at
            ∙ ap (λ (x : ℕ). round base x (length descs)) {x = suc (i + length waiting)}
                {y = i + length (waiting ++ (f ∷ []))} (omega (arith, longer)))
          rest in
      (
        f ∷ new,
        subst (Window frames' i) (append_assoc waiting (f ∷ []) new) window,
        ap suc count,
        λ mem. ap (◌∷◌ (packet mem d)) (same mem),
      )

  -- A run of pieces that is cut in two.
  pub round-split :
      (base i m : ℕ) (xs ys : List ℕ)
      → round base i m ≡ xs ++ ys
      → (xs ≡ round base i (length xs)) × (ys ≡ round base (i + length xs) (m - length xs))
  round-split base i m [] ys e = (
    refl,
    sym e ∙ ap₂ (round base) {x = i} {y = i + 0} {u = m} {v = m - 0} (omega arith) (omega arith),
  )
  round-split base i zero (x ∷ xs) ys e = absurd (omega (arith, ap length e))
  round-split base i (suc m) (x ∷ xs) ys e =
      let (front, back) = round-split base (suc i) m xs ys (ap rest_of e) in
      (
        ap₂ ◌∷◌ (sym (ap (first 0) e)) front,
        back
            ∙ ap₂ (round base) {x = suc i + length xs} {y = i + suc (length xs)} {u = m - length xs}
                {v = suc m - suc (length xs)} (omega arith) (omega arith),
      )
