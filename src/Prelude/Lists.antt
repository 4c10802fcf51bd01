-- ===== src/Prelude/Lists.antt =====
-- Vectors and slices as lists measured and indexed by native numbers.
use Prim.Native.Nat.{ℕ, zero, suc, ◌+◌, ◌-◌, ◌≤◌, ◌<◌, min}
use mathlib.Core.Path.{◌≡◌, refl, ap}
use mathlib.Core.Logic.{◌≢◌}
use mathlib.Core.List.{List, [], ◌∷◌, ◌++◌, map}
use mathlib.Core.Option.{Option, none, some}
use native.Mathlib.Omega.{arith}

module _ {ℓ} {A : Type ℓ} where
  abbrev pub length : List A → ℕ
  length [] = 0
  length (x ∷ xs) = suc (length xs)

  abbrev pub get_elem? : List A → ℕ → Option A
  get_elem? [] i = none
  get_elem? (x ∷ xs) zero = some x
  get_elem? (x ∷ xs) (suc i) = get_elem? xs i

  abbrev pub set : List A → ℕ → A → List A
  set [] i v = []
  set (x ∷ xs) zero v = v ∷ xs
  set (x ∷ xs) (suc i) v = x ∷ set xs i v

  abbrev pub take : ℕ → List A → List A
  take zero xs = []
  take (suc n) [] = []
  take (suc n) (x ∷ xs) = x ∷ take n xs

  abbrev pub drop : ℕ → List A → List A
  drop zero xs = xs
  drop (suc n) [] = []
  drop (suc n) (x ∷ xs) = drop n xs

  abbrev pub replicate : ℕ → A → List A
  replicate zero a = []
  replicate (suc n) a = a ∷ replicate n a

  -- The elements from `start` up to `stop`, without that one.
  abbrev pub slice : List A → ℕ → ℕ → List A
  slice xs start stop = take (stop - start) (drop start xs)

  -- `data` written over `xs` from index `i` on; what would pass the end is dropped.
  abbrev pub splice : List A → ℕ → List A → List A
  splice [] i ys = []
  splice (x ∷ xs) (suc i) ys = x ∷ splice xs i ys
  splice (x ∷ xs) zero [] = x ∷ xs
  splice (x ∷ xs) zero (y ∷ ys) = y ∷ splice xs zero ys

  pub length-append : (xs ys : List A) → length (xs ++ ys) ≡ length xs + length ys
  length-append [] ys = omega arith
  length-append (x ∷ xs) ys = omega (arith, length-append xs ys)

module _ {ℓ} {A : Type ℓ} where
  pub length-set : (xs : List A) (i : ℕ) (v : A) → length (set xs i v) ≡ length xs
  length-set [] i v = refl
  length-set (x ∷ xs) zero v = refl
  length-set (x ∷ xs) (suc i) v = ap suc (length-set xs i v)

  pub length-take : (n : ℕ) (xs : List A) → length (take n xs) ≡ min n (length xs)
  length-take zero xs = omega arith
  length-take (suc n) [] = omega arith
  length-take (suc n) (x ∷ xs) = omega (arith, length-take n xs)

  pub length-drop : (n : ℕ) (xs : List A) → length (drop n xs) ≡ length xs - n
  length-drop zero xs = omega arith
  length-drop (suc n) [] = omega arith
  length-drop (suc n) (x ∷ xs) = omega (arith, length-drop n xs)

  pub length-slice : (xs : List A) (i j : ℕ) → j ≤ length xs → length (slice xs i j) ≡ j - i
  length-slice xs i j h = omega (arith, length-take (j - i) (drop i xs), length-drop i xs)

  pub take-length : (xs : List A) → take (length xs) xs ≡ xs
  take-length [] = refl
  take-length (x ∷ xs) = ap (◌∷◌ x) (take-length xs)

  pub length-map {κ} : {B : Type κ} (f : A → B) (xs : List A) → length (map f xs) ≡ length xs
  length-map f [] = refl
  length-map f (x ∷ xs) = ap suc (length-map f xs)

  pub length-replicate : (n : ℕ) (a : A) → length (replicate n a) ≡ n
  length-replicate zero a = refl
  length-replicate (suc n) a = ap suc (length-replicate n a)

  pub length-splice : (xs : List A) (i : ℕ) (ys : List A) → length (splice xs i ys) ≡ length xs
  length-splice [] i ys = refl
  length-splice (x ∷ xs) (suc i) ys = ap suc (length-splice xs i ys)
  length-splice (x ∷ xs) zero [] = refl
  length-splice (x ∷ xs) zero (y ∷ ys) = ap suc (length-splice xs zero ys)

  pub get_elem?-set_self :
      (xs : List A) (i : ℕ) (v : A) → i < length xs → get_elem? (set xs i v) i ≡ some v
  get_elem?-set_self [] i v h = elim h [ ]
  get_elem?-set_self (x ∷ xs) zero v h = refl
  get_elem?-set_self (x ∷ xs) (suc i) v h = get_elem?-set_self xs i v (omega arith)

  pub get_elem?-set_ne :
      (xs : List A) (i j : ℕ) (v : A) → i ≢ j → get_elem? (set xs i v) j ≡ get_elem? xs j
  get_elem?-set_ne [] i j v h = refl
  get_elem?-set_ne (x ∷ xs) zero zero v h = absurd (h refl)
  get_elem?-set_ne (x ∷ xs) zero (suc j) v h = refl
  get_elem?-set_ne (x ∷ xs) (suc i) zero v h = refl
  get_elem?-set_ne (x ∷ xs) (suc i) (suc j) v h = get_elem?-set_ne xs i j v (λ e. h (ap suc e))

  pub get_elem?-some : (xs : List A) (i : ℕ) → i < length xs → (x : A) × (get_elem? xs i ≡ some x)
  get_elem?-some [] i h = elim h [ ]
  get_elem?-some (x ∷ xs) zero h = (x, refl)
  get_elem?-some (x ∷ xs) (suc i) h = get_elem?-some xs i (omega arith)

  pub splice-nil : (xs : List A) (i : ℕ) → splice xs i [] ≡ xs
  splice-nil [] i = refl
  splice-nil (x ∷ xs) zero = refl
  splice-nil (x ∷ xs) (suc i) = ap (◌∷◌ x) (splice-nil xs i)

  -- What was written is what is read back.
  pub slice-splice :
      (xs : List A) (i : ℕ) (ys : List A)
      → i + length ys ≤ length xs
      → take (length ys) (drop i (splice xs i ys)) ≡ ys
  slice-splice [] zero [] h = refl
  slice-splice [] (suc i) [] h = refl
  slice-splice [] i (y ∷ ys) h = absurd (omega arith)
  slice-splice (x ∷ xs) (suc i) ys h = slice-splice xs i ys (omega arith)
  slice-splice (x ∷ xs) zero [] h = refl
  slice-splice (x ∷ xs) zero (y ∷ ys) h = ap (◌∷◌ y) (slice-splice xs zero ys (omega arith))

  pub splice-set :
      (xs : List A) (i : ℕ) (y : A) (ys : List A)
      → splice (set xs i y) (suc i) ys ≡ splice xs i (y ∷ ys)
  splice-set [] i y ys = refl
  splice-set (x ∷ xs) zero y ys = refl
  splice-set (x ∷ xs) (suc i) y ys = ap (◌∷◌ x) (splice-set xs i y ys)

  pub slice-splice_zero :
      (xs ys : List A) → length ys ≤ length xs → slice (splice xs 0 ys) 0 (length ys) ≡ ys
  slice-splice_zero xs ys h = ground (arith, slice-splice xs 0 ys)

  pub get_elem?-lt : (xs : List A) (i : ℕ) (x : A) → get_elem? xs i ≡ some x → i < length xs
  get_elem?-lt [] i x h = cc
  get_elem?-lt (y ∷ xs) zero x h = omega arith
  get_elem?-lt (y ∷ xs) (suc i) x h = omega (arith, get_elem?-lt xs i x h)
