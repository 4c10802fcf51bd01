-- ===== src/Prelude/Slices.antt =====
-- Slices of a list that is mapped, written to or extended.
use Prim.Native.Nat.{ℕ, zero, suc, ◌+◌, ◌-◌, ◌≤◌}
use mathlib.Core.Path.{◌≡◌, refl, sym, ap, ap₂, ◌∙◌}
use mathlib.Core.List.{List, [], ◌∷◌, ◌++◌, map}
use mathlib.Core.Option.{some}
use native.Mathlib.Omega.{arith}
use xdpsock.Prelude.Lists.{get_elem?, set, take, drop, slice}
use xdpsock.Prelude.Ranges.{update_range}

module _ {ℓ} {A : Type ℓ} where
  take-set : (xs : List A) (n i : ℕ) (y : A) → n ≤ i → take n (set xs i y) ≡ take n xs
  take-set xs zero i y h = refl
  take-set [] (suc n) i y h = refl
  take-set (x ∷ xs) (suc n) zero y h = absurd (omega arith)
  take-set (x ∷ xs) (suc n) (suc i) y h = ap (◌∷◌ x) (take-set xs n i y (omega arith))

  take-drop-set :
      (xs : List A) (a n i : ℕ) (y : A)
      → a + n ≤ i
      → take n (drop a (set xs i y)) ≡ take n (drop a xs)
  take-drop-set xs zero n i y h = take-set xs n i y (omega arith)
  take-drop-set [] (suc a) n i y h = refl
  take-drop-set (x ∷ xs) (suc a) n zero y h = absurd (omega arith)
  take-drop-set (x ∷ xs) (suc a) n (suc i) y h = take-drop-set xs a n i y (omega arith)

  -- A slice that ends before the element that is set.
  pub slice-set :
      (xs : List A) (a b i : ℕ) (y : A) → a ≤ b → b ≤ i → slice (set xs i y) a b ≡ slice xs a b
  slice-set xs a b i y le h = take-drop-set xs a (b - a) i y (omega arith)

  take-snoc :
      (xs : List A) (n : ℕ) (x : A)
      → get_elem? xs n ≡ some x
      → take (suc n) xs ≡ take n xs ++ (x ∷ [])
  take-snoc [] n x h = cc
  take-snoc (y ∷ []) zero x h = cc
  take-snoc (y ∷ z ∷ xs) zero x h = cc
  take-snoc (y ∷ xs) (suc n) x h = ap (◌∷◌ y) (take-snoc xs n x h)

  take-drop-snoc :
      (xs : List A) (a n : ℕ) (x : A)
      → get_elem? xs (a + n) ≡ some x
      → take (suc n) (drop a xs) ≡ take n (drop a xs) ++ (x ∷ [])
  take-drop-snoc xs zero n x h =
      take-snoc xs n x (ap (get_elem? xs) {x = n} {y = 0 + n} (omega arith) ∙ h)
  take-drop-snoc [] (suc a) n x h = cc
  take-drop-snoc (y ∷ xs) (suc a) n x h =
      take-drop-snoc xs a n x
        (ap (get_elem? (y ∷ xs)) {x = suc (a + n)} {y = suc a + n} (omega arith) ∙ h)

  -- A slice that is extended by one element.
  pub slice-snoc :
      (xs : List A) (a b : ℕ) (x : A)
      → a ≤ b
      → get_elem? xs b ≡ some x
      → slice xs a (b + 1) ≡ slice xs a b ++ (x ∷ [])
  slice-snoc xs a b x le h =
      ap (λ n. take n (drop a xs)) {y = suc (b - a)} (omega arith)
      ∙ take-drop-snoc xs a (b - a) x (ap (get_elem? xs) (omega arith) ∙ h)

  pub take-take : (xs : List A) (n m : ℕ) → n ≤ m → take n (take m xs) ≡ take n xs
  take-take xs zero m h = refl
  take-take xs (suc n) zero h = absurd (omega arith)
  take-take [] (suc n) (suc m) h = refl
  take-take (x ∷ xs) (suc n) (suc m) h = ap (◌∷◌ x) (take-take xs n m (omega arith))

  take-drop-take :
      (xs : List A) (a n m : ℕ) → a + n ≤ m → take n (drop a (take m xs)) ≡ take n (drop a xs)
  take-drop-take xs zero n m h = take-take xs n m (omega arith)
  take-drop-take xs (suc a) n zero h = absurd (omega arith)
  take-drop-take [] (suc a) n (suc m) h = refl
  take-drop-take (x ∷ xs) (suc a) n (suc m) h = take-drop-take xs a n m (omega arith)

  -- Lists that begin alike have the same slices there.
  pub slice-same :
      (xs ys : List A) (a b m : ℕ)
      → a ≤ b
      → b ≤ m
      → take m xs ≡ take m ys
      → slice xs a b ≡ slice ys a b
  slice-same xs ys a b m le h e =
      sym (take-drop-take xs a (b - a) m (omega arith))
      ∙ ap (λ zs. take (b - a) (drop a zs)) e
      ∙ take-drop-take ys a (b - a) m (omega arith)

module _ {ℓ κ} {A : Type ℓ} {B : Type κ} (g : A → B) where
  pub map-set : (xs : List A) (i : ℕ) (y : A) → map g (set xs i y) ≡ set (map g xs) i (g y)
  map-set [] i y = refl
  map-set (x ∷ xs) zero y = refl
  map-set (x ∷ xs) (suc i) y = ap (◌∷◌ (g x)) (map-set xs i y)

  pub map-set_same :
      (xs : List A) (i : ℕ) (x y : A)
      → get_elem? xs i ≡ some x
      → g y ≡ g x
      → map g (set xs i y) ≡ map g xs
  map-set_same [] i x y h e = refl
  map-set_same (z ∷ xs) zero x y h e = ap (λ v. v ∷ map g xs) (e ∙ cc)
  map-set_same (z ∷ xs) (suc i) x y h e = ap (◌∷◌ (g z)) (map-set_same xs i x y h e)

  map-take : (n : ℕ) (xs : List A) → map g (take n xs) ≡ take n (map g xs)
  map-take zero xs = refl
  map-take (suc n) [] = refl
  map-take (suc n) (x ∷ xs) = ap (◌∷◌ (g x)) (map-take n xs)

  map-drop : (n : ℕ) (xs : List A) → map g (drop n xs) ≡ drop n (map g xs)
  map-drop zero xs = refl
  map-drop (suc n) [] = refl
  map-drop (suc n) (x ∷ xs) = map-drop n xs

  pub map-slice : (xs : List A) (a b : ℕ) → map g (slice xs a b) ≡ slice (map g xs) a b
  map-slice xs a b = map-take (b - a) (drop a xs) ∙ ap (take (b - a)) (map-drop a xs)

  pub map-append_lists : (xs ys : List A) → map g (xs ++ ys) ≡ map g xs ++ map g ys
  map-append_lists [] ys = refl
  map-append_lists (x ∷ xs) ys = ap (◌∷◌ (g x)) (map-append_lists xs ys)

  pub map-update_range_same :
      (f : A → A) (s n : ℕ) (xs : List A)
      → ((x : A) → g (f x) ≡ g x)
      → map g (update_range f s n xs) ≡ map g xs
  map-update_range_same f s n [] e = refl
  map-update_range_same f zero zero (x ∷ xs) e = refl
  map-update_range_same f zero (suc n) (x ∷ xs) e =
      ap₂ ◌∷◌ (e x) (map-update_range_same f zero n xs e)
  map-update_range_same f (suc s) n (x ∷ xs) e = ap (◌∷◌ (g x)) (map-update_range_same f s n xs e)
