-- ===== src/Prelude/Ranges.antt =====
-- A function mapped over a range of a list in place.
use Prim.Native.Nat.{ℕ, zero, suc, ◌+◌, ◌≤◌, ◌<◌}
use mathlib.Core.Path.{◌≡◌, refl, ap, ◌∙◌}
use mathlib.Core.Logic.{◌⊎◌, inl, inr}
use mathlib.Core.List.{List, [], ◌∷◌, map}
use mathlib.Core.Option.{some}
use native.Mathlib.Omega.{arith}
use xdpsock.Prelude.Lists.{length, get_elem?, take, drop, slice, splice}

module _ {ℓ} {A : Type ℓ} (g : A → A) where
  -- `n` elements from index `s` on.
  abbrev pub update_range : ℕ → ℕ → List A → List A
  update_range s n [] = []
  update_range zero zero (x ∷ xs) = x ∷ xs
  update_range zero (suc n) (x ∷ xs) = g x ∷ update_range zero n xs
  update_range (suc s) n (x ∷ xs) = x ∷ update_range s n xs

  pub length-update_range : (s n : ℕ) (xs : List A) → length (update_range s n xs) ≡ length xs
  length-update_range s n [] = refl
  length-update_range zero zero (x ∷ xs) = refl
  length-update_range zero (suc n) (x ∷ xs) = ap suc (length-update_range zero n xs)
  length-update_range (suc s) n (x ∷ xs) = ap suc (length-update_range s n xs)

  splice-map-take :
      (s n : ℕ) (xs : List A) → splice xs s (map g (take n (drop s xs))) ≡ update_range s n xs
  splice-map-take s n [] = refl
  splice-map-take zero zero (x ∷ xs) = refl
  splice-map-take zero (suc n) (x ∷ xs) = ap (◌∷◌ (g x)) (splice-map-take zero n xs)
  splice-map-take (suc s) n (x ∷ xs) = ap (◌∷◌ x) (splice-map-take s n xs)

  -- A slice mapped and written back.
  pub splice-map-slice :
      (s n : ℕ) (xs : List A) → splice xs s (map g (slice xs s (s + n))) ≡ update_range s n xs
  splice-map-slice s n xs =
      ap (λ k. splice xs s (map g (take k (drop s xs)))) (omega arith) ∙ splice-map-take s n xs

  abbrev pub Within : ℕ → ℕ → ℕ → Type 0
  Within s n j = (s ≤ j) × (j < s + n)

  abbrev pub Outside : ℕ → ℕ → ℕ → Type 0
  Outside s n j = (j < s) ⊎ (s + n ≤ j)

  -- Where an element of the result comes from.
  pub get_elem?-update_range :
      (s n : ℕ) (xs : List A) (j : ℕ) (x : A)
      → get_elem? (update_range s n xs) j ≡ some x
      → (Within s n j × ((y : A) × (get_elem? xs j ≡ some y) × (x ≡ g y)))
        ⊎ (Outside s n j × (get_elem? xs j ≡ some x))
  get_elem?-update_range s n [] j x h = cc
  get_elem?-update_range zero zero (y ∷ xs) j x h = inr (inr (omega arith), h)
  get_elem?-update_range zero (suc n) (y ∷ xs) zero x h =
      inl ((omega arith, omega arith), (y, refl, cc))
  get_elem?-update_range zero (suc n) (y ∷ xs) (suc j) x h =
      elim (get_elem?-update_range zero n xs j x h) [
        | inl (r, z) ↦ inl ((omega arith, omega (arith, r)), z)
        | inr (inl r, z) ↦ absurd (omega (arith, r))
        | inr (inr r, z) ↦ inr (inr (omega (arith, r)), z)
      ]
  get_elem?-update_range (suc s) n (y ∷ xs) zero x h = inr (inl (omega arith), h)
  get_elem?-update_range (suc s) n (y ∷ xs) (suc j) x h =
      elim (get_elem?-update_range s n xs j x h) [
        | inl (r, z) ↦ inl ((omega (arith, r), omega (arith, r)), z)
        | inr (inl r, z) ↦ inr (inl (omega (arith, r)), z)
        | inr (inr r, z) ↦ inr (inr (omega (arith, r)), z)
      ]

module _ {ℓ} {A : Type ℓ} where
  pub drop-get_elem? :
      (xs : List A) (s : ℕ) (x : A) → get_elem? xs s ≡ some x → drop s xs ≡ x ∷ drop (suc s) xs
  drop-get_elem? [] s x h = cc
  drop-get_elem? (y ∷ xs) zero x h = cc
  drop-get_elem? (y ∷ xs) (suc s) x h = drop-get_elem? xs s x h
