-- ===== src/Xsk/Lent.antt =====
-- Which frames the kernel holds, for the sending and the receiving half.

use native.Mathlib.Decide.{ℕ_discrete}
use xdpsock.Prelude.{
  ℕ, ◌≡◌, refl, sym, ap, ◌∙◌, Bool, true, false, List, [], ◌∷◌, ◌==◌, if◌then◌else◌, arith,
}

-- Whether the kernel holds the frame at an address, or with a number.
abbrev pub Lent : Type 0
Lent = ℕ → Bool

abbrev pub without : Lent → ℕ → Lent
without lent a b = if a == b then false else lent b

abbrev pub with_ : Lent → ℕ → Lent
with_ lent a b = if a == b then true else lent b

abbrev pub without_all : Lent → List ℕ → Lent
without_all lent [] = lent
without_all lent (a ∷ addrs) = without_all (without lent a) addrs

abbrev pub with_all : Lent → List ℕ → Lent
with_all lent [] = lent
with_all lent (a ∷ addrs) = with_all (with_ lent a) addrs

-- The addresses are lent, and no two of them are the same.
abbrev pub AreLent : Lent → List ℕ → Type 0
AreLent lent [] = Unit {0}
AreLent lent (a ∷ addrs) = (lent a ≡ true) × AreLent (without lent a) addrs

pub without_all-le :
    (lent : Lent) (addrs : List ℕ) (b : ℕ) → lent b ≡ false → without_all lent addrs b ≡ false
without_all-le lent [] b h = h
without_all-le lent (a ∷ addrs) b h = without_all-le (without lent a) addrs b (ground arith)

pub with_all-true :
    (lent : Lent) (addrs : List ℕ) (b : ℕ) → lent b ≡ true → with_all lent addrs b ≡ true
with_all-true lent [] b h = h
with_all-true lent (a ∷ addrs) b h = with_all-true (with_ lent a) addrs b (ground arith)

pub with_all-cong :
    (lent lent' : Lent) (addrs : List ℕ) (b : ℕ)
    → lent b ≡ lent' b
    → with_all lent addrs b ≡ with_all lent' addrs b
with_all-cong lent lent' [] b h = h
with_all-cong lent lent' (a ∷ addrs) b h =
    with_all-cong (with_ lent a) (with_ lent' a) addrs b (ground arith)

-- What is given back and lent again is held as before.
pub with_all-without_all :
    (lent : Lent) (addrs : List ℕ) (b : ℕ)
    → AreLent lent addrs
    → with_all (without_all lent addrs) addrs b ≡ lent b
with_all-without_all lent [] b h = refl
with_all-without_all lent (a ∷ addrs) b h =
    let left = without_all (without lent a) addrs in
    let ih = with_all-without_all (without lent a) addrs b h.1 in
    elim (ℕ_discrete a b) [
      | yes e ↦
          with_all-true (with_ left a) addrs b (ground (arith, e)) ∙ sym (ap lent (sym e) ∙ h.0)
      | no ne ↦
          with_all-cong (with_ left a) left addrs b (ground (arith, ne)) ∙ ih ∙ ground (arith, ne)
    ]
