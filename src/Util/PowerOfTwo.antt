-- ===== src/Util/PowerOfTwo.antt =====
-- `is_pow_of_two` accepts the powers of two and nothing else.
use Prim.Native.Nat.{digits, min, bit_and, bit_and-bitwise}
use mathlib.Core.WellFounded
use mathlib.Core.WellFounded.{Acc, WellFounded}
use native.Mathlib.Nat.{pow-suc, one-le-pow}
use native.Mathlib.Decide.{dec_lt}
use xdpsock.Prelude.{
  ℕ, zero, suc, ◌+◌, ◌-◌, ◌*◌, ◌/◌, ◌%◌, ◌^◌, ◌≤◌, ◌<◌, ◌≡◌, refl, ◌∙◌, ap, ◌↔◌, true, arith,
}
use xdpsock.Util.{is_pow_of_two}

Acc-below : (n m : ℕ) → m < n → Acc ◌<◌ m
Acc-below zero m h = elim h [ ]
Acc-below (suc n) m h = Acc.intro m (λ i hi. Acc-below n i (omega arith))

lt_wf : WellFounded ◌<◌
lt_wf = record { apply = λ n. Acc-below (suc n) n (omega arith) }

-- `bit_and` digit by digit, from the definition behind the native operation.
abbrev and_digits : ℕ → ℕ → ℕ → ℕ
and_digits n a b = digits (λ b. zero) min n a b

and_digits_enough : (n m a b : ℕ) → a ≤ n → a ≤ m → and_digits n a b ≡ and_digits m a b
and_digits_enough zero zero a b p q = refl
and_digits_enough zero (suc m) zero b p q = refl
and_digits_enough zero (suc m) (suc a) b p q = absurd (omega arith)
and_digits_enough (suc n) zero zero b p q = refl
and_digits_enough (suc n) zero (suc a) b p q = absurd (omega arith)
and_digits_enough (suc n) (suc m) zero b p q = refl
and_digits_enough (suc n) (suc m) (suc a) b p q =
    omega (arith, and_digits_enough n m (suc a / 2) (b / 2) (omega arith) (omega arith))

bit_and_halves : (a b : ℕ) → bit_and a b ≡ bit_and (a / 2) (b / 2) * 2 + min (a % 2) (b % 2)
bit_and_halves zero b = omega (arith, bit_and-bitwise 0 b, bit_and-bitwise 0 (b / 2))
bit_and_halves (suc a) b = omega (
  arith,
  bit_and-bitwise (suc a) b,
  bit_and-bitwise (suc a / 2) (b / 2),
  and_digits_enough a (suc a / 2) (suc a / 2) (b / 2) (omega arith) (omega arith),
)

-- An odd number above 1 keeps its upper bits.
bit_and_self : (a : ℕ) → bit_and a a ≡ a
bit_and_self a = WellFounded.induction lt_wf a step
  where
    step : (n : ℕ) → ((m : ℕ) → m < n → bit_and m m ≡ m) → bit_and n n ≡ n
    step zero ih = refl
    step (suc n) ih = omega (arith, bit_and_halves (suc n) (suc n), ih (suc n / 2) (omega arith))

abbrev clear : ℕ → ℕ
clear v = bit_and v (v - 1)

clear_even : (n : ℕ) → 0 < n → clear (2 * n) ≡ 2 * clear n
clear_even n pos =
    let half : 2 * n / 2 ≡ n = omega arith in
    let half' : (2 * n - 1) / 2 ≡ n - 1 = omega arith in
    omega (
      arith,
      bit_and_halves (2 * n) (2 * n - 1),
      ap (λ h. bit_and h ((2 * n - 1) / 2)) half,
      ap (bit_and n) half',
    )

clear_odd : (n : ℕ) → clear (2 * n + 1) ≡ 2 * n
clear_odd n =
    let half : (2 * n + 1) / 2 ≡ n = omega arith in
    let half' : (2 * n + 1 - 1) / 2 ≡ n = omega arith in
    omega (
      arith,
      bit_and_halves (2 * n + 1) (2 * n + 1 - 1),
      ap (λ h. bit_and h ((2 * n + 1 - 1) / 2)) half,
      ap (bit_and n) half',
      bit_and_self n,
    )

clear-two-pow : (e : ℕ) → clear (2 ^ e) ≡ 0
clear-two-pow zero = refl
clear-two-pow (suc e) =
    ap clear (pow-suc-two e)
    ∙ omega (arith, clear_even (2 ^ e) (one-le-pow e 2 (omega arith)), clear-two-pow e)
  where
    pow-suc-two : (n : ℕ) → 2 ^ suc n ≡ 2 * 2 ^ n
    pow-suc-two n = omega (arith, pow-suc 2 n)

log2_fuel : (n v : ℕ) → v ≤ n → 0 < v → clear v ≡ 0 → (e : ℕ) × (v ≡ 2 ^ e)
log2_fuel zero v h pos c = absurd (omega arith)
log2_fuel (suc n) v h pos c = elim (dec_lt 0 (v % 2)) [
  | yes odd ↦
      let v_odd : v ≡ 2 * (v / 2) + 1 = omega arith in
      (0, omega (arith, ap clear v_odd, clear_odd (v / 2)))
  | no even ↦
      let v_even : v ≡ 2 * (v / 2) = omega arith in
      let (e, q) =
        log2_fuel n (v / 2) (omega arith) (omega arith)
          (omega (arith, ap clear v_even, clear_even (v / 2) (omega arith))) in
      (suc e, omega (arith, pow-suc 2 e))
]

-- `is_pow_of_two val` is true exactly for the values 2 ^ e.
pub is_pow_of_two_iff : (val : ℕ) → (is_pow_of_two val ≡ true) ↔ ((e : ℕ) × (val ≡ 2 ^ e))
unfolding is_pow_of_two
is_pow_of_two_iff val = (forth, back)
  where
    forth : is_pow_of_two val ≡ true → (e : ℕ) × (val ≡ 2 ^ e)
    forth h = log2_fuel val val (omega arith) (ground arith) (ground arith)

    back : ((e : ℕ) × (val ≡ 2 ^ e)) → is_pow_of_two val ≡ true
    back (e, q) = rw q (ground (arith, one-le-pow e 2, clear-two-pow e))
