-- ===== src/Prelude/Effects.antt =====
-- What running a piece of Rust can come to, `Result` values, and indexing that panics.
use Prim.Native.Nat.{ℕ, ◌/◌, ◌%◌, ◌≤◌}
use mathlib.Core.Path.{◌≡◌, refl, ap}
use mathlib.Core.List.{List}
use mathlib.Core.Option.{Option, none, some}
use xdpsock.Prelude.Tests.{ltb, le→ltb, ◌==◌, if◌then◌else◌}
use xdpsock.Prelude.Lists.{length, get_elem?, set, slice}

-- `panic`: the thread unwinds. `undefined`: memory is accessed outside the region that `mmap`
-- returned. `spinning`: a loop used up its fuel.
pub data Outcome {ℓ} (A : Type ℓ) : Type ℓ where
  ret : A → Outcome A
  panic undefined spinning : Outcome A

infixl 5 ◌>>=◌ ◌>>◌
abbrev pub ◌>>=◌ {ℓ κ} : {A : Type ℓ} {B : Type κ} → Outcome A → (A → Outcome B) → Outcome B
ret a >>= f = f a
panic >>= f = panic
undefined >>= f = undefined
spinning >>= f = spinning

abbrev pub ◌>>◌ {ℓ} : {B : Type ℓ} → Outcome (Unit {0}) → Outcome B → Outcome B
m >> k = m >>= λ _. k

-- `std::result::Result`
pub data Result {ℓ κ} (E : Type ℓ) (A : Type κ) : Type (ℓ ⊔ κ) where
  ok : A → Result E A
  err : E → Result E A

-- `expect` and `unwrap`
abbrev pub expect {ℓ κ} : {E : Type ℓ} {A : Type κ} → Result E A → Outcome A
expect (ok a) = ret a
expect (err e) = panic

abbrev pub unwrap {ℓ} : {A : Type ℓ} → Option A → Outcome A
unwrap none = panic
unwrap (some a) = ret a

-- `xs[i]`
abbrev pub index {ℓ} : {A : Type ℓ} → List A → ℕ → Outcome A
index xs i = unwrap (get_elem? xs i)

-- `xs[i] = v`
abbrev pub assign {ℓ} : {A : Type ℓ} → List A → ℕ → A → Outcome (List A)
assign xs i v = if ltb i (length xs) then ret (set xs i v) else panic

-- `xs[start..stop]`
abbrev pub index_range {ℓ} : {A : Type ℓ} → List A → ℕ → ℕ → Outcome (List A)
index_range xs start stop =
    if ltb stop start
    then panic
    else if ltb (length xs) stop
    then panic
    else ret (slice xs start stop)

-- `a / b`
abbrev pub div : ℕ → ℕ → Outcome ℕ
div a b = if b == 0 then panic else ret (a / b)

-- `a % b`
abbrev pub rem : ℕ → ℕ → Outcome ℕ
rem a b = if b == 0 then panic else ret (a % b)

pub >>=-eq-ret {ℓ κ} :
    {A : Type ℓ} {B : Type κ} (m : Outcome A) (f : A → Outcome B) {b : B}
    → (m >>= f) ≡ ret b
    → (a : A) × (m ≡ ret a) × (f a ≡ ret b)
>>=-eq-ret (ret a) f h = (a, refl, h)
>>=-eq-ret panic f h = cc
>>=-eq-ret undefined f h = cc
>>=-eq-ret spinning f h = cc

pub index_range_lem {ℓ} :
    {A : Type ℓ} (xs : List A) (start stop : ℕ)
    → start ≤ stop
    → stop ≤ length xs
    → index_range xs start stop ≡ ret (slice xs start stop)
index_range_lem xs start stop h h' = rw (le→ltb _ _ h, le→ltb _ _ h')

unwrap-ret {ℓ} : {A : Type ℓ} (o : Option A) {a : A} → unwrap o ≡ ret a → o ≡ some a
unwrap-ret none h = cc
unwrap-ret (some x) h = cc

-- An index that does not panic has an element.
pub index-ret {ℓ} :
    {A : Type ℓ} (xs : List A) (i : ℕ) (x : A) → index xs i ≡ ret x → get_elem? xs i ≡ some x
index-ret xs i x h = unwrap-ret (get_elem? xs i) h

pub ret-injective {ℓ} : {A : Type ℓ} {a b : A} → ret a ≡ ret b → a ≡ b
ret-injective {A} {a} {b} h = ap value h
  where
    value : Outcome A → A
    value (ret x) = x
    value _ = a
