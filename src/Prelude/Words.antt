-- ===== src/Prelude/Words.antt =====
-- Machine words. `u32`, `u64` and `usize` are natural numbers with the wrap-around of the release
-- profile written out; `usize` has 64 bits (lib.rs compiles for 64-bit targets only).
use Prim.Native.Nat.{ℕ, ◌+◌, ◌-◌, ◌%◌, ◌^◌}

-- `x as u32`
abbrev pub as_u32 : ℕ → ℕ
as_u32 a = a % 2 ^ 32

abbrev pub add32 : ℕ → ℕ → ℕ
add32 a b = (a + b) % 2 ^ 32

abbrev pub sub32 : ℕ → ℕ → ℕ
sub32 a b = (a + 2 ^ 32 - b) % 2 ^ 32

abbrev pub add64 : ℕ → ℕ → ℕ
add64 a b = (a + b) % 2 ^ 64

abbrev pub sub64 : ℕ → ℕ → ℕ
sub64 a b = (a + 2 ^ 64 - b) % 2 ^ 64
