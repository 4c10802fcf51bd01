-- ===== src/Util.antt =====
-- src/util.rs: the test for a power of two. (`get_errno` is part of the results of system calls.)
pub mod PowerOfTwo
use Prim.Native.Nat.{bit_and}
use xdpsock.Prelude.{ℕ, ◌-◌, Bool, false, ◌==◌, if◌then◌else◌}

-- `val & (val - 1)` is computed only where `val` is not 0, so the subtraction is exact.
unfoldable pub is_pow_of_two : ℕ → Bool
is_pow_of_two val = if val == 0 then false else bit_and val (val - 1) == 0
