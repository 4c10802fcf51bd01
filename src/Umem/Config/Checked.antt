-- ===== src/Umem/Config/Checked.antt =====
-- What `UmemConfig::new`, its builder and `umem_len` let through.
use native.Mathlib.Nat.{le_trans}
use native.Mathlib.Decide.{dec_lt, ℕ_discrete}
use xdpsock.Prelude.{
  ℕ, ◌*◌, ◌-◌, ◌^◌, ◌≤◌, ◌<◌, ◌≡◌, ◌⊎◌, inl, inr, Bool-cases, ret, Result, ok, err, arith,
}
use xdpsock.Util.{is_pow_of_two}
use xdpsock.Util.PowerOfTwo.{is_pow_of_two_iff}
use xdpsock.Umem.Config.{UmemConfig, UmemConfigError, new, umem_len}

abbrev pub IsPowerOfTwo : ℕ → Type 0
IsPowerOfTwo n = (e : ℕ) × (n ≡ 2 ^ e)

pub record IsChecked (c : UmemConfig) : Type 0 where
  pub some_frames : 0 < c.frame_count
  pub fill_size : IsPowerOfTwo c.fill_queue_size
  pub comp_size : IsPowerOfTwo c.comp_queue_size
  pub frame_size : 2048 ≤ c.frame_size

-- The arguments of `UmemConfig::new` are the fields of a configuration.
abbrev pub new_of : UmemConfig → Result UmemConfigError UmemConfig
new_of c =
    new c.frame_count c.frame_size c.fill_queue_size c.comp_queue_size c.frame_headroom
      c.use_huge_pages

-- What is found wrong first, in the order of the tests.
abbrev pub Refused : UmemConfig → UmemConfigError → Type 0
Refused c UmemConfigError.frame_count_invalid = c.frame_count ≡ 0
Refused c UmemConfigError.fill_size_invalid =
    (0 < c.frame_count) × (IsPowerOfTwo c.fill_queue_size → ⊥)
Refused c UmemConfigError.comp_size_invalid =
    (0 < c.frame_count) × IsPowerOfTwo c.fill_queue_size × (IsPowerOfTwo c.comp_queue_size → ⊥)
Refused c UmemConfigError.frame_size_invalid =
    (0 < c.frame_count)
    × IsPowerOfTwo c.fill_queue_size
    × IsPowerOfTwo c.comp_queue_size
    × (c.frame_size < 2048)

-- `UmemConfig::new` has one of two outcomes. Either there is some frame, both queue sizes are powers
-- of two and frames have at least 2048 bytes, and it returns the configuration that has exactly the
-- arguments for its fields; or it returns an error, and what the error names is wrong while all that
-- is tested before it (the frames' number, the fill queue's size, the completion queue's size, the
-- frames' size, in this order) is right.
pub new_cases :
    (c : UmemConfig)
    → (IsChecked c × (new_of c ≡ ok c)) ⊎ ((e : UmemConfigError) × Refused c e × (new_of c ≡ err e))
unfolding new
new_cases c = elim (ℕ_discrete c.frame_count 0) [
  | yes none_there ↦ inr (UmemConfigError.frame_count_invalid, none_there, ground arith)
  | no some_there ↦ elim (Bool-cases (is_pow_of_two c.fill_queue_size)) [
    | inr bad ↦ inr (
      UmemConfigError.fill_size_invalid,
      (omega arith, λ h. ground (arith, (is_pow_of_two_iff c.fill_queue_size).1 h)),
      ground arith,
    )
    | inl fill ↦ elim (Bool-cases (is_pow_of_two c.comp_queue_size)) [
      | inr bad ↦ inr (
        UmemConfigError.comp_size_invalid,
        (
          omega arith,
          (is_pow_of_two_iff c.fill_queue_size).0 fill,
          λ h. ground (arith, (is_pow_of_two_iff c.comp_queue_size).1 h),
        ),
        ground arith,
      )
      | inl comp ↦ elim (dec_lt c.frame_size 2048) [
        | yes small ↦ inr (
          UmemConfigError.frame_size_invalid,
          (
            omega arith,
            (is_pow_of_two_iff c.fill_queue_size).0 fill,
            (is_pow_of_two_iff c.comp_queue_size).0 comp,
            small,
          ),
          ground arith,
        )
        | no large ↦ inl (
          record {
            some_frames = omega arith;
            fill_size = (is_pow_of_two_iff c.fill_queue_size).0 fill;
            comp_size = (is_pow_of_two_iff c.comp_queue_size).0 comp;
            frame_size = omega arith;
          },
          ground arith,
        )
      ]
    ]
  ]
]

mul-le-mul : (a b c d : ℕ) → a ≤ b → c ≤ d → a * c ≤ b * d
mul-le-mul a b c d p q = le_trans left right
  where
    left : a * c ≤ b * c
    left = grind arith

    right : b * c ≤ b * d
    right = grind arith

-- A checked configuration whose fields are `u32` values has a total length that fits `usize`:
-- `umem_len` does not panic, and the length is at least 2048.
pub umem_len_lem :
    (c : UmemConfig)
    → IsChecked c
    → c.frame_count < 2 ^ 32
    → c.frame_size < 2 ^ 32
    → (umem_len c ≡ ret (c.frame_count * c.frame_size)) × (2048 ≤ c.frame_count * c.frame_size)
unfolding umem_len
umem_len_lem c v h k =
    let below =
      mul-le-mul (c.frame_count) (2 ^ 32) c.frame_size (2 ^ 32 - 1) (omega arith) (omega arith) in
    let above = mul-le-mul 1 c.frame_count 2048 c.frame_size v.some_frames v.frame_size in
    (ground (arith, below), omega (arith, above))
