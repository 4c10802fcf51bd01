-- ===== src/Umem/Config.antt =====
-- src/umem/config.rs: the sizes of a UMEM, checked on construction, and their builder.
-- The messages that the errors carry are left out.
pub mod Checked
use xdpsock.Prelude.{
  ℕ, ◌*◌, ◌^◌, Bool, true, false, not, Outcome, ret, panic, Result, ok, err, ltb, ◌==◌,
  if◌then◌else◌,
}
use xdpsock.Util.{is_pow_of_two}

pub data UmemConfigError : Type 0 where
  frame_count_invalid comp_size_invalid fill_size_invalid frame_size_invalid : UmemConfigError

pub record UmemConfig : Type 0 where
  pub frame_count : ℕ
  pub frame_size : ℕ
  pub fill_queue_size : ℕ
  pub comp_queue_size : ℕ
  pub frame_headroom : ℕ
  pub use_huge_pages : Bool

-- `UmemConfig::new`
unfoldable pub new : ℕ → ℕ → ℕ → ℕ → ℕ → Bool → Result UmemConfigError UmemConfig
new frame_count frame_size fill_queue_size comp_queue_size frame_headroom use_huge_pages =
    if frame_count == 0
    then err UmemConfigError.frame_count_invalid
    else if not (is_pow_of_two fill_queue_size)
    then err UmemConfigError.fill_size_invalid
    else if not (is_pow_of_two comp_queue_size)
    then err UmemConfigError.comp_size_invalid
    else if ltb frame_size 2048
    then err UmemConfigError.frame_size_invalid
    else ok (record {
      frame_count = frame_count;
      frame_size = frame_size;
      fill_queue_size = fill_queue_size;
      comp_queue_size = comp_queue_size;
      frame_headroom = frame_headroom;
      use_huge_pages = use_huge_pages;
    })

-- `checked_mul` of two `usize`, and `unwrap`.
unfoldable pub umem_len : UmemConfig → Outcome ℕ
umem_len c =
    if ltb (c.frame_count * c.frame_size) (2 ^ 64)
    then ret (c.frame_count * c.frame_size)
    else panic

-- libbpf's default sizes are arguments of the default configuration.
pub record LibbpfDefaults : Type 0 where
  pub default_frame_size : ℕ
  pub prod_num_descs : ℕ
  pub cons_num_descs : ℕ
  pub default_frame_headroom : ℕ

pub record UmemConfigBuilder : Type 0 where
  pub frame_count : ℕ
  pub frame_size : ℕ
  pub fill_queue_size : ℕ
  pub comp_queue_size : ℕ
  pub frame_headroom : ℕ
  pub use_huge_pages : Bool

-- `UmemConfig::default`
unfoldable pub default_config : LibbpfDefaults → UmemConfig
default_config d = record {
  frame_count = 2048;
  frame_size = d.default_frame_size;
  fill_queue_size = d.prod_num_descs;
  comp_queue_size = d.cons_num_descs;
  frame_headroom = d.default_frame_headroom;
  use_huge_pages = false;
}

-- `UmemConfigBuilder::new`, and its `default`.
unfoldable pub new_builder : LibbpfDefaults → UmemConfigBuilder
new_builder d = record {
  frame_count = 2048;
  frame_size = d.default_frame_size;
  fill_queue_size = d.prod_num_descs;
  comp_queue_size = d.cons_num_descs;
  frame_headroom = d.default_frame_headroom;
  use_huge_pages = false;
}

-- The setters of the builder. Each returns the builder that it changed.
pub data Setting : Type 0 where
  frame_count frame_size fill_queue_size comp_queue_size frame_headroom : ℕ → Setting
  use_huge_pages : Bool → Setting

unfoldable pub set : UmemConfigBuilder → Setting → UmemConfigBuilder
set b (Setting.frame_count n) = record b { frame_count = n }
set b (Setting.frame_size n) = record b { frame_size = n }
set b (Setting.fill_queue_size n) = record b { fill_queue_size = n }
set b (Setting.comp_queue_size n) = record b { comp_queue_size = n }
set b (Setting.frame_headroom n) = record b { frame_headroom = n }
set b (Setting.use_huge_pages x) = record b { use_huge_pages = x }

unfoldable pub build : UmemConfigBuilder → Result UmemConfigError UmemConfig
build b =
    new b.frame_count b.frame_size b.fill_queue_size b.comp_queue_size b.frame_headroom
      b.use_huge_pages
