-- ===== src/Socket/Config/Checked.antt =====
-- What `SocketConfig::new` and its builder let through.
use mathlib.Core.List.{foldl}
use mathlib.Core.Path.{subst}
use xdpsock.Prelude.{
  ℕ, ◌≡◌, refl, sym, ◌⊎◌, inl, inr, Bool-cases, Option, none, some, List, [], ◌∷◌, Result, ok, err,
  arith,
}
use xdpsock.Util.{is_pow_of_two}
use xdpsock.Util.PowerOfTwo.{is_pow_of_two_iff}
use xdpsock.Umem.Config.Checked.{IsPowerOfTwo}
use xdpsock.Socket.Config.{
  SocketConfig, SocketConfigBuilder, SocketConfigError, Setting, new, set, build,
}

pub record IsChecked (c : SocketConfig) : Type 0 where
  pub rx_size : IsPowerOfTwo c.rx_queue_size
  pub tx_size : IsPowerOfTwo c.tx_queue_size

-- What each setting sets.
abbrev rx_size : Setting → Option ℕ
rx_size (Setting.rx_queue_size n) = some n
rx_size (Setting.tx_queue_size n) = none
rx_size (Setting.libbpf_flags n) = none
rx_size (Setting.xdp_flags n) = none
rx_size (Setting.bind_flags n) = none

abbrev tx_size : Setting → Option ℕ
tx_size (Setting.rx_queue_size n) = none
tx_size (Setting.tx_queue_size n) = some n
tx_size (Setting.libbpf_flags n) = none
tx_size (Setting.xdp_flags n) = none
tx_size (Setting.bind_flags n) = none

abbrev libbpf : Setting → Option ℕ
libbpf (Setting.rx_queue_size n) = none
libbpf (Setting.tx_queue_size n) = none
libbpf (Setting.libbpf_flags n) = some n
libbpf (Setting.xdp_flags n) = none
libbpf (Setting.bind_flags n) = none

abbrev xdp : Setting → Option ℕ
xdp (Setting.rx_queue_size n) = none
xdp (Setting.tx_queue_size n) = none
xdp (Setting.libbpf_flags n) = none
xdp (Setting.xdp_flags n) = some n
xdp (Setting.bind_flags n) = none

abbrev bind : Setting → Option ℕ
bind (Setting.rx_queue_size n) = none
bind (Setting.tx_queue_size n) = none
bind (Setting.libbpf_flags n) = none
bind (Setting.xdp_flags n) = none
bind (Setting.bind_flags n) = some n

abbrev pub or_else : Option ℕ → ℕ → ℕ
or_else none old = old
or_else (some new') old = new'

-- The last value that the settings have for a field, or the old one if they have none.
abbrev pub last : (Setting → Option ℕ) → ℕ → List Setting → ℕ
last field old [] = old
last field old (x ∷ settings) = last field (or_else (field x) old) settings

-- The configuration with the last value of every field.
abbrev pub wanted : SocketConfigBuilder → List Setting → SocketConfig
wanted b settings = record {
  rx_queue_size = last rx_size b.rx_queue_size settings;
  tx_queue_size = last tx_size b.tx_queue_size settings;
  libbpf_flags = last libbpf b.libbpf_flags settings;
  xdp_flags = last xdp b.xdp_flags settings;
  bind_flags = last bind b.bind_flags settings;
}

abbrev pub new_of : SocketConfig → Result SocketConfigError SocketConfig
new_of c = new c.rx_queue_size c.tx_queue_size c.libbpf_flags c.xdp_flags c.bind_flags

build-wanted :
    (settings : List Setting) (b : SocketConfigBuilder)
    → build (foldl set b settings) ≡ new_of (wanted b settings)
unfolding build set
build-wanted [] b = refl
build-wanted (Setting.rx_queue_size n ∷ settings) b =
    build-wanted settings (record b { rx_queue_size = n })
build-wanted (Setting.tx_queue_size n ∷ settings) b =
    build-wanted settings (record b { tx_queue_size = n })
build-wanted (Setting.libbpf_flags n ∷ settings) b =
    build-wanted settings (record b { libbpf_flags = n })
build-wanted (Setting.xdp_flags n ∷ settings) b = build-wanted settings (record b { xdp_flags = n })
build-wanted (Setting.bind_flags n ∷ settings) b =
    build-wanted settings (record b { bind_flags = n })

-- What comes of a configuration: itself, or the error for the size that is no power of two.
abbrev pub Checks : SocketConfig → Result SocketConfigError SocketConfig → Type 0
Checks c r =
    (IsChecked c × (r ≡ ok c))
    ⊎ ((IsPowerOfTwo c.rx_queue_size → ⊥) × (r ≡ err SocketConfigError.rx_size_invalid))
    ⊎ (IsPowerOfTwo c.rx_queue_size
        × (IsPowerOfTwo c.tx_queue_size → ⊥)
        × (r ≡ err SocketConfigError.tx_size_invalid))

new-Checks : (c : SocketConfig) → Checks c (new_of c)
unfolding new
new-Checks c = elim (Bool-cases (is_pow_of_two c.rx_queue_size)) [
  | inr bad ↦ inr (inl (λ h. ground (arith, (is_pow_of_two_iff c.rx_queue_size).1 h), ground arith))
  | inl rx ↦ elim (Bool-cases (is_pow_of_two c.tx_queue_size)) [
    | inr bad ↦ inr (
        inr (
          (is_pow_of_two_iff c.rx_queue_size).0 rx,
          λ h. ground (arith, (is_pow_of_two_iff c.tx_queue_size).1 h),
          ground arith,
        ))
    | inl tx ↦ inl (
      record {
        rx_size = (is_pow_of_two_iff c.rx_queue_size).0 rx;
        tx_size = (is_pow_of_two_iff c.tx_queue_size).0 tx;
      },
      ground arith,
    )
  ]
]

-- Whatever setters are called on a builder, as often and in any order, `build` sees for every field
-- the value that its setter was given last, or the builder's own where it was not called. If both
-- queue sizes are powers of two then, it returns the configuration with exactly these values; if the
-- rx queue's size is none, it returns the error for that; and if only the tx queue's is none, the
-- error for that.
pub build-Checks :
    (b : SocketConfigBuilder) (settings : List Setting)
    → Checks (wanted b settings) (build (foldl set b settings))
build-Checks b settings =
    subst (Checks (wanted b settings)) (sym (build-wanted settings b))
      (new-Checks (wanted b settings))
