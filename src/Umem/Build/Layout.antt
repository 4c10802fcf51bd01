-- ===== src/Umem/Build/Layout.antt =====
-- The frames of a new UMEM: one behind the other, and together the whole area.
use mathlib.Core.Path.{ap₂}
use mathlib.Core.Option.{some-injective}
use native.Mathlib.Nat.{le_trans}
use xdpsock.Prelude.{
  ℕ, zero, suc, ◌+◌, ◌-◌, get_elem?-lt, sym, ◌*◌, ◌≤◌, ◌<◌, ◌≡◌, refl, ap, ◌∙◌, List, ◌∷◌, some, ok,
  length, take, drop, get_elem?, arith,
}
use xdpsock.Kernel.{UmemCreateConfig, Kernel, Machine}
use xdpsock.Umem.Config.{UmemConfig}
use xdpsock.Umem.Frame.{Frame, FrameStatus}
use xdpsock.Umem.Build.{cut_frames, create_umem, UmemParts, mtu_of}

-- A new frame with number `i`.
abbrev pub frame_of : ℕ → ℕ → ℕ → Frame
frame_of frame_size mtu i = record {
  addr = i * frame_size;
  len = 0;
  options = 0;
  mtu = mtu;
  status = FrameStatus.free;
}

module _ (frame_size mtu : ℕ) where
  pub length-cut_frames : (s n : ℕ) → length (cut_frames frame_size mtu s n) ≡ n
  unfolding cut_frames
  length-cut_frames s zero = refl
  length-cut_frames s (suc n) = ap suc (length-cut_frames (s + 1) n)

  pub get_elem?-cut_frames :
      (s n i : ℕ)
      → i < n
      → get_elem? (cut_frames frame_size mtu s n) i ≡ some (frame_of frame_size mtu (s + i))
  unfolding cut_frames
  get_elem?-cut_frames s zero i h = absurd (omega arith)
  get_elem?-cut_frames s (suc n) zero h = ap (λ j. some (frame_of frame_size mtu j)) (omega arith)
  get_elem?-cut_frames s (suc n) (suc i) h =
      get_elem?-cut_frames (s + 1) n i (omega arith)
      ∙ ap (λ j. some (frame_of frame_size mtu j)) (omega arith)

  pub cut_frames-frame_of :
      (n i : ℕ) (f : Frame)
      → get_elem? (cut_frames frame_size mtu 0 n) i ≡ some f
      → f ≡ frame_of frame_size mtu i
  cut_frames-frame_of n i f q =
      let lt = get_elem?-lt (cut_frames frame_size mtu 0 n) i f q in
      let e = get_elem?-cut_frames 0 n i (omega (arith, length-cut_frames 0 n)) in
      some-injective f (frame_of frame_size mtu (0 + i)) (sym q ∙ e)
      ∙ ap (frame_of frame_size mtu) (omega arith)

  pub take-cut_frames :
      (s n t : ℕ) → n ≤ t → take n (cut_frames frame_size mtu s t) ≡ cut_frames frame_size mtu s n
  unfolding cut_frames
  take-cut_frames s zero t h = refl
  take-cut_frames s (suc n) zero h = absurd (omega arith)
  take-cut_frames s (suc n) (suc t) h =
      ap (◌∷◌ (frame_of frame_size mtu s)) (take-cut_frames (s + 1) n t (omega arith))

  pub drop-cut_frames :
      (s n t : ℕ)
      → n ≤ t
      → drop n (cut_frames frame_size mtu s t) ≡ cut_frames frame_size mtu (s + n) (t - n)
  unfolding cut_frames
  drop-cut_frames s zero t h =
      ap₂ (λ i j. cut_frames frame_size mtu i j) (omega arith) (omega arith)
  drop-cut_frames s (suc n) zero h = absurd (omega arith)
  drop-cut_frames s (suc n) (suc t) h =
      drop-cut_frames (s + 1) n t (omega arith)
      ∙ ap₂ (λ i j. cut_frames frame_size mtu i j) (omega arith) (omega arith)

-- The frames of equal size stand one behind the other and fill the area.
pub record AreTiles (frame_size mtu n : ℕ) (frames : List Frame) : Type 0 where
  pub number : length frames ≡ n
  pub each :
      (i : ℕ)
      → i < n
      → (f : Frame) × (get_elem? frames i ≡ some f)
        × (f.addr ≡ i * frame_size)
        × (f.mtu ≡ mtu)
        × (f.status ≡ FrameStatus.free)
        × (f.addr + frame_size ≤ n * frame_size)
  pub apart :
      (i j : ℕ) (f g : Frame)
      → get_elem? frames i ≡ some f
      → get_elem? frames j ≡ some g
      → i < j
      → f.addr + frame_size ≤ g.addr

row-le : (i n fs : ℕ) → i < n → i * fs + fs ≤ n * fs
row-le i n fs h = le_trans (omega arith) rows
  where
    rows : suc i * fs ≤ n * fs
    rows = grind arith

pub cut_frames-AreTiles :
    (frame_size mtu n : ℕ) → AreTiles frame_size mtu n (cut_frames frame_size mtu 0 n)
cut_frames-AreTiles frame_size mtu n = record {
  number = length-cut_frames frame_size mtu 0 n;
  each = λ i h. (
    frame_of frame_size mtu i,
    get_elem?-cut_frames frame_size mtu 0 n i h
        ∙ ap (λ j. some (frame_of frame_size mtu j)) (omega arith),
    refl,
    refl,
    refl,
    row-le i n frame_size h,
  );
  apart = apart';
}
  where
    at :
        (i : ℕ) (f : Frame)
        → get_elem? (cut_frames frame_size mtu 0 n) i ≡ some f
        → f.addr ≡ i * frame_size
    at i f q = ap (λ (g : Frame). g.addr) (cut_frames-frame_of frame_size mtu n i f q)

    apart' :
        (i j : ℕ) (f g : Frame)
        → get_elem? (cut_frames frame_size mtu 0 n) i ≡ some f
        → get_elem? (cut_frames frame_size mtu 0 n) j ≡ some g
        → i < j
        → f.addr + frame_size ≤ g.addr
    apart' i j f g p q h = omega (arith, at i f p, at j g q, row-le i j frame_size h)

abbrev pub parts_of : Kernel → UmemConfig → UmemParts
parts_of k config = record {
  umem = record { config = config; mtu = mtu_of k config };
  fill_q = record { size = config.fill_queue_size };
  comp_q = record { size = config.comp_queue_size };
  frames = cut_frames config.frame_size (mtu_of k config) 0 config.frame_count;
}

abbrev pub create_config : UmemConfig → UmemCreateConfig
create_config config = record {
  fill_size = config.fill_queue_size;
  comp_size = config.comp_queue_size;
  frame_size = config.frame_size;
  frame_headroom = config.frame_headroom;
  flags = 0;
}

pub create_umem-parts_of :
    (k : Kernel) (config : UmemConfig) (m m' : Machine k.World)
    → k.umem_create (create_config config) m ≡ ok m'
    → create_umem k config m ≡ ok (parts_of k config, m')
unfolding create_umem
create_umem-parts_of k config m m' h = rw (h, create_umem) refl

-- Where the kernel accepts the UMEM, `create_umem` returns `frame_count` free frames. They are
-- `frame_size` bytes each, one behind the other from the start of the area on, none overlaps another
-- or reaches beyond `frame_count * frame_size`, and the MTU of each is that of the UMEM.
pub create_umem-AreTiles :
    (k : Kernel) (config : UmemConfig) (m m' : Machine k.World)
    → k.umem_create (create_config config) m ≡ ok m'
    → (parts : UmemParts) × (create_umem k config m ≡ ok (parts, m'))
      × AreTiles config.frame_size (mtu_of k config) config.frame_count parts.frames
      × (parts.umem.mtu ≡ mtu_of k config)
create_umem-AreTiles k config m m' h = (
  parts_of k config,
  create_umem-parts_of k config m m' h,
  cut_frames-AreTiles config.frame_size (mtu_of k config) config.frame_count,
  refl,
)
