-- ===== src/Xsk/Tx/Prefill.antt =====
-- `prefill` writes the same packet to every frame.
use mathlib.Core.Path.{subst}
use mathlib.Core.Option.{some-injective}
use native.Mathlib.Decide.{ℕ_discrete}
use xdpsock.Prelude.{
  ℕ, zero, suc, ◌+◌, ◌*◌, ◌^◌, ◌≤◌, ◌<◌, ◌≡◌, refl, sym, ap, ◌∙◌, ◌⊎◌, inl, inr, List, [], ◌∷◌, map,
  some, ret, length, length-map, get_elem?, slice, splice, length-splice, arith,
}
use xdpsock.Kernel.{Kernel, Machine}
use xdpsock.Umem.Frame.{Frame, set_len}
use xdpsock.Umem.Frame.Copies.{slice-splice_self, write_to_umem_checked_lem}
use xdpsock.Umem.Frame.Isolation.{slice-splice_apart}
use xdpsock.Xsk.Tx.{XskTx, prefill_frames, prefill}
use xdpsock.Xsk.Lent.{Lent}
use xdpsock.Xsk.Tx.Lent.{TxContract}
use xdpsock.Xsk.Tx.Frames.{AreFrames, FrameAt, on_tx, mul-lt}
use xdpsock.Xsk.Tx.Valid.{IsValid}

-- The frames begin at number `s`.
abbrev StandFrom : ℕ → ℕ → ℕ → List Frame → Type 0
StandFrom fs mtu s [] = Unit {0}
StandFrom fs mtu s (f ∷ frames) =
    (f.addr ≡ s * fs) × (f.mtu ≡ mtu) × StandFrom fs mtu (suc s) frames

abbrev pub with_len : ℕ → List Frame → List Frame
with_len len = map (λ (f : Frame). record f { len = len })

-- The bytes from `a` up to `b` are none of the first `len` ones of frame `i`.
abbrev pub Apart : ℕ → ℕ → ℕ → ℕ → ℕ → Type 0
Apart fs len i a b = (b ≤ i * fs) ⊎ (i * fs + len ≤ a)

mul-le : (i j n : ℕ) → i ≤ j → i * n ≤ j * n
mul-le i j n h = grind arith

module _ (fs mtu : ℕ) (src : List ℕ) (short : length src ≤ mtu) (mtu_le : mtu ≤ fs) where
  prefill_frames_lem :
      (frames : List Frame) (s : ℕ) (mem : List ℕ)
      → StandFrom fs mtu s frames
      → (s + length frames) * fs ≤ length mem
      → (s + length frames) * fs < 2 ^ 63
      → (mem' : List ℕ) × (prefill_frames src frames mem ≡ ret (with_len (length src) frames, mem'))
        × (length mem' ≡ length mem)
        × ((i : ℕ)
            → s ≤ i
            → i < s + length frames
            → slice mem' (i * fs) (i * fs + length src) ≡ src)
        × ((a b : ℕ)
            → a ≤ b
            → ((i : ℕ) → s ≤ i → i < s + length frames → Apart fs (length src) i a b)
            → slice mem' a b ≡ slice mem a b)
  unfolding prefill_frames
  prefill_frames_lem [] s mem at inside small =
      (mem, refl, refl, λ i lo hi. absurd (omega arith), λ a b le apart. refl)
  prefill_frames_lem (f ∷ frames) s mem at inside small =
      let row = mul-lt s (s + suc (length frames)) fs (omega arith) in
      let mem1 = splice mem f.addr src in
      let same1 = length-splice mem f.addr src in
      let count : suc s + length frames ≡ s + suc (length frames) = omega arith in
      let size = ap (λ n. n * fs) count in
      let (mem', run, same, filled, kept) =
        prefill_frames_lem frames (suc s) mem1 at.2 (omega (arith, size, same1))
          (omega (arith, size)) in
      let wrote =
        write_to_umem_checked_lem f src mem
          (omega (arith, at.0, row), omega (arith, at.0, at.1, row)) (omega (arith, at.1)) in
      let next : suc s * fs ≡ s * fs + fs = grind arith in
      (
        mem',
        rw wrote (rw run refl),
        same ∙ same1,
        λ i lo hi. elim (ℕ_discrete s i) [
          | yes e ↦
              subst (λ j. slice mem' (j * fs) (j * fs + length src) ≡ src) e
                (kept (s * fs) (s * fs + length src) (omega arith)
                    (λ j lo' hi'. inl (omega (arith, next, mul-le (suc s) j fs lo')))
                  ∙ subst (λ a. slice (splice mem a src) (s * fs) (s * fs + length src) ≡ src)
                      (sym at.0) (slice-splice_self mem (s * fs) src (omega (arith, row))))
          | no ne ↦ filled i (omega arith) (omega arith)
        ],
        λ a b le apart.
            kept a b le (λ i lo hi. apart i (omega arith) (omega arith))
            ∙ slice-splice_apart mem f.addr a b src le (
                subst (λ n. (n + length src ≤ a) ⊎ (b ≤ n)) (sym at.0)
                  (elim (apart s (omega arith) (omega arith)) [ inl h ↦ inr h | inr h ↦ inl h ])),
      )

get_elem?-with_len :
    (len : ℕ) (frames : List Frame) (i : ℕ) (g : Frame)
    → get_elem? (with_len len frames) i ≡ some g
    → (f : Frame) × (get_elem? frames i ≡ some f) × (set_len f len ≡ g)
get_elem?-with_len len [] i g h = absurd (ground arith)
get_elem?-with_len len (f ∷ frames) zero g h = (f, refl, some-injective (set_len f len) g h)
get_elem?-with_len len (f ∷ frames) (suc i) g h = get_elem?-with_len len frames i g h

on_tx-with_len : (len : ℕ) (frames : List Frame) → on_tx (with_len len frames) ≡ on_tx frames
on_tx-with_len len [] = refl
on_tx-with_len len (f ∷ frames) = omega (arith, on_tx-with_len len frames)

module _ (fs mtu : ℕ) (lent : Lent) where
  AreFrames-with_len :
      (len : ℕ) (frames : List Frame)
      → AreFrames fs mtu lent frames
      → AreFrames fs mtu lent (with_len len frames)
  AreFrames-with_len len frames v = record {
    each = λ i g h.
        let (f, found, e) = get_elem?-with_len len frames i g h in
        let old = v.each i f found in
        subst (FrameAt fs mtu lent i) e
          (record { placed = old.placed; sized = old.sized; agrees = old.agrees });
    owned = λ a h.
        let (i, lt, e) = v.owned a h in
        (i, omega (arith, length-map (λ (f : Frame). set_len f len) frames), e);
  }

  StandFrom-from :
      (s : ℕ) (frames : List Frame)
      → ((i : ℕ) (f : Frame)
          → get_elem? frames i ≡ some f
          → (f.addr ≡ (s + i) * fs) × (f.mtu ≡ mtu))
      → StandFrom fs mtu s frames
  StandFrom-from s [] each = tt
  StandFrom-from s (f ∷ frames) each =
      let (at, sized) = each 0 f refl in
      (
        at ∙ ap (λ n. n * fs) (omega arith),
        sized,
        StandFrom-from (suc s) frames λ i g h.
            let (at', sized') = each (suc i) g h in (at' ∙ ap (λ n. n * fs) (omega arith), sized'),
      )

-- The state after `prefill`.
abbrev pub prefilled : XskTx → ℕ → XskTx
prefilled tx len = record tx { tx_frames = with_len len tx.tx_frames }

module _ (k : Kernel) (c : TxContract k) where
  open k use {World}

  prefill_run :
      (src : List ℕ) (tx : XskTx) (m : Machine World) (mem : List ℕ)
      → prefill_frames src tx.tx_frames m.mem ≡ ret (with_len (length src) tx.tx_frames, mem)
      → prefill k src tx m ≡ ret (prefilled tx (length src), record m { mem = mem })
  unfolding prefill
  prefill_run src tx m mem h = rw (h, prefill) refl

  -- At a valid state and for data within the MTU, `prefill` returns: every frame has the data at its
  -- front and their length, whoever holds it; the memory keeps its size, and its bytes that are at no
  -- frame's front, in as many bytes as the data, stay as they were; nothing else of the sending half,
  -- of its frames or of the machine changes; and the state stays valid.
  pub prefill_lem :
      (mtu : ℕ) (src : List ℕ) (tx : XskTx) (m : Machine World)
      → IsValid c mtu tx m
      → length src ≤ mtu
      → (mem : List ℕ) × (prefill k src tx m
          ≡ ret (prefilled tx (length src), record m { mem = mem }))
        × IsValid c mtu (prefilled tx (length src)) (record m { mem = mem })
        × ((i : ℕ)
            → i < length tx.tx_frames
            → slice mem (i * tx.frame_size) (i * tx.frame_size + length src) ≡ src)
        × (length mem ≡ length m.mem)
        × ((a b : ℕ)
            → a ≤ b
            → ((i : ℕ) → i < length tx.tx_frames → Apart tx.frame_size (length src) i a b)
            → slice mem a b ≡ slice m.mem a b)
  prefill_lem mtu src tx m v short =
      let u = v.coherent in
      let stand = StandFrom-from tx.frame_size mtu (c.lent m.world) 0 tx.tx_frames λ i f h.
        let at = u.frames.each i f h in
        (at.placed ∙ ap (λ n. n * tx.frame_size) (omega arith), at.sized) in
      let number : 0 + length tx.tx_frames ≡ length tx.tx_frames = omega arith in
      let size = ap (λ n. n * tx.frame_size) number in
      let (mem, run, same, filled, kept) =
        prefill_frames_lem tx.frame_size mtu src short u.mtu_le tx.tx_frames 0 m.mem stand
          (omega (arith, size, u.inside)) (omega (arith, size, u.fits)) in
      let n = length-map (λ (f : Frame). set_len f (length src)) tx.tx_frames in
      (
        mem,
        prefill_run src tx m mem run,
        record {
          coherent = record {
            size_pos = u.size_pos;
            fits = rw n (u.fits);
            inside = rw (n, same) (u.inside);
            mtu_le = u.mtu_le;
            buffer = u.buffer ∙ sym n;
            cursor_in = rw n (u.cursor_in);
            frames =
                AreFrames-with_len tx.frame_size mtu (c.lent m.world) (length src) tx.tx_frames
                  u.frames;
            counted = u.counted ∙ sym (on_tx-with_len (length src) tx.tx_frames);
          };
          aligned = record {
            batch_pos = v.aligned.batch_pos;
            below = v.aligned.below;
            rounds = v.aligned.rounds;
            whole = n ∙ v.aligned.whole;
            turn = v.aligned.turn;
            aligned = v.aligned.aligned;
            ours = v.aligned.ours;
          };
          accounted = v.accounted;
          batch_le = v.batch_le;
        },
        λ i h. filled i (omega arith) (omega arith),
        same,
        λ a b le apart. kept a b le (λ i lo hi. apart i (omega arith)),
      )
