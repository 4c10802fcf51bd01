-- ===== src/Xsk/Rx/Fresh.antt =====
-- A receiving half whose frames were all lent is valid.
use native.Mathlib.Nat.{mul-div_cancel}
use native.Mathlib.Decide.{ℕ_discrete}
use mathlib.Core.Path.{subst}
use xdpsock.Prelude.{
  ℕ, zero, suc, ◌+◌, ◌*◌, ◌^◌, ◌≤◌, ◌<◌, ◌≡◌, refl, sym, ap, ◌∙◌, ◌⊎◌, inl, inr, true, false, List,
  [], length, length-replicate, get_elem?, replicate, some, get_elem?-lt, length-map, add64, arith,
}
use mathlib.Core.Option.{some-injective}
use xdpsock.Kernel.{Kernel, Machine}
use xdpsock.Umem.Frame.{Frame}
use xdpsock.Umem.Build.{cut_frames}
use xdpsock.Umem.Build.Layout.{frame_of, length-cut_frames, get_elem?-cut_frames}
use xdpsock.Umem.FillQueue
use xdpsock.Umem.FillQueue.{FillQueue}
use xdpsock.Umem.FillQueue.Publish.{addrs, produce_granted}
use xdpsock.Socket.RxQueue.{RxQueue}
use xdpsock.Xsk.Lent.{Lent, with_, with_all, with_all-true}
use xdpsock.Xsk.Rx.{XskRx}
use xdpsock.Xsk.Rx.Refill.{chunk, chunks}
use xdpsock.Xsk.Rx.Frames.{undelivered, FrameAt, AreFrames}
use xdpsock.Xsk.Rx.Contract.{RxContract}
use xdpsock.Xsk.Rx.Valid.{IsValid}

module _ (k : Kernel) (fs mtu : ℕ) where
  abbrev numbers : ℕ → ℕ → List ℕ
  numbers i n = chunks fs (addrs k (cut_frames fs mtu i n))

  undelivered-cut_frames : (i n : ℕ) → undelivered (cut_frames fs mtu i n) ≡ 0
  unfolding cut_frames
  undelivered-cut_frames i zero = refl
  undelivered-cut_frames i (suc n) = omega (arith, undelivered-cut_frames (i + 1) n)

  all_lent :
      (pos : 0 < fs) (lent : Lent) (i n j : ℕ) → j < n → with_all lent (numbers i n) (i + j) ≡ true
  unfolding cut_frames
  all_lent pos lent i zero j h = absurd (omega arith)
  all_lent pos lent i (suc n) zero h =
      let here : chunk fs (i * fs) ≡ i + 0 = mul-div_cancel i pos ∙ omega arith in
      with_all-true (with_ lent (chunk fs (i * fs))) (numbers (i + 1) n) (i + 0)
        (ground (arith, here))
  all_lent pos lent i (suc n) (suc j) h =
      let next : i + 1 + j ≡ i + suc j = omega arith in
      subst (λ a. with_all (with_ lent (chunk fs (i * fs))) (numbers (i + 1) n) a ≡ true) next
        (all_lent pos (with_ lent (chunk fs (i * fs))) (i + 1) n j (omega arith))

  only_lent :
      (pos : 0 < fs) (lent : Lent) (i n a : ℕ)
      → with_all lent (numbers i n) a ≡ true
      → (lent a ≡ true) ⊎ ((j : ℕ) × (j < n) × (a ≡ i + j))
  unfolding cut_frames
  only_lent pos lent i zero a h = inl h
  only_lent pos lent i (suc n) a h =
      elim (only_lent pos (with_ lent (chunk fs (i * fs))) (i + 1) n a h) [
        | inr (j, below, at) ↦ inr (suc j, omega arith, omega (arith, at))
        | inl held ↦ elim (ℕ_discrete (chunk fs (i * fs)) a) [
          | yes here ↦ inr (0, omega arith, omega (arith, here, mul-div_cancel i pos))
          | no other ↦ inl (ground (arith, held, other))
        ]
      ]

  -- Frames that were all lent, and nothing else.
  fresh-AreFrames :
      (base n : ℕ) (before lent : Lent)
      → 0 < fs
      → ((a : ℕ) → before a ≡ false)
      → ((a : ℕ) → lent a ≡ with_all before (numbers base n) a)
      → AreFrames fs base lent (cut_frames fs mtu base n)
  fresh-AreFrames base n before lent pos unlent now = record { each = each'; owned = owned' }
    where
      number : length (cut_frames fs mtu base n) ≡ n
      number = length-cut_frames fs mtu base n

      each' :
          (j : ℕ) (f : Frame)
          → get_elem? (cut_frames fs mtu base n) j ≡ some f
          → FrameAt fs base lent j f
      each' j f h =
          let below : j < n =
            omega (arith, get_elem?-lt (cut_frames fs mtu base n) j f h, number) in
          let e : frame_of fs mtu (base + j) ≡ f =
            some-injective _ _ (sym (get_elem?-cut_frames fs mtu base n j below) ∙ h) in
          subst (FrameAt fs base lent j) e (record {
            placed = mul-div_cancel (base + j) pos;
            agrees = inr (refl, now (base + j) ∙ all_lent pos before base n j below);
          })

      owned' :
          (a : ℕ)
          → lent a ≡ true
          → (j : ℕ) × (j < length (cut_frames fs mtu base n)) × (a ≡ base + j)
      owned' a h = elim (only_lent pos before base n a (sym (now a) ∙ h)) [
        | inl held ↦ absurd (ground (arith, unlent a, held))
        | inr (j, below, at) ↦ (j, omega (arith, below, number), at)
      ]

-- The receiving half over frames of which the first begins at `offset`.
abbrev pub fresh_rx : RxQueue → FillQueue → List Frame → ℕ → ℕ → XskRx
fresh_rx rx_q fill_q frames offset frame_size = record {
  fill_q = fill_q;
  rx_q = rx_q;
  rx_frames = frames;
  filled_frames = replicate (length frames) (record { addr = 0; len = 0; options = 0 });
  processed_frames = [];
  rx_frame_offset = offset;
  n_frames_to_be_filled = length frames;
  frame_size = frame_size;
  rx_cursor = 0;
  poll_ms_timeout = 0;
  stats = record { pkts_rx = 0; pkts_rx_delivered = 0 };
}

-- The receiving half over `n` frames behind the first `base`, where the fill ring took them all and
-- the kernel held none before.
pub fresh_rx-IsValid :
    (k : Kernel) (fs mtu base n : ℕ) (c : RxContract k fs) (rx_q : RxQueue) (fill_q : FillQueue)
    (before : k.World) (m : Machine k.World) (offset : ℕ)
    → offset ≡ base * fs
    → 0 < fs
    → 0 < n
    → base * fs + n * fs ≤ 2 ^ 32
    → base * fs + n * fs ≤ length m.mem
    → 1 ≤ c.fill.capacity
    → ((a : ℕ) → c.fill.lent before a ≡ false)
    → (k.fill_ring.reserve n before).0.count ≡ n
    → m.world ≡ (FillQueue.produce k (cut_frames fs mtu base n) before).1
    → IsValid c (fresh_rx rx_q fill_q (cut_frames fs mtu base n) offset fs) m
fresh_rx-IsValid k fs mtu base n c rx_q fill_q before m offset at pos some_frames fits inside
      ring_pos unlent granted filled =
    let frames = cut_frames fs mtu base n in
    let number = length-cut_frames fs mtu base n in
    let taken : (k.fill_ring.reserve (length frames) before).0.count ≡ length frames =
      subst (λ x. (k.fill_ring.reserve x before).0.count ≡ x) (sym number) granted in
    let lent =
      c.fill.granted_lent (length frames) (addrs k frames) before
        (sym (length-map (λ (f : Frame). f.addr) frames)) taken in
    let world : m.world ≡ _ =
      filled ∙ ap (λ x. x.1) (produce_granted k frames before taken (omega (arith, number))) in
    let rows : offset + length frames * fs ≡ base * fs + n * fs =
      omega (arith, at, ap (λ (x : ℕ). x * fs) number) in
    record {
      size = refl;
      base = base;
      offset = at;
      area = record { size_pos = pos; fits = omega (arith, rows); inside = omega (arith, rows) };
      buffer = length-replicate (length frames) (record { addr = 0; len = 0; options = 0 });
      cursor_in = omega (arith, number);
      clear = refl;
      frames =
          fresh-AreFrames k fs mtu base n (c.fill.lent before) (c.fill.lent m.world) pos unlent
            (λ a. ap (λ w. c.fill.lent w a) world ∙ lent a);
      counted = omega (arith, undelivered-cut_frames k fs mtu base n);
      accounted = ap (add64 0) (sym (undelivered-cut_frames k fs mtu base n));
      ring_pos = ring_pos;
    }
