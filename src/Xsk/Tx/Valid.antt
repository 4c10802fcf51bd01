-- ===== src/Xsk/Tx/Valid.antt =====
-- The invariant of `XskTx` between two sends, and how its parts move with each step of one.
use native.Mathlib.Decide.{dec_lt, ℕ_discrete}
use native.Mathlib.Nat.{mod-eq_of_lt, mod_self}
use xdpsock.Prelude.{
  ℕ, ◌+◌, ◌*◌, ◌%◌, ◌^◌, ◌≤◌, ◌<◌, ◌≡◌, ◌≢◌, refl, sym, ap, ◌∙◌, ◌⊎◌, inl, inr, false, List, length,
  some, set, length-set, get_elem?, length-update_range, add64, arith,
}
use xdpsock.Kernel.{Kernel, Machine}
use xdpsock.Umem.Frame.{Frame, set_len}
use xdpsock.Xsk.Tx.{XskTx, batch_range}
use xdpsock.Xsk.Lent.{Lent, without_all, without_all-le}
use xdpsock.Xsk.Tx.Lent.{TxContract}
use xdpsock.Xsk.Tx.Frames.{AreFrames-set, on_tx-set, mul-lt}
use xdpsock.Xsk.Tx.Lending.{queue}
use xdpsock.Xsk.Tx.Complete.{IsCoherent, completed, few_frames}
use xdpsock.Xsk.Tx.Batch.{IsPending, flushed}

-- The frames are a whole number of batches, the cursor stands `cur_batch_size` frames into one of
-- them, and those frames are not the kernel's.
pub record IsAligned (lent : Lent) (tx : XskTx) : Type 0 where
  pub batch_pos : 0 < tx.batch_size
  pub below : tx.cur_batch_size < tx.batch_size
  pub rounds : ℕ
  pub whole : length tx.tx_frames ≡ rounds * tx.batch_size
  pub turn : ℕ
  pub aligned : tx.tx_cursor ≡ turn * tx.batch_size + tx.cur_batch_size
  pub ours :
      (j : ℕ) → turn * tx.batch_size ≤ j → j < tx.tx_cursor → lent (j * tx.frame_size) ≡ false

-- Every packet that was handed over is outstanding or was completed.
abbrev pub IsAccounted : XskTx → Type 0
IsAccounted tx = tx.stats.pkts_tx ≡ add64 tx.stats.pkts_tx_completed tx.outstanding_tx_frames

pub record IsValid {k : Kernel} (c : TxContract k) (mtu : ℕ) (tx : XskTx) (m : Machine k.World)
    : Type 0 where
  pub coherent : IsCoherent mtu (c.lent m.world) m.mem tx
  pub aligned : IsAligned (c.lent m.world) tx
  pub accounted : IsAccounted tx
  pub batch_le : tx.batch_size ≤ c.capacity

-- Completion leaves the batch alone.
pub completed-IsAligned :
    (lent : Lent) (tx : XskTx) (addrs : List ℕ) (frames : List Frame)
    → length frames ≡ length tx.tx_frames
    → IsAligned lent tx
    → IsAligned (without_all lent addrs) (completed tx addrs frames)
completed-IsAligned lent tx addrs frames len a = record {
  batch_pos = a.batch_pos;
  below = a.below;
  rounds = a.rounds;
  whole = len ∙ a.whole;
  turn = a.turn;
  aligned = a.aligned;
  ours = λ j lo hi. without_all-le lent addrs (j * tx.frame_size) (a.ours j lo hi);
}

pub completed-IsAccounted :
    (tx : XskTx) (addrs : List ℕ) (frames : List Frame)
    → length addrs ≤ tx.outstanding_tx_frames
    → tx.outstanding_tx_frames < 2 ^ 64
    → IsAccounted tx
    → IsAccounted (completed tx addrs frames)
completed-IsAccounted tx addrs frames few small a = omega arith

-- The frame at the cursor, with the length of what was written to it.
abbrev pub written : XskTx → Frame → ℕ → XskTx
written tx f len = record tx { tx_frames = set tx.tx_frames tx.tx_cursor (set_len f len) }

pub written-IsCoherent :
    (mtu : ℕ) (lent : Lent) (mem mem' : List ℕ) (tx : XskTx) (f : Frame) (len : ℕ)
    → IsCoherent mtu lent mem tx
    → get_elem? tx.tx_frames tx.tx_cursor ≡ some f
    → length mem' ≡ length mem
    → IsCoherent mtu lent mem' (written tx f len)
written-IsCoherent mtu lent mem mem' tx f len v found same =
    let n = length-set tx.tx_frames tx.tx_cursor (set_len f len) in
    let old = v.frames.each tx.tx_cursor f found in
    record {
      size_pos = v.size_pos;
      fits = rw n (v.fits);
      inside = rw (n, same) (v.inside);
      mtu_le = v.mtu_le;
      buffer = v.buffer ∙ sym n;
      cursor_in = rw n (v.cursor_in);
      frames =
          AreFrames-set tx.frame_size mtu lent lent tx.tx_frames tx.tx_cursor f (set_len f len)
            v.frames found (record { placed = old.placed; sized = old.sized; agrees = old.agrees })
            (λ j ne. refl) (λ a q. inl q);
      counted =
          omega (arith, v.counted, on_tx-set tx.tx_frames tx.tx_cursor f (set_len f len) found);
    }

pub written-IsAligned :
    (lent : Lent) (tx : XskTx) (f : Frame) (len : ℕ)
    → IsAligned lent tx
    → IsAligned lent (written tx f len)
written-IsAligned lent tx f len a = record {
  batch_pos = a.batch_pos;
  below = a.below;
  rounds = a.rounds;
  whole = length-set tx.tx_frames tx.tx_cursor (set_len f len) ∙ a.whole;
  turn = a.turn;
  aligned = a.aligned;
  ours = a.ours;
}

-- The cursor and the batch, one frame on.
abbrev pub moved : XskTx → XskTx
moved tx = record tx {
  tx_cursor = add64 tx.tx_cursor 1 % length tx.tx_frames;
  cur_batch_size = add64 tx.cur_batch_size 1;
}

pub moved-IsCoherent :
    (mtu : ℕ) (lent : Lent) (mem : List ℕ) (tx : XskTx)
    → IsCoherent mtu lent mem tx
    → IsCoherent mtu lent mem (moved tx)
moved-IsCoherent mtu lent mem tx v = record {
  size_pos = v.size_pos;
  fits = v.fits;
  inside = v.inside;
  mtu_le = v.mtu_le;
  buffer = v.buffer;
  cursor_in = omega (arith, v.cursor_in);
  frames = v.frames;
  counted = v.counted;
}

-- A batch that has begun fits before the end of the frames.
batch_fits :
    (turn rounds batch cur : ℕ)
    → cur < batch
    → turn * batch + cur < rounds * batch
    → turn * batch + batch ≤ rounds * batch
batch_fits turn rounds batch cur h lt = elim (dec_lt turn rounds) [
  | yes p ↦ mul-lt turn rounds batch p
  | no np ↦ absurd (omega (arith, rows (omega arith)))
]
  where
    rows : rounds ≤ turn → rounds * batch ≤ turn * batch
    rows p = grind arith

batch_range_around :
    (tx : XskTx) (s : ℕ)
    → tx.tx_cursor ≡ 0
    → s + tx.cur_batch_size ≡ length tx.tx_frames
    → length tx.tx_frames < 2 ^ 64
    → batch_range tx ≡ (s, s + tx.cur_batch_size)
unfolding batch_range
batch_range_around tx s e whole small = ground arith

pub batch_range_inside :
    (tx : XskTx) (s : ℕ)
    → 0 < tx.tx_cursor
    → s + tx.cur_batch_size ≡ tx.tx_cursor
    → tx.tx_cursor < 2 ^ 64
    → batch_range tx ≡ (s, s + tx.cur_batch_size)
unfolding batch_range
batch_range_inside tx s pos whole small = ground arith

module _ {mtu : ℕ} (lent : Lent) {mem : List ℕ} (tx : XskTx) (v : IsCoherent mtu lent mem tx)
    (a : IsAligned lent tx) (here : lent (tx.tx_cursor * tx.frame_size) ≡ false) where
  open a use {turn, rounds}

  pub room : turn * tx.batch_size + tx.batch_size ≤ length tx.tx_frames
  room = omega (
    arith,
    a.whole,
    batch_fits turn rounds tx.batch_size tx.cur_batch_size a.below
        (omega (arith, a.whole, a.aligned, v.cursor_in)),
  )

  pub no_wrap :
      (add64 tx.tx_cursor 1 ≡ tx.tx_cursor + 1)
      × (add64 tx.cur_batch_size 1 ≡ tx.cur_batch_size + 1)
  no_wrap = omega (arith, few_frames tx v, room, a.below, v.cursor_in)

  pub next_inside : tx.tx_cursor + 1 < length tx.tx_frames → (moved tx).tx_cursor ≡ tx.tx_cursor + 1
  next_inside lt = ap (λ i. i % length tx.tx_frames) no_wrap.0 ∙ mod-eq_of_lt lt

  next_around : tx.tx_cursor + 1 ≡ length tx.tx_frames → (moved tx).tx_cursor ≡ 0
  next_around e = ap (λ i. i % length tx.tx_frames) (no_wrap.0 ∙ e) ∙ mod_self (length tx.tx_frames)

  ours_moved :
      (j : ℕ) → turn * tx.batch_size ≤ j → j < tx.tx_cursor + 1 → lent (j * tx.frame_size) ≡ false
  ours_moved j lo hi = elim (ℕ_discrete j tx.tx_cursor) [
    | yes e ↦ rw e here
    | no ne ↦ a.ours j lo (omega arith)
  ]

  -- While the batch is not full, the cursor does not go round.
  pub moved-IsAligned : tx.cur_batch_size + 1 ≢ tx.batch_size → IsAligned lent (moved tx)
  moved-IsAligned ne =
      let next = next_inside (omega (arith, room, a.aligned, a.below)) in
      record {
        batch_pos = a.batch_pos;
        below = omega (arith, a.below, no_wrap);
        rounds = rounds;
        whole = a.whole;
        turn = turn;
        aligned = omega (arith, next, a.aligned, no_wrap);
        ours = λ j lo hi. ours_moved j lo (omega (arith, next));
      }

  next_cases :
      (((moved tx).tx_cursor ≡ 0) × (tx.tx_cursor + 1 ≡ length tx.tx_frames))
      ⊎ (((moved tx).tx_cursor ≡ tx.tx_cursor + 1) × (tx.tx_cursor + 1 < length tx.tx_frames))
  next_cases = elim (dec_lt (tx.tx_cursor + 1) (length tx.tx_frames)) [
    | yes lt ↦ inr (next_inside lt, lt)
    | no ge ↦
        let e : tx.tx_cursor + 1 ≡ length tx.tx_frames = omega (arith, v.cursor_in) in
        inl (next_around e, e)
  ]

  -- A full batch is pending, and once it is handed over the next one begins.
  module _ (full : tx.cur_batch_size + 1 ≡ tx.batch_size) where
    moved_range :
        batch_range (moved tx)
        ≡ (turn * tx.batch_size, turn * tx.batch_size + (moved tx).cur_batch_size)
    moved_range = elim next_cases [
      | inl (zero_next, e) ↦
          batch_range_around (moved tx) (turn * tx.batch_size) zero_next
            (omega (arith, e, no_wrap, full, a.aligned)) (omega (arith, few_frames tx v))
      | inr (next, lt) ↦
          batch_range_inside (moved tx) (turn * tx.batch_size) (omega (arith, next))
            (omega (arith, next, no_wrap, full, a.aligned)) (omega (arith, next, few_frames tx v))
    ]

    pub moved-IsPending : IsPending lent (moved tx) (turn * tx.batch_size)
    moved-IsPending = record {
      range = moved_range;
      inside = omega (arith, room, no_wrap, full);
      ours = λ j lo hi. ours_moved j lo (omega (arith, a.aligned, no_wrap));
    }

    pub flushed-IsAligned :
        (lent' : Lent) → IsAligned lent' (flushed (moved tx) (turn * tx.batch_size))
    flushed-IsAligned lent' = elim next_cases [
      | inl (zero_next, e) ↦ record {
        batch_pos = a.batch_pos;
        below = a.batch_pos;
        rounds = rounds;
        whole = number ∙ a.whole;
        turn = 0;
        aligned = omega (arith, zero_next);
        ours = λ j lo hi. absurd (omega (arith, zero_next, hi));
      }
      | inr (next, lt) ↦ record {
        batch_pos = a.batch_pos;
        below = a.batch_pos;
        rounds = rounds;
        whole = number ∙ a.whole;
        turn = turn + 1;
        aligned = omega (arith, next, full, a.aligned);
        ours = λ j lo hi. absurd (omega (arith, next, full, a.aligned, lo, hi));
      }
    ]
      where
        number : length (flushed (moved tx) (turn * tx.batch_size)).tx_frames ≡ length tx.tx_frames
        number =
            length-update_range queue (turn * tx.batch_size) (moved tx).cur_batch_size tx.tx_frames
