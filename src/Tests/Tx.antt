-- ===== src/Tests/Tx.antt =====
-- Witnesses of the theorems on sending: three frames of four bytes, a batch of one, and a tx ring
-- that is full once.
use mathlib.Core.Option.{some-injective}
use xdpsock.Prelude.{
  length, ◌≤◌, List, sym, zero, suc, get_elem?, some, inr, ret, ◌<◌, ◌+◌, ◌*◌, slice, ◌≡◌, ℕ, panic,
  err, ◌↔◌, refl, false, [], ◌∷◌, replicate, arith,
}
use xdpsock.Kernel.{Machine}
use xdpsock.Umem.CompQueue.{CompQueue}
use xdpsock.Umem.Build.{cut_frames}
use xdpsock.Socket.Poll.{new_fd}
use xdpsock.Socket.TxQueue.{TxQueue}
use xdpsock.Xsk.Tx
use xdpsock.Xsk.Tx.{XskTx, batch_range, prefill, send, send_apply, put_batch_on_tx_queue}
use xdpsock.Xsk.Tx.Complete.{Completes, complete_frames-Completes}
use xdpsock.Xsk.Tx.Batch.{Flushes, put_batch-Flushes}
use xdpsock.Xsk.Tx.Valid.{IsValid, moved, moved-IsCoherent}
use xdpsock.Xsk.Tx.Attempt.{Sends}
use xdpsock.Xsk.Tx.Send.{send_lem}
use xdpsock.Xsk.Tx.Apply.{send_apply_lem}
use xdpsock.Xsk.Tx.Wrap.{put_batch_panics}
use xdpsock.Socket.TxQueue.{wakeup}
use xdpsock.Socket.TxQueue.Wakeup.{IsTransient, wakeup_lem}
use xdpsock.Xsk.Tx.Drain.{Drains, drain_lem}
use xdpsock.Xsk.Tx.Prefill.{Apart, prefilled, prefill_lem}
use xdpsock.Xsk.Tx.Advance.{accepted}
use xdpsock.Xsk.Tx.Frames.{FrameAt}
use xdpsock.Umem.Frame.{Frame, FrameStatus}
use xdpsock.Xsk.Tx.Fresh.{new-IsValid}
use xdpsock.Tests.Toy.{World, toy, tx_law, cons_law}
use xdpsock.Tests.Toy.Sending.{contract, prompt}

abbrev pub tx_q : TxQueue
tx_q = record { fd = new_fd 7 }

abbrev pub comp_q : CompQueue
comp_q = record { size = 4 }

abbrev three : XskTx
three = Tx.new tx_q comp_q (cut_frames 4 4 0 3) 4 1

abbrev start : Machine World
start = record {
  mem = replicate 12 0;
  world = record {
    fill_slots = λ i. 0;
    fill_tail = 0;
    tx_slots = λ i. record { addr = 0; len = 0; options = 0 };
    tx_tail = 0;
    sent = [];
    late = false;
    busy = 1;
    fills = [];
    handed = [];
    queue = [];
  };
}

new-IsValid_example : IsValid contract 4 three start
unfolding contract
new-IsValid_example =
    new-IsValid toy contract start tx_q comp_q 4 4 3 1 (λ a. refl) (omega arith) (omega arith)
      (omega arith) (omega arith) (omega arith) (omega arith) (omega arith)

three-IsValid : IsValid contract 4 three start
unfolding contract
three-IsValid =
    new-IsValid toy contract start tx_q comp_q 4 4 3 1 (λ a. refl) (omega arith) (omega arith)
      (omega arith) (omega arith) (omega arith) (omega arith) (omega arith)

send_lem_example :
    Sends toy 4 tx_law cons_law contract 4 (send toy 3 (1 ∷ 2 ∷ 3 ∷ []) three start) three
unfolding contract
send_lem_example =
    send_lem toy 4 tx_law cons_law contract 3 4 (1 ∷ 2 ∷ 3 ∷ []) three start three-IsValid
      (omega arith) (omega arith)

complete_frames-Completes_example : Completes toy cons_law contract 4 three start
complete_frames-Completes_example =
    complete_frames-Completes toy cons_law contract 4 three start (three-IsValid.coherent)

put_batch-Flushes_example : Flushes toy 4 tx_law contract 3 4 (moved three) start 0
unfolding contract Tx.new batch_range cut_frames
put_batch-Flushes_example =
    put_batch-Flushes toy 4 tx_law contract 3 4 (moved three) start 0
      (moved-IsCoherent 4 (contract.lent start.world) start.mem three three-IsValid.coherent)
      (record { range = refl; inside = omega arith; ours = λ j lo hi. refl }) (omega arith)
      (omega arith) (omega arith)

send_apply_lem_example :
    Sends toy 4 tx_law cons_law contract 4
      (send_apply toy 3 (λ bytes. ret (9 ∷ bytes, 2)) three start)
      three
unfolding contract
send_apply_lem_example =
    send_apply_lem toy 4 tx_law cons_law contract 3 4 (λ bytes. ret (9 ∷ bytes, 2)) three start
      three-IsValid (omega arith) (λ bytes size. ((9 ∷ bytes, 2), refl))

-- Three frames in batches of two: the second batch has a frame at the end and one at the start.
abbrev crossing : XskTx
crossing = record {
  tx_q = tx_q;
  comp_q = comp_q;
  tx_frames = cut_frames 4 4 0 3;
  free_frames = replicate 3 0;
  outstanding_tx_frames = 0;
  tx_poll_ms_timeout = 0;
  tx_cursor = 1;
  frame_size = 4;
  stats = record { pkts_tx = 2; pkts_tx_completed = 2 };
  batch_size = 2;
  cur_batch_size = 2;
}

put_batch_panics_example : put_batch_on_tx_queue toy 3 crossing start ≡ panic
put_batch_panics_example =
    put_batch_panics crossing (omega arith) (omega arith) (omega arith) toy 3 start

wakeup_lem_example :
    let (sent, m') = toy.sendto 7 start in
    ((wakeup toy tx_q start).1 ≡ m')
    × ((errno : ℕ)
        → ((wakeup toy tx_q start).0 ≡ err errno)
          ↔ ((sent ≡ err errno) × (IsTransient toy errno → ⊥)))
wakeup_lem_example = wakeup_lem toy tx_q start

-- Four frames, batches of two, and one packet that waits for the second of its batch.
abbrev pub one_waits : XskTx
one_waits = record (Tx.new tx_q comp_q (cut_frames 4 4 0 4) 4 2) {
  tx_frames =
      record { addr = 0; len = 2; options = 0; mtu = 4; status = FrameStatus.free }
      ∷ cut_frames 4 4 1 3;
  tx_cursor = 1;
  cur_batch_size = 1;
}

abbrev pub before : Machine World
before = record start { mem = 9 ∷ 9 ∷ replicate 14 0 }

one_waits-FrameAt :
    (i : ℕ) (f : Frame)
    → get_elem? one_waits.tx_frames i ≡ some f
    → FrameAt 4 4 (contract.lent before.world) i f
unfolding contract Tx.new cut_frames
one_waits-FrameAt zero f h =
    rw (sym (some-injective _ _ h))
      (record { placed = refl; sized = refl; agrees = inr (refl, refl) })
one_waits-FrameAt (suc zero) f h =
    rw (sym (some-injective _ _ h))
      (record { placed = refl; sized = refl; agrees = inr (refl, refl) })
one_waits-FrameAt (suc (suc zero)) f h =
    rw (sym (some-injective _ _ h))
      (record { placed = refl; sized = refl; agrees = inr (refl, refl) })
one_waits-FrameAt (suc (suc (suc zero))) f h =
    rw (sym (some-injective _ _ h))
      (record { placed = refl; sized = refl; agrees = inr (refl, refl) })
one_waits-FrameAt (suc (suc (suc (suc i)))) f h = cc

pub one_waits-IsValid : IsValid contract 4 one_waits before
unfolding contract Tx.new cut_frames
one_waits-IsValid = record {
  coherent = record {
    size_pos = omega arith;
    fits = omega arith;
    inside = omega arith;
    mtu_le = omega arith;
    buffer = refl;
    cursor_in = omega arith;
    frames = record { each = one_waits-FrameAt; owned = λ a held. cc };
    counted = refl;
  };
  aligned = record {
    batch_pos = omega arith;
    below = omega arith;
    rounds = 2;
    whole = refl;
    turn = 0;
    aligned = refl;
    ours = λ j lo hi. refl;
  };
  accounted = refl;
  batch_le = omega arith;
}

drain_lem_example :
    Drains toy 4 tx_law cons_law contract prompt 3 4 12 one_waits before (accepted one_waits)
unfolding contract prompt Tx.new cut_frames
drain_lem_example =
    drain_lem toy 4 tx_law cons_law contract prompt 3 4 12 one_waits before one_waits-IsValid
      (omega arith) (omega arith)

prefill_lem_example :
    (mem : List ℕ) × (prefill toy (1 ∷ 2 ∷ 3 ∷ []) three start
      ≡ ret (prefilled three 3, record start { mem = mem }))
    × IsValid contract 4 (prefilled three 3) (record start { mem = mem })
    × ((i : ℕ) → i < 3 → slice mem (i * 4) (i * 4 + 3) ≡ 1 ∷ 2 ∷ 3 ∷ [])
    × (length mem ≡ length start.mem)
    × ((a b : ℕ)
        → a ≤ b
        → ((i : ℕ) → i < 3 → Apart 4 3 i a b)
        → slice mem a b ≡ slice start.mem a b)
unfolding Tx.new cut_frames
prefill_lem_example =
    prefill_lem toy contract 4 (1 ∷ 2 ∷ 3 ∷ []) three start three-IsValid (omega arith)
