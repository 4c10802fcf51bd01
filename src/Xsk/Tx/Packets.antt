-- ===== src/Xsk/Tx/Packets.antt =====
-- The packets that `send` accepts reach the kernel byte for byte, in order, and stay as they are.
pub mod Accept
pub mod Deliver
pub mod Refines
pub mod TakeUp
use mathlib.Core.Path.{subst, ap₂}
use xdpsock.Prelude.{
  ℕ, suc, ◌+◌, ◌-◌, ◌*◌, ◌^◌, ◌≤◌, ◌<◌, ◌≡◌, ◌≢◌, refl, sym, ap, ◌∙◌, ◌⊎◌, inl, inr, true, false,
  List, [], ◌∷◌, ◌++◌, map, Outcome, ret, Result, ok, err, length, take, slice, splice, set, some,
  get_elem?, get_elem?-set_self, length-slice, length-map, Bool, map-set, map-slice,
  map-append_lists, slice-set, slice-snoc, slice-same, slice-splice, take-take, take-length, add64,
  arith,
}
use xdpsock.Kernel.{Kernel, Machine, Desc}
use xdpsock.Kernel.Laws.{IsProdRing, IsConsRing}
use xdpsock.Umem.Frame.{Frame, set_len}
use xdpsock.Umem.CompQueue.Consume.{consumed}
use xdpsock.Umem.Frame.Isolation.{slice-splice_apart}
use xdpsock.Socket.TxQueue.Publish.{tx_descs}
use xdpsock.Xsk.Lent.{without_all}
use xdpsock.Xsk.Tx.{XskTx, XskSendError}
use xdpsock.Xsk.Tx.Lent.{TxContract}
use xdpsock.Xsk.Tx.Frames.{mul-lt}
use xdpsock.Xsk.Tx.Lending.{queue}
use xdpsock.Xsk.Tx.Complete.{IsCoherent, Completes, completed}
use xdpsock.Xsk.Tx.Valid.{IsAligned, IsValid, written, moved, no_wrap}
use xdpsock.Xsk.Tx.Batch.{batch, flushed}
use xdpsock.Xsk.Tx.Advance.{Advances, handed_over}
use xdpsock.Xsk.Tx.Slots.{
  slot, slots, read, packet_at, pending_slots, waiting, AreBelow, AreBelow-le, AreBelow-snoc,
  read-splice, read-same, packet_at-tx_desc, slots-queue, slots-mark_free,
}
use xdpsock.Xsk.Tx.Transcript.{Transcript, produce_all-handed}
use xdpsock.Xsk.Tx.Queue.{enqueue}

-- The frames lie in the transmit end's part of the UMEM, and the packets that wait lie in the frames
-- before the cursor.
pub record IsStocked (area : ℕ) (tx : XskTx) : Type 0 where
  pub room : length tx.tx_frames * tx.frame_size ≤ area
  pub below : AreBelow (tx.tx_cursor * tx.frame_size) (pending_slots tx)

-- The batch with the frame at the cursor, once that frame is written.
module _ {mtu : ℕ} {mem : List ℕ} (lent : ℕ → Bool) (tx : XskTx) (f : Frame) (len : ℕ)
    (v : IsCoherent mtu lent mem tx) (found : get_elem? tx.tx_frames tx.tx_cursor ≡ some f) where
  abbrev pub slots' : List (ℕ × ℕ)
  slots' = slots (written tx f len).tx_frames

  pub grown :
      slice slots' (tx.tx_cursor - tx.cur_batch_size) (tx.tx_cursor + 1)
      ≡ pending_slots tx ++ ((tx.tx_cursor * tx.frame_size, len) ∷ [])
  grown =
      let end : ℕ × ℕ = (tx.tx_cursor * tx.frame_size, len) in
      let placed = (v.frames.each tx.tx_cursor f found).placed in
      let same : slot (set_len f len) ≡ end = λ i. (placed i, len) in
      let here : get_elem? slots' tx.tx_cursor ≡ some end =
        ap (λ ss. get_elem? ss tx.tx_cursor)
          (map-set slot tx.tx_frames tx.tx_cursor (set_len f len))
        ∙ get_elem?-set_self (slots tx.tx_frames) tx.tx_cursor (slot (set_len f len))
            (omega (arith, length-map slot tx.tx_frames, v.cursor_in))
        ∙ ap some same in
      slice-snoc slots' (tx.tx_cursor - tx.cur_batch_size) tx.tx_cursor end (omega arith) here
      ∙ ap (λ ss. ss ++ (end ∷ []))
          (ap (λ ss. slice ss (tx.tx_cursor - tx.cur_batch_size) tx.tx_cursor)
              (map-set slot tx.tx_frames tx.tx_cursor (set_len f len))
            ∙ slice-set (slots tx.tx_frames) (tx.tx_cursor - tx.cur_batch_size) tx.tx_cursor
                tx.tx_cursor (slot (set_len f len)) (omega arith) (omega arith))

module _ (k : Kernel) (size : ℕ) (l : IsProdRing k.tx_ring size) (lc : IsConsRing k.comp_ring)
    (c : TxContract k) (t : Transcript k) where
  open k use {World}

  -- What an accepted packet comes to: it joins those that wait, or the kernel is handed the batch
  -- that it completes, and reads there the bytes of those that waited and its own.
  pub record Takes (packet : List ℕ) (tx : XskTx) (m : Machine World) (tx' : XskTx)
      (m' : Machine World) : Type 0 where
    pub descs : List Desc
    pub joined : t.handed m'.world ≡ t.handed m.world ++ descs
    pub refines :
        enqueue tx.batch_size packet (waiting tx m.mem)
        ≡ (map (packet_at m'.mem) descs, waiting tx' m'.mem)

  module _ (fuel mtu : ℕ) (tx : XskTx) (m : Machine World) (v : IsValid c mtu tx m)
      (stocked : IsStocked t.area tx) (done : Completes k lc c mtu tx m) where
    pub pending_done : pending_slots (completed tx done.addrs done.frames) ≡ pending_slots tx
    pending_done =
        ap (λ ss. slice ss (tx.tx_cursor - tx.cur_batch_size) tx.tx_cursor)
          (slots-mark_free tx.frame_size done.addrs tx.tx_frames done.frames done.marked)

    pub area_done : take t.area done.machine.mem ≡ take t.area m.mem
    area_done = ap (take t.area) done.peeked ∙ t.peek_area tx.outstanding_tx_frames m

    pub handed_done : t.handed done.machine.world ≡ t.handed m.world
    handed_done = ap t.handed done.released ∙ t.released_handed tx.outstanding_tx_frames m

    pub cursor_room : tx.tx_cursor * tx.frame_size + tx.frame_size ≤ t.area
    cursor_room = omega (
      arith,
      mul-lt tx.tx_cursor (length tx.tx_frames) tx.frame_size v.coherent.cursor_in,
      stocked.room,
    )

    pub number_waiting : (mem : List ℕ) → length (waiting tx mem) ≡ tx.cur_batch_size
    number_waiting mem = omega (
      arith,
      length-map (read mem) (pending_slots tx),
      length-slice (slots tx.tx_frames) (tx.tx_cursor - tx.cur_batch_size) tx.tx_cursor
          (omega (arith, length-map slot tx.tx_frames, v.coherent.cursor_in)),
      v.aligned.aligned,
    )

    pub waiting_kept : map (read done.machine.mem) (pending_slots tx) ≡ waiting tx m.mem
    waiting_kept =
        read-same done.machine.mem m.mem t.area (pending_slots tx)
          (AreBelow-le (tx.tx_cursor * tx.frame_size) t.area (pending_slots tx)
            (omega (arith, cursor_room)) stocked.below)
          area_done

    pub waiting_done :
        waiting (completed tx done.addrs done.frames) done.machine.mem ≡ waiting tx m.mem
    waiting_done = ap (map (read done.machine.mem)) pending_done ∙ waiting_kept

    pub completed-IsStocked : IsStocked t.area (completed tx done.addrs done.frames)
    completed-IsStocked = record {
      room = rw (done.same_number) (stocked.room);
      below = rw pending_done (stocked.below);
    }
