-- ===== src/Xsk/Tx/Packets/Accept.antt =====
-- A packet that is written to the free frame at the cursor: it waits, or completes a batch.
use mathlib.Core.Path.{subst, subst₂, ap₂}
use mathlib.Core.List.{append-nil}
use xdpsock.Prelude.{
  ℕ, ◌+◌, ◌-◌, ◌*◌, ◌^◌, ◌≤◌, ◌<◌, ◌≡◌, ◌≢◌, sym, ap, ◌∙◌, List, [], ◌∷◌, ◌++◌, map, ret, length,
  take, drop, slice, splice, some, get_elem?, length-slice, length-map, length-set,
  length-update_range, map-slice, map-append_lists, slice-splice, take-take, add64, arith,
}
use xdpsock.Kernel.{Kernel, Machine}
use xdpsock.Kernel.Laws.{IsProdRing, IsConsRing}
use xdpsock.Umem.Frame.{Frame, set_len}
use xdpsock.Socket.TxQueue.Publish.{tx_descs}
use xdpsock.Xsk.Tx.{XskTx, produce_all}
use xdpsock.Xsk.Tx.Lent.{TxContract}
use xdpsock.Xsk.Tx.Frames.{mul-lt}
use xdpsock.Xsk.Tx.Lending.{queue}
use xdpsock.Xsk.Tx.Complete.{Completes, completed, few_frames}
use xdpsock.Xsk.Tx.Valid.{IsValid, written, moved}
use xdpsock.Xsk.Tx.Batch.{flushed}
use xdpsock.Xsk.Tx.Advance.{handed_over}
use xdpsock.Xsk.Tx.Slots.{
  slot, slots, read, packet_at, pending_slots, waiting, AreBelow, AreBelow-le, AreBelow-snoc,
  read-splice, read-same, packet_at-tx_desc,
}
use xdpsock.Xsk.Tx.Transcript.{Transcript, produce_all-handed}
use xdpsock.Xsk.Tx.Queue.{enqueue_waits, enqueue_full}
use xdpsock.Xsk.Tx.Packets.{
  IsStocked, Takes, grown, pending_done, handed_done, cursor_room, number_waiting, waiting_kept,
}

slice-splice-take :
    (mem : List ℕ) (i : ℕ) (bytes : List ℕ) (len : ℕ)
    → i + length bytes ≤ length mem
    → len ≤ length bytes
    → slice (splice mem i bytes) i (i + len) ≡ take len bytes
slice-splice-take mem i bytes len fits le =
    ap (λ n. take n (drop i (splice mem i bytes))) {x = i + len - i} {y = len} (omega arith)
    ∙ sym (take-take (drop i (splice mem i bytes)) len (length bytes) le)
    ∙ ap (take len) (slice-splice mem i bytes fits)

slice_none : (ss : List (ℕ × ℕ)) (a : ℕ) → slice ss (a - 0) a ≡ []
slice_none ss a = ap (λ n. take n (drop (a - 0) ss)) {x = a - (a - 0)} {y = 0} (omega arith)

next_row : (i fs : ℕ) → (i + 1) * fs ≡ i * fs + fs
next_row i fs = grind arith

module _ (k : Kernel) (size : ℕ) (l : IsProdRing k.tx_ring size) (lc : IsConsRing k.comp_ring)
    (c : TxContract k) (t : Transcript k) where
  open k use {World}

  module _ (fuel mtu : ℕ) (tx : XskTx) (m : Machine World) (v : IsValid c mtu tx m)
      (stocked : IsStocked t.area tx) (done : Completes k lc c mtu tx m) (f : Frame)
      (bytes : List ℕ) (len : ℕ) (found : get_elem? done.frames tx.tx_cursor ≡ some f)
      (fits : length bytes ≤ tx.frame_size) (len_le : len ≤ length bytes)
      (small : len < 2 ^ 32) where
    abbrev pub here : ℕ
    here = tx.tx_cursor * tx.frame_size

    abbrev pub tx2 : XskTx
    tx2 = written (completed tx done.addrs done.frames) f len

    abbrev pub mem2 : List ℕ
    mem2 = splice done.machine.mem f.addr bytes

    -- The packets that waited, and the one at the cursor.
    abbrev pub with_new : List (ℕ × ℕ)
    with_new = pending_slots tx ++ ((here, len) ∷ [])

    placed : f.addr ≡ here
    placed = (done.coherent.frames.each tx.tx_cursor f found).placed

    with_new-below : AreBelow (here + tx.frame_size) with_new
    with_new-below =
        AreBelow-snoc (here + tx.frame_size) (pending_slots tx) here len
          (AreBelow-le here (here + tx.frame_size) (pending_slots tx) (omega arith) stocked.below)
          (omega arith) small

    slots_grown :
        slice (slots tx2.tx_frames) (tx.tx_cursor - tx.cur_batch_size) (tx.tx_cursor + 1) ≡ with_new
    slots_grown =
        grown (c.lent done.machine.world) (completed tx done.addrs done.frames) f len done.coherent
          found
        ∙ ap (λ ss. ss ++ ((here, len) ∷ []))
            (pending_done k size l lc c t fuel mtu tx m v stocked done)

    bytes_inside : here + length bytes ≤ length done.machine.mem
    bytes_inside = omega (
      arith,
      mul-lt tx.tx_cursor (length done.frames) tx.frame_size done.coherent.cursor_in,
      done.coherent.inside,
    )

    packets : map (read mem2) with_new ≡ waiting tx m.mem ++ (take len bytes ∷ [])
    packets =
        map-append_lists (read mem2) (pending_slots tx) ((here, len) ∷ [])
        ∙ ap₂ (λ xs p. xs ++ (p ∷ [])) old new
      where
        old : map (read mem2) (pending_slots tx) ≡ waiting tx m.mem
        old =
            read-splice done.machine.mem f.addr bytes (pending_slots tx)
              (subst (λ a. AreBelow a (pending_slots tx)) (sym placed) stocked.below)
            ∙ waiting_kept k size l lc c t fuel mtu tx m v stocked done

        new : slice mem2 here (here + len) ≡ take len bytes
        new =
            ap (λ a. slice (splice done.machine.mem a bytes) here (here + len)) placed
            ∙ slice-splice-take done.machine.mem here bytes len bytes_inside len_le

    no_wrap_batch : add64 tx.cur_batch_size 1 ≡ tx.cur_batch_size + 1
    no_wrap_batch = omega (arith, few_frames tx v.coherent, v.coherent.cursor_in, v.aligned.aligned)

    room2 : length tx2.tx_frames * tx.frame_size ≤ t.area
    room2 =
        rw (length-set done.frames tx.tx_cursor (set_len f len) ∙ done.same_number) (stocked.room)

    -- While the batch is not full, the packet waits.
    module _ (next : (moved tx2).tx_cursor ≡ tx.tx_cursor + 1) where
      pending_moved : pending_slots (moved tx2) ≡ with_new
      pending_moved =
          ap₂ (slice (slots tx2.tx_frames)) {x = (moved tx2).tx_cursor - add64 tx.cur_batch_size 1}
            {y = tx.tx_cursor - tx.cur_batch_size} (omega (arith, next, no_wrap_batch)) next
          ∙ slots_grown

      pub moved-IsStocked : IsStocked t.area (moved tx2)
      moved-IsStocked = record {
        room = room2;
        below =
            subst₂ AreBelow
              (sym (ap (λ (i : ℕ). i * tx.frame_size) next ∙ next_row tx.tx_cursor tx.frame_size))
              (sym pending_moved) with_new-below;
      }

      pub moved-Takes :
          tx.cur_batch_size + 1 ≢ tx.batch_size
          → Takes k size l lc c t
              (take len bytes)
              tx
              m
              (moved tx2)
              (record (done.machine) { mem = mem2 })
      moved-Takes ne = record {
        descs = [];
        joined =
            handed_done k size l lc c t fuel mtu tx m v stocked done
            ∙ sym (append-nil (t.handed m.world));
        refines =
            enqueue_waits tx.batch_size (take len bytes) (waiting tx m.mem)
              (waiting (moved tx2) mem2) (ap (map (read mem2)) pending_moved ∙ packets)
              (omega (arith, number_waiting k size l lc c t fuel mtu tx m v stocked done m.mem));
      }

    -- The packet completes the batch, which is handed over.
    module _ (m' : Machine World)
        (run : produce_all k fuel tx2.tx_q
            (handed_over tx2)
            (length (handed_over tx2))
            (record (done.machine) { mem = mem2 })
          ≡ ret m') where
      abbrev pub first : ℕ
      first = tx.tx_cursor - tx.cur_batch_size

      abbrev pub members : List Frame
      members = slice tx2.tx_frames first (first + add64 tx.cur_batch_size 1)

      slots-members : slots members ≡ with_new
      slots-members =
          map-slice slot tx2.tx_frames first (first + add64 tx.cur_batch_size 1)
          ∙ ap (slice (slots tx2.tx_frames) first) {x = first + add64 tx.cur_batch_size 1}
              {y = tx.tx_cursor + 1} (omega (arith, no_wrap_batch, v.aligned.aligned))
          ∙ slots_grown

      pub some_members : 0 < length (handed_over tx2)
      some_members = omega (
        arith,
        length-map queue members,
        length-slice tx2.tx_frames first (first + add64 tx.cur_batch_size 1) (
            omega (
              arith,
              no_wrap_batch,
              v.aligned.aligned,
              v.coherent.cursor_in,
              done.same_number,
              length-set done.frames tx.tx_cursor (set_len f len),
            )),
        no_wrap_batch,
      )

      pub entered :
          (t.handed m'.world ≡ t.handed done.machine.world ++ tx_descs k (handed_over tx2))
          × (take t.area m'.mem ≡ take t.area mem2)
      entered =
          produce_all-handed k size l c t fuel tx2.tx_q (handed_over tx2)
            (record (done.machine) { mem = mem2 }) m' some_members run

      pub flushed-Takes :
          tx.cur_batch_size + 1 ≡ tx.batch_size
          → Takes k size l lc c t (take len bytes) tx m (flushed (moved tx2) first) m'
      flushed-Takes full = record {
        descs = tx_descs k (handed_over tx2);
        joined =
            entered.0
            ∙ ap (λ ds. ds ++ tx_descs k (handed_over tx2))
                (handed_done k size l lc c t fuel mtu tx m v stocked done);
        refines =
            enqueue_full tx.batch_size (take len bytes) (waiting tx m.mem)
              (map (packet_at m'.mem) (tx_descs k (handed_over tx2)))
              (waiting (flushed (moved tx2) first) m'.mem)
              (packet_at-tx_desc m'.mem (here + tx.frame_size) members
                  (subst (AreBelow (here + tx.frame_size)) (sym slots-members) with_new-below)
                ∙ ap (map (read m'.mem)) slots-members
                ∙ read-same m'.mem mem2 t.area with_new
                    (AreBelow-le (here + tx.frame_size) t.area with_new
                      (cursor_room k size l lc c t fuel mtu tx m v stocked done) with_new-below)
                    entered.1
                ∙ packets)
              (ap (map (read m'.mem))
                (slice_none (slots (flushed (moved tx2) first).tx_frames) (moved tx2).tx_cursor))
              (omega
                (arith, number_waiting k size l lc c t fuel mtu tx m v stocked done m.mem, full));
      }

      pub flushed-IsStocked : IsStocked t.area (flushed (moved tx2) first)
      flushed-IsStocked = record {
        room = rw (length-update_range queue first (add64 tx.cur_batch_size 1) tx2.tx_frames) room2;
        below =
            subst (AreBelow ((moved tx2).tx_cursor * tx.frame_size))
              (sym (slice_none (slots (flushed (moved tx2) first).tx_frames) (moved tx2).tx_cursor))
              tt;
      }
