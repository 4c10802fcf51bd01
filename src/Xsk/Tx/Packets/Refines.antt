-- ===== src/Xsk/Tx/Packets/Refines.antt =====
-- `send` and `send_apply` as operations of a queue of packets.

use xdpsock.Prelude.{
  ℕ, ◌+◌, ◌*◌, ◌^◌, ◌≤◌, ◌<◌, ◌≡◌, sym, ap, ◌∙◌, inl, inr, List, Outcome, ret, length, take,
  take-length, slice, slice-same, length-slice, get_elem?-some, arith,
}
use xdpsock.Kernel.{Kernel, Machine}
use xdpsock.Kernel.Laws.{IsProdRing, IsConsRing}
use xdpsock.Umem.Frame.Copies.{write_to_umem_checked_lem}
use xdpsock.Xsk.Tx.{XskTx, send, send_apply}
use xdpsock.Xsk.Tx.Lent.{TxContract}
use xdpsock.Xsk.Tx.Complete.{complete_frames-Completes, completed}
use xdpsock.Xsk.Tx.Valid.{IsValid}
use xdpsock.Xsk.Tx.Send.{payload_InArea, send_refused, send_accepted}
use xdpsock.Xsk.Tx.Apply.{frame_inside, region, apply_refused, apply_accepted}
use xdpsock.Xsk.Tx.Transcript.{Transcript}
use xdpsock.Xsk.Tx.Packets.{IsStocked, area_done, cursor_room}
use xdpsock.Xsk.Tx.Packets.Deliver.{Delivers, refused-Delivers}
use xdpsock.Xsk.Tx.Packets.TakeUp.{accepted-Delivers}

-- What the caller's function makes of these bytes, up to the length that it gives.
abbrev pub MadeFrom : (List ℕ → Outcome (List ℕ × ℕ)) → List ℕ → List ℕ → Type 0
MadeFrom g bytes packet = (r : List ℕ × ℕ) × (g bytes ≡ ret r) × (packet ≡ take r.1 r.0)

-- The bytes that the frame at the cursor has in this memory.
abbrev pub at_cursor : XskTx → List ℕ → List ℕ
at_cursor tx mem =
    slice mem (tx.tx_cursor * tx.frame_size) (tx.tx_cursor * tx.frame_size + tx.frame_size)

module _ (k : Kernel) (size : ℕ) (l : IsProdRing k.tx_ring size) (lc : IsConsRing k.comp_ring)
    (c : TxContract k) (t : Transcript k) where
  open k use {World}

  -- Under the contract of the rings and of `sendto`, where the transcript of the tx ring grows by
  -- what is submitted and the kernel does not write to the transmit end's part of the UMEM, at a
  -- valid state whose frames and waiting packets lie in that part, for data within the MTU and
  -- below 2 ^ 32 bytes and with more fuel than refusals of the tx ring to come, `send` returns as
  -- one step of a queue of packets. Refused, the transcript and the waiting packets stay. Accepted,
  -- exactly one packet, the data, joins the waiting ones; where that fills the batch, the
  -- descriptors that join the transcript name the bytes of the waiting packets and then the data,
  -- in order and unchanged, and none waits; else nothing joins it. The bytes of every frame that
  -- was lent and does not come back stay as they were.
  pub send-Delivers :
      (fuel mtu : ℕ) (src : List ℕ) (tx : XskTx) (m : Machine World)
      → IsValid c mtu tx m
      → IsStocked t.area tx
      → length src ≤ mtu
      → length src < 2 ^ 32
      → c.refusals m.world < fuel
      → Delivers k size l lc c t (λ packet. packet ≡ src) (send k fuel src tx m) tx m
  send-Delivers fuel mtu src tx m v stocked short small enough =
      let done = complete_frames-Completes k lc c mtu tx m v.coherent in
      let (f, found) = get_elem?-some done.frames tx.tx_cursor (done.coherent.cursor_in) in
      let place = done.coherent.frames.each tx.tx_cursor f found in
      elim place.agrees [
        | inl (taken, held) ↦
            refused-Delivers k size l lc c t fuel mtu (λ packet. packet ≡ src)
              (send k fuel src tx m) tx m v stocked enough done
              (send_refused k size l lc c fuel mtu src tx m v.coherent f done found taken)
        | inr (unused, not_held) ↦
            let inside =
              payload_InArea k size l lc c mtu (c.lent done.machine.world) done.machine.mem
                (completed tx done.addrs done.frames) f done.coherent found in
            accepted-Delivers k size l lc c t fuel mtu (λ packet. packet ≡ src)
              (send k fuel src tx m) tx m v stocked enough done f src (length src) found
              (omega (arith, short, v.coherent.mtu_le)) (omega arith) small
              (rw (← place.placed) not_held) (take-length src)
              (λ tx' m' run.
                send_accepted k size l lc c fuel mtu src tx m v.coherent f done tx' m' found unused
                  (write_to_umem_checked_lem f src done.machine.mem inside (rw (place.sized) short))
                  run)
      ]

  -- Under the same contract and transcript as for `send`, at such a state, for a caller's function
  -- that returns on as many bytes as a frame has, with as many bytes and a length that is at most a
  -- frame's and below 2 ^ 32, and with more fuel than refusals to come, `send_apply` returns as one
  -- step of the same queue: refused, the transcript and the waiting packets stay; accepted, one
  -- packet joins the waiting ones, the front of what the function made of the bytes that the frame
  -- at the cursor had in the memory before the call, up to the length that it gave, and a batch that
  -- this fills is handed over in order and unchanged. The bytes of every frame that was lent and
  -- does not come back stay as they were.
  pub send_apply-Delivers :
      (fuel mtu : ℕ) (g : List ℕ → Outcome (List ℕ × ℕ)) (tx : XskTx) (m : Machine World)
      → IsValid c mtu tx m
      → IsStocked t.area tx
      → ((bytes : List ℕ)
          → length bytes ≡ tx.frame_size
          → (r : List ℕ × ℕ) × (g bytes ≡ ret r)
            × (length r.0 ≡ tx.frame_size)
            × (r.1 ≤ tx.frame_size)
            × (r.1 < 2 ^ 32))
      → c.refusals m.world < fuel
      → Delivers k size l lc c t (MadeFrom g (at_cursor tx m.mem)) (send_apply k fuel g tx m) tx m
  send_apply-Delivers fuel mtu g tx m v stocked total enough =
      let done = complete_frames-Completes k lc c mtu tx m v.coherent in
      let (f, found) = get_elem?-some done.frames tx.tx_cursor (done.coherent.cursor_in) in
      let place = done.coherent.frames.each tx.tx_cursor f found in
      elim place.agrees [
        | inl (taken, held) ↦
            refused-Delivers k size l lc c t fuel mtu (MadeFrom g (at_cursor tx m.mem))
              (send_apply k fuel g tx m) tx m v stocked enough done
              (apply_refused k size l lc c fuel mtu g tx m f done found taken)
        | inr (unused, not_held) ↦
            let mem = done.machine.mem in
            let inside =
              frame_inside k size l lc c mtu (c.lent done.machine.world) mem
                (completed tx done.addrs done.frames) f done.coherent found in
            let bytes = region k size l lc c mem tx.frame_size f in
            let as_before : bytes ≡ at_cursor tx m.mem =
              ap (λ (a : ℕ). slice mem a (a + tx.frame_size)) place.placed
              ∙ slice-same mem m.mem (tx.tx_cursor * tx.frame_size)
                  (tx.tx_cursor * tx.frame_size + tx.frame_size) t.area (omega arith)
                  (cursor_room k size l lc c t fuel mtu tx m v stocked done)
                  (area_done k size l lc c t fuel mtu tx m v stocked done) in
            let number : length bytes ≡ tx.frame_size =
              length-slice mem f.addr (f.addr + tx.frame_size) inside.1 ∙ omega arith in
            let (r, made, same, le, small) = total bytes number in
            let whole : take (length bytes) r.0 ≡ r.0 =
              ap (λ n. take n r.0) (number ∙ sym same) ∙ take-length r.0 in
            accepted-Delivers k size l lc c t fuel mtu (MadeFrom g (at_cursor tx m.mem))
              (send_apply k fuel g tx m) tx m v stocked enough done f (take (length bytes) r.0) r.1
              found (rw whole (omega arith)) (rw whole (omega arith)) small
              (rw (← place.placed) not_held) (r, ap g (sym as_before) ∙ made, ap (take r.1) whole)
              (λ tx' m' run.
                apply_accepted k size l lc c fuel mtu g tx m f done tx' m' r made found unused
                  inside run)
      ]
