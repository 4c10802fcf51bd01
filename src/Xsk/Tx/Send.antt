-- ===== src/Xsk/Tx/Send.antt =====
-- `send` under the kernel's contract: on every branch it returns and keeps the invariant.

use xdpsock.Prelude.{
  ℕ, ◌≤◌, ◌<◌, ◌≡◌, refl, ap, inl, inr, true, List, ret, ok, err, length, some, splice,
  length-splice, get_elem?, get_elem?-some, arith,
}
use xdpsock.Kernel.{Kernel, Machine}
use xdpsock.Kernel.Laws.{IsProdRing, IsConsRing}
use xdpsock.Umem.Frame.{Frame, FrameStatus, is_free, set_len, write_to_umem_checked}
use xdpsock.Umem.Frame.Copies.{InArea, write_to_umem_checked_lem}
use xdpsock.Xsk.Tx.{XskTx, XskSendError, advance, send}
use xdpsock.Xsk.Lent.{Lent}
use xdpsock.Xsk.Tx.Lent.{TxContract}
use xdpsock.Xsk.Tx.Frames.{mul-lt}
use xdpsock.Xsk.Tx.Complete.{IsCoherent, Completes, complete_frames-Completes, completed}
use xdpsock.Xsk.Tx.Valid.{IsValid, written}
use xdpsock.Xsk.Tx.Attempt.{Sends, refused-Sends, accepted-Sends}

module _ (k : Kernel) (size : ℕ) (l : IsProdRing k.tx_ring size) (lc : IsConsRing k.comp_ring)
    (c : TxContract k) where
  open k use {World}

  -- The payload of a frame of a coherent state lies in the mapped memory.
  pub payload_InArea :
      (mtu : ℕ) (lent : Lent) (mem : List ℕ) (tx : XskTx) (f : Frame)
      → IsCoherent mtu lent mem tx
      → get_elem? tx.tx_frames tx.tx_cursor ≡ some f
      → InArea mem f
  payload_InArea mtu lent mem tx f v found =
      let place = v.frames.each tx.tx_cursor f found in
      let row = mul-lt tx.tx_cursor (length tx.tx_frames) tx.frame_size v.cursor_in in
      (
        omega (arith, place.placed, row, v.fits, v.size_pos),
        omega (arith, place.placed, place.sized, row, v.inside, v.mtu_le),
      )

  -- What a send comes to after its completions: refused, or accepted.
  module _ (fuel mtu : ℕ) (src : List ℕ) (tx : XskTx) (m : Machine World)
      (v : IsCoherent mtu (c.lent m.world) m.mem tx) where
    pub send_refused :
        (f : Frame) (done : Completes k lc c mtu tx m)
        → let tx1 = completed tx done.addrs done.frames in
          get_elem? tx1.tx_frames tx1.tx_cursor ≡ some f
          → f.status ≡ FrameStatus.on_tx_queue
          → send k fuel src tx m ≡ ret (err XskSendError.no_free_tx_frames, tx1, done.machine)
    unfolding send is_free
    send_refused f done found taken = rw (done.run, send) (rw found (rw taken refl))

    pub send_accepted :
        (f : Frame) (done : Completes k lc c mtu tx m) (tx' : XskTx) (m' : Machine World)
        → let tx1 = completed tx done.addrs done.frames in
          let mem = splice done.machine.mem f.addr src in
          get_elem? tx1.tx_frames tx1.tx_cursor ≡ some f
          → f.status ≡ FrameStatus.free
          → write_to_umem_checked f src done.machine.mem ≡ ret (ok tt, set_len f (length src), mem)
          → advance k fuel (written tx1 f (length src)) (record (done.machine) { mem = mem })
            ≡ ret (tx', m')
          → send k fuel src tx m ≡ ret (ok tt, tx', m')
    unfolding send is_free
    send_accepted f done tx' m' found unused copied run =
        let open_slot : is_free f.status ≡ true = ap is_free unused in
        rw (done.run, send) (rw found (rw open_slot (rw copied (rw run refl))))

  -- Under the contract of the rings and of `sendto`, at a valid state, for data within the MTU and with
  -- more fuel than refusals of the tx ring to come, `send` returns: it does not panic, wait for ever or
  -- touch memory outside the UMEM. The state stays valid. Either the frame at the cursor is still the
  -- kernel's, the error is returned and the cursor and the number of accepted packets stay; or the
  -- packet is accepted and the cursor moves on by one, round the end.
  pub send_lem :
      (fuel mtu : ℕ) (src : List ℕ) (tx : XskTx) (m : Machine World)
      → IsValid c mtu tx m
      → length src ≤ mtu
      → c.refusals m.world < fuel
      → Sends k size l lc c mtu (send k fuel src tx m) tx
  send_lem fuel mtu src tx m v short enough =
      let done = complete_frames-Completes k lc c mtu tx m v.coherent in
      let (f, found) = get_elem?-some done.frames tx.tx_cursor (done.coherent.cursor_in) in
      let place = done.coherent.frames.each tx.tx_cursor f found in
      elim place.agrees [
        | inl (taken, held) ↦
            refused-Sends k size l lc c fuel mtu (send k fuel src tx m) tx m v enough done
              (send_refused fuel mtu src tx m v.coherent f done found taken)
              (rw (place.placed) at held)
        | inr (unused, not_held) ↦
            let inside =
              payload_InArea mtu (c.lent done.machine.world) done.machine.mem
                (completed tx done.addrs done.frames) f done.coherent found in
            accepted-Sends k size l lc c fuel mtu (send k fuel src tx m) tx m v enough done f
              (length src) (splice done.machine.mem f.addr src) found (rw (← place.placed) not_held)
              (length-splice done.machine.mem f.addr src)
              (λ tx' m' run.
                send_accepted fuel mtu src tx m v.coherent f done tx' m' found unused
                  (write_to_umem_checked_lem f src done.machine.mem inside (rw (place.sized) short))
                  run)
      ]
