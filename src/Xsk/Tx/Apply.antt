-- ===== src/Xsk/Tx/Apply.antt =====
-- `send_apply` under the kernel's contract: it returns whatever the caller's function does.

use xdpsock.Prelude.{
  ℕ, ◌+◌, ◌^◌, ◌≤◌, ◌<◌, ◌≡◌, refl, ap, ◌∙◌, Outcome, inl, inr, true, List, ret, ok, err, length,
  some, slice, splice, take, length-take, length-slice, length-splice, get_elem?, get_elem?-some,
  arith,
}
use xdpsock.Kernel.{Kernel, Machine}
use xdpsock.Kernel.Laws.{IsProdRing, IsConsRing}
use xdpsock.Umem.Frame.{Frame, FrameStatus, is_free, umem_region_mut}
use xdpsock.Umem.Frame.Copies.{mem_range_lem, write_range_lem}
use xdpsock.Xsk.Tx.{send_apply, XskTx, XskSendError, advance}
use xdpsock.Xsk.Lent.{Lent}
use xdpsock.Xsk.Tx.Lent.{TxContract}
use xdpsock.Xsk.Tx.Frames.{mul-lt}
use xdpsock.Xsk.Tx.Complete.{IsCoherent, Completes, complete_frames-Completes, completed}
use xdpsock.Xsk.Tx.Valid.{IsValid, written}
use xdpsock.Xsk.Tx.Attempt.{Sends, refused-Sends, accepted-Sends}

module _ (k : Kernel) (size : ℕ) (l : IsProdRing k.tx_ring size) (lc : IsConsRing k.comp_ring)
    (c : TxContract k) where
  open k use {World}

  -- The whole of a frame of a coherent state lies in the mapped memory.
  pub frame_inside :
      (mtu : ℕ) (lent : Lent) (mem : List ℕ) (tx : XskTx) (f : Frame)
      → IsCoherent mtu lent mem tx
      → get_elem? tx.tx_frames tx.tx_cursor ≡ some f
      → (f.addr < 2 ^ 63) × (f.addr + tx.frame_size ≤ length mem)
  frame_inside mtu lent mem tx f v found =
      let place = v.frames.each tx.tx_cursor f found in
      let row = mul-lt tx.tx_cursor (length tx.tx_frames) tx.frame_size v.cursor_in in
      (
        omega (arith, place.placed, row, v.fits, v.size_pos),
        omega (arith, place.placed, row, v.inside),
      )

  -- The frame's bytes, as the caller's function gets them.
  abbrev pub region : List ℕ → ℕ → Frame → List ℕ
  region mem frame_size f = slice mem f.addr (f.addr + frame_size)

  -- The memory after the caller's function.
  abbrev pub applied : List ℕ → List ℕ → ℕ → Frame → List ℕ
  applied bytes mem frame_size f = splice mem f.addr (take (length (region mem frame_size f)) bytes)

  module _ (fuel mtu : ℕ) (g : List ℕ → Outcome (List ℕ × ℕ)) (tx : XskTx) (m : Machine World) where
    pub apply_refused :
        (f : Frame) (done : Completes k lc c mtu tx m)
        → get_elem? done.frames tx.tx_cursor ≡ some f
        → f.status ≡ FrameStatus.on_tx_queue
        → send_apply k fuel g tx m
          ≡ ret (
            err XskSendError.no_free_tx_frames,
            completed tx done.addrs done.frames,
            done.machine,
          )
    unfolding send_apply is_free
    apply_refused f done found taken = rw (done.run, send_apply) (rw found (rw taken refl))

    pub apply_accepted :
        (f : Frame) (done : Completes k lc c mtu tx m) (tx' : XskTx) (m' : Machine World)
        (r : List ℕ × ℕ)
        → let mem = done.machine.mem in
          let mem' = applied r.0 mem tx.frame_size f in
          g (region mem tx.frame_size f) ≡ ret r
          → get_elem? done.frames tx.tx_cursor ≡ some f
          → f.status ≡ FrameStatus.free
          → (f.addr < 2 ^ 63) × (f.addr + tx.frame_size ≤ length mem)
          → advance k fuel
              (written (completed tx done.addrs done.frames) f r.1)
              (record (done.machine) { mem = mem' })
            ≡ ret (tx', m')
          → send_apply k fuel g tx m ≡ ret (ok tt, tx', m')
    unfolding send_apply is_free umem_region_mut
    apply_accepted f done tx' m' r made found unused inside run =
        let mem = done.machine.mem in
        let bytes = region mem tx.frame_size f in
        let open_slot : is_free f.status ≡ true = ap is_free unused in
        let read = mem_range_lem mem f.addr tx.frame_size inside.0 inside.1 in
        let len = length-slice mem f.addr (f.addr + tx.frame_size) inside.1 in
        let wrote =
          write_range_lem mem f.addr (take (length bytes) r.0) inside.0
            (omega (arith, len, length-take (length bytes) r.0, inside.1)) in
        rw (done.run, send_apply)
          (rw found (rw open_slot (rw read (rw made (rw wrote (rw run refl))))))

  -- Under the contract, at a valid state, with more fuel than refusals to come and a caller's
  -- function that returns on as many bytes as a frame has, `send_apply` returns as `send` does,
  -- whatever that function makes of the bytes and whatever length it gives: it does not panic or
  -- touch memory outside the UMEM, and the state stays valid. Either the frame at the cursor is
  -- still the kernel's, the error is returned and the cursor and the number of accepted packets
  -- stay; or the packet is accepted and the cursor moves on by one, round the end.
  pub send_apply_lem :
      (fuel mtu : ℕ) (g : List ℕ → Outcome (List ℕ × ℕ)) (tx : XskTx) (m : Machine World)
      → IsValid c mtu tx m
      → c.refusals m.world < fuel
      → ((bytes : List ℕ) → length bytes ≡ tx.frame_size → (r : List ℕ × ℕ) × (g bytes ≡ ret r))
      → Sends k size l lc c mtu (send_apply k fuel g tx m) tx
  send_apply_lem fuel mtu g tx m v enough total =
      let done = complete_frames-Completes k lc c mtu tx m v.coherent in
      let (f, found) = get_elem?-some done.frames tx.tx_cursor (done.coherent.cursor_in) in
      let place = done.coherent.frames.each tx.tx_cursor f found in
      elim place.agrees [
        | inl (taken, held) ↦
            refused-Sends k size l lc c fuel mtu (send_apply k fuel g tx m) tx m v enough done
              (apply_refused fuel mtu g tx m f done found taken) (rw (place.placed) at held)
        | inr (unused, not_held) ↦
            let mem = done.machine.mem in
            let bytes = region mem tx.frame_size f in
            let inside =
              frame_inside mtu (c.lent done.machine.world) mem (completed tx done.addrs done.frames)
                f done.coherent found in
            let (r, made) =
              total bytes
                (length-slice mem f.addr (f.addr + tx.frame_size) inside.1 ∙ omega arith) in
            accepted-Sends k size l lc c fuel mtu (send_apply k fuel g tx m) tx m v enough done f
              r.1 (applied r.0 mem tx.frame_size f) found (rw (← place.placed) not_held)
              (length-splice mem f.addr (take (length bytes) r.0))
              (λ tx' m' run.
                apply_accepted fuel mtu g tx m f done tx' m' r made found unused inside run)
      ]
