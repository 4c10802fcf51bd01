-- ===== src/Xsk/Tx/Packets/TakeUp.antt =====
-- The packet that a send takes up: the write to its frame, and the step of the batch that follows.
use mathlib.Core.Path.{subst, subst₂}
use native.Mathlib.Decide.{dec_lt}
use xdpsock.Prelude.{
  ℕ, ◌+◌, ◌*◌, ◌^◌, ◌≤◌, ◌<◌, ◌≡◌, ◌≢◌, refl, sym, ap, ◌∙◌, inl, inr, true, false, List, Outcome,
  ret, Result, ok, length, length-splice, take, slice, splice, some, get_elem?, arith,
}
use xdpsock.Kernel.{Kernel, Machine}
use xdpsock.Kernel.Laws.{IsProdRing, IsConsRing}
use xdpsock.Umem.Frame.{Frame}
use xdpsock.Umem.Frame.Isolation.{slice-splice_apart}
use xdpsock.Umem.CompQueue.Consume.{consumed}
use xdpsock.Xsk.Lent.{without_all}
use xdpsock.Xsk.Tx.{XskTx, XskSendError, advance, produce_all}
use xdpsock.Xsk.Tx.Lent.{TxContract}
use xdpsock.Xsk.Tx.Frames.{mul-lt}
use xdpsock.Xsk.Tx.Complete.{Completes, completed}
use xdpsock.Xsk.Tx.Valid.{IsValid, written, written-IsCoherent, written-IsAligned}
use xdpsock.Xsk.Tx.Advance.{Advances, advance-Advances, handed_over}
use xdpsock.Xsk.Tx.Attempt.{aligned1, accounted1}
use xdpsock.Xsk.Tx.Transcript.{Transcript}
use xdpsock.Xsk.Tx.Packets.{IsStocked, Takes, area_done}
use xdpsock.Xsk.Tx.Packets.Accept.{
  moved-Takes, moved-IsStocked, flushed-Takes, flushed-IsStocked, entered, some_members,
}
use xdpsock.Xsk.Tx.Packets.Deliver.{Undisturbed, after_completed, Moves, Delivers, row-same}

module _ (k : Kernel) (size : ℕ) (l : IsProdRing k.tx_ring size) (lc : IsConsRing k.comp_ring)
    (c : TxContract k) (t : Transcript k) where
  open k use {World}

  module _ (fuel mtu : ℕ) (Makes : List ℕ → Type 0)
      (call : Outcome (Result XskSendError (Unit {0}) × XskTx × Machine World)) (tx : XskTx)
      (m : Machine World) (v : IsValid c mtu tx m) (stocked : IsStocked t.area tx)
      (enough : c.refusals m.world < fuel) (done : Completes k lc c mtu tx m) where
    module _ (f : Frame) (bytes : List ℕ) (len : ℕ)
        (found : get_elem? done.frames tx.tx_cursor ≡ some f) (fits : length bytes ≤ tx.frame_size)
        (len_le : len ≤ length bytes) (small : len < 2 ^ 32)
        (not_held : c.lent done.machine.world (tx.tx_cursor * tx.frame_size) ≡ false) where
      abbrev tx_written : XskTx
      tx_written = written (completed tx done.addrs done.frames) f len

      abbrev m_written : Machine World
      m_written = record (done.machine) { mem = splice done.machine.mem f.addr bytes }

      -- Another frame than that at the cursor is not written to.
      other_row :
          (j : ℕ)
          → j ≢ tx.tx_cursor
          → let a = j * tx.frame_size in
            slice m_written.mem a (a + tx.frame_size) ≡ slice done.machine.mem a (a + tx.frame_size)
      other_row j ne =
          let place = done.coherent.frames.each tx.tx_cursor f found in
          slice-splice_apart done.machine.mem f.addr (j * tx.frame_size)
            (j * tx.frame_size + tx.frame_size) bytes (omega arith)
            (elim (dec_lt j tx.tx_cursor) [
              | yes lt ↦ inr (omega (arith, mul-lt j tx.tx_cursor tx.frame_size lt, place.placed))
              | no ge ↦ inl (
                  omega
                    (arith, mul-lt tx.tx_cursor j tx.frame_size (omega arith), place.placed, fits))
            ])

      not_here :
          (j : ℕ)
          → without_all (c.lent m.world) (consumed k tx.outstanding_tx_frames m) (j * tx.frame_size)
            ≡ true
          → j ≢ tx.tx_cursor
      not_here j held =
          let back : c.lent done.machine.world (j * tx.frame_size) ≡ true =
            ap (λ x. x (j * tx.frame_size))
              (done.lent ∙ ap (without_all (c.lent m.world)) done.took)
            ∙ held in
          λ e. cc (sym back ∙ ap (λ i. c.lent done.machine.world (i * tx.frame_size)) e ∙ not_held)

      written-Undisturbed :
          (mem : List ℕ)
          → take t.area mem ≡ take t.area m_written.mem
          → Undisturbed k size l lc c t tx m mem
      written-Undisturbed mem kept j lt held =
          row-same k size l lc c t fuel mtu Makes call tx m v stocked enough done mem m_written.mem
            j lt kept
          ∙ other_row j (not_here j held)
          ∙ row-same k size l lc c t fuel mtu Makes call tx m v stocked enough done done.machine.mem
              m.mem j lt (area_done k size l lc c t fuel mtu tx m v stocked done)

      -- What follows the write takes the packet up.
      TakesUp : XskTx → Machine World → Type 0
      TakesUp tx' m' =
          Takes k size l lc c t (take len bytes) tx m tx' m'
          × IsStocked t.area tx'
          × (take t.area m'.mem ≡ take t.area m_written.mem)

      advance-TakesUp :
          (adv : Advances k size l lc c fuel mtu tx_written m_written) → TakesUp adv.tx' adv.machine
      unfolding TakesUp
      advance-TakesUp adv = elim adv.branch [
        | inl (ne, e, same, next) ↦ subst₂ TakesUp (sym e) (sym same) (
          moved-Takes k size l lc c t fuel mtu tx m v stocked done f bytes len found fits len_le
              small next ne,
          moved-IsStocked k size l lc c t fuel mtu tx m v stocked done f bytes len found fits len_le
              small next,
          refl,
        )
        | inr (full, e, run) ↦
            subst (λ x. TakesUp x adv.machine) (sym e)
              (
                flushed-Takes k size l lc c t fuel mtu tx m v stocked done f bytes len found fits
                    len_le small adv.machine run full,
                flushed-IsStocked k size l lc c t fuel mtu tx m v stocked done f bytes len found
                    fits len_le small adv.machine run,
                (entered k size l lc c t fuel mtu tx m v stocked done f bytes len found fits len_le
                    small adv.machine run).1,
              )
      ]

      advance-Moves :
          (adv : Advances k size l lc c fuel mtu tx_written m_written)
          → Moves k size l lc c t tx m adv.machine
      advance-Moves adv =
          let place = done.coherent.frames.each tx.tx_cursor f found in
          let same : m_written
              ≡ record (after_completed k size l lc c t tx.outstanding_tx_frames m) {
                mem =
                    splice (after_completed k size l lc c t tx.outstanding_tx_frames m).mem
                      (tx.tx_cursor * tx.frame_size) bytes;
              } =
            λ i. record {
              mem = splice (done.peeked i) (place.placed i) bytes;
              world = done.released i;
            } in
          inr (
            bytes,
            fits,
            elim adv.branch [
              | inl (ne, e, waits, next) ↦ inl (waits ∙ same)
              | inr (full, e, run) ↦ inr (
                fuel,
                tx.tx_q,
                handed_over tx_written,
                some_members k size l lc c t fuel mtu tx m v stocked done f bytes len found fits
                    len_le small adv.machine run,
                subst
                    (λ x.
                      produce_all k fuel tx.tx_q (handed_over tx_written)
                        (length (handed_over tx_written)) x
                      ≡ ret adv.machine)
                    same run,
              )
            ],
          )

      pub accepted-Delivers :
          Makes (take len bytes)
          → ((tx' : XskTx) (m' : Machine World)
              → advance k fuel tx_written m_written ≡ ret (tx', m')
              → call ≡ ret (ok tt, tx', m'))
          → Delivers k size l lc c t Makes call tx m
      unfolding TakesUp
      accepted-Delivers made run =
          let aligned = aligned1 k size l lc c fuel mtu call tx m v enough done in
          let adv =
            advance-Advances k size l lc c fuel mtu tx_written m_written
              (written-IsCoherent mtu (c.lent done.machine.world) done.machine.mem m_written.mem
                (completed tx done.addrs done.frames) f len done.coherent found
                (length-splice done.machine.mem f.addr bytes))
              (written-IsAligned (c.lent done.machine.world) (completed tx done.addrs done.frames) f
                len aligned)
              (accounted1 k size l lc c fuel mtu call tx m v enough done) not_held v.batch_le
              (omega (arith, done.refusals)) in
          let (takes, stocked', kept) = advance-TakesUp adv in
          record {
            result = ok tt;
            tx' = adv.tx';
            machine = adv.machine;
            run = run adv.tx' adv.machine adv.run;
            stocked = stocked';
            outcome = inr (refl, (take len bytes, made, takes));
            undisturbed = written-Undisturbed adv.machine.mem kept;
            moves = advance-Moves adv;
          }
