-- ===== src/Xsk/Tx/Attempt.antt =====
-- What `send` and `send_apply` have in common: their outcomes, and the state after each.
use mathlib.Core.Path.{subst, ap₂}
use xdpsock.Prelude.{
  Outcome, ℕ, ◌+◌, ◌*◌, ◌%◌, ◌<◌, ◌≡◌, refl, sym, ◌∙◌, ◌⊎◌, inl, inr, true, false, List, ret,
  Result, ok, err, length, some, length-set, get_elem?, add64, arith,
}
use xdpsock.Kernel.{Kernel, Machine}
use xdpsock.Kernel.Laws.{IsProdRing, IsConsRing}
use xdpsock.Umem.Frame.{Frame, set_len}
use xdpsock.Xsk.Tx.{XskTx, XskSendError, advance}
use xdpsock.Xsk.Lent.{Lent}
use xdpsock.Xsk.Tx.Lent.{TxContract}
use xdpsock.Xsk.Tx.Complete.{Completes, completed, on_tx-le, few_frames}
use xdpsock.Xsk.Tx.Valid.{
  IsAligned, IsAccounted, IsValid, written, written-IsCoherent, written-IsAligned,
  completed-IsAligned, completed-IsAccounted,
}
use xdpsock.Xsk.Tx.Advance.{accepted, advance-Advances}

module _ (k : Kernel) (size : ℕ) (l : IsProdRing k.tx_ring size) (lc : IsConsRing k.comp_ring)
    (c : TxContract k) where
  open k use {World}

  -- What a send comes to: it returns at a valid state. Either the frame at the cursor is still the
  -- kernel's, and the cursor and the number of accepted packets stay; or the packet is accepted and
  -- the cursor moves on by one, round the end.
  pub record Sends (mtu : ℕ)
      (call : Outcome (Result XskSendError (Unit {0}) × XskTx × Machine World)) (tx : XskTx)
      : Type 0 where
    pub result : Result XskSendError (Unit {0})
    pub tx' : XskTx
    pub machine : Machine World
    pub run : call ≡ ret (result, tx', machine)
    pub valid : IsValid c mtu tx' machine
    pub outcome :
        ((result ≡ err XskSendError.no_free_tx_frames)
          × (c.lent machine.world (tx.tx_cursor * tx.frame_size) ≡ true)
          × (tx'.tx_cursor ≡ tx.tx_cursor)
          × (accepted tx' ≡ accepted tx))
        ⊎ ((result ≡ ok tt)
            × (tx'.tx_cursor ≡ (tx.tx_cursor + 1) % length tx.tx_frames)
            × (accepted tx' ≡ add64 (accepted tx) 1))

  module _ (fuel mtu : ℕ) (call : Outcome (Result XskSendError (Unit {0}) × XskTx × Machine World))
      (tx : XskTx) (m : Machine World) (v : IsValid c mtu tx m) (enough : c.refusals m.world < fuel)
      (done : Completes k lc c mtu tx m) where
    abbrev pub tx1 : XskTx
    tx1 = completed tx done.addrs done.frames

    abbrev pub lent1 : Lent
    lent1 = c.lent done.machine.world

    pub aligned1 : IsAligned lent1 tx1
    aligned1 =
        subst (λ x. IsAligned x tx1) (sym done.lent)
          (completed-IsAligned (c.lent m.world) tx done.addrs done.frames done.same_number
            v.aligned)

    pub accounted1 : IsAccounted tx1
    accounted1 =
        completed-IsAccounted tx done.addrs done.frames
          (omega (arith, done.back, v.coherent.counted))
          (omega (arith, v.coherent.counted, on_tx-le tx.tx_frames, few_frames tx v.coherent))
          v.accounted

    -- The frame at the cursor is still the kernel's.
    pub refused-Sends :
        call
          ≡ ret (
            err XskSendError.no_free_tx_frames,
            completed tx done.addrs done.frames,
            done.machine,
          )
        → c.lent done.machine.world (tx.tx_cursor * tx.frame_size) ≡ true
        → Sends mtu call tx
    refused-Sends run held = record {
      result = err XskSendError.no_free_tx_frames;
      tx' = tx1;
      machine = done.machine;
      run = run;
      valid = record {
        coherent = done.coherent;
        aligned = aligned1;
        accounted = accounted1;
        batch_le = v.batch_le;
      };
      outcome = inl (refl, held, refl, refl);
    }

    -- The frame at the cursor is free, and was written.
    pub accepted-Sends :
        (f : Frame) (len : ℕ) (mem : List ℕ)
        → get_elem? done.frames tx.tx_cursor ≡ some f
        → c.lent done.machine.world (tx.tx_cursor * tx.frame_size) ≡ false
        → length mem ≡ length done.machine.mem
        → ((tx' : XskTx) (m' : Machine World)
            → advance k fuel
                (written (completed tx done.addrs done.frames) f len)
                (record (done.machine) { mem = mem })
              ≡ ret (tx', m')
            → call ≡ ret (ok tt, tx', m'))
        → Sends mtu call tx
    accepted-Sends f len mem found not_held same run =
        let no_wrap_here : add64 tx.tx_cursor 1 ≡ tx.tx_cursor + 1 =
          omega (arith, v.coherent.cursor_in, few_frames tx v.coherent) in
        let adv =
          advance-Advances k size l lc c fuel mtu (written tx1 f len)
            (record (done.machine) { mem = mem })
            (written-IsCoherent mtu lent1 done.machine.mem mem tx1 f len done.coherent found same)
            (written-IsAligned lent1 tx1 f len aligned1) accounted1 not_held v.batch_le
            (omega (arith, done.refusals)) in
        record {
          result = ok tt;
          tx' = adv.tx';
          machine = adv.machine;
          run = run adv.tx' adv.machine adv.run;
          valid = adv.valid;
          outcome = inr (
            refl,
            adv.cursor
                ∙ ap₂ (λ a n. a % n) no_wrap_here
                    (length-set done.frames tx.tx_cursor (set_len f len) ∙ done.same_number),
            adv.counts,
          );
        }
