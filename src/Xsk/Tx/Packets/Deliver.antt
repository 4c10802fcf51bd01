-- ===== src/Xsk/Tx/Packets/Deliver.antt =====
-- What a send comes to for the packets: those that wait, those handed over, those on their way.

use xdpsock.Prelude.{
  ℕ, ◌+◌, ◌*◌, ◌≤◌, ◌<◌, ◌≡◌, refl, ◌⊎◌, inl, true, List, Outcome, ret, Result, ok, err, length,
  take, slice, splice, slice-same, arith,
}
use xdpsock.Kernel.{Kernel, Machine}
use xdpsock.Kernel.Laws.{IsProdRing, IsConsRing}
use xdpsock.Umem.Frame.{Frame}
use xdpsock.Umem.CompQueue.Consume.{consumed}
use xdpsock.Xsk.Lent.{without_all}
use xdpsock.Xsk.Tx.{XskTx, XskSendError, produce_all}
use xdpsock.Socket.TxQueue.{TxQueue}
use xdpsock.Xsk.Tx.Lent.{TxContract}
use xdpsock.Xsk.Tx.Frames.{mul-lt}
use xdpsock.Xsk.Tx.Complete.{Completes, completed}
use xdpsock.Xsk.Tx.Valid.{IsValid}
use xdpsock.Xsk.Tx.Slots.{waiting}
use xdpsock.Xsk.Tx.Transcript.{Transcript}
use xdpsock.Xsk.Tx.Packets.{
  IsStocked, Takes, area_done, handed_done, waiting_done, completed-IsStocked,
}

module _ (k : Kernel) (size : ℕ) (l : IsProdRing k.tx_ring size) (lc : IsConsRing k.comp_ring)
    (c : TxContract k) (t : Transcript k) where
  open k use {World}

  -- The bytes of the frames that were lent and did not come back are the same in both memories.
  abbrev pub Undisturbed : XskTx → Machine World → List ℕ → Type 0
  Undisturbed tx m mem =
      (j : ℕ)
      → j < length tx.tx_frames
      → without_all (c.lent m.world) (consumed k tx.outstanding_tx_frames m) (j * tx.frame_size)
        ≡ true
      → let a = j * tx.frame_size in
        slice mem a (a + tx.frame_size) ≡ slice m.mem a (a + tx.frame_size)

  -- The machine after the completions.
  abbrev pub after_completed : ℕ → Machine World → Machine World
  after_completed n m =
      let (g, m') = k.comp_ring.peek n m in
      record m' { world = k.comp_ring.release g.count m'.world }

  -- How a send moves the machine: completions, a write to the frame at the cursor, and a batch.
  abbrev pub Moves : XskTx → Machine World → Machine World → Type 0
  Moves tx m m' =
      let m1 = after_completed tx.outstanding_tx_frames m in
      (m' ≡ m1)
      ⊎ ((bytes : List ℕ) × (length bytes ≤ tx.frame_size)
          × let m2 = record m1 { mem = splice m1.mem (tx.tx_cursor * tx.frame_size) bytes } in
            (m' ≡ m2)
            ⊎ ((fuel : ℕ) × (q : TxQueue) × (frames : List Frame) × (0 < length frames)
                × (produce_all k fuel q frames (length frames) m2 ≡ ret m')))

  -- What a send comes to that makes a packet as `Makes` says: refused, nothing changes for the packets;
  -- accepted, the packet is taken up. What the kernel holds throughout stays as it is.
  pub record Delivers (Makes : List ℕ → Type 0)
      (call : Outcome (Result XskSendError (Unit {0}) × XskTx × Machine World)) (tx : XskTx)
      (m : Machine World) : Type 0 where
    pub result : Result XskSendError (Unit {0})
    pub tx' : XskTx
    pub machine : Machine World
    pub run : call ≡ ret (result, tx', machine)
    pub stocked : IsStocked t.area tx'
    pub outcome :
        ((result ≡ err XskSendError.no_free_tx_frames)
          × (t.handed machine.world ≡ t.handed m.world)
          × (waiting tx' machine.mem ≡ waiting tx m.mem))
        ⊎ ((result ≡ ok tt)
            × ((packet : List ℕ) × Makes packet × Takes k size l lc c t packet tx m tx' machine))
    pub undisturbed : Undisturbed tx m machine.mem
    pub moves : Moves tx m machine

  module _ (fuel mtu : ℕ) (Makes : List ℕ → Type 0)
      (call : Outcome (Result XskSendError (Unit {0}) × XskTx × Machine World)) (tx : XskTx)
      (m : Machine World) (v : IsValid c mtu tx m) (stocked : IsStocked t.area tx)
      (enough : c.refusals m.world < fuel) (done : Completes k lc c mtu tx m) where
    row_inside : (j : ℕ) → j < length tx.tx_frames → j * tx.frame_size + tx.frame_size ≤ t.area
    row_inside j lt = omega (arith, mul-lt j (length tx.tx_frames) tx.frame_size lt, stocked.room)

    -- Memories with the same transmit part have the same frames.
    pub row-same :
        (mem mem' : List ℕ) (j : ℕ)
        → j < length tx.tx_frames
        → take t.area mem ≡ take t.area mem'
        → let a = j * tx.frame_size in
          slice mem a (a + tx.frame_size) ≡ slice mem' a (a + tx.frame_size)
    row-same mem mem' j lt e =
        slice-same mem mem' (j * tx.frame_size) (j * tx.frame_size + tx.frame_size) t.area
          (omega arith) (row_inside j lt) e

    done_machine : done.machine ≡ after_completed tx.outstanding_tx_frames m
    done_machine = λ i. record { mem = done.peeked i; world = done.released i }

    pub refused-Delivers :
        call
          ≡ ret (
            err XskSendError.no_free_tx_frames,
            completed tx done.addrs done.frames,
            done.machine,
          )
        → Delivers Makes call tx m
    refused-Delivers run = record {
      result = err XskSendError.no_free_tx_frames;
      tx' = completed tx done.addrs done.frames;
      machine = done.machine;
      run = run;
      stocked = completed-IsStocked k size l lc c t fuel mtu tx m v stocked done;
      outcome = inl (
        refl,
        handed_done k size l lc c t fuel mtu tx m v stocked done,
        waiting_done k size l lc c t fuel mtu tx m v stocked done,
      );
      undisturbed = λ j lt held.
          row-same done.machine.mem m.mem j lt
            (area_done k size l lc c t fuel mtu tx m v stocked done);
      moves = inl done_machine;
    }
