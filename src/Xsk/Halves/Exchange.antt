-- ===== src/Xsk/Halves/Exchange.antt =====
-- Sends and receives on the two halves of one socket, in any order.
use mathlib.Core.Path.{subst}
use xdpsock.Prelude.{
  ℕ, ◌*◌, ◌/◌, ◌^◌, ◌≤◌, ◌<◌, ◌≡◌, sym, ap, ◌∙◌, List, [], ◌++◌, map, ret, ret-injective, Result,
  length, slice, arith,
}
use xdpsock.Kernel.{Kernel, Machine, Desc}
use xdpsock.Kernel.Laws.{IsProdRing, IsConsRing}
use xdpsock.Xsk.Tx.{XskTx, XskSendError, send}
use xdpsock.Xsk.Tx.Lent.{TxContract}
use xdpsock.Xsk.Tx.Transcript.{Transcript}
use xdpsock.Xsk.Tx.Slots.{packet_at, waiting}
use xdpsock.Xsk.Tx.Valid as TxValid
use xdpsock.Xsk.Tx.Packets.{IsStocked}
use xdpsock.Xsk.Tx.Session as TxSession
use xdpsock.Xsk.Tx.Session.{Session, taken_up, Session-Kept}
use xdpsock.Xsk.Rx.{XskRx, recv, check_rx}
use xdpsock.Xsk.Rx.Apply.{packet}
use xdpsock.Xsk.Rx.Contract.{RxContract}
use xdpsock.Xsk.Rx.Valid as RxValid
use xdpsock.Xsk.Rx.Fifo.{FifoContract}
use xdpsock.Xsk.Rx.InOrder.{InOrder, base_of}
use xdpsock.Xsk.Rx.InOrder.Delivery.{recv-Dequeues}
use xdpsock.Xsk.Rx.InOrder.Receipts as RxReceipts
use xdpsock.Xsk.Rx.InOrder.Receipts.{Receipts, AreSome, given, LeavesRx, Receipts-Kept}
use xdpsock.Xsk.Halves.{RxApart, TxApart}
use xdpsock.Xsk.Halves.Receiving.{recv-LeavesTx}
use xdpsock.Xsk.Halves.Sending.{send-LeavesRx}

module _ (k : Kernel) (size : ℕ) (l : IsProdRing k.tx_ring size) (lc : IsConsRing k.comp_ring)
    (c : TxContract k) (t : Transcript k) (rx_size : ℕ) (rl : IsProdRing k.fill_ring rx_size)
    (rlc : IsConsRing k.rx_ring) {frame_size : ℕ} (rc : RxContract k frame_size)
    (o : FifoContract rc) where
  open k use {World}

  -- The states that calls of `send` and `recv` reach, in any order: with the packets that were accepted
  -- to be sent and handed over, and those that arrived and were delivered.
  pub data Exchange (mtu : ℕ) (tx0 : XskTx) (rx0 : XskRx) (m0 : Machine World)
      : XskTx
        → XskRx
        → Machine World
        → List (List ℕ)
        → List (List ℕ)
        → List (List ℕ)
        → List (List ℕ)
        → Type 0 where
    opened : Exchange mtu tx0 rx0 m0 tx0 rx0 m0 [] [] [] []
    sends :
        {tx : XskTx} {rx : XskRx} {m : Machine World}
        {accepted handed arrived delivered : List (List ℕ)}
        → Exchange mtu tx0 rx0 m0 tx rx m accepted handed arrived delivered
        → (fuel : ℕ) (src : List ℕ) (r : Result XskSendError (Unit {0})) (tx' : XskTx)
          (m' : Machine World) (descs : List Desc)
        → length src ≤ mtu
        → length src < 2 ^ 32
        → c.refusals m.world < fuel
        → send k fuel src tx m ≡ ret (r, tx', m')
        → t.handed m'.world ≡ t.handed m.world ++ descs
        → Exchange mtu tx0 rx0 m0 tx' rx m'
            (accepted ++ taken_up r src)
            (handed ++ map (packet_at m'.mem) descs)
            arrived
            delivered
    receives :
        {tx : XskTx} {rx : XskRx} {m : Machine World}
        {accepted handed arrived delivered : List (List ℕ)}
        → Exchange mtu tx0 rx0 m0 tx rx m accepted handed arrived delivered
        → (fuel : ℕ) (pkt_receiver : List ℕ) (n : ℕ) (rx1 : XskRx) (seen : Machine World) (len : ℕ)
          (bytes : List ℕ) (rx' : XskRx) (m' : Machine World)
        → frame_size ≤ length pkt_receiver
        → rc.fill.refusals m.world < fuel
        → check_rx k rx m ≡ ret (n, rx1, seen)
        → AreSome (map (packet seen.mem) (slice rx1.filled_frames 0 n))
        → recv k fuel pkt_receiver rx m ≡ ret (len, bytes, rx', m')
        → Exchange mtu tx0 rx0 m0 tx rx' m' accepted handed
            (arrived ++ map (packet seen.mem) (slice rx1.filled_frames 0 n))
            (delivered ++ given len bytes)

  -- Each half sees a sequence of its own calls, and the other half as something that leaves it alone.
  pub record Both (mtu base : ℕ) (tx0 : XskTx) (rx0 : XskRx) (m0 : Machine World)
      (waited : List (List ℕ)) (tx : XskTx) (rx : XskRx) (m : Machine World)
      (accepted handed arrived delivered : List (List ℕ)) : Type 0 where
    pub session : Session k size l lc c t mtu tx0 m0 tx m accepted handed
    pub receipts : Receipts k rx_size rl rlc rc o rx0 m0 rx m arrived delivered
    pub sending : TxSession.Kept k size l lc c t mtu (waiting tx0 m0.mem) tx m accepted handed
    pub receiving : RxReceipts.Kept k rx_size rl rlc rc o waited rx m arrived delivered
    pub begins : base_of o rx ≡ base

  module _ (base : ℕ) (rx_apart : RxApart k size l lc c t)
      (tx_apart : TxApart k rx_size rl rlc rc o base) (in_front : t.area ≤ base * frame_size) where
    module _ {mtu : ℕ} {tx0 : XskTx} {rx0 : XskRx} {m0 : Machine World} {waited : List (List ℕ)}
        (v : TxValid.IsValid c mtu tx0 m0) (stocked : IsStocked t.area tx0)
        (rv : RxValid.IsValid rc rx0 m0) (q : InOrder o rx0 m0 waited) (each_some : AreSome waited)
        (begins : base_of o rx0 ≡ base) where
      -- On one socket, where the kernel keeps the fill ring, the rx ring and `poll` apart from what
      -- is sent, and the tx ring, the completion ring and `sendto` apart from what is received, and
      -- the transmit end's part of the UMEM is in front of the receive frames: from a valid sending
      -- half whose frames and waiting packets lie in its part, and a valid receiving half in which
      -- packets wait in order, none of them empty, whatever calls of `send` and `recv` are made in
      -- any order, each with data within the MTU and below 2 ^ 32 bytes, or a buffer for a whole
      -- frame while no empty packet arrives, and with more fuel than refusals to come: both halves
      -- stay valid, each is left alone by the calls of the other, the packets that waited to be
      -- sent and those accepted since are, in this order, those handed to the kernel and those that
      -- wait, and the packets that waited to be received and those that arrived since are, in this
      -- order, those delivered and those that wait.
      pub Exchange-Both :
          {tx : XskTx} {rx : XskRx} {m : Machine World}
          {accepted handed arrived delivered : List (List ℕ)}
          → Exchange mtu tx0 rx0 m0 tx rx m accepted handed arrived delivered
          → Both mtu base tx0 rx0 m0 waited tx rx m accepted handed arrived delivered
      Exchange-Both opened = record {
        session = TxSession.begin;
        receipts = RxReceipts.begin;
        sending = Session-Kept k size l lc c t v stocked TxSession.begin;
        receiving = Receipts-Kept k rx_size rl rlc rc o rv q each_some RxReceipts.begin;
        begins = begins;
      }
      Exchange-Both
            (sends {rx = rx} {m = m} s fuel src r tx' m' descs short small enough run joined) =
          let b = Exchange-Both s in
          let session =
            TxSession.sent b.session fuel src r tx' m' descs short small enough run joined in
          let quiet =
            send-LeavesRx k size l lc c t rx_size rl rlc rc o base tx_apart fuel mtu src _ m r tx'
              m' b.sending.valid b.sending.stocked (omega (arith, b.sending.stocked.room, in_front))
              short small enough run in
          let receipts =
            RxReceipts.other b.receipts m'
              (subst (λ x. LeavesRx k rx_size rl rlc rc o x m m') (sym b.begins) quiet) in
          record {
            session = session;
            receipts = receipts;
            sending = Session-Kept k size l lc c t v stocked session;
            receiving = Receipts-Kept k rx_size rl rlc rc o rv q each_some receipts;
            begins = b.begins;
          }
      Exchange-Both
            (receives {rx = rx} {m = m} s fuel pkt_receiver n rx1 seen len bytes rx' m' room enough
              look some_new run) =
          let b = Exchange-Both s in
          let receipts =
            RxReceipts.call b.receipts fuel pkt_receiver n rx1 seen len bytes rx' m' room enough
              look some_new run in
          let quiet =
            recv-LeavesTx k size l lc c t rx_size rl rlc rc rx_apart fuel pkt_receiver rx m len
              bytes rx' m' b.receiving.valid room enough run in
          let session = TxSession.other b.session m' quiet in
          let d =
            recv-Dequeues k rx_size rl rlc rc o fuel pkt_receiver b.receiving.ps rx m
              b.receiving.valid b.receiving.waits room enough in
          let offset : rx'.rx_frame_offset ≡ rx.rx_frame_offset =
            subst
              (λ (x : ℕ × List ℕ × XskRx × Machine World). x.2.rx_frame_offset ≡ rx.rx_frame_offset)
              (ret-injective (sym d.run ∙ run)) d.offset in
          record {
            session = session;
            receipts = receipts;
            sending = Session-Kept k size l lc c t v stocked session;
            receiving = Receipts-Kept k rx_size rl rlc rc o rv q each_some receipts;
            begins = ap (λ (x : ℕ). x / frame_size) offset ∙ b.begins;
          }
