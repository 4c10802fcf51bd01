-- ===== src/Tests/Packets.antt =====
-- Witnesses of the theorems on packets: one packet waits in a batch of two, and a second one follows.
use xdpsock.Prelude.{
  ◌≡◌, refl, ◌++◌, List, [], ◌∷◌, map, ret, set, length-set, ◌∙◌, Outcome, Result, err, arith,
}
use xdpsock.Kernel.{Machine, Desc}
use xdpsock.Umem.Build.{cut_frames}
use xdpsock.Xsk.Tx
use xdpsock.Xsk.Tx.{
  XskTx, XskSendError, send, send_apply, complete_frames, update_tx_frames, mark_free, advance,
  put_batch_on_tx_queue, batch_range, produce_all,
}
use xdpsock.Umem.Frame.{is_free, write_to_umem_checked}
use xdpsock.Umem.Mmap.{write_range}
use xdpsock.Umem.CompQueue
use xdpsock.Socket.TxQueue
use xdpsock.Xsk.Tx.Slots
use xdpsock.Xsk.Tx.Slots.{packet_at}
use xdpsock.Xsk.Tx.Packets.{IsStocked}
use xdpsock.Xsk.Tx.Packets.Deliver.{Delivers}
use xdpsock.Xsk.Tx.Packets.Refines.{MadeFrom, at_cursor, send-Delivers, send_apply-Delivers}
use xdpsock.Xsk.Tx.Session.{taken_up, begin, sent, Kept, Session-Kept}
use xdpsock.Tests.Toy.{World, toy, tx_law, cons_law}
use xdpsock.Tests.Toy.Sending.{contract}
use xdpsock.Tests.Toy.History.{history}
use xdpsock.Tests.Tx.{one_waits, before, one_waits-IsValid}

one_waits-IsStocked : IsStocked (history.area) one_waits
unfolding history Tx.new cut_frames
one_waits-IsStocked = record { room = omega arith; below = (omega arith, omega arith, tt) }

send-Delivers_example :
    Delivers toy 4 tx_law cons_law contract history
      (λ packet. packet ≡ 7 ∷ 8 ∷ [])
      (send toy 3 (7 ∷ 8 ∷ []) one_waits before)
      one_waits
      before
unfolding contract history
send-Delivers_example =
    send-Delivers toy 4 tx_law cons_law contract history 3 4 (7 ∷ 8 ∷ []) one_waits before
      one_waits-IsValid one_waits-IsStocked (omega arith) (omega arith) (omega arith)

send_apply-Delivers_example :
    Delivers toy 4 tx_law cons_law contract history
      (MadeFrom (λ bytes. ret (set bytes 0 5, 3)) (at_cursor one_waits before.mem))
      (send_apply toy 3 (λ bytes. ret (set bytes 0 5, 3)) one_waits before)
      one_waits
      before
unfolding contract history Tx.new cut_frames
send_apply-Delivers_example =
    send_apply-Delivers toy 4 tx_law cons_law contract history 3 4 (λ bytes. ret (set bytes 0 5, 3))
      one_waits before one_waits-IsValid one_waits-IsStocked
      (λ bytes size.
        ((set bytes 0 5, 3), refl, length-set bytes 0 5 ∙ size, omega arith, omega arith))
      (omega arith)

-- What the send comes to.
abbrev After : Type 0
After = Result XskSendError (Unit {0}) × XskTx × Machine World

abbrev value : Outcome After → After
value (ret x) = x
value _ = (err XskSendError.no_free_tx_frames, one_waits, before)

abbrev after : After
after = value (send toy 3 (7 ∷ 8 ∷ []) one_waits before)

after_run : send toy 3 (7 ∷ 8 ∷ []) one_waits before ≡ ret after
unfolding send complete_frames update_tx_frames mark_free CompQueue.consume CompQueue.load_addrs
    is_free write_to_umem_checked write_range advance put_batch_on_tx_queue batch_range produce_all
    TxQueue.produce_and_wakeup TxQueue.produce TxQueue.store_descs TxQueue.needs_wakeup
    TxQueue.wakeup Tx.new cut_frames
after_run = refl

abbrev two_descs : List Desc
two_descs =
    record { addr = 0; len = 2; options = 0 } ∷ record { addr = 4; len = 2; options = 0 } ∷ []

handed_after : history.handed after.2.world ≡ history.handed before.world ++ two_descs
unfolding history send complete_frames update_tx_frames mark_free CompQueue.consume
    CompQueue.load_addrs is_free write_to_umem_checked write_range advance put_batch_on_tx_queue
    batch_range produce_all TxQueue.produce_and_wakeup TxQueue.produce TxQueue.store_descs
    TxQueue.needs_wakeup TxQueue.wakeup Tx.new cut_frames
handed_after = refl

packets_after : map (packet_at after.2.mem) two_descs ≡ (9 ∷ 9 ∷ []) ∷ (7 ∷ 8 ∷ []) ∷ []
unfolding send complete_frames update_tx_frames mark_free CompQueue.consume CompQueue.load_addrs
    is_free write_to_umem_checked write_range advance put_batch_on_tx_queue batch_range produce_all
    TxQueue.produce_and_wakeup TxQueue.produce TxQueue.store_descs TxQueue.needs_wakeup
    TxQueue.wakeup Tx.new cut_frames
packets_after = refl

-- Both packets were handed over, that which waited first.
Session-Kept_example :
    Kept toy 4 tx_law cons_law contract history 4
      (Slots.waiting one_waits before.mem)
      after.1
      after.2
      (taken_up after.0 (7 ∷ 8 ∷ []))
      (map (packet_at after.2.mem) two_descs)
unfolding contract
Session-Kept_example =
    Session-Kept toy 4 tx_law cons_law contract history {m0 = before} one_waits-IsValid
      one_waits-IsStocked
      (sent begin 3 (7 ∷ 8 ∷ []) after.0 after.1 after.2 two_descs (omega arith) (omega arith)
        (omega arith) after_run handed_after)
