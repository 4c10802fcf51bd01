-- ===== src/Tests/Exchange.antt =====
-- A witness of the theorem on both halves: one packet is sent and one received.

use xdpsock.Prelude.{
  ℕ, ◌≡◌, refl, List, [], ◌∷◌, ◌++◌, map, slice, ret, Outcome, Result, err, arith,
}
use xdpsock.Kernel.{Machine, Desc}
use xdpsock.Umem.Frame.{is_free, write_to_umem_checked, read_from_umem_checked}
use xdpsock.Umem.Mmap.{write_range, mem_range}
use xdpsock.Umem.CompQueue
use xdpsock.Umem.FillQueue
use xdpsock.Umem.Build.{cut_frames}
use xdpsock.Socket.Poll.{poll_read}
use xdpsock.Socket.TxQueue
use xdpsock.Socket.RxQueue
use xdpsock.Xsk.Tx
use xdpsock.Xsk.Tx.{
  XskTx, XskSendError, send, complete_frames, update_tx_frames, mark_free, advance,
  put_batch_on_tx_queue, batch_range, produce_all,
}
use xdpsock.Xsk.Tx.Slots.{packet_at}
use xdpsock.Xsk.Tx.Session.{taken_up}
use xdpsock.Xsk.Rx.{
  XskRx, check_rx, recv, wake_fill_q, update_rx_frames, mark_filled, rx_frame_index, deliver,
  refill,
}
use xdpsock.Xsk.Rx.Apply.{packet}
use xdpsock.Xsk.Rx.InOrder.Receipts.{given}
use xdpsock.Xsk.Halves.Exchange.{opened, sends, receives, Both, Exchange-Both}
use xdpsock.Tests.Toy.{World, toy, tx_law, cons_law, fill_law, rx_law}
use xdpsock.Tests.Toy.Sending.{contract}
use xdpsock.Tests.Toy.Receiving.{rx_contract, fill_contract, fifo}
use xdpsock.Tests.Toy.History.{history}
use xdpsock.Tests.Halves.{apart}
use xdpsock.Tests.OneSocket.{
  tx_apart, tx0, rx0, m0, tx0-IsValid, tx0-IsStocked, rx0-IsValid, rx0-InOrder,
}

-- A packet is sent.
abbrev Sent : Type 0
Sent = Result XskSendError (Unit {0}) × XskTx × Machine World

abbrev sent_value : Outcome Sent → Sent
sent_value (ret x) = x
sent_value _ = (err XskSendError.no_free_tx_frames, tx0, m0)

abbrev after_send : Sent
after_send = sent_value (send toy 3 (7 ∷ 8 ∷ []) tx0 m0)

sent_run : send toy 3 (7 ∷ 8 ∷ []) tx0 m0 ≡ ret after_send
unfolding send complete_frames update_tx_frames mark_free CompQueue.consume CompQueue.load_addrs
    is_free write_to_umem_checked write_range advance put_batch_on_tx_queue batch_range produce_all
    TxQueue.produce_and_wakeup TxQueue.produce TxQueue.store_descs TxQueue.needs_wakeup
    TxQueue.wakeup Tx.new cut_frames
sent_run = refl

abbrev sent_descs : List Desc
sent_descs = record { addr = 0; len = 2; options = 0 } ∷ []

sent_handed : history.handed after_send.2.world ≡ history.handed m0.world ++ sent_descs
unfolding history send complete_frames update_tx_frames mark_free CompQueue.consume
    CompQueue.load_addrs is_free write_to_umem_checked write_range advance put_batch_on_tx_queue
    batch_range produce_all TxQueue.produce_and_wakeup TxQueue.produce TxQueue.store_descs
    TxQueue.needs_wakeup TxQueue.wakeup Tx.new cut_frames
sent_handed = refl

-- Then one is received.
abbrev Seen : Type 0
Seen = ℕ × XskRx × Machine World

abbrev seen_value : Outcome Seen → Seen
seen_value (ret x) = x
seen_value _ = (0, rx0, m0)

abbrev seen : Seen
seen = seen_value (check_rx toy rx0 after_send.2)

seen_run : check_rx toy rx0 after_send.2 ≡ ret seen
unfolding send complete_frames update_tx_frames mark_free CompQueue.consume CompQueue.load_addrs
    is_free write_to_umem_checked write_range advance put_batch_on_tx_queue batch_range produce_all
    TxQueue.produce_and_wakeup TxQueue.produce TxQueue.store_descs TxQueue.needs_wakeup
    TxQueue.wakeup Tx.new cut_frames check_rx RxQueue.poll_and_consume RxQueue.consume
    RxQueue.load_descs poll_read wake_fill_q FillQueue.needs_wakeup FillQueue.wakeup
seen_run = refl

abbrev buffer : List ℕ
buffer = 0 ∷ 0 ∷ 0 ∷ 0 ∷ []

abbrev Got : Type 0
Got = ℕ × List ℕ × XskRx × Machine World

abbrev got_value : Outcome Got → Got
got_value (ret x) = x
got_value _ = (0, buffer, rx0, m0)

abbrev after_recv : Got
after_recv = got_value (recv toy 1 buffer rx0 after_send.2)

got_run : recv toy 1 buffer rx0 after_send.2 ≡ ret after_recv
unfolding send complete_frames update_tx_frames mark_free CompQueue.consume CompQueue.load_addrs
    is_free write_to_umem_checked write_range advance put_batch_on_tx_queue batch_range produce_all
    TxQueue.produce_and_wakeup TxQueue.produce TxQueue.store_descs TxQueue.needs_wakeup
    TxQueue.wakeup Tx.new cut_frames recv check_rx RxQueue.poll_and_consume RxQueue.consume
    RxQueue.load_descs poll_read wake_fill_q update_rx_frames mark_filled rx_frame_index deliver
    refill read_from_umem_checked mem_range FillQueue.produce_and_wakeup FillQueue.produce
    FillQueue.store_addrs FillQueue.needs_wakeup FillQueue.wakeup
got_run = refl

-- The packet is handed over, and the one that waited is delivered.
Exchange-Both_example :
    Both toy 4 tx_law cons_law contract history 4 fill_law rx_law rx_contract fifo 4 4 tx0 rx0 m0
      ((31 ∷ 32 ∷ []) ∷ [])
      after_send.1
      after_recv.2
      after_recv.3
      (taken_up after_send.0 (7 ∷ 8 ∷ []))
      (map (packet_at after_send.2.mem) sent_descs)
      (map (packet seen.2.mem) (slice seen.1.filled_frames 0 seen.0))
      (given after_recv.0 after_recv.1)
unfolding contract history rx_contract fill_contract fifo send complete_frames update_tx_frames
    mark_free CompQueue.consume CompQueue.load_addrs is_free write_to_umem_checked write_range
    advance put_batch_on_tx_queue batch_range produce_all TxQueue.produce_and_wakeup TxQueue.produce
    TxQueue.store_descs TxQueue.needs_wakeup TxQueue.wakeup Tx.new cut_frames check_rx
    RxQueue.poll_and_consume RxQueue.consume RxQueue.load_descs poll_read wake_fill_q
    FillQueue.needs_wakeup FillQueue.wakeup
Exchange-Both_example =
    Exchange-Both toy 4 tx_law cons_law contract history 4 fill_law rx_law rx_contract fifo 4 apart
      tx_apart (omega arith) tx0-IsValid tx0-IsStocked rx0-IsValid rx0-InOrder (omega arith, tt)
      refl
      (receives
        (sends opened 3 (7 ∷ 8 ∷ []) after_send.0 after_send.1 after_send.2 sent_descs (omega arith)
          (omega arith) (omega arith) sent_run sent_handed)
        1 buffer seen.0 seen.1 seen.2 after_recv.0 after_recv.1 after_recv.2 after_recv.3
        (omega arith) (omega arith) seen_run (omega arith, tt) got_run)
