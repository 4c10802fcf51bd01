-- ===== src/Tests/Receipts.antt =====
-- A witness of the theorem on sequences of `recv`: one packet waits, and one arrives.
use xdpsock.Prelude.{ℕ, ◌≡◌, refl, List, [], ◌∷◌, map, slice, ret, Outcome, arith}
use xdpsock.Kernel.{Machine}
use xdpsock.Umem.Frame.{read_from_umem_checked}
use xdpsock.Umem.Mmap.{mem_range}
use xdpsock.Umem.FillQueue
use xdpsock.Socket.Poll.{poll_read}
use xdpsock.Socket.RxQueue
use xdpsock.Xsk.Rx.{
  XskRx, check_rx, recv, wake_fill_q, update_rx_frames, mark_filled, rx_frame_index, deliver,
  refill,
}
use xdpsock.Xsk.Rx.Apply.{packet}
use xdpsock.Xsk.Rx.InOrder.Receipts.{begin, call, Kept, given, Receipts-Kept}
use xdpsock.Tests.Toy.{World, toy, fill_law, rx_law}
use xdpsock.Tests.Toy.Receiving.{rx_contract, fill_contract, fifo}
use xdpsock.Tests.Rx.{valid_rx, lending, valid_rx-IsValid, valid_rx-InOrder}

abbrev pub buffer : List ℕ
buffer = 0 ∷ 0 ∷ 0 ∷ 0 ∷ 0 ∷ []

abbrev Seen : Type 0
Seen = ℕ × XskRx × Machine World

abbrev seen_value : Outcome Seen → Seen
seen_value (ret x) = x
seen_value _ = (0, valid_rx, lending)

abbrev seen : Seen
seen = seen_value (check_rx toy valid_rx lending)

seen_run : check_rx toy valid_rx lending ≡ ret seen
unfolding check_rx RxQueue.poll_and_consume RxQueue.consume RxQueue.load_descs poll_read wake_fill_q
    FillQueue.needs_wakeup FillQueue.wakeup
seen_run = refl

abbrev pub Got : Type 0
Got = ℕ × List ℕ × XskRx × Machine World

abbrev pub got_value : Outcome Got → Got
got_value (ret x) = x
got_value _ = (0, buffer, valid_rx, lending)

abbrev pub got : Got
got = got_value (recv toy 1 buffer valid_rx lending)

pub got_run : recv toy 1 buffer valid_rx lending ≡ ret got
unfolding recv check_rx RxQueue.poll_and_consume RxQueue.consume RxQueue.load_descs poll_read
    wake_fill_q update_rx_frames mark_filled rx_frame_index deliver refill read_from_umem_checked
    mem_range FillQueue.produce_and_wakeup FillQueue.produce FillQueue.store_addrs
    FillQueue.needs_wakeup FillQueue.wakeup
got_run = refl

-- The packet that waited is delivered, and the one that arrived waits.
Receipts-Kept_example :
    Kept toy 4 fill_law rx_law rx_contract fifo
      ((10 ∷ 11 ∷ []) ∷ [])
      got.2
      got.3
      (map (packet seen.2.mem) (slice seen.1.filled_frames 0 seen.0))
      (given got.0 got.1)
unfolding rx_contract fill_contract check_rx RxQueue.poll_and_consume RxQueue.consume
    RxQueue.load_descs poll_read wake_fill_q FillQueue.needs_wakeup FillQueue.wakeup
Receipts-Kept_example =
    Receipts-Kept toy 4 fill_law rx_law rx_contract fifo {m0 = lending} valid_rx-IsValid
      valid_rx-InOrder (omega arith, tt)
      (call begin 1 buffer seen.0 seen.1 seen.2 got.0 got.1 got.2 got.3 (omega arith) (omega arith)
        seen_run (omega arith, tt) got_run)
