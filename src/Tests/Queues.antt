-- ===== src/Tests/Queues.antt =====
-- Witnesses of the theorems on the queues.
use xdpsock.Prelude.{
  false, ok, err, ◌<◌, ◌≢◌, ◌↔◌, ℕ, ◌≤◌, ◌≡◌, true, List, [], ◌∷◌, ret, length, splice, arith,
}
use xdpsock.Socket.Poll.{poll}
use xdpsock.Socket.Poll.Ready.{poll_lem}
use xdpsock.Kernel.{Events, Machine}
use xdpsock.Kernel.Stores.{AllOrNone}
use xdpsock.Umem.Frame.{Frame, FrameStatus}
use xdpsock.Umem.FillQueue
use xdpsock.Umem.FillQueue.Publish.{addrs, produce-AllOrNone_addrs}
use xdpsock.Umem.CompQueue
use xdpsock.Umem.CompQueue.Consume.{consumed, consume_lem}
use xdpsock.Socket.TxQueue
use xdpsock.Tests.Toy.{World, toy, fill_law, cons_law}

abbrev two_frames : List Frame
two_frames =
    record { addr = 0; len = 3; options = 0; mtu = 4; status = FrameStatus.free }
    ∷ record { addr = 4; len = 2; options = 0; mtu = 4; status = FrameStatus.free }
    ∷ []

abbrev holding : World
holding = record {
  fill_slots = λ i. 0;
  fill_tail = 0xffff_ffff;
  tx_slots = λ i. record { addr = 0; len = 0; options = 0 };
  tx_tail = 0xffff_ffff;
  sent = 8 ∷ [];
  late = false;
  busy = 0;
  fills = [];
  handed = [];
  queue = [];
}

produce-AllOrNone_addrs_example :
    let (n, w') = FillQueue.produce toy two_frames holding in
    AllOrNone (toy.fill_ring) 4 fill_law (addrs toy two_frames) holding n w'
produce-AllOrNone_addrs_example = produce-AllOrNone_addrs toy 4 fill_law two_frames holding

abbrev machine : Machine World
machine = record { mem = []; world = holding }

consume_lem_example :
    let (g, m') = toy.comp_ring.peek 2 machine in
    (CompQueue.consume toy 2 (0 ∷ 0 ∷ []) machine
      ≡ ret (
        length (consumed toy 2 machine),
        splice (0 ∷ 0 ∷ []) 0 (consumed toy 2 machine),
        record m' { world = toy.comp_ring.release g.count m'.world },
      ))
    × (length (consumed toy 2 machine) ≤ 2)
consume_lem_example = consume_lem toy cons_law 2 (0 ∷ 0 ∷ []) machine (omega arith)

poll_lem_example :
    let (ready, m') = toy.poll 7 Events.pollin 0 machine in
    ((poll toy (record { fd = 7; events = Events.pollin }) 0 machine).1 ≡ m')
    × (((poll toy (record { fd = 7; events = Events.pollin }) 0 machine).0 ≡ ok true)
        ↔ ((n : ℕ) × (ready ≡ ok n) × (0 < n)))
    × ((errno : ℕ)
        → ((poll toy (record { fd = 7; events = Events.pollin }) 0 machine).0 ≡ err errno)
          ↔ ((ready ≡ err errno) × (errno ≢ 4)))
poll_lem_example = poll_lem toy (record { fd = 7; events = Events.pollin }) 0 machine
