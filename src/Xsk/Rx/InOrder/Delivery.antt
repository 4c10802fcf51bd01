-- ===== src/Xsk/Rx/InOrder/Delivery.antt =====
-- `recv` as an operation of a queue of packets: first in, first out.
use mathlib.Core.Path.{subst}
use native.Mathlib.Nat.{mod-eq_of_lt}
use xdpsock.Prelude.{
  ℕ, zero, suc, ◌+◌, ◌-◌, ◌≤◌, ◌<◌, ◌≡◌, refl, sym, ap, ◌∙◌, ◌⊎◌, inl, inr, List, [], ◌∷◌, ◌++◌,
  map, Outcome, ret, ret-injective, length, length-slice, slice, splice, some, get_elem?,
  get_elem?-some, arith,
}
use xdpsock.Kernel.{Kernel, Machine, Desc}
use xdpsock.Kernel.Laws.{IsConsRing, IsProdRing}
use xdpsock.Umem.Frame.{Frame, FrameStatus}
use xdpsock.Xsk.Rx.{XskRx, recv, check_rx}
use xdpsock.Xsk.Rx.Apply.{packet}
use xdpsock.Xsk.Rx.Deliver.{delivered, deliver_lem}
use xdpsock.Xsk.Rx.Frames.{undelivered, packets}
use xdpsock.Xsk.Rx.Contract.{RxContract, received, check_rx-Checks}
use xdpsock.Xsk.Rx.Valid.{IsValid, received-Updates, delivered-IsValid}
use xdpsock.Xsk.Rx.Valid.Finish.{packet_place, finish}
use xdpsock.Xsk.Rx.Valid.Recv.{recv_lem}
use xdpsock.Xsk.Rx.Window.{Window, round, content}
use xdpsock.Xsk.Rx.Fifo.{FifoContract}
use xdpsock.Xsk.Rx.InOrder.Relent.{served-InOrder}
use xdpsock.Xsk.Rx.InOrder.{InOrder, base_of, arrived-InOrder}

filled_of_one : (s : FrameStatus) → packets s ≡ 1 → s ≡ FrameStatus.filled
filled_of_one FrameStatus.filled e = refl
filled_of_one FrameStatus.free e = absurd (omega arith)
filled_of_one FrameStatus.on_tx_queue e = absurd (omega arith)
filled_of_one FrameStatus.on_fill_queue e = absurd (omega arith)

packets-le :
    (frames : List Frame) (i : ℕ) (f : Frame)
    → get_elem? frames i ≡ some f
    → packets f.status ≤ undelivered frames
packets-le [] i f h = cc
packets-le (x ∷ frames) zero f h = ground arith
packets-le (x ∷ frames) (suc i) f h = omega (arith, packets-le frames i f h)

module _ (k : Kernel) (size : ℕ) (l : IsProdRing k.fill_ring size) (lc : IsConsRing k.rx_ring)
    {frame_size : ℕ} (c : RxContract k frame_size) (o : FifoContract c) where
  open k use {World}

  -- The first of the packets is delivered and the others stay, or there is none.
  abbrev pub Served : List ℕ → List (List ℕ) → ℕ → List ℕ → XskRx → Machine World → Type 0
  Served pkt_receiver ps len bytes rx' machine =
      ((ps ≡ []) × (len ≡ 0) × (bytes ≡ pkt_receiver) × InOrder o rx' machine [])
      ⊎ ((p : List ℕ) × (rest : List (List ℕ)) × (ps ≡ p ∷ rest)
          × (len ≡ length p)
          × (len ≤ length pkt_receiver)
          × (bytes ≡ splice pkt_receiver 0 p)
          × InOrder o rx' machine rest)

  record Serves (fuel : ℕ) (pkt_receiver : List ℕ) (ps : List (List ℕ)) (rx : XskRx)
      (m : Machine World) : Type 0 where
    len : ℕ
    bytes : List ℕ
    rx' : XskRx
    machine : Machine World
    run : finish k size l lc c fuel pkt_receiver rx m ≡ ret (len, bytes, rx', machine)
    served : Served pkt_receiver ps len bytes rx' machine
    offset : rx'.rx_frame_offset ≡ rx.rx_frame_offset

  module _ (fuel : ℕ) (pkt_receiver : List ℕ) (ps : List (List ℕ)) (rx : XskRx) (m : Machine World)
      (v : IsValid c rx m) where
    -- No frame has a packet.
    serve_none :
        (f : Frame)
        → get_elem? rx.rx_frames rx.rx_cursor ≡ some f
        → undelivered rx.rx_frames ≡ 0
        → finish k size l lc c fuel pkt_receiver rx m ≡ ret (0, pkt_receiver, rx, m)
    serve_none f found none_there = go f.status refl
      where
        go :
            (s : FrameStatus)
            → f.status ≡ s
            → finish k size l lc c fuel pkt_receiver rx m ≡ ret (0, pkt_receiver, rx, m)
        go FrameStatus.filled e =
            absurd (
              omega (arith, packets-le rx.rx_frames rx.rx_cursor f found, none_there, ap packets e))
        go FrameStatus.free e = rw found (rw e refl)
        go FrameStatus.on_tx_queue e = rw found (rw e refl)
        go FrameStatus.on_fill_queue e = rw found (rw e refl)

    serve_lem :
        InOrder o rx m ps
        → frame_size ≤ length pkt_receiver
        → c.fill.refusals m.world < fuel
        → Serves fuel pkt_receiver ps rx m
    serve_lem q room enough = go q.waiting q.number q.window q.order q.contents
      where
        go :
            (waiting : List Frame)
            → length waiting ≡ undelivered rx.rx_frames
            → Window (length rx.rx_frames) rx.rx_frames rx.rx_cursor waiting
            → o.order m.world
              ≡ round
                  (length rx.rx_frames)
                  (base_of o rx)
                  (rx.rx_cursor + length waiting)
                  (length rx.rx_frames - length waiting)
            → map (content m.mem) waiting ≡ ps
            → Serves fuel pkt_receiver ps rx m
        go [] number window order contents =
            let (f, found) = get_elem?-some rx.rx_frames rx.rx_cursor v.cursor_in in
            record {
              len = 0;
              bytes = pkt_receiver;
              rx' = rx;
              machine = m;
              run = serve_none f found (sym number);
              served = inl (
                sym contents,
                refl,
                refl,
                record {
                  waiting = [];
                  number = number;
                  window = tt;
                  order = order;
                  contents = refl;
                },
              );
              offset = refl;
            }
        go (f ∷ rest) number window order contents =
            let found : get_elem? rx.rx_frames rx.rx_cursor ≡ some f =
              ap (get_elem? rx.rx_frames) (sym (mod-eq_of_lt v.cursor_in)) ∙ window.0 in
            let filled = filled_of_one f.status window.1 in
            let (small, inside, short, lo, hi) =
              packet_place k size l lc c fuel pkt_receiver rx m v f found filled in
            let (m', run, mem, held, refilled) =
              deliver_lem k size l c.fill fuel pkt_receiver f rx m found small inside
                (omega (arith, short, room)) v.ring_pos enough in
            record {
              len = f.len;
              bytes = splice pkt_receiver 0 (slice m.mem f.addr (f.addr + f.len));
              rx' = delivered rx f;
              machine = m';
              run = rw found (rw filled run);
              served = inr (
                content m.mem f,
                map (content m.mem) rest,
                sym contents,
                omega (arith, length-slice m.mem f.addr (f.addr + f.len) inside),
                omega (arith, short, room),
                refl,
                served-InOrder k size l lc c o fuel rx m v f rest m' number window order found
                    (delivered-IsValid k lc c rx m m' f v found filled mem held) held refilled,
              );
              offset = refl;
            }

  -- What one call of `recv` comes to for the packets.
  pub record Dequeues (pkt_receiver : List ℕ) (ps : List (List ℕ)) (rx : XskRx) (m : Machine World)
      (call : Outcome (ℕ × List ℕ × XskRx × Machine World)) : Type 0 where
    pub len : ℕ
    pub bytes : List ℕ
    pub rx' : XskRx
    pub machine : Machine World
    pub run : call ≡ ret (len, bytes, rx', machine)
    pub valid : IsValid c rx' machine
    pub descs : List Desc
    pub seen : Machine World
    pub look : check_rx k rx m ≡ ret (length descs, received rx descs, seen)
    pub offset : rx'.rx_frame_offset ≡ rx.rx_frame_offset
    pub found_room : length descs ≤ length rx.filled_frames
    pub served : Served pkt_receiver (ps ++ map (packet seen.mem) descs) len bytes rx' machine

  -- Under the contract of the fill ring, `poll` and the rx ring, where the kernel receives into the
  -- frames in the order in which they were lent, gives them back in that order and writes to no
  -- frame that it does not hold: at a valid state in which the packets `ps` wait in the frames from
  -- the cursor on and the kernel's frames follow in its order, with a buffer for a whole frame and
  -- more fuel than refusals of the fill ring to come, `recv` returns at a valid state as one step
  -- of a queue of packets, first in, first out. The packets that its look at the rx ring finds join
  -- `ps` behind. If there is none then, it returns 0 and leaves the buffer; else it returns the
  -- length of the first packet, which is not cut off, writes its bytes to the front of the buffer,
  -- and exactly the others wait, unchanged and in order.
  pub recv-Dequeues :
      (fuel : ℕ) (pkt_receiver : List ℕ) (ps : List (List ℕ)) (rx : XskRx) (m : Machine World)
      → IsValid c rx m
      → InOrder o rx m ps
      → frame_size ≤ length pkt_receiver
      → c.fill.refusals m.world < fuel
      → Dequeues pkt_receiver ps rx m (recv k fuel pkt_receiver rx m)
  unfolding recv
  recv-Dequeues fuel pkt_receiver ps rx m v q room enough =
      let d = check_rx-Checks k lc c rx m (omega (arith, v.counted, v.buffer)) in
      let u = received-Updates k lc c rx m d v in
      let s =
        serve_lem fuel pkt_receiver (ps ++ map (packet d.machine.mem) d.descs)
          (record (received rx d.descs) { rx_frames = u.frames }) d.machine u.valid
          (arrived-InOrder k lc c o rx m ps v q d u) room (omega (arith, d.took.refusals)) in
      let run : recv k fuel pkt_receiver rx m ≡ ret (s.len, s.bytes, s.rx', s.machine) =
        rw (d.run, recv) (rw (u.run) s.run) in
      let r = recv_lem k size l lc c fuel pkt_receiver rx m v room enough in
      record {
        len = s.len;
        bytes = s.bytes;
        rx' = s.rx';
        machine = s.machine;
        run = run;
        valid =
            subst (λ (p : ℕ × List ℕ × XskRx × Machine World). IsValid c p.2 p.3)
              (ret-injective (sym r.run ∙ run)) r.valid;
        descs = d.descs;
        seen = d.machine;
        look = d.run;
        offset = s.offset;
        found_room = omega (arith, d.few, v.counted, v.buffer);
        served = s.served;
      }
