-- ===== src/Xsk/Rx/Deliver.antt =====
-- How `recv` delivers the packet of a filled frame.
use mathlib.Core.Path.{subst}
use xdpsock.Prelude.{
  drop-get_elem?, ◌-◌, [], ◌∷◌, ℕ, ◌+◌, ◌%◌, ◌^◌, ◌≤◌, ◌<◌, ◌≡◌, refl, List, ret, ok,
  index_range_lem, length, some, set, slice, splice, length-slice, get_elem?, get_elem?-lt, add64,
  pos-==_zero, arith,
}
use xdpsock.Kernel.{Kernel, Machine}
use xdpsock.Kernel.Laws.{IsProdRing}
use xdpsock.Umem.Frame.{Frame, FrameStatus, set_status, read_from_umem_checked}
use xdpsock.Umem.Frame.Copies.{mem_range_lem}
use xdpsock.Xsk.Rx.{XskRx, refill, deliver}
use xdpsock.Xsk.Lent.{with_, with_all}
use xdpsock.Umem.FillQueue.Publish.{addrs}
use xdpsock.Xsk.Rx.Refill.{chunk, chunks, FillContract, refill_lem}

-- The state after the packet of the frame at the cursor was delivered.
abbrev pub delivered : XskRx → Frame → XskRx
delivered rx f = record rx {
  stats = record (rx.stats) { pkts_rx_delivered = add64 rx.stats.pkts_rx_delivered 1 };
  rx_frames = set rx.rx_frames rx.rx_cursor (set_status f FrameStatus.free);
  n_frames_to_be_filled = add64 rx.n_frames_to_be_filled 1;
  rx_cursor = add64 rx.rx_cursor 1 % length rx.rx_frames;
}

pub slice_one :
    {A : Type 0} (xs : List A) (i : ℕ) (x : A)
    → get_elem? xs i ≡ some x
    → slice xs i (i + 1) ≡ x ∷ []
slice_one xs i x h = let one : i + 1 - i ≡ 1 = omega arith in rw (drop-get_elem? xs i x h, one) refl

read_whole :
    (f : Frame) (mem : List ℕ)
    → f.addr < 2 ^ 63
    → f.addr + f.len ≤ length mem
    → read_from_umem_checked f f.len mem ≡ ret (ok (slice mem f.addr (f.addr + f.len)))
unfolding read_from_umem_checked
read_whole f mem small inside = ground (arith, mem_range_lem mem f.addr f.len)

module _ (k : Kernel) (size : ℕ) (l : IsProdRing k.fill_ring size) {frame_size : ℕ}
    (c : FillContract k frame_size) where
  open k use {World}

  deliver_run :
      (fuel : ℕ) (pkt_receiver : List ℕ) (f : Frame) (rx : XskRx) (m m' : Machine World)
      → rx.rx_cursor < length rx.rx_frames
      → f.addr < 2 ^ 63
      → f.addr + f.len ≤ length m.mem
      → f.len ≤ length pkt_receiver
      → refill k fuel rx.rx_q.fd rx.poll_ms_timeout
          (slice rx.rx_frames rx.rx_cursor (rx.rx_cursor + 1))
          1
          m
        ≡ ret m'
      → deliver k fuel pkt_receiver f rx m
        ≡ ret
            (f.len, splice pkt_receiver 0 (slice m.mem f.addr (f.addr + f.len)), delivered rx f, m')
  unfolding deliver
  deliver_run fuel pkt_receiver f rx m m' cursor small inside room run =
      rw (read_whole f m.mem small inside, deliver)
        (rw (index_range_lem pkt_receiver 0 f.len (omega arith) room) (
          rw
            (index_range_lem rx.rx_frames rx.rx_cursor (rx.rx_cursor + 1) (omega arith)
              (omega arith))
            (rw run (rw (pos-==_zero (length rx.rx_frames) (omega arith)) refl))))

  -- Under the contract of the fill ring and of `poll`, for a frame at the cursor whose packet lies
  -- in the mapped memory and fits the caller's buffer, with a fill ring for at least one frame and
  -- more fuel than refusals to come, the delivery returns: the packet's length; the caller's buffer
  -- with the packet's bytes at its front and the rest as it was; and a state whose cursor is one
  -- further, round the end, and which counts the packet as delivered and the frame as to be filled.
  -- The size of the memory stays, and the
  -- kernel holds the frame then, beside what it held.
  pub deliver_lem :
      (fuel : ℕ) (pkt_receiver : List ℕ) (f : Frame) (rx : XskRx) (m : Machine World)
      → get_elem? rx.rx_frames rx.rx_cursor ≡ some f
      → f.addr < 2 ^ 63
      → f.addr + f.len ≤ length m.mem
      → f.len ≤ length pkt_receiver
      → 1 ≤ c.capacity
      → c.refusals m.world < fuel
      → (m' : Machine World) × (deliver k fuel pkt_receiver f rx m
          ≡ ret (
            f.len,
            splice pkt_receiver 0 (slice m.mem f.addr (f.addr + f.len)),
            delivered rx f,
            m',
          ))
        × (length m'.mem ≡ length m.mem)
        × (c.lent m'.world ≡ with_ (c.lent m.world) (chunk frame_size f.addr))
        × (refill k fuel rx.rx_q.fd rx.poll_ms_timeout (f ∷ []) 1 m ≡ ret m')
  deliver_lem fuel pkt_receiver f rx m found small inside room ring_pos enough =
      let cursor = get_elem?-lt rx.rx_frames rx.rx_cursor f found in
      let descs = slice rx.rx_frames rx.rx_cursor (rx.rx_cursor + 1) in
      let one : length descs ≡ 1 =
        omega (arith, length-slice rx.rx_frames rx.rx_cursor (rx.rx_cursor + 1) (omega arith)) in
      let (m', run, mem, held) =
        refill_lem k size l c fuel rx.rx_q.fd rx.poll_ms_timeout descs m (omega (arith, one))
          (omega (arith, one)) enough in
      (
        m',
        deliver_run fuel pkt_receiver f rx m m' cursor small inside room
            (subst (λ n. refill k fuel rx.rx_q.fd rx.poll_ms_timeout descs n m ≡ ret m') one run),
        mem,
        subst (λ x. c.lent m'.world ≡ with_all (c.lent m.world) (chunks frame_size (addrs k x)))
            (slice_one rx.rx_frames rx.rx_cursor f found) held,
        subst (λ x. refill k fuel rx.rx_q.fd rx.poll_ms_timeout x (length x) m ≡ ret m')
            (slice_one rx.rx_frames rx.rx_cursor f found) run,
      )
