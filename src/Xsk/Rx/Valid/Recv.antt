-- ===== src/Xsk/Rx/Valid/Recv.antt =====
-- `recv` at a valid state.
use mathlib.Core.Path.{subst}
use xdpsock.Prelude.{ℕ, ◌+◌, ◌*◌, ◌≤◌, ◌<◌, ◌≡◌, List, Outcome, ret, length, arith}
use xdpsock.Kernel.{Kernel, Machine, Desc}
use xdpsock.Kernel.Laws.{IsConsRing, IsProdRing}
use xdpsock.Umem.Frame.{Frame}
use xdpsock.Xsk.Rx.{XskRx, check_rx, recv}
use xdpsock.Xsk.Rx.Frames.{pieces}
use xdpsock.Xsk.Lent.{without_all}
use xdpsock.Xsk.Rx.Contract.{RxContract, Looks, received, check_rx-Checks}
use xdpsock.Xsk.Rx.Valid.{IsValid, received-Updates}
use xdpsock.Xsk.Rx.Entry.{Entry, AreMarked-Entry}
use xdpsock.Xsk.Rx.Valid.Finish.{Outcomes, Lends, finish_lem}

module _ (k : Kernel) (size : ℕ) (l : IsProdRing k.fill_ring size) (lc : IsConsRing k.rx_ring)
    {frame_size : ℕ} (c : RxContract k frame_size) where
  open k use {World}

  -- What one call of `recv` comes to. The bytes that are delivered are those of the memory behind the
  -- call's look at the rx ring, and `at` is the frame at the cursor then: the look found a descriptor
  -- for it, whose address and length it has, or it is as it was before.
  pub record Receives (pkt_receiver : List ℕ) (rx : XskRx) (m : Machine World)
      (call : Outcome (ℕ × List ℕ × XskRx × Machine World)) : Type 0 where
    pub len : ℕ
    pub bytes : List ℕ
    pub rx' : XskRx
    pub machine : Machine World
    pub run : call ≡ ret (len, bytes, rx', machine)
    pub valid : IsValid c rx' machine
    pub descs : List Desc
    pub seen : Machine World
    pub look : check_rx k rx m ≡ ret (length descs, received rx descs, seen)
    pub taken : c.fill.lent seen.world ≡ without_all (c.fill.lent m.world) (pieces frame_size descs)
    pub base : ℕ
    pub offset : rx.rx_frame_offset ≡ base * frame_size
    pub at : Frame
    pub entry : Entry frame_size (base + rx.rx_cursor) descs rx.rx_frames rx.rx_cursor at
    pub outcome :
        Outcomes k size l lc c base at pkt_receiver rx
          (length rx.rx_frames)
          seen
          len
          bytes
          rx'
          machine

  -- Under the contract of the fill ring, `poll` and the rx ring, at a valid state, with a buffer
  -- for a whole frame and more fuel than refusals of the fill ring to come, `recv` returns: it does
  -- not panic, wait for ever or read outside the UMEM. The state stays valid. The kernel gave back
  -- exactly the frames of the packets that the look at the rx ring found. The frame at the cursor
  -- then has the address, length and status of a packet that this look found in it, or none was
  -- found in it and it is as before. If it has no packet, the kernel holds it, and `recv` returns 0
  -- and leaves the caller's buffer, the cursor and the count of delivered packets, and nothing more
  -- changes in the machine. If it has one, the kernel does not hold it, and `recv` returns the
  -- packet's length; the buffer begins with as many bytes of the memory behind that look, from the
  -- packet's address on, which lie in the frame; the rest of the buffer stays; the cursor moves on by
  -- one, round the end; one packet more counts as delivered, and the kernel holds that frame again
  -- and no other one more.
  pub recv_lem :
      (fuel : ℕ) (pkt_receiver : List ℕ) (rx : XskRx) (m : Machine World)
      → IsValid c rx m
      → frame_size ≤ length pkt_receiver
      → c.fill.refusals m.world < fuel
      → Receives pkt_receiver rx m (recv k fuel pkt_receiver rx m)
  unfolding recv
  recv_lem fuel pkt_receiver rx m v room enough =
      let d = check_rx-Checks k lc c rx m (omega (arith, v.counted, v.buffer)) in
      let u = received-Updates k lc c rx m d v in
      let f =
        finish_lem k size l lc c fuel pkt_receiver
          (record (received rx d.descs) { rx_frames = u.frames }) d.machine u.valid room
          (omega (arith, d.took.refusals)) in
      record {
        len = f.len;
        bytes = f.bytes;
        rx' = f.rx';
        machine = f.machine;
        run = rw (d.run, recv) (rw (u.run) f.run);
        valid = f.valid;
        descs = d.descs;
        seen = d.machine;
        taken = d.took.lent;
        look = d.run;
        base = v.base;
        offset = v.offset;
        at = f.at;
        entry =
            AreMarked-Entry frame_size v.base d.descs rx.rx_frames u.frames rx.rx_cursor f.at
              u.marked f.found;
        outcome =
            subst
              (λ (n : ℕ).
                Outcomes k size l lc c v.base f.at pkt_receiver rx n d.machine f.len f.bytes f.rx'
                  f.machine)
              u.same
              (subst
                (λ (base : ℕ).
                  Outcomes k size l lc c base f.at pkt_receiver rx (length u.frames) d.machine f.len
                    f.bytes f.rx' f.machine)
                u.same_base f.outcome);
      }

  -- How one call of `recv` moves the machine.
  pub recv-Looks :
      (fuel : ℕ) (pkt_receiver : List ℕ) (rx : XskRx) (m : Machine World)
      → IsValid c rx m
      → frame_size ≤ length pkt_receiver
      → c.fill.refusals m.world < fuel
      → (r : ℕ × List ℕ × XskRx) × (m' : Machine World) × (descs : List Desc) × (seen : Machine
          World)
        × (recv k fuel pkt_receiver rx m ≡ ret (r.0, r.1, r.2, m'))
        × Looks k lc c m seen descs
        × Lends k size l lc c fuel rx seen m'
  unfolding recv
  recv-Looks fuel pkt_receiver rx m v room enough =
      let d = check_rx-Checks k lc c rx m (omega (arith, v.counted, v.buffer)) in
      let u = received-Updates k lc c rx m d v in
      let f =
        finish_lem k size l lc c fuel pkt_receiver
          (record (received rx d.descs) { rx_frames = u.frames }) d.machine u.valid room
          (omega (arith, d.took.refusals)) in
      (
        (f.len, f.bytes, f.rx'),
        f.machine,
        d.descs,
        d.machine,
        rw (d.run, recv) (rw (u.run) f.run),
        d.took.looks,
        f.lends,
      )
