-- ===== src/Xsk/Rx/Valid.antt =====
-- The states of the receiving end that are valid, and that receiving and delivering a packet keeps
-- them so.
pub mod Finish
pub mod Recv
pub mod Apply
use native.Mathlib.Nat.{le_trans, mod-lt}
use mathlib.Core.Path.{subst}
use xdpsock.Prelude.{
  ℕ, ◌+◌, ◌*◌, ◌%◌, ◌^◌, ◌≤◌, ◌<◌, ◌≡◌, refl, sym, ap, ◌∙◌, ◌⊎◌, inl, inr, List, [], ret,
  index_range_lem, length, length-set, length-splice, set, slice, splice, slice-splice_zero,
  get_elem?, get_elem?-lt, some, add64, sub64, arith,
}
use xdpsock.Kernel.{Kernel, Machine, Desc}
use xdpsock.Kernel.Laws.{IsConsRing}
use xdpsock.Umem.Frame.{Frame, FrameStatus, set_status}
use xdpsock.Xsk.Lent.{Lent, with_, without_all, AreLent}
use xdpsock.Xsk.Rx.{XskRx, mark_filled, update_rx_frames}
use xdpsock.Xsk.Rx.Place.{IsArea}
use xdpsock.Xsk.Rx.Refill.{chunk}
use xdpsock.Xsk.Rx.Deliver.{delivered}
use xdpsock.Xsk.Rx.Frames.{
  packets, undelivered, undelivered-set, AreFrames, AreFrames-set, AllFit, pieces, AreMarked,
  mark_filled-AreFrames,
}
use xdpsock.Xsk.Rx.Contract.{RxContract, received, Took, Checks, check_rx-Checks}

-- The frames lie behind the first `base` pieces of the UMEM, and each has a packet or is the kernel's.
-- `n_frames_to_be_filled` counts those without a packet, and the statistics agree with the others.
pub record IsValid {k : Kernel} {frame_size : ℕ} (c : RxContract k frame_size) (rx : XskRx)
    (m : Machine k.World) : Type 0 where
  pub size : rx.frame_size ≡ frame_size
  pub base : ℕ
  pub offset : rx.rx_frame_offset ≡ base * frame_size
  pub area : IsArea m.mem rx
  pub buffer : length rx.filled_frames ≡ length rx.rx_frames
  pub cursor_in : rx.rx_cursor < length rx.rx_frames
  pub clear : rx.processed_frames ≡ []
  pub frames : AreFrames frame_size base (c.fill.lent m.world) rx.rx_frames
  pub counted : rx.n_frames_to_be_filled + undelivered rx.rx_frames ≡ length rx.rx_frames
  pub accounted : rx.stats.pkts_rx ≡ add64 rx.stats.pkts_rx_delivered (undelivered rx.rx_frames)
  pub ring_pos : 1 ≤ c.fill.capacity

-- There are at most 2 ^ 32 frames.
pub few_frames : {mem : List ℕ} (rx : XskRx) → IsArea mem rx → length rx.rx_frames ≤ 2 ^ 32
few_frames rx a = le_trans rows (le_trans (omega arith) a.fits)
  where
    open a use {size_pos}

    rows : length rx.rx_frames ≤ length rx.rx_frames * rx.frame_size
    rows = grind arith

IsArea-length :
    {mem mem' : List ℕ} {rx : XskRx} → length mem' ≡ length mem → IsArea mem rx → IsArea mem' rx
IsArea-length same a = record {
  size_pos = a.size_pos;
  fits = a.fits;
  inside = omega (arith, same, a.inside);
}

-- With the frames' size by another name.
mark_of_size :
    (fs base : ℕ) (mem : List ℕ) (lent : Lent) (descs : List Desc) (rx : XskRx)
    → rx.frame_size ≡ fs
    → IsArea mem rx
    → rx.rx_frame_offset ≡ base * fs
    → AreFrames fs base lent rx.rx_frames
    → AreLent lent (pieces fs descs)
    → AllFit fs descs
    → (frames : List Frame) × (mark_filled descs rx ≡ ret (record rx { rx_frames = frames }))
      × AreFrames fs base (without_all lent (pieces fs descs)) frames
      × (undelivered frames ≡ undelivered rx.rx_frames + length descs)
      × (length frames ≡ length rx.rx_frames)
      × AreMarked base fs descs rx.rx_frames frames
mark_of_size fs base mem lent descs rx size area =
    subst
      (λ fs.
        rx.rx_frame_offset ≡ base * fs
        → AreFrames fs base lent rx.rx_frames
        → AreLent lent (pieces fs descs)
        → AllFit fs descs
        → (frames : List Frame) × (mark_filled descs rx ≡ ret (record rx { rx_frames = frames }))
          × AreFrames fs base (without_all lent (pieces fs descs)) frames
          × (undelivered frames ≡ undelivered rx.rx_frames + length descs)
          × (length frames ≡ length rx.rx_frames)
          × AreMarked base fs descs rx.rx_frames frames)
      size (mark_filled-AreFrames base mem lent descs rx area)

module _ (k : Kernel) (lc : IsConsRing k.rx_ring) {frame_size : ℕ}
    (c : RxContract k frame_size) where
  open k use {World}

  -- The state after the received packets were marked in their frames.
  pub record Updates (rx : XskRx) (m : Machine World) (d : Checks k lc c rx m) (base : ℕ)
      : Type 0 where
    pub frames : List Frame
    pub run :
        update_rx_frames (length d.descs) (received rx d.descs)
        ≡ ret (record (received rx d.descs) { rx_frames = frames })
    pub same : length frames ≡ length rx.rx_frames
    pub marked : AreMarked base frame_size d.descs rx.rx_frames frames
    pub valid : IsValid c (record (received rx d.descs) { rx_frames = frames }) d.machine
    pub same_base : valid.base ≡ base

  pub received-Updates :
      (rx : XskRx) (m : Machine World) (d : Checks k lc c rx m) (v : IsValid c rx m)
      → Updates rx m d v.base
  unfolding update_rx_frames
  received-Updates rx m d v =
      let rx1 = received rx d.descs in
      let few = few_frames rx v.area in
      let room : length d.descs ≤ length rx.filled_frames =
        omega (arith, d.few, v.counted, v.buffer) in
      let size1 = length-splice rx.filled_frames 0 d.descs in
      let area1 : IsArea m.mem rx1 = record {
        size_pos = v.area.size_pos;
        fits = v.area.fits;
        inside = v.area.inside;
      } in
      let (frames, run, after, count, same, marked) =
        mark_of_size frame_size v.base m.mem (c.fill.lent m.world) d.descs rx1 v.size area1 v.offset
          v.frames d.were_lent d.fit in
      record {
        frames = frames;
        run =
            rw
              (index_range_lem rx1.filled_frames 0 (length d.descs) (omega arith)
                (omega (arith, size1, room)))
              (rw (slice-splice_zero rx.filled_frames d.descs room) run);
        same = same;
        marked = marked;
        valid = record {
          size = v.size;
          base = v.base;
          offset = v.offset;
          area = record {
            size_pos = v.area.size_pos;
            fits = rw same (v.area.fits);
            inside = rw (same, d.took.mem) (v.area.inside);
          };
          buffer = size1 ∙ v.buffer ∙ sym same;
          cursor_in = rw same (v.cursor_in);
          clear = v.clear;
          frames = rw (d.took.lent) after;
          counted = omega (arith, d.few, v.counted, count, same, few);
          accounted = omega (arith, v.accounted, count);
          ring_pos = v.ring_pos;
        };
        same_base = refl;
      }

  -- The packet of the frame at the cursor was delivered, and the frame lent again.
  pub delivered-IsValid :
      (rx : XskRx) (m m' : Machine World) (f : Frame)
      → IsValid c rx m
      → get_elem? rx.rx_frames rx.rx_cursor ≡ some f
      → f.status ≡ FrameStatus.filled
      → length m'.mem ≡ length m.mem
      → c.fill.lent m'.world ≡ with_ (c.fill.lent m.world) (chunk frame_size f.addr)
      → IsValid c (delivered rx f) m'
  delivered-IsValid rx m m' f v found filled mem held =
      let i = rx.rx_cursor in
      let g = set_status f FrameStatus.free in
      let few = few_frames rx v.area in
      let same = length-set rx.rx_frames i g in
      let old = v.frames.each i f found in
      let here = old.placed in
      let one : packets f.status ≡ 1 = rw filled refl in
      let count = undelivered-set rx.rx_frames i f g found in
      record {
        size = v.size;
        base = v.base;
        offset = v.offset;
        area = record {
          size_pos = v.area.size_pos;
          fits = rw same (v.area.fits);
          inside = rw (same, mem) (v.area.inside);
        };
        buffer = v.buffer ∙ sym same;
        cursor_in = rw same (mod-lt (add64 rx.rx_cursor 1) (omega (arith, v.cursor_in)));
        clear = v.clear;
        frames = rw held (
            AreFrames-set frame_size v.base (c.fill.lent m.world)
              (with_ (c.fill.lent m.world) (chunk frame_size f.addr)) rx.rx_frames i g v.frames
              v.cursor_in (record { placed = here; agrees = inr (refl, ground (arith, here)) })
              (λ j other. ground (arith, here, other)) (λ a q. ground (arith, here, q)));
        counted = omega (arith, v.counted, count, one, same, few);
        accounted = omega (arith, v.accounted, count, one);
        ring_pos = v.ring_pos;
      }
