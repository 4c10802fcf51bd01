-- ===== src/Xsk/Rx/Valid/Finish.antt =====
-- The end of `recv`, behind its look at the rx ring.
use xdpsock.Prelude.{
  ℕ, ◌+◌, ◌*◌, ◌%◌, ◌^◌, ◌≤◌, ◌<◌, ◌≡◌, ◌≢◌, refl, ap, ◌∙◌, ◌⊎◌, inl, inr, true, false, List, [],
  ◌∷◌, Outcome, ret, ◌>>=◌, index, length, slice, splice, get_elem?, get_elem?-some, some, add64,
  arith,
}
use xdpsock.Kernel.{Kernel, Machine}
use xdpsock.Kernel.Laws.{IsConsRing, IsProdRing}
use xdpsock.Umem.Frame.{Frame, FrameStatus}
use xdpsock.Xsk.Rx.{XskRx, deliver, refill}
use xdpsock.Xsk.Rx.Place.{row_le}
use xdpsock.Xsk.Rx.Refill.{chunk}
use xdpsock.Xsk.Rx.Deliver.{delivered, deliver_lem}
use xdpsock.Xsk.Rx.Frames.{packets, chunk_below}
use xdpsock.Xsk.Lent.{with_}
use xdpsock.Xsk.Rx.Contract.{RxContract}
use xdpsock.Xsk.Rx.Valid.{IsValid, few_frames, delivered-IsValid}

module _ (k : Kernel) (size : ℕ) (l : IsProdRing k.fill_ring size) (lc : IsConsRing k.rx_ring)
    {frame_size : ℕ} (c : RxContract k frame_size) where
  open k use {World}

  -- The frame at the cursor has no packet, and nothing is delivered; or the packet that it has is.
  abbrev pub Outcomes :
      ℕ → Frame → List ℕ → XskRx → ℕ → Machine World → ℕ → List ℕ → XskRx → Machine World → Type 0
  Outcomes base f pkt_receiver rx n_frames seen len bytes rx' machine =
      ((f.status ≢ FrameStatus.filled)
        × (c.fill.lent seen.world (base + rx.rx_cursor) ≡ true)
        × (len ≡ 0)
        × (bytes ≡ pkt_receiver)
        × (rx'.rx_cursor ≡ rx.rx_cursor)
        × (rx'.stats.pkts_rx_delivered ≡ rx.stats.pkts_rx_delivered)
        × (machine ≡ seen))
      ⊎ ((f.status ≡ FrameStatus.filled)
          × (c.fill.lent seen.world (base + rx.rx_cursor) ≡ false)
          × (len ≡ f.len)
          × (rx.rx_frame_offset + rx.rx_cursor * frame_size ≤ f.addr)
          × (f.addr + len ≤ rx.rx_frame_offset + rx.rx_cursor * frame_size + frame_size)
          × (bytes ≡ splice pkt_receiver 0 (slice seen.mem f.addr (f.addr + len)))
          × (rx'.rx_cursor ≡ (rx.rx_cursor + 1) % n_frames)
          × (rx'.stats.pkts_rx_delivered ≡ add64 rx.stats.pkts_rx_delivered 1)
          × (c.fill.lent machine.world ≡ with_ (c.fill.lent seen.world) (base + rx.rx_cursor)))

  -- The end of `recv`, behind the look at the rx ring.
  abbrev pub finish :
      ℕ → List ℕ → XskRx → Machine World → Outcome (ℕ × List ℕ × XskRx × Machine World)
  finish fuel pkt_receiver rx m = do
    frame ← index rx.rx_frames rx.rx_cursor
    elim frame.status [
      | FrameStatus.filled ↦ deliver k fuel pkt_receiver frame rx m
      | _ ↦ ret (0, pkt_receiver, rx, m)
    ]

  -- Behind the look nothing happens, or one frame is lent again.
  abbrev pub Lends : ℕ → XskRx → Machine World → Machine World → Type 0
  Lends fuel rx m m' =
      (m' ≡ m) ⊎ ((f : Frame) × (refill k fuel rx.rx_q.fd rx.poll_ms_timeout (f ∷ []) 1 m ≡ ret m'))

  pub record Finishes (fuel base : ℕ) (pkt_receiver : List ℕ) (rx : XskRx) (m : Machine World)
      : Type 0 where
    pub len : ℕ
    pub bytes : List ℕ
    pub rx' : XskRx
    pub machine : Machine World
    pub run : finish fuel pkt_receiver rx m ≡ ret (len, bytes, rx', machine)
    pub valid : IsValid c rx' machine
    pub at : Frame
    pub found : get_elem? rx.rx_frames rx.rx_cursor ≡ some at
    pub outcome : Outcomes base at pkt_receiver rx (length rx.rx_frames) m len bytes rx' machine
    pub lends : Lends fuel rx m machine

  module _ (fuel : ℕ) (pkt_receiver : List ℕ) (rx : XskRx) (m : Machine World)
      (v : IsValid c rx m) where
    -- Where the packet of the frame at the cursor lies.
    pub packet_place :
        (f : Frame)
        → get_elem? rx.rx_frames rx.rx_cursor ≡ some f
        → f.status ≡ FrameStatus.filled
        → (f.addr < 2 ^ 63)
          × (f.addr + f.len ≤ length m.mem)
          × (f.len ≤ frame_size)
          × (rx.rx_frame_offset + rx.rx_cursor * frame_size ≤ f.addr)
          × (f.addr + f.len ≤ rx.rx_frame_offset + rx.rx_cursor * frame_size + frame_size)
    packet_place f found filled =
        let at = v.frames.each rx.rx_cursor f found in
        let pos : 0 < frame_size = omega (arith, v.area.size_pos, v.size) in
        let (lo, hi) = chunk_below frame_size f.addr pos in
        let piece : chunk frame_size f.addr * frame_size ≡ (v.base + rx.rx_cursor) * frame_size =
          ap (λ (n : ℕ). n * frame_size) at.placed in
        let row : (v.base + rx.rx_cursor) * frame_size
            ≡ v.base * frame_size + rx.rx_cursor * frame_size =
          grind arith in
        let one : packets f.status ≡ 1 = rw filled refl in
        let ends : f.addr + f.len ≤ (v.base + rx.rx_cursor) * frame_size + frame_size =
          elim at.agrees [
            | inl (e, unlent, fit) ↦ fit
            | inr (e, held) ↦ absurd (omega (arith, one, e))
          ] in
        let below = row_le rx.rx_cursor (length rx.rx_frames) frame_size v.cursor_in in
        let whole = ap (λ (n : ℕ). length rx.rx_frames * n) v.size in
        (
          omega (arith, v.area.fits, hi, piece, row, v.offset, below, whole),
          omega (arith, v.area.inside, ends, row, v.offset, below, whole),
          omega (arith, lo, piece, ends),
          omega (arith, lo, piece, row, v.offset),
          omega (arith, ends, row, v.offset),
        )

    finish_filled :
        (f : Frame)
        → get_elem? rx.rx_frames rx.rx_cursor ≡ some f
        → f.status ≡ FrameStatus.filled
        → frame_size ≤ length pkt_receiver
        → c.fill.refusals m.world < fuel
        → Finishes fuel v.base pkt_receiver rx m
    finish_filled f found filled room enough =
        let (small, inside, short, lo, hi) = packet_place f found filled in
        let (m', run, mem, held, refilled) =
          deliver_lem k size l c.fill fuel pkt_receiver f rx m found small inside
            (omega (arith, short, room)) v.ring_pos enough in
        record {
          len = f.len;
          bytes = splice pkt_receiver 0 (slice m.mem f.addr (f.addr + f.len));
          rx' = delivered rx f;
          machine = m';
          run = rw found (rw filled run);
          valid = delivered-IsValid k lc c rx m m' f v found filled mem held;
          at = f;
          found = found;
          outcome = inr (
            filled,
            elim ((v.frames.each rx.rx_cursor f found).agrees) [
              | inl (e, unlent, fit) ↦ unlent
              | inr (e, lent) ↦ absurd (omega (arith, e, ap packets filled))
            ],
            refl,
            lo,
            hi,
            refl,
            ap (λ (n : ℕ). n % length rx.rx_frames)
                (omega (arith, few_frames rx v.area, v.cursor_in)),
            refl,
            held ∙ ap (with_ (c.fill.lent m.world)) ((v.frames.each rx.rx_cursor f found).placed),
          );
          lends = inr (f, refilled);
        }

    finish_other :
        (f : Frame)
        → get_elem? rx.rx_frames rx.rx_cursor ≡ some f
        → packets f.status ≡ 0
        → finish fuel pkt_receiver rx m ≡ ret (0, pkt_receiver, rx, m)
        → Finishes fuel v.base pkt_receiver rx m
    finish_other f found none_there run = record {
      len = 0;
      bytes = pkt_receiver;
      rx' = rx;
      machine = m;
      run = run;
      valid = v;
      at = f;
      found = found;
      outcome = inl (
        λ filled. absurd (omega (arith, none_there, ap packets filled)),
        elim ((v.frames.each rx.rx_cursor f found).agrees) [
          | inl (e, unlent, fit) ↦ absurd (omega (arith, e, none_there))
          | inr (e, held) ↦ held
        ],
        refl,
        refl,
        refl,
        refl,
        refl,
      );
      lends = inl refl;
    }

    -- The end of `recv` returns at a valid state.
    pub finish_lem :
        frame_size ≤ length pkt_receiver
        → c.fill.refusals m.world < fuel
        → Finishes fuel v.base pkt_receiver rx m
    finish_lem room enough =
        let (f, found) = get_elem?-some rx.rx_frames rx.rx_cursor v.cursor_in in
        go f found f.status refl
      where
        go :
            (f : Frame)
            → get_elem? rx.rx_frames rx.rx_cursor ≡ some f
            → (s : FrameStatus) → f.status ≡ s
            → Finishes fuel v.base pkt_receiver rx m
        go f found FrameStatus.filled e = finish_filled f found e room enough
        go f found FrameStatus.free e = finish_other f found (ap packets e) (rw found (rw e refl))
        go f found FrameStatus.on_tx_queue e =
            finish_other f found (ap packets e) (rw found (rw e refl))
        go f found FrameStatus.on_fill_queue e =
            finish_other f found (ap packets e) (rw found (rw e refl))
