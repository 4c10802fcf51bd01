-- ===== src/Xsk/Rx/Refill.antt =====
-- The loop that lends received frames to the kernel again ends.
use mathlib.Core.Path.{fun_ext}
use xdpsock.Prelude.{
  ◌/◌, sym, map, length-map, ℕ, zero, suc, ◌≤◌, ◌<◌, ◌≡◌, refl, ap, ◌∙◌, ◌⊎◌, inl, inr, Bool, List,
  ret, ok, length, ==_refl, zero-==_pos, arith,
}
use xdpsock.Kernel.{Kernel, Machine}
use xdpsock.Kernel.Stores.{stores}
use xdpsock.Xsk.Lent.{Lent, with_all}
use xdpsock.Kernel.Laws.{IsProdRing}
use xdpsock.Umem.Frame.{Frame}
use xdpsock.Umem.FillQueue
use xdpsock.Umem.FillQueue.Publish.{addrs, produce_granted, produce_refused}
use xdpsock.Socket.Poll.{Fd, poll_read}
use xdpsock.Xsk.Rx.{refill}

-- The number of the piece of the UMEM that an address is in. The kernel takes a frame for the piece
-- that the address on the fill ring is in.
abbrev pub chunk : ℕ → ℕ → ℕ
chunk frame_size addr = addr / frame_size

abbrev pub chunks : ℕ → List ℕ → List ℕ
chunks frame_size addrs = map (chunk frame_size) addrs

-- The contract of the fill ring and of `poll`, for frames of one size. A submitted frame is the
-- kernel's, and `poll` does not change who holds one. `refusals` bounds how often in a row the ring is still
-- full for a reservation that does not exceed its capacity; `poll` fails only where it is interrupted,
-- and neither grows nor shrinks the UMEM.
pub record FillContract (k : Kernel) (frame_size : ℕ) : Type 0 where
  pub lent : k.World → Lent
  pub refusals : k.World → ℕ
  pub capacity : ℕ
  pub refused_refusals :
      (n : ℕ) (w : k.World)
      → (k.fill_ring.reserve n w).0.count ≡ 0
      → 0 < n
      → n ≤ capacity
      → refusals (k.fill_ring.reserve n w).1 < refusals w
  pub granted_lent :
      (n : ℕ) (addrs : List ℕ) (w : k.World)
      → n ≡ length addrs
      → let (g, w') = k.fill_ring.reserve n w in
        g.count ≡ n
        → (a : ℕ)
        → lent (k.fill_ring.submit g.count (stores k.fill_ring g.start addrs w')) a
          ≡ with_all (lent w) (chunks frame_size addrs) a
  pub refused_lent :
      (n : ℕ) (w : k.World)
      → (k.fill_ring.reserve n w).0.count ≡ 0
      → (a : ℕ) → lent (k.fill_ring.reserve n w).1 a ≡ lent w a
  pub poll_ok :
      (fd : Fd) (timeout : ℕ) (m : Machine k.World)
      → (ready : Bool) × ((poll_read k fd timeout m).0 ≡ ok ready)
  pub poll_lent :
      (fd : Fd) (timeout : ℕ) (m : Machine k.World) (a : ℕ)
      → lent (poll_read k fd timeout m).1.world a ≡ lent m.world a
  pub poll_refusals :
      (fd : Fd) (timeout : ℕ) (m : Machine k.World)
      → refusals (poll_read k fd timeout m).1.world ≤ refusals m.world
  pub poll_mem :
      (fd : Fd) (timeout : ℕ) (m : Machine k.World)
      → length (poll_read k fd timeout m).1.mem ≡ length m.mem

module _ (k : Kernel) (size : ℕ) (l : IsProdRing k.fill_ring size) {frame_size : ℕ}
    (c : FillContract k frame_size) where
  open k use {World, fill_ring}

  pub woken_cases :
      (descs : List Frame) (fd : Fd) (timeout : ℕ) (m : Machine World) (n : ℕ) (w : World)
      → FillQueue.produce k descs m.world ≡ (n, w)
      → let m1 = record m { world = w } in
        (FillQueue.produce_and_wakeup k descs fd timeout m ≡ (ok n, m1))
        ⊎ (FillQueue.produce_and_wakeup k descs fd timeout m
            ≡ (ok n, (poll_read k fd timeout m1).1))
  unfolding FillQueue.produce_and_wakeup FillQueue.wakeup
  woken_cases descs fd timeout m n w e =
      let (ready, polled) = c.poll_ok fd timeout (record m { world = w }) in
      rw (e, FillQueue.produce_and_wakeup) (ground (arith, polled))

  -- Waking the kernel up, or not, changes neither the count nor who holds what nor the size of the memory.
  woken :
      (descs : List Frame) (fd : Fd) (timeout : ℕ) (m : Machine World) (n : ℕ) (w : World)
      → FillQueue.produce k descs m.world ≡ (n, w)
      → let (produced, m') = FillQueue.produce_and_wakeup k descs fd timeout m in
        (produced ≡ ok n)
        × (c.refusals m'.world ≤ c.refusals w)
        × (length m'.mem ≡ length m.mem)
        × (c.lent m'.world ≡ c.lent w)
  woken descs fd timeout m n w e =
      let m1 = record m { world = w } in
      elim (woken_cases descs fd timeout m n w e) [
        | inl same ↦ rw same (refl, omega arith, refl, refl)
        | inr polled ↦ rw polled (
          refl,
          c.poll_refusals fd timeout m1,
          c.poll_mem fd timeout m1,
          fun_ext (c.poll_lent fd timeout m1),
        )
      ]

  grant :
      (w : World) (descs : List Frame)
      → let (g, w') = fill_ring.reserve (length descs) w in
        g.count ≡ length descs
        → c.lent (fill_ring.submit g.count (stores fill_ring g.start (addrs k descs) w'))
          ≡ with_all (c.lent w) (chunks frame_size (addrs k descs))
  grant w descs all = fun_ext (
      c.granted_lent (length descs) (addrs k descs) w
        (sym (length-map (λ (f : Frame). f.addr) descs)) all)

  -- Under the contract of the fill ring and of `poll`, with at least one frame, no more frames than
  -- the ring's capacity and more fuel than refusals of the ring to come, the loop that lends frames
  -- again ends without a panic. The kernel holds the frames then, beside what it held, and the size
  -- of the memory stays.
  pub refill_lem :
      (fuel : ℕ) (fd : Fd) (timeout : ℕ) (descs : List Frame) (m : Machine World)
      → 0 < length descs
      → length descs ≤ c.capacity
      → c.refusals m.world < fuel
      → (m' : Machine World) × (refill k fuel fd timeout descs (length descs) m ≡ ret m')
        × (length m'.mem ≡ length m.mem)
        × (c.lent m'.world ≡ with_all (c.lent m.world) (chunks frame_size (addrs k descs)))
  unfolding refill
  refill_lem zero fd timeout descs m pos le h = absurd (omega arith)
  refill_lem (suc fuel) fd timeout descs m pos le h =
      elim (l.reserve_all_or_none (length descs) m.world) [
        | inl all ↦
            let (run, fewer, mem, held) =
              woken descs fd timeout m _ _ (produce_granted k descs m.world all pos) in
            (
              (FillQueue.produce_and_wakeup k descs fd timeout m).1,
              rw (run ∙ ap ok all, refill) (rw (==_refl (length descs)) refl),
              mem,
              held ∙ grant m.world descs all,
            )
        | inr none_free ↦
            let m1 = (FillQueue.produce_and_wakeup k descs fd timeout m).1 in
            let (run, fewer, mem, held) =
              woken descs fd timeout m _ _ (produce_refused k descs m.world none_free pos) in
            let (m', rest, mem', held') =
              refill_lem fuel fd timeout descs m1 pos le (
                omega (arith, fewer, c.refused_refusals (length descs) m.world none_free pos le)) in
            (
              m',
              rw (run, refill) (rw (zero-==_pos (length descs) pos) rest),
              mem' ∙ mem,
              held'
                  ∙ ap (λ (x : Lent). with_all x (chunks frame_size (addrs k descs)))
                      (held ∙ fun_ext (c.refused_lent (length descs) m.world none_free)),
            )
      ]
