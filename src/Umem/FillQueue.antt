-- ===== src/Umem/FillQueue.antt =====
-- `FillQueue` of src/umem/umem.rs: frames go to the kernel to be filled.
pub mod Publish
use xdpsock.Prelude.{
  ℕ, zero, Bool, true, false, ◌&&◌, not, List, [], ◌∷◌, Result, ok, err, length, take, add32, ltb,
  ◌==◌, if◌then◌else◌,
}
use xdpsock.Kernel.{Kernel, Machine, Grant, ProdRing}
use xdpsock.Umem.Frame.{Frame}
use xdpsock.Socket.Poll.{Fd, poll_read}

pub record FillQueue : Type 0 where
  pub size : ℕ

module _ (k : Kernel) where
  open k use {World, fill_ring}

  -- The loop of `produce`: `*_xsk_ring_prod__fill_addr(.., idx) = desc.addr; idx += 1`.
  unfoldable pub store_addrs : ℕ → List Frame → World → World
  store_addrs idx [] w = w
  store_addrs idx (desc ∷ descs) w =
      store_addrs (add32 idx 1) descs (fill_ring.store idx desc.addr w)

  unfoldable pub produce : List Frame → World → ℕ × World
  produce descs w =
      let nb = length descs in
      if nb == 0
      then (0, w)
      else let (g, w') = fill_ring.reserve nb w in
        if ltb 0 g.count
        then (g.count, fill_ring.submit g.count (store_addrs g.start (take g.count descs) w'))
        else (g.count, w')

  unfoldable pub needs_wakeup : World → Bool
  needs_wakeup w = not (fill_ring.needs_wakeup w == 0)

  unfoldable pub wakeup : Fd → ℕ → Machine World → Result ℕ (Unit {0}) × Machine World
  wakeup fd timeout m =
      let (ready, m') = poll_read k fd timeout m in
      elim ready [ err errno ↦ (err errno, m') | ok _ ↦ (ok tt, m') ]

  unfoldable pub produce_and_wakeup :
      List Frame → Fd → ℕ → Machine World → Result ℕ ℕ × Machine World
  unfolding needs_wakeup wakeup
  produce_and_wakeup descs fd timeout m =
      let (cnt, w') = produce descs m.world in
      let m' = record m { world = w' } in
      if ltb 0 cnt && needs_wakeup w'
      then (let (woken, m'') = wakeup fd timeout m' in
          elim woken [ err errno ↦ (err errno, m'') | ok _ ↦ (ok cnt, m'') ])
      else (ok cnt, m')
