-- ===== src/Socket/TxQueue.antt =====
-- `TxQueue` of src/socket/socket.rs: frames go to the kernel to be sent.
pub mod Publish
pub mod Wakeup
use xdpsock.Prelude.{
  ℕ, Bool, true, false, ◌||◌, not, List, [], ◌∷◌, Result, ok, err, length, take, as_u32, add32, ltb,
  ◌==◌, if◌then◌else◌,
}
use xdpsock.Kernel.{Kernel, Machine, Grant, Desc, ProdRing}
use xdpsock.Umem.Frame.{Frame}
use xdpsock.Socket.Poll.{Fd}

pub record TxQueue : Type 0 where
  pub fd : Fd

-- The entry that `produce` writes for a frame; `desc.len() as u32` cuts the length to 32 bits.
abbrev pub tx_desc : Frame → Desc
tx_desc desc = record { addr = desc.addr; len = as_u32 desc.len; options = desc.options }

module _ (k : Kernel) where
  open k use {World, tx_ring}

  -- The loop of `produce`.
  unfoldable pub store_descs : ℕ → List Frame → World → World
  store_descs idx [] w = w
  store_descs idx (desc ∷ descs) w =
      store_descs (add32 idx 1) descs (tx_ring.store idx (tx_desc desc) w)

  unfoldable pub produce : List Frame → World → ℕ × World
  produce descs w =
      let nb = length descs in
      if nb == 0
      then (0, w)
      else let (g, w') = tx_ring.reserve nb w in
        if ltb 0 g.count
        then (g.count, tx_ring.submit g.count (store_descs g.start (take g.count descs) w'))
        else (g.count, w')

  unfoldable pub needs_wakeup : World → Bool
  needs_wakeup w = not (tx_ring.needs_wakeup w == 0)

  -- `ENOBUFS | EAGAIN | EBUSY | ENETDOWN`
  is_transient : ℕ → Bool
  is_transient errno =
      errno == k.enobufs || (errno == k.eagain || (errno == k.ebusy || errno == k.enetdown))

  after_sendto : Result ℕ ℕ → Result ℕ (Unit {0})
  unfolding is_transient
  after_sendto (ok n) = ok tt
  after_sendto (err errno) = if is_transient errno then ok tt else err errno

  unfoldable pub wakeup : TxQueue → Machine World → Result ℕ (Unit {0}) × Machine World
  unfolding after_sendto
  wakeup q m = let (sent, m') = k.sendto q.fd.id m in (after_sendto sent, m')

  unfoldable pub produce_and_wakeup :
      TxQueue → List Frame → Machine World → Result ℕ ℕ × Machine World
  unfolding needs_wakeup wakeup
  produce_and_wakeup q descs m =
      let (cnt, w') = produce descs m.world in
      let m' = record m { world = w' } in
      if needs_wakeup w'
      then (let (woken, m'') = wakeup q m' in
          elim woken [ err errno ↦ (err errno, m'') | ok _ ↦ (ok cnt, m'') ])
      else (ok cnt, m')
