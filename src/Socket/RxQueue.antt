-- ===== src/Socket/RxQueue.antt =====
-- `RxQueue` of src/socket/socket.rs: received frames come from the kernel.
pub mod Consume
use xdpsock.Prelude.{
  ℕ, zero, suc, true, false, List, [], ◌∷◌, Result, ok, err, add32, ltb, ◌==◌, if◌then◌else◌,
}
use xdpsock.Kernel.{Kernel, Machine, Desc}
use xdpsock.Socket.Poll.{Fd, poll_read}

pub record RxQueue : Type 0 where
  pub fd : Fd

module _ (k : Kernel) where
  open k use {World, rx_ring}

  -- The loop of `consume`: the first `n` of `descs` are written, as far as `descs` goes.
  unfoldable pub load_descs : ℕ → ℕ → World → List Desc → List Desc
  load_descs zero idx w descs = descs
  load_descs (suc n) idx w [] = []
  load_descs (suc n) idx w (desc ∷ descs) = rx_ring.load idx w ∷ load_descs n (add32 idx 1) w descs

  -- How many were received, `descs` after the call, and the machine.
  unfoldable pub consume : ℕ → List Desc → Machine World → ℕ × List Desc × Machine World
  consume n_recv descs m =
      if n_recv == 0
      then (0, descs, m)
      else let (g, m') = rx_ring.peek n_recv m in
        if ltb 0 g.count
        then (
          g.count,
          load_descs g.count g.start m'.world descs,
          record m' { world = rx_ring.release g.count m'.world },
        )
        else (g.count, descs, m')

  unfoldable pub poll_and_consume :
      RxQueue → ℕ → List Desc → ℕ → Machine World → Result ℕ (ℕ × List Desc) × Machine World
  poll_and_consume q n_recv descs timeout m =
      let (ready, m') = poll_read k q.fd timeout m in
      elim ready [
        | err errno ↦ (err errno, m')
        | ok true ↦ (let (n, descs', m'') = consume n_recv descs m' in (ok (n, descs'), m''))
        | ok false ↦ (ok (0, descs), m')
      ]
