-- ===== src/Xsk/Tx/Lent.antt =====
-- Which addresses the kernel holds for transmission, and what the transmit end relies on of it.
use xdpsock.Prelude.{ℕ, ◌≤◌, ◌<◌, ◌≡◌, List, map, ok, length}
use xdpsock.Xsk.Lent.{Lent, without_all, with_all, AreLent}
use xdpsock.Kernel.{Kernel, Machine, Desc}
use xdpsock.Kernel.Stores.{stores}
use xdpsock.Umem.CompQueue.Consume.{consumed}
use xdpsock.Socket.TxQueue
use xdpsock.Socket.TxQueue.{TxQueue}

-- The contract of the tx ring, the completion ring and `sendto`. A submitted frame is the kernel's
-- until its address comes back on the completion ring, which gives back only such addresses, and
-- each once. The kernel neither grows nor shrinks the UMEM. `sendto` fails only with an error that
-- the crate takes for transient. `refusals` bounds how often in a row the tx ring is still full for
-- a reservation that does not exceed its capacity.
pub record TxContract (k : Kernel) : Type 0 where
  pub lent : k.World → Lent
  pub refusals : k.World → ℕ
  pub capacity : ℕ
  pub completed_AreLent : (n : ℕ) (m : Machine k.World) → AreLent (lent m.world) (consumed k n m)
  pub release_lent :
      (n : ℕ) (m : Machine k.World) (a : ℕ)
      → let (g, m') = k.comp_ring.peek n m in
        lent (k.comp_ring.release g.count m'.world) a
        ≡ without_all (lent m.world) (consumed k n m) a
  pub peek_mem : (n : ℕ) (m : Machine k.World) → length (k.comp_ring.peek n m).1.mem ≡ length m.mem
  pub release_refusals :
      (n : ℕ) (m : Machine k.World)
      → let (g, m') = k.comp_ring.peek n m in
        refusals (k.comp_ring.release g.count m'.world) ≤ refusals m.world
  pub granted_lent :
      (n : ℕ) (es : List Desc) (w : k.World)
      → n ≡ length es
      → let (g, w') = k.tx_ring.reserve n w in
        g.count ≡ n
        → (a : ℕ)
        → lent (k.tx_ring.submit g.count (stores k.tx_ring g.start es w')) a
          ≡ with_all (lent w) (map (λ e. e.addr) es) a
  pub refused_lent :
      (n : ℕ) (w : k.World)
      → (k.tx_ring.reserve n w).0.count ≡ 0
      → (a : ℕ) → lent (k.tx_ring.reserve n w).1 a ≡ lent w a
  pub refused_refusals :
      (n : ℕ) (w : k.World)
      → (k.tx_ring.reserve n w).0.count ≡ 0
      → 0 < n
      → n ≤ capacity
      → refusals (k.tx_ring.reserve n w).1 < refusals w
  pub sendto_lent :
      (fd : ℕ) (m : Machine k.World) (a : ℕ) → lent (k.sendto fd m).1.world a ≡ lent m.world a
  pub sendto_refusals :
      (fd : ℕ) (m : Machine k.World) → refusals (k.sendto fd m).1.world ≤ refusals m.world
  pub sendto_mem : (fd : ℕ) (m : Machine k.World) → length (k.sendto fd m).1.mem ≡ length m.mem
  pub wakeup_ok : (q : TxQueue) (m : Machine k.World) → (TxQueue.wakeup k q m).0 ≡ ok tt
