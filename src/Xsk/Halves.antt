-- ===== src/Xsk/Halves.antt =====
-- The two halves of one socket work on one machine, and leave each other alone.
pub mod Receiving
pub mod Sending
pub mod Exchange
use xdpsock.Prelude.{ℕ, ◌*◌, ◌+◌, ◌≤◌, ◌≡◌, refl, ◌∙◌, List, length}
use xdpsock.Kernel.{Kernel, Machine, Desc}
use xdpsock.Kernel.Laws.{IsProdRing, IsConsRing}
use xdpsock.Kernel.Stores.{stores}
use xdpsock.Socket.Poll.{Fd, poll_read}
use xdpsock.Socket.RxQueue.Consume.{after_taken}
use xdpsock.Xsk.Tx.Lent.{TxContract}
use xdpsock.Xsk.Tx.Transcript.{Transcript}
use xdpsock.Xsk.Tx.Session.{LeavesTx}
use xdpsock.Xsk.Rx.Contract.{RxContract}
use xdpsock.Xsk.Rx.Fifo.{FifoContract}
use xdpsock.Xsk.Rx.InOrder.Receipts.{LeavesRx}

module _ (k : Kernel) (size : ℕ) (l : IsProdRing k.tx_ring size) (lc : IsConsRing k.comp_ring)
    (c : TxContract k) (t : Transcript k) where
  open k use {World}

  -- Nothing of the transmit end changes in the kernel.
  pub record KeepsTx (w w' : World) : Type 0 where
    pub lent : (a : ℕ) → c.lent w' a ≡ c.lent w a
    pub handed : t.handed w' ≡ t.handed w

  -- The fill ring, the rx ring and `poll` are apart from the tx ring and the completion ring: their
  -- use lends and hands over nothing to be sent, and what is received goes to other frames.
  pub record RxApart : Type 0 where
    pub granted :
        (n : ℕ) (es : List ℕ) (w : World)
        → n ≡ length es
        → let (g, w') = k.fill_ring.reserve n w in
          g.count ≡ n → KeepsTx w (k.fill_ring.submit g.count (stores k.fill_ring g.start es w'))
    pub refused :
        (n : ℕ) (w : World)
        → (k.fill_ring.reserve n w).0.count ≡ 0
        → KeepsTx w (k.fill_ring.reserve n w).1
    pub taken : (n : ℕ) (m : Machine World) → LeavesTx k size l lc c t m (after_taken k n m)
    pub peeked : (n : ℕ) (m : Machine World) → LeavesTx k size l lc c t m (k.rx_ring.peek n m).1
    pub polled :
        (fd : Fd) (timeout : ℕ) (m : Machine World)
        → LeavesTx k size l lc c t m (poll_read k fd timeout m).1

  pub LeavesTx-trans :
      (m m' m'' : Machine World)
      → LeavesTx k size l lc c t m m'
      → LeavesTx k size l lc c t m' m''
      → LeavesTx k size l lc c t m m''
  LeavesTx-trans m m' m'' p q = record {
    lent = λ a. q.lent a ∙ p.lent a;
    handed = q.handed ∙ p.handed;
    area = q.area ∙ p.area;
    mapped = q.mapped ∙ p.mapped;
  }

  pub KeepsTx-LeavesTx :
      (m : Machine World) (w : World)
      → KeepsTx m.world w
      → LeavesTx k size l lc c t m (record m { world = w })
  KeepsTx-LeavesTx m w p = record { lent = p.lent; handed = p.handed; area = refl; mapped = refl }

module _ (k : Kernel) (rx_size : ℕ) (rl : IsProdRing k.fill_ring rx_size)
    (rlc : IsConsRing k.rx_ring) {frame_size : ℕ} (rc : RxContract k frame_size)
    (o : FifoContract rc) where
  open k use {World}

  -- Nothing of the receiving end changes in the kernel.
  pub record KeepsRx (w w' : World) : Type 0 where
    pub lent : (a : ℕ) → rc.fill.lent w' a ≡ rc.fill.lent w a
    pub order : o.order w' ≡ o.order w

  -- The tx ring, the completion ring and `sendto` are apart from the fill ring and the rx ring: their
  -- use neither lends nor gives back a frame to receive into, and writes to none that the kernel does
  -- not hold. The receive frames begin at piece `base`.
  pub record TxApart (base : ℕ) : Type 0 where
    pub granted :
        (n : ℕ) (es : List Desc) (w : World)
        → n ≡ length es
        → let (g, w') = k.tx_ring.reserve n w in
          g.count ≡ n → KeepsRx w (k.tx_ring.submit g.count (stores k.tx_ring g.start es w'))
    pub refused :
        (n : ℕ) (w : World)
        → (k.tx_ring.reserve n w).0.count ≡ 0
        → KeepsRx w (k.tx_ring.reserve n w).1
    pub completed :
        (n : ℕ) (m : Machine World)
        → let (g, m') = k.comp_ring.peek n m in
          LeavesRx k rx_size rl rlc rc o base m
            (record m' { world = k.comp_ring.release g.count m'.world })
    pub sent :
        (fd : ℕ) (m : Machine World) → LeavesRx k rx_size rl rlc rc o base m (k.sendto fd m).1

  pub LeavesRx-trans :
      (base : ℕ) (m m' m'' : Machine World)
      → LeavesRx k rx_size rl rlc rc o base m m'
      → LeavesRx k rx_size rl rlc rc o base m' m''
      → LeavesRx k rx_size rl rlc rc o base m m''
  LeavesRx-trans base m m' m'' p q = record {
    lent = λ a. q.lent a ∙ p.lent a;
    order = q.order ∙ p.order;
    bytes = λ i a b low lo le hi free.
        q.bytes i a b low lo le hi (p.lent i ∙ free) ∙ p.bytes i a b low lo le hi free;
    mapped = q.mapped ∙ p.mapped;
  }

  pub KeepsRx-LeavesRx :
      (base : ℕ) (m : Machine World) (w : World)
      → KeepsRx m.world w
      → LeavesRx k rx_size rl rlc rc o base m (record m { world = w })
  KeepsRx-LeavesRx base m w p = record {
    lent = p.lent;
    order = p.order;
    bytes = λ i a b low lo le hi free. refl;
    mapped = refl;
  }
