-- ===== src/Umem/CompQueue.antt =====
-- `CompQueue` of src/umem/umem.rs: frames come back from the kernel after transmission.
pub mod Consume
use xdpsock.Prelude.{
  ℕ, zero, suc, List, Outcome, ret, ◌>>=◌, assign, as_u32, add32, ltb, if◌then◌else◌,
}
use xdpsock.Kernel.{Kernel, Machine, Grant, ConsRing}

pub record CompQueue : Type 0 where
  pub size : ℕ

module _ (k : Kernel) where
  open k use {World, comp_ring}

  -- The loop of `consume` from round `i` on, with `n` rounds left.
  unfoldable pub load_addrs : ℕ → ℕ → ℕ → World → List ℕ → Outcome (List ℕ)
  load_addrs zero i idx w free_frames = ret free_frames
  load_addrs (suc n) i idx w free_frames =
      assign free_frames i (comp_ring.load (add32 idx (as_u32 i)) w) >>= load_addrs n (suc i) idx w

  -- How many entries were consumed, `free_frames` after the call, and the machine.
  unfoldable pub consume : ℕ → List ℕ → Machine World → Outcome (ℕ × List ℕ × Machine World)
  consume n_frames free_frames m = do
    let (g, m') = comp_ring.peek n_frames m
    free_frames' ← load_addrs g.count 0 g.start m'.world free_frames
    ret (g.count, free_frames', record m' { world = comp_ring.release g.count m'.world })
