-- ===== src/Umem/CompQueue/Consume.antt =====
-- What `CompQueue::consume` returns: the granted entries, in order, at the front of the buffer.
use xdpsock.Prelude.{
  ℕ, zero, suc, ◌+◌, ◌≤◌, ◌≡◌, refl, ◌∙◌, ap, sym, lt→ltb, List, [], ◌∷◌, ret, length, set, splice,
  splice-nil, splice-set, length-set, as_u32, add32, arith,
}
use xdpsock.Kernel.{Kernel, Machine}
use xdpsock.Kernel.Laws.{IsConsRing}
use xdpsock.Umem.CompQueue.{load_addrs, consume}

module _ (k : Kernel) where
  open k use {World, comp_ring}

  -- The `n` addresses that stand on the ring from round `i` on.
  abbrev pub entries : ℕ → ℕ → ℕ → World → List ℕ
  entries zero i idx w = []
  entries (suc n) i idx w = comp_ring.load (add32 idx (as_u32 i)) w ∷ entries n (suc i) idx w

  pub length-entries : (n i idx : ℕ) (w : World) → length (entries n i idx w) ≡ n
  length-entries zero i idx w = refl
  length-entries (suc n) i idx w = ap suc (length-entries n (suc i) idx w)

  load_addrs_lem :
      (n i idx : ℕ) (w : World) (xs : List ℕ)
      → i + n ≤ length xs
      → load_addrs k n i idx w xs ≡ ret (splice xs i (entries n i idx w))
  unfolding load_addrs
  load_addrs_lem zero i idx w xs h = ap ret (sym (splice-nil xs i))
  load_addrs_lem (suc n) i idx w xs h =
      let e = comp_ring.load (add32 idx (as_u32 i)) w in
      rw (lt→ltb i (length xs) (omega arith)) (
        load_addrs_lem n (suc i) idx w (set xs i e) (omega (arith, length-set xs i e))
        ∙ ap ret (splice-set xs i e (entries n (suc i) idx w)))

  -- The addresses that one call of `consume` takes off the ring.
  abbrev pub consumed : ℕ → Machine World → List ℕ
  consumed n_frames m =
      let (g, m') = comp_ring.peek n_frames m in entries g.count 0 g.start m'.world

  -- If the buffer has room for all that was asked for, `CompQueue::consume` does not panic: it
  -- returns the number of addresses taken, writes exactly them, in order, over the front of the
  -- buffer, and releases their slots; and it never takes more than was asked for.
  pub consume_lem :
      (l : IsConsRing comp_ring) (n_frames : ℕ) (free_frames : List ℕ) (m : Machine World)
      → n_frames ≤ length free_frames
      → let (g, m') = comp_ring.peek n_frames m in
        (consume k n_frames free_frames m
          ≡ ret (
            length (consumed n_frames m),
            splice free_frames 0 (consumed n_frames m),
            record m' { world = comp_ring.release g.count m'.world },
          ))
        × (length (consumed n_frames m) ≤ n_frames)
  unfolding consume
  consume_lem l n_frames free_frames m h =
      let (g, m') = comp_ring.peek n_frames m in
      let le = l.peek_le n_frames m in
      (
        ground (
          arith,
          load_addrs_lem g.count 0 g.start m'.world free_frames,
          length-entries g.count 0 g.start m'.world,
        ),
        omega (arith, length-entries g.count 0 g.start m'.world),
      )
