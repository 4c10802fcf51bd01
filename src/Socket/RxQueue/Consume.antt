-- ===== src/Socket/RxQueue/Consume.antt =====
-- What `RxQueue::consume` returns: the granted descriptors, in order, at the front of the buffer.
use native.Mathlib.Decide.{ℕ_discrete}
use xdpsock.Prelude.{
  inl, inr, ℕ, zero, suc, ◌≤◌, ◌≡◌, refl, sym, ap, ◌⊎◌, List, [], ◌∷◌, length, splice, splice-nil,
  add32, arith,
}
use xdpsock.Kernel.{Kernel, Machine, Desc}
use xdpsock.Kernel.Laws.{IsConsRing}
use xdpsock.Socket.RxQueue.{load_descs, consume}

module _ (k : Kernel) where
  open k use {World, rx_ring}

  -- The `n` descriptors that stand on the ring from index `idx` on.
  abbrev pub entries : ℕ → ℕ → World → List Desc
  entries zero idx w = []
  entries (suc n) idx w = rx_ring.load idx w ∷ entries n (add32 idx 1) w

  pub length-entries : (n idx : ℕ) (w : World) → length (entries n idx w) ≡ n
  length-entries zero idx w = refl
  length-entries (suc n) idx w = ap suc (length-entries n (add32 idx 1) w)

  load_descs_lem :
      (n idx : ℕ) (w : World) (descs : List Desc)
      → n ≤ length descs
      → load_descs k n idx w descs ≡ splice descs 0 (entries n idx w)
  unfolding load_descs
  load_descs_lem zero idx w descs h = sym (splice-nil descs 0)
  load_descs_lem (suc n) idx w [] h = absurd (omega arith)
  load_descs_lem (suc n) idx w (d ∷ descs) h =
      ap (◌∷◌ (rx_ring.load idx w)) (load_descs_lem n (add32 idx 1) w descs (omega arith))

  -- The descriptors that one call of `consume` takes off the ring.
  abbrev pub taken : ℕ → Machine World → List Desc
  taken n_recv m = let (g, m') = rx_ring.peek n_recv m in entries g.count g.start m'.world

  -- The machine after that.
  abbrev pub after_taken : ℕ → Machine World → Machine World
  after_taken n_recv m =
      let (g, m') = rx_ring.peek n_recv m in record m' { world = rx_ring.release g.count m'.world }

  -- Something was taken, or nothing was asked for, or the ring granted nothing.
  pub rx_consume_lem :
      (l : IsConsRing rx_ring) (n_recv : ℕ) (descs : List Desc) (m : Machine World)
      → n_recv ≤ length descs
      → ((length (taken n_recv m) ≤ n_recv)
          × (consume k n_recv descs m
              ≡ (length (taken n_recv m), splice descs 0 (taken n_recv m), after_taken n_recv m)))
        ⊎ (consume k n_recv descs m ≡ (0, descs, m))
        ⊎ (((rx_ring.peek n_recv m).0.count ≡ 0)
            × (consume k n_recv descs m ≡ (0, descs, (rx_ring.peek n_recv m).1)))
  unfolding consume
  rx_consume_lem l n_recv descs m room =
      let (g, m') = rx_ring.peek n_recv m in
      let le = l.peek_le n_recv m in
      let number = length-entries g.count g.start m'.world in
      elim (ℕ_discrete n_recv 0) [
        | yes none_wanted ↦ inr (inl (ground (arith, none_wanted)))
        | no wanted ↦ elim (ℕ_discrete g.count 0) [
          | yes none_there ↦ inr (inr (none_there, ground (arith, wanted, none_there)))
          | no some_there ↦ inl (
            omega (arith, number, le),
            ground
                (arith, wanted, some_there, number, load_descs_lem g.count g.start m'.world descs),
          )
        ]
      ]
