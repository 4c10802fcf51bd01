-- ===== src/Umem/FillQueue/Publish.antt =====
-- What `FillQueue::produce` puts on the fill ring.
use mathlib.Core.Path.{subst}
use xdpsock.Prelude.{
  ℕ, ◌<◌, ◌≡◌, refl, sym, inl, inr, List, [], ◌∷◌, map, length, add32, arith, length-map,
  take-length,
}
use xdpsock.Kernel.{Kernel}
use xdpsock.Kernel.Laws.{IsProdRing}
use xdpsock.Kernel.Stores.{stores, AllOrNone, reserve-submit-stores}
use xdpsock.Umem.Frame.{Frame}
use xdpsock.Umem.FillQueue.{store_addrs, produce}

module _ (k : Kernel) where
  open k use {World, fill_ring}

  abbrev pub addrs : List Frame → List ℕ
  addrs = map λ f. f.addr

  store_addrs_lem :
      (idx : ℕ) (descs : List Frame) (w : World)
      → store_addrs k idx descs w ≡ stores fill_ring idx (addrs descs) w
  unfolding store_addrs
  store_addrs_lem idx [] w = refl
  store_addrs_lem idx (f ∷ descs) w =
      store_addrs_lem (add32 idx 1) descs (fill_ring.store idx f.addr w)

  pub produce_granted :
      (descs : List Frame) (w : World)
      → let (g, w') = fill_ring.reserve (length descs) w in
        g.count ≡ length descs
        → 0 < length descs
        → produce k descs w
          ≡ (g.count, fill_ring.submit g.count (stores fill_ring g.start (addrs descs) w'))
  unfolding produce
  produce_granted descs w all pos =
      let (g, w') = fill_ring.reserve (length descs) w in
      ground (arith, store_addrs_lem g.start descs w', take-length descs)

  pub produce_refused :
      (descs : List Frame) (w : World)
      → let (g, w') = fill_ring.reserve (length descs) w in
        g.count ≡ 0 → 0 < length descs → produce k descs w ≡ (0, w')
  unfolding produce
  produce_refused descs w none_free pos = ground arith

  produce_empty : (descs : List Frame) (w : World) → length descs ≡ 0 → produce k descs w ≡ (0, w)
  unfolding produce
  produce_empty descs w none_asked = ground arith

  module _ (size : ℕ) (l : IsProdRing fill_ring size) where
    -- `FillQueue::produce` hands over the addresses of all the frames, in order and behind the old
    -- tail of the fill ring, and returns their number; or it returns 0 and leaves the ring as it
    -- was.
    pub produce-AllOrNone_addrs :
        (descs : List Frame) (w : World)
        → let (n, w') = produce k descs w in AllOrNone fill_ring size l (addrs descs) w n w'
    produce-AllOrNone_addrs [] w =
        subst (λ p. AllOrNone fill_ring size l [] w p.0 p.1) (sym (produce_empty [] w refl))
          (inr (refl, refl, λ i. refl))
    produce-AllOrNone_addrs (f ∷ descs) w = elim (l.reserve_all_or_none (length (f ∷ descs)) w) [
      | inl all ↦
          subst (λ p. AllOrNone fill_ring size l (addrs (f ∷ descs)) w p.0 p.1)
            (sym (produce_granted (f ∷ descs) w all (omega arith)))
            (reserve-submit-stores fill_ring size l (length (f ∷ descs)) (addrs (f ∷ descs)) w
              (sym (length-map (λ (g : Frame). g.addr) (f ∷ descs))) all (omega arith))
      | inr none_free ↦
          subst (λ p. AllOrNone fill_ring size l (addrs (f ∷ descs)) w p.0 p.1)
            (sym (produce_refused (f ∷ descs) w none_free (omega arith)))
            (inr
              (refl, l.reserve_tail (length (f ∷ descs)) w, l.reserve_slot (length (f ∷ descs)) w))
    ]
