-- ===== src/Socket/TxQueue/Publish.antt =====
-- What `TxQueue::produce` puts on the tx ring.
use xdpsock.Prelude.{ℕ, ◌<◌, ◌≡◌, refl, List, [], ◌∷◌, map, length, add32, arith, take-length}
use xdpsock.Kernel.{Kernel, Desc}
use xdpsock.Kernel.Stores.{stores}
use xdpsock.Umem.Frame.{Frame}
use xdpsock.Socket.TxQueue.{tx_desc, store_descs, produce}

module _ (k : Kernel) where
  open k use {World, tx_ring}

  abbrev pub tx_descs : List Frame → List Desc
  tx_descs = map tx_desc

  store_descs_lem :
      (idx : ℕ) (descs : List Frame) (w : World)
      → store_descs k idx descs w ≡ stores tx_ring idx (tx_descs descs) w
  unfolding store_descs
  store_descs_lem idx [] w = refl
  store_descs_lem idx (f ∷ descs) w =
      store_descs_lem (add32 idx 1) descs (tx_ring.store idx (tx_desc f) w)

  pub produce_granted :
      (descs : List Frame) (w : World)
      → let (g, w') = tx_ring.reserve (length descs) w in
        g.count ≡ length descs
        → 0 < length descs
        → produce k descs w
          ≡ (g.count, tx_ring.submit g.count (stores tx_ring g.start (tx_descs descs) w'))
  unfolding produce
  produce_granted descs w all pos =
      let (g, w') = tx_ring.reserve (length descs) w in
      ground (arith, store_descs_lem g.start descs w', take-length descs)

  pub produce_refused :
      (descs : List Frame) (w : World)
      → let (g, w') = tx_ring.reserve (length descs) w in
        g.count ≡ 0 → 0 < length descs → produce k descs w ≡ (0, w')
  unfolding produce
  produce_refused descs w none_free pos = ground arith
