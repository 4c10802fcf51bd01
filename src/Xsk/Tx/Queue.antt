-- ===== src/Xsk/Tx/Queue.antt =====
-- What sending promises, without frames, rings or memory: packets are collected and handed over in
-- batches, in the order in which they came.
use xdpsock.Prelude.{ℕ, ◌+◌, ◌≡◌, ◌≢◌, List, [], ◌∷◌, ◌++◌, length, ◌==◌, if◌then◌else◌, arith}

abbrev pub Packet : Type 0
Packet = List ℕ

-- The packets that are handed over when one more is accepted, and those that wait afterwards.
abbrev pub enqueue : ℕ → Packet → List Packet → List Packet × List Packet
enqueue batch_size packet waiting =
    if length waiting + 1 == batch_size
    then (waiting ++ (packet ∷ []), [])
    else ([], waiting ++ (packet ∷ []))

module _ (batch_size : ℕ) (packet : Packet) (waiting : List Packet) where
  pub enqueue_waits :
      (left : List Packet)
      → left ≡ waiting ++ (packet ∷ [])
      → length waiting + 1 ≢ batch_size
      → enqueue batch_size packet waiting ≡ ([], left)
  enqueue_waits left e ne = rw e (ground arith)

  pub enqueue_full :
      (handed left : List Packet)
      → handed ≡ waiting ++ (packet ∷ [])
      → left ≡ []
      → length waiting + 1 ≡ batch_size
      → enqueue batch_size packet waiting ≡ (handed, left)
  enqueue_full handed left e none_left full = rw (e, none_left) (ground arith)
