-- ===== src/Kernel/Laws.antt =====
-- What the crate relies on of libbpf's rings, as hypotheses: the documented contract of the
-- functions in libbpf's xsk.h.
use xdpsock.Prelude.{ℕ, zero, suc, ◌≤◌, ◌<◌, ◌≡◌, ◌⊎◌, List, [], ◌∷◌, add32}
use xdpsock.Kernel.{Machine, ProdRing, ConsRing}

-- `slot` is the entry that an index stands for, and `tail` the index behind the last entry that was
-- submitted. A reservation is for all that was asked or for nothing, starts at `tail`, and never
-- exceeds the ring; indices wrap at 2 ^ 32, and those of one window are different slots.
pub record IsProdRing {World Entry : Type 0} (r : ProdRing World Entry) (size : ℕ) : Type 0 where
  pub slot : World → ℕ → Entry
  pub tail : World → ℕ
  pub reserve_all_or_none :
      (n : ℕ) (w : World) → ((r.reserve n w).0.count ≡ n) ⊎ ((r.reserve n w).0.count ≡ 0)
  pub reserve_fits : (n : ℕ) (w : World) → (r.reserve n w).0.count ≤ size
  pub reserve_start :
      (n : ℕ) (w : World) → 0 < (r.reserve n w).0.count → (r.reserve n w).0.start ≡ tail w
  pub reserve_tail : (n : ℕ) (w : World) → tail (r.reserve n w).1 ≡ tail w
  pub reserve_slot : (n : ℕ) (w : World) (i : ℕ) → slot (r.reserve n w).1 i ≡ slot w i
  pub tail_u32 : (w : World) → add32 (tail w) 0 ≡ tail w
  pub store_self : (i : ℕ) (e : Entry) (w : World) → slot (r.store i e w) i ≡ e
  pub store_other :
      (i a b : ℕ) (e : Entry) (w : World)
      → a < b
      → b < size
      → slot (r.store (add32 i b) e w) (add32 i a) ≡ slot w (add32 i a)
  pub store_tail : (i : ℕ) (e : Entry) (w : World) → tail (r.store i e w) ≡ tail w
  pub submit_tail : (n : ℕ) (w : World) → tail (r.submit n w) ≡ add32 (tail w) n
  pub submit_slot : (n : ℕ) (w : World) (i : ℕ) → slot (r.submit n w) i ≡ slot w i

module _ {Entry : Type 0} (slot : ℕ → Entry) where
  -- The `n` entries from offset `i` of the window that begins at index `start`.
  abbrev pub window : ℕ → ℕ → ℕ → List Entry
  window start i zero = []
  window start i (suc n) = slot (add32 start i) ∷ window start (suc i) n

-- `peek` never grants more than was asked for.
pub record IsConsRing {World Entry : Type 0} (r : ConsRing World Entry) : Type 0 where
  pub peek_le : (n : ℕ) (m : Machine World) → (r.peek n m).0.count ≤ n
