-- ===== src/Kernel/Stores.antt =====
-- A run of stores into a producer ring fills a window of its slots, in order.
use mathlib.Core.Path.{fun_ext, ap₂}
use xdpsock.Prelude.{
  ℕ, suc, ◌+◌, ◌≤◌, ◌<◌, ◌≡◌, refl, sym, ◌∙◌, ap, ◌⊎◌, inl, List, [], ◌∷◌, length, add32, arith,
}
use xdpsock.Kernel.{ProdRing}
use xdpsock.Kernel.Laws.{IsProdRing, window}

module _ {World Entry : Type 0} (r : ProdRing World Entry) where
  abbrev pub stores : ℕ → List Entry → World → World
  stores idx [] w = w
  stores idx (e ∷ es) w = stores (add32 idx 1) es (r.store idx e w)

module _ {World Entry : Type 0} (r : ProdRing World Entry) (size : ℕ) (l : IsProdRing r size) where
  stores_before :
      (start i a idx : ℕ) (es : List Entry) (w : World)
      → idx ≡ add32 start i
      → a < i
      → i + length es ≤ size
      → l.slot (stores r idx es w) (add32 start a) ≡ l.slot w (add32 start a)
  stores_before start i a idx [] w pos h fits = refl
  stores_before start i a idx (e ∷ es) w pos h fits =
      stores_before start (suc i) a (add32 idx 1) es (r.store idx e w) (omega arith) (omega arith)
        (omega arith)
      ∙ rw pos (l.store_other start a i e w h (omega arith))

  window-stores :
      (start i idx : ℕ) (es : List Entry) (w : World)
      → idx ≡ add32 start i
      → i + length es ≤ size
      → window (l.slot (stores r idx es w)) start i (length es) ≡ es
  window-stores start i idx [] w pos fits = refl
  window-stores start i idx (e ∷ es) w pos fits =
      ap₂ ◌∷◌
        (stores_before start (suc i) i (add32 idx 1) es (r.store idx e w) (omega arith)
            (omega arith) (omega arith)
          ∙ rw (← pos) (l.store_self idx e w))
        (window-stores start (suc i) (add32 idx 1) es (r.store idx e w) (omega arith) (omega arith))

  tail-stores : (idx : ℕ) (es : List Entry) (w : World) → l.tail (stores r idx es w) ≡ l.tail w
  tail-stores idx [] w = refl
  tail-stores idx (e ∷ es) w = tail-stores (add32 idx 1) es (r.store idx e w) ∙ l.store_tail idx e w

  -- Entries that fit the ring, stored from the tail on and submitted, stand behind the old tail.
  pub submit-stores :
      (es : List Entry) (w : World)
      → length es ≤ size
      → let w' = r.submit (length es) (stores r (l.tail w) es w) in
        (window (l.slot w') (l.tail w) 0 (length es) ≡ es)
        × (l.tail w' ≡ add32 (l.tail w) (length es))
  submit-stores es w fits = (
    rw (fun_ext (l.submit_slot (length es) (stores r (l.tail w) es w)))
        (window-stores (l.tail w) 0 (l.tail w) es w (sym (l.tail_u32 w)) (omega arith)),
    l.submit_tail (length es) (stores r (l.tail w) es w)
        ∙ ap (λ t. add32 t (length es)) (tail-stores (l.tail w) es w),
  )

  -- The entries `es` were all submitted, in order and right behind the old tail, or none was and the
  -- ring is as it was.
  abbrev pub AllOrNone : List Entry → World → ℕ → World → Type 0
  AllOrNone es w n w' =
      ((n ≡ length es)
        × (window (l.slot w') (l.tail w) 0 (length es) ≡ es)
        × (l.tail w' ≡ add32 (l.tail w) (length es)))
      ⊎ ((n ≡ 0) × (l.tail w' ≡ l.tail w) × ((i : ℕ) → l.slot w' i ≡ l.slot w i))

  -- `submit-stores` behind a reservation of all the entries.
  pub reserve-submit-stores :
      (n : ℕ) (es : List Entry) (w : World)
      → n ≡ length es
      → let (g, w') = r.reserve n w in
        g.count ≡ n → 0 < n → AllOrNone es w g.count (r.submit g.count (stores r g.start es w'))
  reserve-submit-stores n es w len all pos =
      let (g, w') = r.reserve n w in
      let fits : length es ≤ size = omega (arith, l.reserve_fits n w) in
      let start : g.start ≡ l.tail w' =
        l.reserve_start n w (omega arith) ∙ sym (l.reserve_tail n w) in
      let done = submit-stores es w' fits in
      inl (
        all ∙ len,
        rw (all ∙ len, start, ← l.reserve_tail n w) done.0,
        rw (all ∙ len, start, ← l.reserve_tail n w) done.1,
      )
