-- ===== src/Examples/DevToDev/Split.antt =====
-- `split_pkts` divides the packet numbers among the queues.

use native.Mathlib.Decide.{ℕ_discrete}
use xdpsock.Prelude.{
  ==_refl, ℕ, zero, suc, ◌+◌, ◌%◌, ◌≤◌, ◌<◌, ◌≡◌, ◌≢◌, refl, ◌⊎◌, inl, inr, List, [], ◌∷◌, ret, rem,
  ◌==◌, ==_iff, pos-==_zero, if◌then◌else◌, arith,
}
use xdpsock.Examples.DevToDev.{split_from, split_pkts}

-- The numbers of `n` from `i` on that leave the remainder `queue_index`, in their order.
abbrev pub share : ℕ → ℕ → ℕ → ℕ → List ℕ
share zero i queue_index n_queues = []
share (suc n) i queue_index n_queues =
    let rest = share n (suc i) queue_index n_queues in
    if i % n_queues == queue_index then i ∷ rest else rest

rem_pos : (a b : ℕ) → 0 < b → rem a b ≡ ret (a % b)
rem_pos a b h = rw (pos-==_zero b h) refl

split_from-share :
    (n i queue_index n_queues : ℕ)
    → 0 < n_queues
    → split_from n i queue_index n_queues ≡ ret (share n i queue_index n_queues)
unfolding split_from
split_from-share zero i q nq h = refl
split_from-share (suc n) i q nq h =
    rw (rem_pos i nq h, split_from) (rw (split_from-share n (suc i) q nq h) refl)

-- How often a number is in a list.
abbrev pub count : ℕ → List ℕ → ℕ
count a [] = 0
count a (x ∷ xs) = (if x == a then 1 else 0) + count a xs

pub count-share :
    (n i q nq a : ℕ)
    → ((i ≤ a) × (a < i + n) × (a % nq ≡ q) → count a (share n i q nq) ≡ 1)
      × ((a < i) ⊎ (i + n ≤ a) ⊎ (a % nq ≢ q) → count a (share n i q nq) ≡ 0)
count-share zero i q nq a = (λ (lo, hi, at). absurd (omega arith), λ h. refl)
count-share (suc n) i q nq a =
    let (once, never) = count-share n (suc i) q nq a in
    elim (ℕ_discrete i a) [
      | yes here ↦ (
        λ h. ground (arith, here, never, ==_iff (i % nq) q, ==_refl a),
        λ h. ground (arith, here, never, ==_iff (i % nq) q),
      )
      | no other ↦ (λ h. ground (arith, other, once), λ h. ground (arith, other, never))
    ]

-- With at least one queue, `split_pkts` returns for each queue the numbers below `n_pkts` whose
-- remainder by the number of queues is the queue's index, each once, and no other number: the lists
-- of all queues together have each packet exactly once.
pub split_pkts_lem :
    (n_pkts queue_index n_queues : ℕ)
    → 0 < n_queues
    → (pkts : List ℕ) × (split_pkts n_pkts queue_index n_queues ≡ ret pkts)
      × ((a : ℕ)
          → (((a < n_pkts) × (a % n_queues ≡ queue_index)) → count a pkts ≡ 1)
            × (((n_pkts ≤ a) ⊎ (a % n_queues ≢ queue_index)) → count a pkts ≡ 0))
unfolding split_pkts
split_pkts_lem n_pkts q nq h = (
  share n_pkts 0 q nq,
  split_from-share n_pkts 0 q nq h,
  λ a.
      let (once, never) = count-share n_pkts 0 q nq a in
      (
        λ (below, mine). once (omega arith, omega arith, mine),
        λ why. elim why [
          | inl above ↦ never (inr (inl (omega arith)))
          | inr other ↦ never (inr (inr other))
        ],
      ),
)
