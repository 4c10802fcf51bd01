-- ===== src/Examples/DevToDev/Notes.antt =====
-- What noting a list of numbers makes of the count and of the flags.
use native.Mathlib.Decide.{ℕ_discrete}
use xdpsock.Prelude.{
  ℕ, zero, suc, ◌+◌, ◌≤◌, ◌<◌, ◌≡◌, sym, ap, ◌∙◌, ◌⊎◌, inl, inr, Bool, true, false, some, List, [],
  ◌∷◌, length, get_elem?, get_elem?-set_self, get_elem?-set_ne, set, length-set, arith,
}
use xdpsock.Examples.DevToDev.Receipt.{Received, missing}

-- A number more counts at most once.
missing-set : (nums : List Bool) (i : ℕ) → missing nums ≤ suc (missing (set nums i true))
missing-set [] i = omega arith
missing-set (true ∷ nums) zero = omega arith
missing-set (false ∷ nums) zero = omega arith
missing-set (true ∷ nums) (suc i) = missing-set nums i
missing-set (false ∷ nums) (suc i) = omega (arith, missing-set nums i)

abbrev pub In : ℕ → List ℕ → Type 0
In i [] = ⊥
In i (n ∷ ns) = (n ≡ i) ⊎ In i ns

In-cases : (i : ℕ) (ns : List ℕ) → In i ns ⊎ (In i ns → ⊥)
In-cases i [] = inr (λ h. h)
In-cases i (n ∷ ns) = elim (ℕ_discrete n i) [
  | yes e ↦ inl (inl e)
  | no ne ↦ elim (In-cases i ns) [
    | inl h ↦ inl (inr h)
    | inr other ↦ inr (λ h. elim h [ inl e ↦ ne e | inr later ↦ other later ])
  ]
]

abbrev pub AllBelow : ℕ → List ℕ → Type 0
AllBelow size [] = Unit {0}
AllBelow size (n ∷ ns) = (n < size) × AllBelow size ns

-- From `s` to `s'` the numbers `ns` were counted, one by one, and exactly their flags were set.
pub record Notes (s s' : Received) (ns : List ℕ) : Type 0 where
  pub count : s'.matched_recvd_pkts ≡ s.matched_recvd_pkts + length ns
  pub size : length s'.recvd_nums ≡ length s.recvd_nums
  pub noted : (i : ℕ) → In i ns → get_elem? s'.recvd_nums i ≡ some true
  pub others : (i : ℕ) → (In i ns → ⊥) → get_elem? s'.recvd_nums i ≡ get_elem? s.recvd_nums i
  pub no_fewer :
      s.matched_recvd_pkts + missing s.recvd_nums ≤ s'.matched_recvd_pkts + missing s'.recvd_nums

-- The state with one number more.
abbrev pub one_more : Received → ℕ → Received
one_more s n = record {
  matched_recvd_pkts = s.matched_recvd_pkts + 1;
  recvd_nums = set s.recvd_nums n true;
}

-- One number in front.
pub Notes-cons :
    (s s' : Received) (n : ℕ) (ns : List ℕ)
    → n < length s.recvd_nums
    → Notes (one_more s n) s' ns
    → Notes s s' (n ∷ ns)
Notes-cons s s' n ns below h = record {
  count = omega (arith, h.count);
  size = h.size ∙ length-set s.recvd_nums n true;
  noted = λ i here. elim (In-cases i ns) [
    | inl later ↦ h.noted i later
    | inr other ↦ elim here [
      | inl e ↦
          h.others i other
          ∙ ap (get_elem? (set s.recvd_nums n true)) (sym e)
          ∙ get_elem?-set_self s.recvd_nums n true below
      | inr later ↦ absurd (other later)
    ]
  ];
  others = λ i no_one.
      h.others i (λ later. no_one (inr later))
      ∙ get_elem?-set_ne s.recvd_nums n i true (λ e. no_one (inl e));
  no_fewer = omega (arith, h.no_fewer, missing-set s.recvd_nums n);
}
