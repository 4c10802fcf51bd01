-- ===== src/Tests/Toy.antt =====
-- A small kernel on which the hypotheses about libbpf and the kernel hold: rings of four slots, a tx
-- ring that is full `busy` times before it takes a batch, completions one at a time with an empty
-- ring between two of them, and a packet of two bytes for each frame of four that is lent to fill.

use xdpsock.Prelude.{
  ℕ, zero, suc, ◌≤◌, ◌≡◌, refl, ◌⊎◌, inl, inr, Bool, Bool-cases, true, false, List, [], ◌∷◌, ◌++◌,
  map, length, ok, replicate, ◌%◌, ◌/◌, ◌+◌, ◌*◌, ◌^◌, add32, ltb, leb, ◌==◌, if◌then◌else◌, arith,
}
use xdpsock.Kernel.{Kernel, Machine, Grant, Desc, ProdRing, ConsRing}
use xdpsock.Kernel.Laws.{IsProdRing, IsConsRing}
pub mod Sending
pub mod History
pub mod Receiving

pub record World : Type 0 where
  pub fill_slots : ℕ → ℕ
  pub fill_tail : ℕ
  pub tx_slots : ℕ → Desc
  pub tx_tail : ℕ
  pub sent : List ℕ
  pub late : Bool
  pub busy : ℕ
  pub fills : List ℕ
  pub handed : List Desc
  pub queue : List ℕ

abbrev pub write : {A : Type 0} → (ℕ → A) → ℕ → A → ℕ → A
write slots i e j = if i == j then e else slots j

abbrev pub member : ℕ → List ℕ → Bool
member b [] = false
member b (x ∷ xs) = if x == b then true else member b xs

abbrev pub remove : ℕ → List ℕ → List ℕ
remove b [] = []
remove b (x ∷ xs) = let rest = remove b xs in if x == b then rest else x ∷ rest

pub member-remove :
    (b : ℕ) (xs : List ℕ) (a : ℕ) → member a (remove b xs) ≡ (if b == a then false else member a xs)
member-remove b [] a = ground arith
member-remove b (x ∷ xs) a = ground (arith, member-remove b xs a)

abbrev pub front : List ℕ → ℕ
front [] = 0
front (x ∷ xs) = x

-- One entry, where one is wanted and there is one.
abbrev pub ready : ℕ → List ℕ → ℕ
ready zero xs = 0
ready (suc n) [] = 0
ready (suc n) (x ∷ xs) = 1

abbrev pub grant : ℕ → ℕ → Grant
grant n tail =
    if leb n 4 then record { count = n; start = tail } else record { count = 0; start = tail }

abbrev fill_ring : ProdRing World ℕ
fill_ring = record {
  reserve = λ n w. (grant n (w.fill_tail % 2 ^ 32), w);
  store = λ i e w. record w {
    fill_slots = write w.fill_slots i e;
    fills = (e / 4) ∷ w.fills;
    queue = w.queue ++ ((e / 4) ∷ []);
  };
  submit = λ n w. record w { fill_tail = add32 (w.fill_tail % 2 ^ 32) n };
  needs_wakeup = λ w. 1;
}

abbrev pub tx_reserve : ℕ → ℕ → World → Grant × World
tx_reserve n zero w = (grant n (w.tx_tail % 2 ^ 32), w)
tx_reserve n (suc busy) w = (record { count = 0; start = 0 }, record w { busy = busy })

abbrev tx_ring : ProdRing World Desc
tx_ring = record {
  reserve = λ n w. tx_reserve n w.busy w;
  store = λ i e w. record w {
    tx_slots = write w.tx_slots i e;
    sent = e.addr ∷ w.sent;
    handed = w.handed ++ (e ∷ []);
  };
  submit = λ n w. record w { tx_tail = add32 (w.tx_tail % 2 ^ 32) n };
  needs_wakeup = λ w. 1;
}

abbrev pub took : ℕ → World → World
took zero w = w
took (suc n) w = record w { sent = remove (front w.sent) w.sent; late = true }

abbrev pub completions : Bool → ℕ → World → ℕ
completions true n w = 0
completions false n w = ready n w.sent

abbrev comp_ring : ConsRing World ℕ
comp_ring = record {
  peek = λ n m. (
    record { count = completions m.world.late n m.world; start = 0 },
    record m { world = record m.world { late = false } },
  );
  load = λ i w. front w.sent;
  release = λ n w. took n w;
}

abbrev pub rest_of : List ℕ → List ℕ
rest_of [] = []
rest_of (x ∷ xs) = xs

abbrev pub got : ℕ → World → World
got zero w = w
got (suc n) w = record w { fills = remove (front w.queue) w.fills; queue = rest_of w.queue }

-- One packet, in the first frame that was lent and is held.
abbrev pub arrived : ℕ → List ℕ → List ℕ → ℕ
arrived zero queue fills = 0
arrived (suc n) [] fills = 0
arrived (suc n) (x ∷ queue) fills = if member x fills then 1 else 0

abbrev rx_ring : ConsRing World Desc
rx_ring = record {
  peek = λ n m. (record { count = arrived n m.world.queue m.world.fills; start = 0 }, m);
  load = λ i w. record { addr = front w.queue * 4 + 1; len = 2; options = 0 };
  release = λ n w. got n w;
}

abbrev pub toy : Kernel
toy = record {
  World = World;
  fill_ring = fill_ring;
  comp_ring = comp_ring;
  tx_ring = tx_ring;
  rx_ring = rx_ring;
  poll = λ fd events timeout m. (ok 1, m);
  sendto = λ fd m. (ok 0, m);
  mmap = λ len huge w. ok (record { mem = replicate len 0; world = w });
  umem_create = λ config m. ok m;
  socket_create = λ if_name queue config m. ok m;
  socket_fd = λ m. ok 7;
  eintr = 4;
  enobufs = 105;
  eagain = 11;
  ebusy = 16;
  enetdown = 100;
  xdp_packet_headroom = 1;
}

pub fill_law : IsProdRing (toy.fill_ring) 4
fill_law = record {
  slot = λ w. w.fill_slots;
  tail = λ w. w.fill_tail % 2 ^ 32;
  reserve_all_or_none = λ n w. ground arith;
  reserve_fits = λ n w. ground arith;
  reserve_start = λ n w pos. ground arith;
  reserve_tail = λ n w. refl;
  reserve_slot = λ n w i. refl;
  tail_u32 = λ w. omega arith;
  store_self = λ i e w. ground arith;
  store_other = λ i a b e w h fits. ground arith;
  store_tail = λ i e w. refl;
  submit_tail = λ n w. omega arith;
  submit_slot = λ n w i. refl;
}

pub tx_reserve_cases :
    (n : ℕ) (w : World)
    → (tx_reserve n w.busy w ≡ (grant n (w.tx_tail % 2 ^ 32), w))
      ⊎ ((busy : ℕ) × (w.busy ≡ suc busy)
          × (tx_reserve n w.busy w ≡ (record { count = 0; start = 0 }, record w { busy = busy })))
tx_reserve_cases n w = go w.busy refl
  where
    go :
        (b : ℕ)
        → w.busy ≡ b
        → (tx_reserve n b w ≡ (grant n (w.tx_tail % 2 ^ 32), w))
          ⊎ ((busy : ℕ) × (w.busy ≡ suc busy)
              × (tx_reserve n b w ≡ (record { count = 0; start = 0 }, record w { busy = busy })))
    go zero e = inl refl
    go (suc busy) e = inr (busy, e, refl)

pub tx_law : IsProdRing (toy.tx_ring) 4
tx_law = record {
  slot = λ w. w.tx_slots;
  tail = λ w. w.tx_tail % 2 ^ 32;
  reserve_all_or_none = λ n w. elim (tx_reserve_cases n w) [
    | inl e ↦ rw e (ground arith)
    | inr (b, q, e) ↦ rw e (inr refl)
  ];
  reserve_fits = λ n w. elim (tx_reserve_cases n w) [
    | inl e ↦ rw e (ground arith)
    | inr (b, q, e) ↦ rw e (omega arith)
  ];
  reserve_start = λ n w pos. elim (tx_reserve_cases n w) [
    | inl e ↦ rw e (ground arith)
    | inr (b, q, e) ↦ absurd (ground arith)
  ];
  reserve_tail =
      λ n w. elim (tx_reserve_cases n w) [ inl e ↦ rw e refl | inr (b, q, e) ↦ rw e refl ];
  reserve_slot =
      λ n w i. elim (tx_reserve_cases n w) [ inl e ↦ rw e refl | inr (b, q, e) ↦ rw e refl ];
  tail_u32 = λ w. omega arith;
  store_self = λ i e w. ground arith;
  store_other = λ i a b e w h fits. ground arith;
  store_tail = λ i e w. refl;
  submit_tail = λ n w. omega arith;
  submit_slot = λ n w i. refl;
}

pub ready_le : (n : ℕ) (xs : List ℕ) → ready n xs ≤ n
ready_le zero xs = omega arith
ready_le (suc n) [] = omega arith
ready_le (suc n) (x ∷ xs) = omega arith

completions_le : (late : Bool) (n : ℕ) (w : World) → completions late n w ≤ n
completions_le true n w = omega arith
completions_le false n w = ready_le n w.sent

pub cons_law : IsConsRing (toy.comp_ring)
cons_law = record { peek_le = λ n m. completions_le m.world.late n m.world }

arrived_le : (n : ℕ) (queue fills : List ℕ) → arrived n queue fills ≤ n
arrived_le zero queue fills = omega arith
arrived_le (suc n) [] fills = omega arith
arrived_le (suc n) (x ∷ queue) fills = ground arith

pub rx_law : IsConsRing (toy.rx_ring)
rx_law = record { peek_le = λ n m. arrived_le n m.world.queue m.world.fills }

-- One packet or none.
pub arrived_cases :
    (n : ℕ) (queue fills : List ℕ)
    → ((arrived n queue fills ≡ 1)
        × (member (front queue) fills ≡ true)
        × (queue ≡ front queue ∷ rest_of queue))
      ⊎ (arrived n queue fills ≡ 0)
arrived_cases zero queue fills = inr refl
arrived_cases (suc n) [] fills = inr refl
arrived_cases (suc n) (x ∷ queue) fills = elim (Bool-cases (member x fills)) [
  | inl held ↦ inl (rw held refl, held, refl)
  | inr free ↦ inr (rw free refl)
]

-- One entry or none.
pub ready_cases :
    (n : ℕ) (xs : List ℕ)
    → ((ready n xs ≡ 1) × (member (front xs) xs ≡ true))
      ⊎ ((ready n xs ≡ 0) × ((n ≡ 0) ⊎ (xs ≡ [])))
ready_cases zero xs = inr (refl, inl refl)
ready_cases (suc n) [] = inr (refl, inr refl)
ready_cases (suc n) (x ∷ xs) = inl (refl, ground arith)
