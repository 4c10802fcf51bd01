-- ===== src/Umem/Frame/Isolation.antt =====
-- A write to one frame leaves what is read from another alone.
use xdpsock.Prelude.{
  ℕ, zero, suc, ◌+◌, ◌-◌, ◌^◌, ◌≤◌, ◌<◌, ◌≡◌, refl, sym, ap, ◌∙◌, ◌⊎◌, inl, inr, List, [], ◌∷◌, ret,
  ok, length, take, drop, slice, splice, length-splice, arith,
}
use xdpsock.Umem.Frame.{Frame, set_len, read_from_umem, write_to_umem_checked}
use xdpsock.Umem.Frame.Copies.{InArea, mem_range_lem, write_to_umem_checked_lem}

drop-splice :
    (mem : List ℕ) (i j : ℕ) (src : List ℕ)
    → i + length src ≤ j
    → drop j (splice mem i src) ≡ drop j mem
drop-splice [] i j src h = refl
drop-splice (x ∷ mem) zero j [] h = refl
drop-splice (x ∷ mem) zero zero (y ∷ src) h = absurd (omega arith)
drop-splice (x ∷ mem) zero (suc j) (y ∷ src) h = drop-splice mem zero j src (omega arith)
drop-splice (x ∷ mem) (suc i) zero src h = absurd (omega arith)
drop-splice (x ∷ mem) (suc i) (suc j) src h = drop-splice mem i j src (omega arith)

take-splice :
    (mem : List ℕ) (i n : ℕ) (src : List ℕ) → n ≤ i → take n (splice mem i src) ≡ take n mem
take-splice mem i zero src h = refl
take-splice [] i (suc n) src h = refl
take-splice (x ∷ mem) zero (suc n) src h = absurd (omega arith)
take-splice (x ∷ mem) (suc i) (suc n) src h = ap (◌∷◌ x) (take-splice mem i n src (omega arith))

take-drop-splice :
    (mem : List ℕ) (i j n : ℕ) (src : List ℕ)
    → j + n ≤ i
    → take n (drop j (splice mem i src)) ≡ take n (drop j mem)
take-drop-splice mem i zero n src h = take-splice mem i n src (omega arith)
take-drop-splice [] i (suc j) n src h = refl
take-drop-splice (x ∷ mem) zero (suc j) n src h = absurd (omega arith)
take-drop-splice (x ∷ mem) (suc i) (suc j) n src h = take-drop-splice mem i j n src (omega arith)

pub slice-splice_apart :
    (mem : List ℕ) (i a b : ℕ) (src : List ℕ)
    → a ≤ b
    → ((i + length src ≤ a) ⊎ (b ≤ i))
    → slice (splice mem i src) a b ≡ slice mem a b
slice-splice_apart mem i a b src le (inl after) = ap (take (b - a)) (drop-splice mem i a src after)
slice-splice_apart mem i a b src le (inr before) =
    take-drop-splice mem i a (b - a) src (omega arith)

-- A checked write of data within the MTU to frame `f` succeeds, and any read of frame `g` that stays
-- within the mapped memory gives afterwards what it gave before, where the payload of `f` and the
-- bytes read do not overlap.
pub read-write_other_frame :
    (f g : Frame) (src mem : List ℕ) (len : ℕ)
    → InArea mem f
    → length src ≤ f.mtu
    → g.addr < 2 ^ 63
    → g.addr + len ≤ length mem
    → ((f.addr + f.mtu ≤ g.addr) ⊎ (g.addr + len ≤ f.addr))
    → (mem' : List ℕ) × (write_to_umem_checked f src mem
        ≡ ret (ok tt, set_len f (length src), mem'))
      × (read_from_umem g len mem' ≡ read_from_umem g len mem)
unfolding read_from_umem
read-write_other_frame f g src mem len area short small inside apart =
    let mem' = splice mem f.addr src in
    let same = length-splice mem f.addr src in
    (
      mem',
      write_to_umem_checked_lem f src mem area short,
      mem_range_lem mem' g.addr len small (omega (arith, same))
          ∙ ap ret (
              slice-splice_apart mem f.addr g.addr (g.addr + len) src (omega arith)
                (elim apart [ inl after ↦ inl (omega (arith, after)) | inr before ↦ inr before ]))
          ∙ sym (mem_range_lem mem g.addr len small inside),
    )
