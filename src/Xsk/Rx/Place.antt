-- ===== src/Xsk/Rx/Place.antt =====
-- Where the receive frames lie, and which of them a received descriptor is for.
use native.Mathlib.Nat.{div-eq_of_lt-le, le_trans}
use xdpsock.Prelude.{
  ℕ, suc, ◌+◌, ◌-◌, ◌*◌, ◌^◌, ◌≤◌, ◌<◌, ◌≡◌, refl, sym, ◌∙◌, List, [], ◌∷◌, ret, length, as_u32,
  sub32, pos-==_zero, arith,
}
use xdpsock.Kernel.{Desc}
use xdpsock.Xsk.Rx.{XskRx, rx_frame_index}

-- The frames lie one behind the other from `rx_frame_offset` on, within the first 2 ^ 32 bytes of the
-- mapped memory.
pub record IsArea (mem : List ℕ) (rx : XskRx) : Type 0 where
  pub size_pos : 0 < rx.frame_size
  pub fits : rx.rx_frame_offset + length rx.rx_frames * rx.frame_size ≤ 2 ^ 32
  pub inside : rx.rx_frame_offset + length rx.rx_frames * rx.frame_size ≤ length mem

-- The packet that the kernel describes lies in one of the frames.
pub record IsOurs (rx : XskRx) (d : Desc) : Type 0 where
  pub number : ℕ
  pub below : number < length rx.rx_frames
  pub behind : rx.rx_frame_offset + number * rx.frame_size ≤ d.addr
  pub starts : d.addr < rx.rx_frame_offset + number * rx.frame_size + rx.frame_size
  pub ends : d.addr + d.len ≤ rx.rx_frame_offset + number * rx.frame_size + rx.frame_size

abbrev pub AllOurs : XskRx → List Desc → Type 0
AllOurs rx [] = Unit {0}
AllOurs rx (d ∷ rest) = IsOurs rx d × AllOurs rx rest

pub row_le : (i n fs : ℕ) → i < n → i * fs + fs ≤ n * fs
row_le i n fs h = le_trans (omega arith) rows
  where
    rows : suc i * fs ≤ n * fs
    rows = grind arith

-- The index that the code computes from an address in `u32` arithmetic is the frame's number, wherever
-- in the frame the packet begins.
pub rx_frame_index_lem :
    (mem : List ℕ) (rx : XskRx) (d : Desc) (area : IsArea mem rx) (ours : IsOurs rx d)
    → rx_frame_index rx d.addr ≡ ret (ours.number)
unfolding rx_frame_index
rx_frame_index_lem mem rx d area ours =
    let row = row_le ours.number (length rx.rx_frames) rx.frame_size ours.below in
    let offset_small : as_u32 rx.rx_frame_offset ≡ rx.rx_frame_offset =
      omega (arith, area.fits, area.size_pos, row) in
    let wrap : sub32 (as_u32 d.addr) (as_u32 rx.rx_frame_offset) ≡ d.addr - rx.rx_frame_offset =
      omega (arith, area.fits, ours.behind, ours.starts, row, area.size_pos) in
    let next : (ours.number + 1) * rx.frame_size ≡ ours.number * rx.frame_size + rx.frame_size =
      grind arith in
    let quotient =
      div-eq_of_lt-le {k = ours.number} rx.frame_size {m = d.addr - rx.rx_frame_offset}
        (omega (arith, ours.behind)) (omega (arith, ours.starts, ours.behind, next)) in
    rw (pos-==_zero rx.frame_size area.size_pos) (rw (wrap, quotient) refl)

-- An address is in one frame only.
pub number_unique :
    (i j fs o a : ℕ)
    → o + i * fs ≤ a
    → a < o + i * fs + fs
    → o + j * fs ≤ a
    → a < o + j * fs + fs
    → i ≡ j
number_unique i j fs o a p q r s =
    let row = λ (n : ℕ). div-eq_of_lt-le {k = n} fs {m = a - o} in
    let next_i : (i + 1) * fs ≡ i * fs + fs = grind arith in
    let next_j : (j + 1) * fs ≡ j * fs + fs = grind arith in
    sym (row i (omega arith) (omega (arith, next_i))) ∙ row j (omega arith) (omega (arith, next_j))
