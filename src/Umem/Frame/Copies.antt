-- ===== src/Umem/Frame/Copies.antt =====
-- What is copied into a frame is what is read from it, and nothing else changes.
use xdpsock.Prelude.{
  ℕ, ◌+◌, ◌^◌, ◌≤◌, ◌<◌, ◌≡◌, List, [], ◌∷◌, ret, ok, err, length, slice, splice, length-splice,
  slice-splice, splice-nil, arith,
}
use xdpsock.Umem.Mmap.{mem_range, write_range}
use xdpsock.Umem.Frame.{
  Frame, WriteError, DataError, set_len, read_from_umem_checked, write_to_umem_checked,
}

-- The frame's payload, up to the MTU, lies inside the mapped memory.
abbrev pub InArea : List ℕ → Frame → Type 0
InArea mem f = (f.addr < 2 ^ 63) × (f.addr + f.mtu ≤ length mem)

pub write_range_lem :
    (mem : List ℕ) (offset : ℕ) (src : List ℕ)
    → offset < 2 ^ 63
    → offset + length src ≤ length mem
    → write_range mem offset src ≡ ret (splice mem offset src)
unfolding write_range
write_range_lem mem offset src small fits = ground arith

pub mem_range_lem :
    (mem : List ℕ) (offset len : ℕ)
    → offset < 2 ^ 63
    → offset + len ≤ length mem
    → mem_range mem offset len ≡ ret (slice mem offset (offset + len))
unfolding mem_range
mem_range_lem mem offset len small fits = ground arith

pub slice-splice_self :
    (mem : List ℕ) (i : ℕ) (src : List ℕ)
    → i + length src ≤ length mem
    → slice (splice mem i src) i (i + length src) ≡ src
slice-splice_self mem i src h = ground (arith, slice-splice mem i src)

pub write_to_umem_checked_lem :
    (f : Frame) (src mem : List ℕ)
    → InArea mem f
    → length src ≤ f.mtu
    → write_to_umem_checked f src mem ≡ ret (ok tt, set_len f (length src), splice mem f.addr src)
unfolding write_to_umem_checked
write_to_umem_checked_lem f [] mem h fits = rw splice-nil
write_to_umem_checked_lem f (x ∷ src) mem h fits =
    ground (arith, write_range_lem mem f.addr (x ∷ src))

-- A checked write of data within the MTU, to a frame whose payload lies in the mapped memory,
-- succeeds; it sets the frame's length, leaves the rest of the descriptor and the size of the
-- memory alone, and a checked read of that length gives the data.
pub read-write_to_umem_checked :
    (f : Frame) (src mem : List ℕ)
    → InArea mem f
    → length src ≤ f.mtu
    → let mem' = splice mem f.addr src in
      (write_to_umem_checked f src mem ≡ ret (ok tt, set_len f (length src), mem'))
      × (read_from_umem_checked (set_len f (length src)) (length src) mem' ≡ ret (ok src))
      × (length mem' ≡ length mem)
unfolding read_from_umem_checked
read-write_to_umem_checked f src mem h fits = (
  write_to_umem_checked_lem f src mem h fits,
  ground (
    arith,
    mem_range_lem (splice mem f.addr src) f.addr (length src),
    slice-splice_self mem f.addr src,
    length-splice mem f.addr src,
  ),
  length-splice mem f.addr src,
)

-- Data longer than the MTU is refused with both sizes, and neither the frame nor the memory changes.
pub write_to_umem_checked_too_long :
    (f : Frame) (src mem : List ℕ)
    → f.mtu < length src
    → write_to_umem_checked f src mem
      ≡ ret (err (WriteError.data_error (DataError.size_exceeds_mtu (length src) f.mtu)), f, mem)
unfolding write_to_umem_checked
write_to_umem_checked_too_long f src mem h = ground arith
