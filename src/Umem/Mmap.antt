-- ===== src/Umem/Mmap.antt =====
-- src/umem/mmap.rs: access to the mapped region by offset and length. The source checks no bounds;
-- an access that leaves the region is undefined behaviour, and says so here.
use xdpsock.Prelude.{
  ℕ, ◌+◌, ◌^◌, List, Outcome, ret, panic, undefined, ◌>>◌, length, slice, splice, leb, ltb,
  if◌then◌else◌,
}

-- `self.mem_ptr.offset(offset.try_into().unwrap())`, and then a slice of `len` bytes from there.
in_region : List ℕ → ℕ → ℕ → Outcome (Unit {0})
in_region mem offset len =
    if leb (2 ^ 63) offset
    then panic
    else if ltb (length mem) (offset + len)
    then undefined
    else ret tt

-- `mem_range`
unfoldable pub mem_range : List ℕ → ℕ → ℕ → Outcome (List ℕ)
unfolding in_region
mem_range mem offset len = do in_region mem offset len; ret (slice mem offset (offset + len))

-- `mem_range_mut`, and a write over the whole slice: the memory after it.
unfoldable pub write_range : List ℕ → ℕ → List ℕ → Outcome (List ℕ)
unfolding in_region
write_range mem offset src = do in_region mem offset (length src); ret (splice mem offset src)
