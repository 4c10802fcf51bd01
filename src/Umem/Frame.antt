-- ===== src/Umem/Frame.antt =====
-- The frames of src/umem/umem.rs: descriptors of equal pieces of the UMEM, and copies in and out.
-- The `mmap_area` that all frames share is the argument `mem`.
pub mod Copies
pub mod Isolation
use xdpsock.Prelude.{
  ℕ, Bool, true, false, List, Outcome, ret, ◌>>=◌, ◌>>◌, Result, ok, err, length, ltb,
  if◌then◌else◌,
}
use xdpsock.Umem.Mmap.{mem_range, write_range}

pub data FrameStatus : Type 0 where
  free filled on_tx_queue on_fill_queue : FrameStatus

unfoldable pub is_free : FrameStatus → Bool
is_free FrameStatus.free = true
is_free _ = false

pub data AccessError : Type 0 where
  null_region : AccessError
  region_out_of_bounds : (addr len umem_len : ℕ) → AccessError
  crosses_frame_boundary : (addr len : ℕ) → AccessError

pub data DataError : Type 0 where
  size_exceeds_mtu : (data_len mtu : ℕ) → DataError

pub data WriteError : Type 0 where
  access_error : AccessError → WriteError
  data_error : DataError → WriteError

pub record Frame : Type 0 where
  pub addr : ℕ
  pub len : ℕ
  pub options : ℕ
  pub mtu : ℕ
  pub status : FrameStatus

abbrev pub set_addr : Frame → ℕ → Frame
set_addr f addr = record f { addr = addr }

abbrev pub set_len : Frame → ℕ → Frame
set_len f len = record f { len = len }

abbrev pub set_options : Frame → ℕ → Frame
set_options f options = record f { options = options }

abbrev pub set_status : Frame → FrameStatus → Frame
set_status f status = record f { status = status }

pub is_access_valid : Frame → ℕ → Result AccessError (Unit {0})
is_access_valid f len =
    if ltb f.len len then err (AccessError.crosses_frame_boundary f.addr len) else ok tt

pub is_data_valid : Frame → List ℕ → Result DataError (Unit {0})
is_data_valid f src =
    if ltb f.mtu (length src) then err (DataError.size_exceeds_mtu (length src) f.mtu) else ok tt

unfoldable pub read_from_umem : Frame → ℕ → List ℕ → Outcome (List ℕ)
read_from_umem f len mem = mem_range mem f.addr len

unfoldable pub read_from_umem_checked : Frame → ℕ → List ℕ → Outcome (Result AccessError (List ℕ))
unfolding is_access_valid
read_from_umem_checked f len mem = elim (is_access_valid f len) [
  | ok _ ↦ do bytes ← mem_range mem f.addr len; ret (ok bytes)
  | err e ↦ ret (err e)
]

-- The frame and the memory after the copy.
unfoldable pub write_to_umem : Frame → List ℕ → List ℕ → Outcome (Frame × List ℕ)
write_to_umem f src mem =
    if ltb 0 (length src)
    then (do mem' ← write_range mem f.addr src; ret (set_len f (length src), mem'))
    else ret (set_len f (length src), mem)

-- The result, with the frame and the memory after the call.
unfoldable pub write_to_umem_checked :
    Frame → List ℕ → List ℕ → Outcome (Result WriteError (Unit {0}) × Frame × List ℕ)
unfolding is_data_valid
write_to_umem_checked f src mem =
    if ltb 0 (length src)
    then (elim (is_data_valid f src) [
      | err e ↦ ret (err (WriteError.data_error e), f, mem)
      | ok _ ↦ do mem' ← write_range mem f.addr src; ret (ok tt, set_len f (length src), mem')
    ])
    else ret (ok tt, set_len f (length src), mem)

-- The region that may be written: `umem_region_mut_checked` makes no check either.
unfoldable pub umem_region_mut : Frame → ℕ → List ℕ → Outcome (List ℕ)
umem_region_mut f len mem = mem_range mem f.addr len

unfoldable pub umem_region_mut_checked : Frame → ℕ → List ℕ → Outcome (Result AccessError (List ℕ))
umem_region_mut_checked f len mem = do bytes ← mem_range mem f.addr len; ret (ok bytes)
