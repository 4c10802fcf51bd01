-- ===== src/Tests/Setup.antt =====
-- Witnesses of the theorems on configurations, frames and the set-up of a UMEM.
use xdpsock.Prelude.{
  ℕ, ◌*◌, ◌^◌, ◌≤◌, ◌≡◌, ◌↔◌, ◌⊎◌, refl, true, false, List, [], ◌∷◌, ret, ok, err, length, splice,
  replicate, arith,
}
use xdpsock.Kernel.{Machine}
use xdpsock.Util.{is_pow_of_two}
use xdpsock.Util.PowerOfTwo.{is_pow_of_two_iff}
use xdpsock.Umem.Config.{UmemConfig, UmemConfigError, umem_len}
use xdpsock.Umem.Config.Checked.{IsChecked, Refused, new_of, new_cases, umem_len_lem}
use xdpsock.Umem.Frame.{Frame, FrameStatus, set_len, read_from_umem_checked, write_to_umem_checked}
use xdpsock.Umem.Frame.Copies.{read-write_to_umem_checked}
use xdpsock.Umem.Build.{UmemParts, create_umem, mtu_of}
use xdpsock.Umem.Build.Layout.{AreTiles, create_umem-AreTiles}
use xdpsock.Tests.Toy.{World, toy}

is_pow_of_two_iff_example : (is_pow_of_two 64 ≡ true) ↔ ((e : ℕ) × (64 ≡ 2 ^ e))
is_pow_of_two_iff_example = is_pow_of_two_iff 64

abbrev config : UmemConfig
config = record {
  frame_count = 2;
  frame_size = 2048;
  fill_queue_size = 4;
  comp_queue_size = 8;
  frame_headroom = 0;
  use_huge_pages = false;
}

-- The second queue's size is no power of two, and the frames are too small.
abbrev bad_config : UmemConfig
bad_config = record config { comp_queue_size = 6; frame_size = 16 }

new_cases_example :
    (IsChecked bad_config × (new_of bad_config ≡ ok bad_config))
    ⊎ ((e : UmemConfigError) × Refused bad_config e × (new_of bad_config ≡ err e))
new_cases_example = new_cases bad_config

config-IsChecked : IsChecked config
config-IsChecked = record {
  some_frames = omega arith;
  fill_size = (2, refl);
  comp_size = (3, refl);
  frame_size = omega arith;
}

umem_len_lem_example : (umem_len config ≡ ret (2 * 2048)) × (2048 ≤ 2 * 2048)
umem_len_lem_example = umem_len_lem config config-IsChecked (omega arith) (omega arith)

abbrev frame : Frame
frame = record { addr = 4; len = 0; options = 0; mtu = 3; status = FrameStatus.free }

abbrev memory : List ℕ
memory = replicate 8 0

read-write_to_umem_checked_example :
    let mem' = splice memory 4 (7 ∷ 8 ∷ []) in
    (write_to_umem_checked frame (7 ∷ 8 ∷ []) memory ≡ ret (ok tt, set_len frame 2, mem'))
    × (read_from_umem_checked (set_len frame 2) 2 mem' ≡ ret (ok (7 ∷ 8 ∷ [])))
    × (length mem' ≡ length memory)
read-write_to_umem_checked_example =
    read-write_to_umem_checked frame (7 ∷ 8 ∷ []) memory (omega arith, omega arith) (omega arith)

abbrev mapped : Machine World
mapped = record {
  mem = [];
  world = record {
    fill_slots = λ i. 0;
    fill_tail = 0;
    tx_slots = λ i. record { addr = 0; len = 0; options = 0 };
    tx_tail = 0;
    sent = [];
    late = false;
    busy = 0;
    fills = [];
    handed = [];
    queue = [];
  };
}

create_umem-AreTiles_example :
    (parts : UmemParts) × (create_umem toy config mapped ≡ ok (parts, mapped))
    × AreTiles 2048 (mtu_of toy config) 2 parts.frames
    × (parts.umem.mtu ≡ mtu_of toy config)
create_umem-AreTiles_example = create_umem-AreTiles toy config mapped mapped refl

abbrev neighbour : Frame
neighbour = record { addr = 0; len = 2; options = 0; mtu = 3; status = FrameStatus.free }
