-- ===== src/Umem/Build.antt =====
-- `UmemBuilder` and `UmemBuilderWithMmap` of src/umem/umem.rs: the memory area is mapped, the UMEM
-- is created over it, and the area is cut into frames. A `Umem` is its configuration and its MTU;
-- what it stands for on the kernel's side is part of the machine.
pub mod Layout
use xdpsock.Prelude.{
  ℕ, zero, suc, ◌+◌, ◌*◌, List, [], ◌∷◌, Outcome, ret, ◌>>=◌, Result, ok, err, sub64,
}
use xdpsock.Kernel.{Kernel, Machine}
use xdpsock.Umem.Config.{UmemConfig, umem_len}
use xdpsock.Umem.Frame.{Frame, FrameStatus}
use xdpsock.Umem.FillQueue.{FillQueue}
use xdpsock.Umem.CompQueue.{CompQueue}

pub record Umem : Type 0 where
  pub config : UmemConfig
  pub mtu : ℕ

pub record UmemParts : Type 0 where
  pub umem : Umem
  pub fill_q : FillQueue
  pub comp_q : CompQueue
  pub frames : List Frame

-- The loop that pushes the frames, from number `i` on.
unfoldable pub cut_frames : ℕ → ℕ → ℕ → ℕ → List Frame
cut_frames frame_size mtu i zero = []
cut_frames frame_size mtu i (suc n) =
    record { addr = i * frame_size; len = 0; options = 0; mtu = mtu; status = FrameStatus.free }
    ∷ cut_frames frame_size mtu (i + 1) n

module _ (k : Kernel) where
  open k use {World}

  -- `create_mmap`
  unfoldable pub create_mmap : UmemConfig → World → Outcome (Result ℕ (Machine World))
  create_mmap config w = do len ← umem_len config; ret (k.mmap len config.use_huge_pages w)

  -- `frame_size - (XDP_PACKET_HEADROOM + frame_headroom)`
  unfoldable pub mtu_of : UmemConfig → ℕ
  mtu_of config = sub64 config.frame_size (k.xdp_packet_headroom + config.frame_headroom)

  -- `create_umem`
  unfoldable pub create_umem : UmemConfig → Machine World → Result ℕ (UmemParts × Machine World)
  create_umem config m =
      elim (k.umem_create
        (record {
          fill_size = config.fill_queue_size;
          comp_size = config.comp_queue_size;
          frame_size = config.frame_size;
          frame_headroom = config.frame_headroom;
          flags = 0;
        })
        m) [
          | err errno ↦ err errno
          | ok m' ↦ ok (
            record {
              umem = record { config = config; mtu = mtu_of config };
              fill_q = record { size = config.fill_queue_size };
              comp_q = record { size = config.comp_queue_size };
              frames = cut_frames config.frame_size (mtu_of config) 0 config.frame_count;
            },
            m',
          )
        ]
