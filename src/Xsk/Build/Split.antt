-- ===== src/Xsk/Build/Split.antt =====
-- How `Xsk::new` and `Xsk2::new` share the frames out, and that the sending half starts out valid.

use xdpsock.Prelude.{
  ℕ, ◌-◌, ◌≤◌, ◌≡◌, refl, sym, ap, ◌∙◌, List, ret, ok, index_range, index_range_lem, length, take,
  drop, length-drop, take-length, arith,
}
use xdpsock.Kernel.{Kernel, Machine}
use xdpsock.Umem.Config.{UmemConfig}
use xdpsock.Umem.Frame.{Frame}
use xdpsock.Umem.Build.{cut_frames, create_mmap, mtu_of}
use xdpsock.Umem.Build.Layout.{
  create_config, create_umem-parts_of, length-cut_frames, take-cut_frames, drop-cut_frames,
}
use xdpsock.Socket.Config.{SocketConfig}
use xdpsock.Socket.Create
use xdpsock.Socket.TxQueue.{TxQueue}
use xdpsock.Socket.RxQueue.{RxQueue}
use xdpsock.Xsk.Build.{Xsk, new_xsk}

module _ (k : Kernel) (if_name : List ℕ) (queue_id : ℕ) (umem_config : UmemConfig)
    (socket_config : SocketConfig) (w : k.World) where
  open k use {World}

  -- The area was mapped, and the kernel accepted the UMEM and the socket.
  pub record IsSetUp : Type 0 where
    pub mapped : Machine World
    pub created : Machine World
    pub tx_q : TxQueue
    pub rx_q : RxQueue
    pub bound : Machine World
    pub maps : create_mmap k umem_config w ≡ ret (ok mapped)
    pub creates : k.umem_create (create_config umem_config) mapped ≡ ok created
    pub binds : Create.new k socket_config if_name queue_id created ≡ ok (tx_q, rx_q, bound)

  abbrev pub frames_from : ℕ → ℕ → List Frame
  frames_from i n = cut_frames umem_config.frame_size (mtu_of k umem_config) i n

  -- The first `n_tx_frames` frames for sending, the others for receiving.
  abbrev pub shared_out : IsSetUp → ℕ → Xsk
  shared_out s n_tx_frames = record {
    if_name = if_name;
    fill_q = record { size = umem_config.fill_queue_size };
    comp_q = record { size = umem_config.comp_queue_size };
    tx_q = s.tx_q;
    rx_q = s.rx_q;
    tx_frames = frames_from 0 n_tx_frames;
    rx_frames = frames_from n_tx_frames (umem_config.frame_count - n_tx_frames);
    umem_config = umem_config;
    socket_config = socket_config;
  }

  module _ (s : IsSetUp) (n_tx_frames : ℕ) (enough : n_tx_frames ≤ umem_config.frame_count) where
    number : length (frames_from 0 umem_config.frame_count) ≡ umem_config.frame_count
    number =
        length-cut_frames umem_config.frame_size (mtu_of k umem_config) 0 umem_config.frame_count

    tx_share :
        index_range (frames_from 0 umem_config.frame_count) 0 n_tx_frames
        ≡ ret (frames_from 0 n_tx_frames)
    tx_share =
        index_range_lem (frames_from 0 umem_config.frame_count) 0 n_tx_frames (omega arith)
          (omega (arith, number))
        ∙ ap ret (
            ap (λ n. take n (frames_from 0 umem_config.frame_count)) (omega arith)
            ∙ take-cut_frames umem_config.frame_size (mtu_of k umem_config) 0 n_tx_frames
                umem_config.frame_count enough)

    rx_share :
        index_range
          (frames_from 0 umem_config.frame_count)
          n_tx_frames
          (length (frames_from 0 umem_config.frame_count))
        ≡ ret (frames_from n_tx_frames (umem_config.frame_count - n_tx_frames))
    rx_share =
        index_range_lem (frames_from 0 umem_config.frame_count) n_tx_frames
          (length (frames_from 0 umem_config.frame_count)) (omega (arith, number)) (omega arith)
        ∙ ap ret (
            ap (λ n. take n (drop n_tx_frames (frames_from 0 umem_config.frame_count)))
              (sym (length-drop n_tx_frames (frames_from 0 umem_config.frame_count)))
            ∙ take-length (drop n_tx_frames (frames_from 0 umem_config.frame_count))
            ∙ drop-cut_frames umem_config.frame_size (mtu_of k umem_config) 0 n_tx_frames
                umem_config.frame_count enough
            ∙ ap (λ i. frames_from i (umem_config.frame_count - n_tx_frames)) (omega arith))

    -- Where the area was mapped, the kernel accepted the UMEM and the socket, and there are as many
    -- frames as are to be for sending, `Xsk::new` returns: the first `n_tx_frames` frames are for
    -- sending, and all the others, in order, for receiving.
    pub new_xsk_lem :
        new_xsk k if_name queue_id umem_config socket_config n_tx_frames w
        ≡ ret (shared_out s n_tx_frames, s.bound)
    unfolding new_xsk
    new_xsk_lem =
        rw (s.maps, new_xsk)
          (rw (create_umem-parts_of k umem_config s.mapped s.created s.creates)
            (rw (s.binds) (rw tx_share (rw rx_share refl))))
