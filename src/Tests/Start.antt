-- ===== src/Tests/Start.antt =====
-- Witnesses of the theorems on a new socket: three frames of four bytes, two of them for sending.
use xdpsock.Prelude.{ℕ, refl, false, [], ◌∷◌, replicate, length-replicate, arith}
use xdpsock.Umem.Config.{UmemConfig, umem_len}
use xdpsock.Umem.FillQueue
use xdpsock.Umem.Build.{create_mmap, cut_frames}
use xdpsock.Socket.Config.{SocketConfig}
use xdpsock.Socket.Create
use xdpsock.Socket.Poll.{new_fd}
use xdpsock.Xsk.Build.Split.{IsSetUp}
use xdpsock.Xsk.Build.Start.{Starts, new-Starts}
use xdpsock.Tests.Toy.{World, toy}
use xdpsock.Tests.Toy.Receiving.{fill_contract, rx_contract}
use xdpsock.Tests.Toy.Sending.{contract}

abbrev umem_config : UmemConfig
umem_config = record {
  frame_count = 3;
  frame_size = 4;
  fill_queue_size = 4;
  comp_queue_size = 4;
  frame_headroom = 0;
  use_huge_pages = false;
}

abbrev socket_config : SocketConfig
socket_config = record {
  rx_queue_size = 4;
  tx_queue_size = 4;
  libbpf_flags = 0;
  xdp_flags = 0;
  bind_flags = 0;
}

abbrev idle : World
idle = record {
  fill_slots = λ i. 0;
  fill_tail = 0;
  tx_slots = λ i. record { addr = 0; len = 0; options = 0 };
  tx_tail = 0;
  sent = [];
  late = false;
  busy = 0;
  fills = [];
  handed = [];
  queue = [];
}

abbrev set_up : IsSetUp toy (108 ∷ 111 ∷ []) 0 umem_config socket_config idle
unfolding create_mmap umem_len Create.new Create.has_nul
set_up = record {
  mapped = record { mem = replicate 12 0; world = idle };
  created = record { mem = replicate 12 0; world = idle };
  tx_q = record { fd = new_fd 7 };
  rx_q = record { fd = new_fd 7 };
  bound = record { mem = replicate 12 0; world = idle };
  maps = refl;
  creates = refl;
  binds = refl;
}

new-Starts_example :
    Starts toy (108 ∷ 111 ∷ []) 0 umem_config socket_config idle contract rx_contract 2 2
unfolding contract rx_contract fill_contract FillQueue.produce FillQueue.store_addrs cut_frames
    set_up
new-Starts_example =
    new-Starts toy (108 ∷ 111 ∷ []) 0 umem_config socket_config idle contract rx_contract set_up 1 2
      (omega arith) (omega arith) (omega arith) (omega arith) (omega arith) (omega arith)
      (omega arith) (omega arith) (omega arith) (omega (arith, length-replicate {A = ℕ} 12 0))
      (λ a. refl) (omega arith) (λ a. refl) refl
