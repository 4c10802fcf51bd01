-- ===== src/Kernel.antt =====
-- What the crate calls and does not implement: the ring functions of libbpf (`_xsk_ring_*`), the
-- system calls of libc, and the kernel behind them. All of it is a parameter of the model.
pub mod Laws
pub mod Stores
use xdpsock.Prelude.{ℕ, List, Bool, Result}

-- `World` stands for the rings, the socket and the kernel. `mem` holds the bytes of the UMEM.
pub record Machine (World : Type 0) : Type 0 where
  pub mem : List ℕ
  pub world : World

-- A count of ring entries, and the index of the first: what `reserve` and `peek` return.
pub record Grant : Type 0 where
  pub count : ℕ
  pub start : ℕ

-- `xdp_desc`
pub record Desc : Type 0 where
  pub addr : ℕ
  pub len : ℕ
  pub options : ℕ

-- `xsk_ring_prod` with entries of type `Entry`: `_xsk_ring_prod__reserve`, a store through
-- `_xsk_ring_prod__fill_addr` or `_xsk_ring_prod__tx_desc`, `_xsk_ring_prod__submit` and
-- `_xsk_ring_prod__needs_wakeup`.
pub record ProdRing (World Entry : Type 0) : Type 0 where
  pub reserve : ℕ → World → Grant × World
  pub store : ℕ → Entry → World → World
  pub submit : ℕ → World → World
  pub needs_wakeup : World → ℕ

-- `xsk_ring_cons`: `_xsk_ring_cons__peek`, a load through `_xsk_ring_cons__comp_addr` or
-- `_xsk_ring_cons__rx_desc`, and `_xsk_ring_cons__release`. What the kernel has written to the
-- UMEM shows from the next `peek` or system call on.
pub record ConsRing (World Entry : Type 0) : Type 0 where
  pub peek : ℕ → Machine World → Grant × Machine World
  pub load : ℕ → World → Entry
  pub release : ℕ → World → World

-- The event mask of a `pollfd`.
pub data Events : Type 0 where
  pollin pollout : Events

-- `xsk_umem_config`
pub record UmemCreateConfig : Type 0 where
  pub fill_size : ℕ
  pub comp_size : ℕ
  pub frame_size : ℕ
  pub frame_headroom : ℕ
  pub flags : ℕ

-- `xsk_socket_config`
pub record SocketCreateConfig : Type 0 where
  pub rx_size : ℕ
  pub tx_size : ℕ
  pub xdp_flags : ℕ
  pub bind_flags : ℕ
  pub libbpf_flags : ℕ

-- A system call that returns a negative number is `err` with the `errno` that it leaves. `poll` takes
-- the descriptor, its events and the timeout; `sendto` the descriptor, with no data and
-- `MSG_DONTWAIT`. `mmap` takes the length and whether `MAP_HUGETLB` is set, and maps zeroed bytes.
-- `socket_create` takes the interface's name and the queue's number; `socket_fd` is
-- `xsk_socket__fd`, where `err` is a negative descriptor.
pub record Kernel : Type 1 where
  pub World : Type 0
  pub fill_ring : ProdRing World ℕ
  pub comp_ring : ConsRing World ℕ
  pub tx_ring : ProdRing World Desc
  pub rx_ring : ConsRing World Desc
  pub poll : ℕ → Events → ℕ → Machine World → Result ℕ ℕ × Machine World
  pub sendto : ℕ → Machine World → Result ℕ ℕ × Machine World
  pub mmap : ℕ → Bool → World → Result ℕ (Machine World)
  pub umem_create : UmemCreateConfig → Machine World → Result ℕ (Machine World)
  pub socket_create : List ℕ → ℕ → SocketCreateConfig → Machine World → Result ℕ (Machine World)
  pub socket_fd : Machine World → Result ℕ ℕ
  pub eintr : ℕ
  pub enobufs : ℕ
  pub eagain : ℕ
  pub ebusy : ℕ
  pub enetdown : ℕ
  pub xdp_packet_headroom : ℕ
