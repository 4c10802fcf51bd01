-- ===== src/Socket/Create.antt =====
-- `Socket::new` of src/socket/socket.rs: a bound socket, as its two queues. An error comes without
-- the machine after it, and so without the `xsk_socket__delete` where there is no descriptor.
use xdpsock.Prelude.{ℕ, Bool, false, ◌||◌, List, [], ◌∷◌, Result, ok, err, ◌==◌, if◌then◌else◌}
use xdpsock.Kernel.{Kernel, Machine}
use xdpsock.Socket.Config.{SocketConfig}
use xdpsock.Socket.Poll.{new_fd}
use xdpsock.Socket.TxQueue.{TxQueue}
use xdpsock.Socket.RxQueue.{RxQueue}

pub data SocketCreateError : Type 0 where
  invalid_if_name : SocketCreateError
  create_failed : (errno : ℕ) → SocketCreateError
  no_descriptor : SocketCreateError

-- A C string holds no zero byte: the check of `CString::new`.
unfoldable pub has_nul : List ℕ → Bool
has_nul [] = false
has_nul (c ∷ cs) = c == 0 || has_nul cs

module _ (k : Kernel) where
  open k use {World}

  unfoldable pub new :
      SocketConfig
      → List ℕ
      → ℕ
      → Machine World
      → Result SocketCreateError (TxQueue × RxQueue × Machine World)
  new config if_name queue_id m =
      if has_nul if_name
      then err SocketCreateError.invalid_if_name
      else (elim (k.socket_create if_name queue_id
          (record {
            rx_size = config.rx_queue_size;
            tx_size = config.tx_queue_size;
            xdp_flags = config.xdp_flags;
            bind_flags = config.bind_flags;
            libbpf_flags = config.libbpf_flags;
          })
          m) [
            | err errno ↦ err (SocketCreateError.create_failed errno)
            | ok m' ↦ (elim (k.socket_fd m') [
              | err _ ↦ err SocketCreateError.no_descriptor
              | ok fd ↦ ok (record { fd = new_fd fd }, record { fd = new_fd fd }, m')
            ])
          ])
