-- ===== src/Lib.antt =====
-- xdpsock: AF_XDP sockets over libbpf.
--
-- A socket owns a memory area, the UMEM, cut into frames of equal size. Some frames are for sending:
-- `XskTx` writes a packet to the frame at its cursor, hands full batches to the kernel over the tx ring
-- and gets the frames back over the completion ring. The others are for receiving: `XskRx` lends them
-- over the fill ring, finds the received ones on the rx ring, gives their bytes to the caller and lends
-- them again. `Xsk2::new` maps the area, creates the UMEM and the socket, and shares the frames out.
--
--   Kernel       libbpf's ring functions and the system calls, which are parameters: the crate calls
--                them and does not implement them. Kernel.Laws states the documented contract of the
--                rings, Xsk.Tx.Lent and Xsk.Rx.Contract what sending and receiving rely on of the
--                kernel behind them, Xsk.Tx.Transcript what it was given to send, and
--                Xsk.Rx.Fifo in which order it receives
--   Util         src/util.rs: `is_pow_of_two`
--   Umem         src/umem: the mapped area (mmap.rs), the configuration (config.rs), frames, the fill and
--                the completion queue and the builder (umem.rs)
--   Socket       src/socket: the configuration (config.rs), `poll` (fd.rs and poll.rs), the tx and the rx
--                queue and `Socket::new` (socket.rs)
--   Xsk          src/xsk: `XskTx` (tx.rs), `XskRx` (rx.rs), `Xsk` and `Xsk2` (xsk.rs). Xsk.Tx.Queue is
--                what sending promises without frames and rings, Xsk.Tx.Session any sequence of sends;
--                Xsk.Rx.InOrder is the queue of the received packets, Xsk.Rx.InOrder.Receipts any
--                sequence of calls of `recv`, and Xsk.Halves.Exchange both halves of a socket on one machine
--   Iface        src/iface.rs: the counters of an interface
--   Examples     examples: dev_to_dev.rs, which sends and receives numbered packets, and synacker.rs, which
--                answers TCP packets, over a socket; the crates that read and write packets are parameters
--   Prelude      the outcomes of a call, lists over the native numbers, and fixed-width arithmetic
--   Tests        a small kernel on which the contracts hold, and the theorems applied on it
--
-- State is passed on: a method is a function from the record of its object and the machine, which is the
-- bytes of the UMEM and the kernel's side, to an `Outcome`. An outcome is a value, a panic, undefined
-- behaviour (an access outside the mapped area, which the source does not check) or `spinning`: a loop
-- that has used up its fuel. `while` loops that wait for the kernel have fuel; for sending, more fuel
-- than refusals of the tx ring to come is proved to be enough, and for `drain` as many rounds as all
-- frames together may have to wait. The frames' shared `mmap_area` is the one
-- `mem` of the machine. Integers wrap as they do in a release build, so `usize` and `u64` are numbers
-- modulo 2 ^ 64; a debug build panics where a wrap is shown here.
--
-- Not modelled: the log output, the messages and `Display` texts of errors, the times and rates of
-- the statistics, and the `Drop` impls that unmap and delete what libbpf created. Of the examples
-- neither the command line, nor the start of the threads, nor what they print. The integration
-- tests under tests need a kernel and two interfaces.
pub mod Prelude
pub mod Util
pub mod Kernel
pub mod Umem
pub mod Socket
pub mod Xsk
pub mod Iface
pub mod Examples
pub mod Tests
