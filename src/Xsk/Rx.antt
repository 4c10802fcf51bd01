-- ===== src/Xsk/Rx.antt =====
-- `XskRx` of src/xsk/rx.rs: frames lent to the kernel, delivered to the caller and lent again. The
-- start and end times of the statistics are left out. A loop that waits for the kernel has fuel.
pub mod Place
pub mod Apply
pub mod Batch
pub mod Refill
pub mod Deliver
pub mod Mark
pub mod Frames
pub mod Entry
pub mod Contract
pub mod Rounds
pub mod Valid
pub mod Fresh
pub mod Window
pub mod Fifo
pub mod InOrder
use xdpsock.Prelude.{
  ℕ, zero, suc, ◌+◌, true, false, List, [], ◌∷◌, ◌++◌, Outcome, ret, panic, spinning, ◌>>=◌, ◌>>◌,
  ok, err, expect, index, index_range, div, rem, length, set, splice, replicate, as_u32, sub32,
  add64, sub64, ltb, ◌==◌, if◌then◌else◌,
}
use xdpsock.Kernel.{Kernel, Machine, Desc}
use xdpsock.Umem.Frame.{
  Frame, FrameStatus, set_addr, set_len, set_options, set_status, read_from_umem,
  read_from_umem_checked,
}
use xdpsock.Umem.FillQueue
use xdpsock.Umem.FillQueue.{FillQueue}
use xdpsock.Socket.RxQueue
use xdpsock.Socket.RxQueue.{RxQueue}
use xdpsock.Socket.Poll.{Fd}

pub record RxStats : Type 0 where
  pub pkts_rx : ℕ
  pub pkts_rx_delivered : ℕ

-- An entry of `filled_frames`, a triple in the source, is a `Desc`.
pub record XskRx : Type 0 where
  pub fill_q : FillQueue
  pub rx_q : RxQueue
  pub rx_frames : List Frame
  pub filled_frames : List Desc
  pub processed_frames : List Frame
  pub rx_frame_offset : ℕ
  pub n_frames_to_be_filled : ℕ
  pub frame_size : ℕ
  pub rx_cursor : ℕ
  pub poll_ms_timeout : ℕ
  pub stats : RxStats

-- The index of the frame that an address lies in, in `u32` arithmetic.
unfoldable pub rx_frame_index : XskRx → ℕ → Outcome ℕ
rx_frame_index rx addr = div (sub32 (as_u32 addr) (as_u32 rx.rx_frame_offset)) rx.frame_size

-- What `set_addr`, `set_len` and `set_options` make of a frame.
abbrev pub describe : Frame → Desc → Frame
describe frame d = set_options (set_len (set_addr frame d.addr) d.len) d.options

-- The loop of `update_rx_frames`.
unfoldable pub mark_filled : List Desc → XskRx → Outcome XskRx
mark_filled [] rx = ret rx
mark_filled (d ∷ rest) rx = do
  i ← rx_frame_index rx d.addr
  frame ← index rx.rx_frames i
  mark_filled rest (record rx {
    rx_frames = set rx.rx_frames i (set_status (describe frame d) FrameStatus.filled);
  })

unfoldable pub update_rx_frames : ℕ → XskRx → Outcome XskRx
update_rx_frames n_frames_recv rx = do
  filled_frames ← index_range rx.filled_frames 0 n_frames_recv
  mark_filled filled_frames rx

-- The loop of `apply_batch` over the filled frames. The caller's function has a state `S`.
unfoldable pub apply_frames :
    {S : Type 0} → (S → List ℕ → S) → List ℕ → List Desc → S → XskRx → Outcome (S × XskRx)
apply_frames f mem [] s rx = ret (s, rx)
apply_frames f mem (d ∷ rest) s rx = do
  i ← rx_frame_index rx d.addr
  frame ← index rx.rx_frames i
  bytes ← read_from_umem (describe frame d) d.len mem
  apply_frames f mem rest (f s bytes) (record rx {
    rx_frames = set rx.rx_frames i (describe frame d);
    processed_frames = rx.processed_frames ++ (describe frame d ∷ []);
  })

module _ (k : Kernel) where
  open k use {World}

  -- `XskRx::new`. The number of frames that the fill queue took is only logged.
  unfoldable pub new :
      RxQueue → FillQueue → List Frame → ℕ → Machine World → Outcome (XskRx × Machine World)
  new rx_q fill_q rx_frames frame_size m = do
    first ← index rx_frames 0
    let (frames_filled, w) = FillQueue.produce k rx_frames m.world
    ret (
      record {
        fill_q = fill_q;
        rx_q = rx_q;
        rx_frames = rx_frames;
        filled_frames = replicate (length rx_frames) (record { addr = 0; len = 0; options = 0 });
        processed_frames = [];
        rx_frame_offset = first.addr;
        n_frames_to_be_filled = length rx_frames;
        frame_size = frame_size;
        rx_cursor = 0;
        poll_ms_timeout = 0;
        stats = record { pkts_rx = 0; pkts_rx_delivered = 0 };
      },
      record m { world = w },
    )

  -- Where nothing was received: wake the fill queue if it asks for it.
  unfoldable pub wake_fill_q : XskRx → Machine World → Outcome (Machine World)
  wake_fill_q rx m =
      if FillQueue.needs_wakeup k m.world
      then (let (woken, m') = FillQueue.wakeup k rx.rx_q.fd rx.poll_ms_timeout m in
          do expect woken; ret m')
      else ret m

  -- The beginning of `recv` and of `recv_apply`: how many frames the rx queue gave.
  unfoldable pub check_rx : XskRx → Machine World → Outcome (ℕ × XskRx × Machine World)
  check_rx rx m = do
    let (consumed, m') =
        RxQueue.poll_and_consume k rx.rx_q rx.n_frames_to_be_filled rx.filled_frames
          rx.poll_ms_timeout m
    (n, filled_frames) ← expect consumed
    let rx' = record rx {
      filled_frames = filled_frames;
      stats = record (rx.stats) { pkts_rx = add64 rx.stats.pkts_rx n };
      n_frames_to_be_filled = sub64 rx.n_frames_to_be_filled n;
    }
    m'' ← (if n == 0 then wake_fill_q rx' m' else ret m')
    ret (n, rx', m'')

  -- `produce_and_wakeup` on the fill queue until it takes `want` frames.
  unfoldable pub refill : ℕ → Fd → ℕ → List Frame → ℕ → Machine World → Outcome (Machine World)
  refill zero fd timeout descs want m = spinning
  refill (suc fuel) fd timeout descs want m =
      let (produced, m') = FillQueue.produce_and_wakeup k descs fd timeout m in
      elim produced [
        | err errno ↦ panic
        | ok n ↦ elim (n == want) [ true ↦ ret m' | false ↦ refill fuel fd timeout descs want m' ]
      ]

  -- The branch of `recv` for a filled frame: the length, the caller's buffer, and the states.
  unfoldable pub deliver :
      ℕ → List ℕ → Frame → XskRx → Machine World → Outcome (ℕ × List ℕ × XskRx × Machine World)
  deliver fuel pkt_receiver frame rx m = do
    checked ← read_from_umem_checked frame frame.len m.mem
    bytes ← expect checked
    dest ← index_range pkt_receiver 0 frame.len
    refilled ← index_range rx.rx_frames rx.rx_cursor (rx.rx_cursor + 1)
    m' ← refill fuel rx.rx_q.fd rx.poll_ms_timeout refilled 1 m
    cursor ← rem (add64 rx.rx_cursor 1) (length rx.rx_frames)
    ret (
      frame.len,
      splice pkt_receiver 0 bytes,
      record rx {
        stats = record (rx.stats) { pkts_rx_delivered = add64 rx.stats.pkts_rx_delivered 1 };
        rx_frames = set rx.rx_frames rx.rx_cursor (set_status frame FrameStatus.free);
        n_frames_to_be_filled = add64 rx.n_frames_to_be_filled 1;
        rx_cursor = cursor;
      },
      m',
    )

  unfoldable pub recv :
      ℕ → List ℕ → XskRx → Machine World → Outcome (ℕ × List ℕ × XskRx × Machine World)
  recv fuel pkt_receiver rx m = do
    (n, rx', m') ← check_rx rx m
    rx'' ← update_rx_frames n rx'
    frame ← index rx''.rx_frames rx''.rx_cursor
    elim frame.status [
      | FrameStatus.filled ↦ deliver fuel pkt_receiver frame rx'' m'
      | _ ↦ ret (0, pkt_receiver, rx'', m')
    ]

  unfoldable pub apply_batch :
      {S : Type 0}
      → ℕ
      → (S → List ℕ → S)
      → ℕ
      → S
      → XskRx
      → Machine World
      → Outcome (S × XskRx × Machine World)
  apply_batch fuel f n_frames_recv s rx m = do
    filled_frames ← index_range rx.filled_frames 0 n_frames_recv
    (s', rx') ← apply_frames f m.mem filled_frames s rx
    m' ←
        refill fuel rx'.rx_q.fd rx'.poll_ms_timeout rx'.processed_frames
          (length rx'.processed_frames) m
    ret (
      s',
      record rx' {
        processed_frames = [];
        stats = record (rx'.stats) {
          pkts_rx_delivered = add64 rx'.stats.pkts_rx_delivered n_frames_recv;
        };
        n_frames_to_be_filled = add64 rx'.n_frames_to_be_filled n_frames_recv;
      },
      m',
    )

  unfoldable pub recv_apply :
      {S : Type 0}
      → ℕ
      → (S → List ℕ → S)
      → S
      → XskRx
      → Machine World
      → Outcome (S × XskRx × Machine World)
  recv_apply fuel f s rx m = do
    (n, rx', m') ← check_rx rx m
    if ltb 0 n then apply_batch fuel f n s rx' m' else ret (s, rx', m')
