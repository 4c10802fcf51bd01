-- ===== src/Xsk/Tx.antt =====
-- `XskTx` of src/xsk/tx.rs: a ring of frames, sent in batches and completed by the kernel. The
-- start and end times of the statistics are left out. A loop that waits for the kernel has fuel.
pub mod Lent
pub mod Frames
pub mod Lending
pub mod Produce
pub mod Complete
pub mod Batch
pub mod Valid
pub mod Advance
pub mod Attempt
pub mod Send
pub mod Apply
pub mod Fresh
pub mod Prompt
pub mod Drain
pub mod Prefill
pub mod Slots
pub mod Transcript
pub mod Queue
pub mod Packets
pub mod Session
pub mod Wrap
use xdpsock.Prelude.{
  ℕ, zero, suc, ◌≡◌, Bool, true, false, not, List, [], ◌∷◌, map, Outcome, ret, panic, spinning,
  ◌>>=◌, ◌>>◌, Result, ok, err, expect, index, assign, index_range, div, rem, length, take, set,
  splice, replicate, as_u32, add64, sub64, ◌==◌, if◌then◌else◌,
}
use xdpsock.Kernel.{Kernel, Machine}
use xdpsock.Umem.Frame.{
  Frame, FrameStatus, is_free, set_len, set_status, write_to_umem_checked, umem_region_mut,
}
use xdpsock.Umem.Mmap.{write_range}
use xdpsock.Umem.CompQueue
use xdpsock.Umem.CompQueue.{CompQueue}
use xdpsock.Socket.TxQueue
use xdpsock.Socket.TxQueue.{TxQueue}

pub record TxStats : Type 0 where
  pub pkts_tx : ℕ
  pub pkts_tx_completed : ℕ

pub data XskSendError : Type 0 where
  no_free_tx_frames : XskSendError

pub record XskTx : Type 0 where
  pub tx_q : TxQueue
  pub comp_q : CompQueue
  pub tx_frames : List Frame
  pub free_frames : List ℕ
  pub outstanding_tx_frames : ℕ
  pub tx_poll_ms_timeout : ℕ
  pub tx_cursor : ℕ
  pub frame_size : ℕ
  pub stats : TxStats
  pub batch_size : ℕ
  pub cur_batch_size : ℕ

-- `XskTx::new`; the timeout is -1 as an `i32`.
unfoldable pub new : TxQueue → CompQueue → List Frame → ℕ → ℕ → XskTx
new tx_q comp_q tx_frames frame_size batch_size = record {
  tx_q = tx_q;
  comp_q = comp_q;
  tx_frames = tx_frames;
  free_frames = replicate (length tx_frames) 0;
  outstanding_tx_frames = 0;
  tx_poll_ms_timeout = 0xffff_ffff;
  tx_cursor = 0;
  frame_size = frame_size;
  stats = record { pkts_tx = 0; pkts_tx_completed = 0 };
  batch_size = batch_size;
  cur_batch_size = 0;
}

-- The loop of `prefill`: the frames and the memory after it.
unfoldable pub prefill_frames : List ℕ → List Frame → List ℕ → Outcome (List Frame × List ℕ)
prefill_frames src [] mem = ret ([], mem)
prefill_frames src (frame ∷ frames) mem = do
  (written, frame', mem') ← write_to_umem_checked frame src mem
  expect written
  (frames', mem'') ← prefill_frames src frames mem'
  ret (frame' ∷ frames', mem'')

-- The loop of `update_tx_frames` over the completed addresses.
unfoldable pub mark_free : ℕ → List ℕ → List Frame → Outcome (List Frame)
mark_free frame_size [] frames = ret frames
mark_free frame_size (free_frame ∷ rest) frames = do
  i ← div (as_u32 free_frame) frame_size
  frame ← index frames i
  mark_free frame_size rest (set frames i (set_status frame FrameStatus.free))

unfoldable pub update_tx_frames : ℕ → XskTx → Outcome XskTx
update_tx_frames n_free_frames tx = do
  free_frames ← index_range tx.free_frames 0 n_free_frames
  frames ← mark_free tx.frame_size free_frames tx.tx_frames
  ret (record tx { tx_frames = frames })

-- The frames `tx_frames[start..end]` that the batch covers.
unfoldable pub batch_range : XskTx → ℕ × ℕ
batch_range tx =
    if tx.tx_cursor == 0
    then (sub64 (length tx.tx_frames) tx.cur_batch_size, length tx.tx_frames)
    else (sub64 tx.tx_cursor tx.cur_batch_size, tx.tx_cursor)

module _ (k : Kernel) where
  open k use {World}

  unfoldable pub prefill : List ℕ → XskTx → Machine World → Outcome (XskTx × Machine World)
  unfolding prefill_frames
  prefill src tx m = do
    (frames, mem) ← prefill_frames src tx.tx_frames m.mem
    ret (record tx { tx_frames = frames }, record m { mem = mem })

  -- Reads the completion queue; the number of frames that it gave back comes first.
  unfoldable pub complete_frames : XskTx → Machine World → Outcome (ℕ × XskTx × Machine World)
  complete_frames tx m = do
    (n_free_frames, free_frames, m') ← CompQueue.consume k tx.outstanding_tx_frames tx.free_frames m
    tx' ← update_tx_frames n_free_frames (record tx {
      free_frames = free_frames;
      outstanding_tx_frames = sub64 tx.outstanding_tx_frames n_free_frames;
      stats = record (tx.stats) {
        pkts_tx_completed = add64 tx.stats.pkts_tx_completed n_free_frames;
      };
    })
    ret (n_free_frames, tx', m')

  -- `while produce_and_wakeup(..) != want`
  unfoldable pub produce_all :
      ℕ → TxQueue → List Frame → ℕ → Machine World → Outcome (Machine World)
  produce_all zero q descs want m = spinning
  produce_all (suc fuel) q descs want m =
      let (produced, m') = TxQueue.produce_and_wakeup k q descs m in
      elim produced [
        | err errno ↦ panic
        | ok n ↦ elim (n == want) [ true ↦ ret m' | false ↦ produce_all fuel q descs want m' ]
      ]

  unfoldable pub put_batch_on_tx_queue : ℕ → XskTx → Machine World → Outcome (XskTx × Machine World)
  put_batch_on_tx_queue fuel tx m = if tx.cur_batch_size == 0 then ret (tx, m) else do
    let (start, stop) = batch_range tx
    batch ← index_range tx.tx_frames start stop
    let queued = map (λ f. set_status f FrameStatus.on_tx_queue) batch
    m' ← produce_all fuel tx.tx_q queued tx.cur_batch_size m
    ret (
      record tx {
        tx_frames = splice tx.tx_frames start queued;
        stats = record (tx.stats) { pkts_tx = add64 tx.stats.pkts_tx tx.cur_batch_size };
        outstanding_tx_frames = add64 tx.outstanding_tx_frames tx.cur_batch_size;
        cur_batch_size = 0;
      },
      m',
    )

  -- The end of `send` and of `send_apply`, once the frame at the cursor is written.
  unfoldable pub advance : ℕ → XskTx → Machine World → Outcome (XskTx × Machine World)
  advance fuel tx m = do
    cursor ← rem (add64 tx.tx_cursor 1) (length tx.tx_frames)
    let tx' = record tx { tx_cursor = cursor; cur_batch_size = add64 tx.cur_batch_size 1 }
    if tx'.cur_batch_size == tx'.batch_size then put_batch_on_tx_queue fuel tx' m else ret (tx', m)

  unfoldable pub send :
      ℕ
      → List ℕ
      → XskTx
      → Machine World
      → Outcome (Result XskSendError (Unit {0}) × XskTx × Machine World)
  send fuel src tx m = do
    (n, tx', m') ← complete_frames tx m
    frame ← index tx'.tx_frames tx'.tx_cursor
    if not (is_free frame.status) then ret (err XskSendError.no_free_tx_frames, tx', m') else do
      (written, frame', mem) ← write_to_umem_checked frame src m'.mem
      expect written
      (tx'', m'') ←
          advance fuel (record tx' { tx_frames = set tx'.tx_frames tx'.tx_cursor frame' })
            (record m' { mem = mem })
      ret (ok tt, tx'', m'')

  -- The caller's function sees the frame's region and returns what it makes of it, with a length.
  unfoldable pub send_apply :
      ℕ
      → (List ℕ → Outcome (List ℕ × ℕ))
      → XskTx
      → Machine World
      → Outcome (Result XskSendError (Unit {0}) × XskTx × Machine World)
  send_apply fuel f tx m = do
    (n, tx', m') ← complete_frames tx m
    frame ← index tx'.tx_frames tx'.tx_cursor
    if not (is_free frame.status) then ret (err XskSendError.no_free_tx_frames, tx', m') else do
      region ← umem_region_mut frame tx'.frame_size m'.mem
      (region', len) ← f region
      mem ← write_range m'.mem frame.addr (take (length region) region')
      (tx'', m'') ←
          advance fuel
            (record tx' { tx_frames = set tx'.tx_frames tx'.tx_cursor (set_len frame len) })
            (record m' { mem = mem })
      ret (ok tt, tx'', m'')

  -- Waits until all the outstanding frames have come back.
  unfoldable pub drain : ℕ → ℕ → XskTx → Machine World → Outcome (XskTx × Machine World)
  drain fuel zero tx m = spinning
  drain fuel (suc rounds) tx m = do
    (n, tx', m') ← complete_frames tx m
    (tx'', m'') ← put_batch_on_tx_queue fuel tx' m'
    elim (tx''.outstanding_tx_frames == 0) [
      | true ↦ ret (tx'', m'')
      | false ↦ drain fuel rounds tx'' m''
    ]
