-- ===== src/Xsk/Tx/Batch.antt =====
-- `put_batch_on_tx_queue` under the kernel's contract: it returns, and hands over the whole batch.
use mathlib.Core.Path.{subst}
use xdpsock.Prelude.{
  ℕ, ◌+◌, ◌*◌, ◌≤◌, ◌<◌, ◌≡◌, refl, sym, ap, ◌∙◌, false, List, [], ◌∷◌, map, some, ret, length,
  slice, take, drop, length-slice, length-map, get_elem?, update_range, length-update_range,
  splice-map-slice, add64, pos-==_zero, index_range_lem, arith,
}
use xdpsock.Kernel.{Kernel, Machine}
use xdpsock.Kernel.Laws.{IsProdRing}
use xdpsock.Umem.Frame.{Frame, FrameStatus}
use xdpsock.Xsk.Tx.{XskTx, batch_range, produce_all, put_batch_on_tx_queue}
use xdpsock.Xsk.Lent.{Lent, with_all}
use xdpsock.Xsk.Tx.Lent.{TxContract}
use xdpsock.Xsk.Tx.Frames.{AreFrames}
use xdpsock.Xsk.Tx.Lending.{queue, rows, slice-rows, AreFrames-lend, on_tx-update_range}
use xdpsock.Xsk.Tx.Produce.{addrs, produce_all_lem}
use xdpsock.Xsk.Tx.Complete.{IsCoherent, on_tx-le, few_frames}

-- The state after the batch that begins at frame `s` was handed over.
abbrev pub flushed : XskTx → ℕ → XskTx
flushed tx s = record tx {
  tx_frames = update_range queue s tx.cur_batch_size tx.tx_frames;
  stats = record (tx.stats) { pkts_tx = add64 tx.stats.pkts_tx tx.cur_batch_size };
  outstanding_tx_frames = add64 tx.outstanding_tx_frames tx.cur_batch_size;
  cur_batch_size = 0;
}

-- The frames of the batch, written but not handed over, begin at frame `s`.
pub record IsPending (lent : Lent) (tx : XskTx) (s : ℕ) : Type 0 where
  pub range : batch_range tx ≡ (s, s + tx.cur_batch_size)
  pub inside : s + tx.cur_batch_size ≤ length tx.tx_frames
  pub ours : (j : ℕ) → s ≤ j → j < s + tx.cur_batch_size → lent (j * tx.frame_size) ≡ false

abbrev pub batch : XskTx → ℕ → List Frame
batch tx s = map queue (slice tx.tx_frames s (s + tx.cur_batch_size))

addrs-queue : (frames : List Frame) → addrs (map queue frames) ≡ map (λ f. f.addr) frames
addrs-queue [] = refl
addrs-queue (f ∷ frames) = ap (◌∷◌ f.addr) (addrs-queue frames)

module _ (mtu : ℕ) (lent : Lent) (mem : List ℕ) (tx : XskTx) (s : ℕ) where
  batch-rows :
      IsCoherent mtu lent mem tx
      → IsPending lent tx s
      → addrs (batch tx s) ≡ rows tx.frame_size s tx.cur_batch_size
  batch-rows v p =
      addrs-queue (slice tx.tx_frames s (s + tx.cur_batch_size))
      ∙ ap (λ n. map (λ (f : Frame). f.addr) (take n (drop s tx.tx_frames))) (omega arith)
      ∙ slice-rows tx.frame_size mtu lent tx.tx_frames tx.cur_batch_size s v.frames p.inside

  length-batch : IsPending lent tx s → length (batch tx s) ≡ tx.cur_batch_size
  length-batch p = omega (
    arith,
    length-map queue (slice tx.tx_frames s (s + tx.cur_batch_size)),
    length-slice tx.tx_frames s (s + tx.cur_batch_size) p.inside,
  )

  flushed-IsCoherent :
      (lent' : Lent) (mem' : List ℕ)
      → IsCoherent mtu lent mem tx
      → IsPending lent tx s
      → lent' ≡ with_all lent (rows tx.frame_size s tx.cur_batch_size)
      → length mem' ≡ length mem
      → IsCoherent mtu lent' mem' (flushed tx s)
  flushed-IsCoherent lent' mem' v p e same =
      let len = length-update_range queue s tx.cur_batch_size tx.tx_frames in
      let all_free : (j : ℕ) (f : Frame)
          → get_elem? tx.tx_frames j ≡ some f
          → s ≤ j
          → j < s + tx.cur_batch_size
          → f.status ≡ FrameStatus.free =
        λ j f q lo hi.
          let old = v.frames.each j f q in ground (arith, old.agrees, old.placed, p.ours j lo hi) in
      let more = on_tx-update_range tx.tx_frames s tx.cur_batch_size p.inside all_free in
      record {
        size_pos = v.size_pos;
        fits = rw len (v.fits);
        inside = rw (len, same) (v.inside);
        mtu_le = v.mtu_le;
        buffer = v.buffer ∙ sym len;
        cursor_in = rw len (v.cursor_in);
        frames =
            subst
              (λ x.
                AreFrames tx.frame_size mtu x (update_range queue s tx.cur_batch_size tx.tx_frames))
              (sym e)
              (AreFrames-lend tx.frame_size mtu lent tx.tx_frames s tx.cur_batch_size v.size_pos
                p.inside v.frames);
        counted = omega (
          arith,
          more,
          few_frames tx v,
          v.counted,
          on_tx-le (update_range queue s tx.cur_batch_size tx.tx_frames),
          len,
        );
      }

module _ (k : Kernel) (size : ℕ) (l : IsProdRing k.tx_ring size) (c : TxContract k) where
  open k use {World}

  -- What `put_batch_on_tx_queue` comes to with a batch that is not empty.
  pub record Flushes (fuel mtu : ℕ) (tx : XskTx) (m : Machine World) (s : ℕ) : Type 0 where
    pub machine : Machine World
    pub run : put_batch_on_tx_queue k fuel tx m ≡ ret (flushed tx s, machine)
    pub produced : produce_all k fuel tx.tx_q (batch tx s) (length (batch tx s)) m ≡ ret machine
    pub coherent : IsCoherent mtu (c.lent machine.world) machine.mem (flushed tx s)
    pub lent :
        c.lent machine.world ≡ with_all (c.lent m.world) (rows tx.frame_size s tx.cur_batch_size)

  put_batch_run :
      (fuel : ℕ) (tx : XskTx) (m : Machine World) (s : ℕ) (m' : Machine World)
      → IsPending (c.lent m.world) tx s
      → 0 < tx.cur_batch_size
      → produce_all k fuel tx.tx_q (batch tx s) tx.cur_batch_size m ≡ ret m'
      → put_batch_on_tx_queue k fuel tx m ≡ ret (flushed tx s, m')
  unfolding put_batch_on_tx_queue
  put_batch_run fuel tx m s m' p pos run = rw (pos-==_zero tx.cur_batch_size pos) (
      rw (p.range) (
        rw (index_range_lem tx.tx_frames s (s + tx.cur_batch_size) (omega arith) p.inside)
          (rw run (rw (splice-map-slice queue s tx.cur_batch_size tx.tx_frames) refl))))

  -- Under the contract, at a coherent state whose batch is not empty, is not larger than the tx
  -- ring and is pending from frame `s` on, with more fuel than refusals to come,
  -- `put_batch_on_tx_queue` returns. The frames of the batch are marked and lent to the kernel, no
  -- other frame is, both counters grow by the batch, the batch is empty again and the state stays
  -- coherent.
  pub put_batch-Flushes :
      (fuel mtu : ℕ) (tx : XskTx) (m : Machine World) (s : ℕ)
      → IsCoherent mtu (c.lent m.world) m.mem tx
      → IsPending (c.lent m.world) tx s
      → 0 < tx.cur_batch_size
      → tx.cur_batch_size ≤ c.capacity
      → c.refusals m.world < fuel
      → Flushes fuel mtu tx m s
  put_batch-Flushes fuel mtu tx m s v p pos le enough =
      let len = length-batch mtu (c.lent m.world) m.mem tx s p in
      let (m', run, lent', mem') =
        produce_all_lem k size l c fuel tx.tx_q (batch tx s) m (omega (arith, len))
          (omega (arith, len)) enough in
      let lent'' =
        lent' ∙ ap (with_all (c.lent m.world)) (batch-rows mtu (c.lent m.world) m.mem tx s v p) in
      record {
        machine = m';
        run =
            put_batch_run fuel tx m s m' p pos
              (subst (λ n. produce_all k fuel tx.tx_q (batch tx s) n m ≡ ret m') len run);
        produced = run;
        coherent =
            flushed-IsCoherent mtu (c.lent m.world) m.mem tx s (c.lent m'.world) m'.mem v p lent''
              mem';
        lent = lent'';
      }
