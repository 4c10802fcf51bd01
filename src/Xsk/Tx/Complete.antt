-- ===== src/Xsk/Tx/Complete.antt =====
-- `complete_frames` under the kernel's contract: it returns, and its state stays coherent.
use mathlib.Core.Path.{fun_ext, subst}
use native.Mathlib.Nat.{le_trans}
use xdpsock.Prelude.{
  ℕ, ◌+◌, ◌*◌, ◌^◌, ◌≤◌, ◌<◌, ◌≡◌, refl, sym, ◌∙◌, List, [], ◌∷◌, ret, length, splice,
  length-splice, slice-splice_zero, add64, sub64, arith,
}
use xdpsock.Kernel.{Kernel, Machine}
use xdpsock.Kernel.Laws.{IsConsRing}
use xdpsock.Umem.Frame.{Frame}
use xdpsock.Umem.CompQueue.Consume.{consumed, consume_lem}
use xdpsock.Xsk.Tx.{XskTx, mark_free, update_tx_frames, complete_frames}
use xdpsock.Xsk.Lent.{Lent, without_all}
use xdpsock.Xsk.Tx.Lent.{TxContract}
use xdpsock.Xsk.Tx.Frames.{AreFrames, on_tx, mark_free_lem}

-- The frames lie in the UMEM, their status agrees with what the kernel holds, and
-- `outstanding_tx_frames` counts the frames that it holds. `mtu` is that of every frame.
pub record IsCoherent (mtu : ℕ) (lent : Lent) (mem : List ℕ) (tx : XskTx) : Type 0 where
  pub size_pos : 0 < tx.frame_size
  pub fits : length tx.tx_frames * tx.frame_size ≤ 2 ^ 32
  pub inside : length tx.tx_frames * tx.frame_size ≤ length mem
  pub mtu_le : mtu ≤ tx.frame_size
  pub buffer : length tx.free_frames ≡ length tx.tx_frames
  pub cursor_in : tx.tx_cursor < length tx.tx_frames
  pub frames : AreFrames tx.frame_size mtu lent tx.tx_frames
  pub counted : tx.outstanding_tx_frames ≡ on_tx tx.tx_frames

pub on_tx-le : (frames : List Frame) → on_tx frames ≤ length frames
on_tx-le [] = omega arith
on_tx-le (f ∷ frames) = ground (arith, on_tx-le frames)

-- There are at most 2 ^ 32 frames.
pub few_frames :
    {mtu : ℕ} {lent : Lent} {mem : List ℕ} (tx : XskTx)
    → IsCoherent mtu lent mem tx
    → length tx.tx_frames ≤ 2 ^ 32
few_frames tx v = le_trans rows v.fits
  where
    open v use {size_pos}

    rows : length tx.tx_frames ≤ length tx.tx_frames * tx.frame_size
    rows = grind arith

-- The state after the completion of `addrs`, with the frames that `update_tx_frames` left.
abbrev pub completed : XskTx → List ℕ → List Frame → XskTx
completed tx addrs frames = record tx {
  tx_frames = frames;
  free_frames = splice tx.free_frames 0 addrs;
  outstanding_tx_frames = sub64 tx.outstanding_tx_frames (length addrs);
  stats = record (tx.stats) { pkts_tx_completed = add64 tx.stats.pkts_tx_completed (length addrs) };
}

update_tx_frames_lem :
    (tx : XskTx) (free addrs : List ℕ) (frames : List Frame)
    → tx.free_frames ≡ splice free 0 addrs
    → length addrs ≤ length free
    → mark_free tx.frame_size addrs tx.tx_frames ≡ ret frames
    → update_tx_frames (length addrs) tx ≡ ret (record tx { tx_frames = frames })
unfolding update_tx_frames
update_tx_frames_lem tx free addrs frames e h run =
    rw e (ground (arith, length-splice free 0 addrs, slice-splice_zero free addrs))

completed-IsCoherent :
    (mtu : ℕ) (lent lent' : Lent) (mem mem' : List ℕ) (tx : XskTx) (addrs : List ℕ)
    (frames : List Frame)
    → IsCoherent mtu lent mem tx
    → AreFrames tx.frame_size mtu lent' frames
    → on_tx frames + length addrs ≡ on_tx tx.tx_frames
    → length frames ≡ length tx.tx_frames
    → length mem' ≡ length mem
    → IsCoherent mtu lent' mem' (completed tx addrs frames)
completed-IsCoherent mtu lent lent' mem mem' tx addrs frames v fr count len same = record {
  size_pos = v.size_pos;
  fits = rw len (v.fits);
  inside = rw (len, same) (v.inside);
  mtu_le = v.mtu_le;
  buffer = length-splice tx.free_frames 0 addrs ∙ v.buffer ∙ sym len;
  cursor_in = rw len (v.cursor_in);
  frames = fr;
  counted = omega (arith, few_frames tx v, on_tx-le tx.tx_frames);
}

module _ (k : Kernel) (l : IsConsRing k.comp_ring) (c : TxContract k) where
  open k use {World}

  -- What `complete_frames` comes to at a coherent state.
  pub record Completes (mtu : ℕ) (tx : XskTx) (m : Machine World) : Type 0 where
    pub addrs : List ℕ
    pub frames : List Frame
    pub machine : Machine World
    pub run : complete_frames k tx m ≡ ret (length addrs, completed tx addrs frames, machine)
    pub coherent : IsCoherent mtu (c.lent machine.world) machine.mem (completed tx addrs frames)
    pub lent : c.lent machine.world ≡ without_all (c.lent m.world) addrs
    pub same_number : length frames ≡ length tx.tx_frames
    pub back : on_tx frames + length addrs ≡ on_tx tx.tx_frames
    pub refusals : c.refusals machine.world ≤ c.refusals m.world
    pub took : addrs ≡ consumed k tx.outstanding_tx_frames m
    pub released :
        let (g, m') = k.comp_ring.peek tx.outstanding_tx_frames m in
        machine.world ≡ k.comp_ring.release g.count m'.world
    pub peeked : machine.mem ≡ (k.comp_ring.peek tx.outstanding_tx_frames m).1.mem
    pub marked : mark_free tx.frame_size addrs tx.tx_frames ≡ ret frames

  -- Under the contract, at a coherent state, `complete_frames` returns. Exactly the addresses that
  -- the completion ring gave back stop being lent, their frames become free, the number of
  -- outstanding frames falls and that of completed packets grows by as many, and the state stays
  -- coherent.
  pub complete_frames-Completes :
      (mtu : ℕ) (tx : XskTx) (m : Machine World)
      → IsCoherent mtu (c.lent m.world) m.mem tx
      → Completes mtu tx m
  unfolding complete_frames
  complete_frames-Completes mtu tx m v =
      let (g, m') = k.comp_ring.peek tx.outstanding_tx_frames m in
      let done = consumed k tx.outstanding_tx_frames m in
      let after = record m' { world = k.comp_ring.release g.count m'.world } in
      let room : tx.outstanding_tx_frames ≤ length tx.free_frames =
        omega (arith, on_tx-le tx.tx_frames) in
      let (took, few) = consume_lem k l tx.outstanding_tx_frames tx.free_frames m room in
      let returned : c.lent after.world ≡ without_all (c.lent m.world) done =
        fun_ext (c.release_lent tx.outstanding_tx_frames m) in
      let (frames, marked, fr, count, len) =
        mark_free_lem tx.frame_size mtu (c.lent m.world) done tx.tx_frames v.size_pos v.fits
          v.frames (c.completed_AreLent tx.outstanding_tx_frames m) in
      record {
        addrs = done;
        frames = frames;
        machine = after;
        run =
            rw (took, complete_frames)
              (rw
                (update_tx_frames_lem (completed tx done tx.tx_frames) tx.free_frames done frames
                  refl (omega arith) marked)
                refl);
        coherent =
            completed-IsCoherent mtu (c.lent m.world) (c.lent after.world) m.mem after.mem tx done
              frames v (subst (λ x. AreFrames tx.frame_size mtu x frames) (sym returned) fr) count
              len (c.peek_mem tx.outstanding_tx_frames m);
        lent = returned;
        same_number = len;
        back = count;
        refusals = c.release_refusals tx.outstanding_tx_frames m;
        took = refl;
        released = refl;
        peeked = refl;
        marked = marked;
      }
