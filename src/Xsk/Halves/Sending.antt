-- ===== src/Xsk/Halves/Sending.antt =====
-- `send` leaves the receiving half alone.
use mathlib.Core.Path.{subst}
use xdpsock.Prelude.{
  ℕ, zero, suc, ◌+◌, ◌*◌, ◌^◌, ◌≤◌, ◌<◌, ◌≡◌, refl, sym, ap, ◌∙◌, ◌⊎◌, inl, inr, List, ret,
  ret-injective, Result, ok, length, length-map, length-splice, splice, ==_refl, zero-==_pos, arith,
}
use xdpsock.Kernel.{Kernel, Machine}
use xdpsock.Kernel.Laws.{IsProdRing, IsConsRing}
use xdpsock.Umem.Frame.{Frame}
use xdpsock.Umem.Frame.Isolation.{slice-splice_apart}
use xdpsock.Socket.TxQueue
use xdpsock.Socket.TxQueue.{TxQueue, tx_desc}
use xdpsock.Socket.TxQueue.Publish.{produce_granted, produce_refused, tx_descs}
use xdpsock.Xsk.Tx.{XskTx, XskSendError, produce_all, send}
use xdpsock.Xsk.Tx.Lent.{TxContract}
use xdpsock.Xsk.Tx.Frames.{mul-lt}
use xdpsock.Xsk.Tx.Produce.{produce_and_wakeup_cases}
use xdpsock.Xsk.Tx.Transcript.{Transcript}
use xdpsock.Xsk.Tx.Valid.{IsValid}
use xdpsock.Xsk.Tx.Packets.{IsStocked}
use xdpsock.Xsk.Tx.Packets.Deliver.{after_completed}
use xdpsock.Xsk.Tx.Packets.Refines.{send-Delivers}
use xdpsock.Xsk.Rx.Contract.{RxContract}
use xdpsock.Xsk.Rx.Fifo.{FifoContract}
use xdpsock.Xsk.Rx.InOrder.Receipts.{LeavesRx}
use xdpsock.Xsk.Halves.{KeepsRx, TxApart, LeavesRx-trans, KeepsRx-LeavesRx}

module _ (k : Kernel) (size : ℕ) (l : IsProdRing k.tx_ring size) (lc : IsConsRing k.comp_ring)
    (c : TxContract k) (t : Transcript k) (rx_size : ℕ) (rl : IsProdRing k.fill_ring rx_size)
    (rlc : IsConsRing k.rx_ring) {frame_size : ℕ} (rc : RxContract k frame_size)
    (o : FifoContract rc) (base : ℕ) (apart : TxApart k rx_size rl rlc rc o base) where
  open k use {World}

  abbrev Quiet : Machine World → Machine World → Type 0
  Quiet m m' = LeavesRx k rx_size rl rlc rc o base m m'

  -- One attempt to hand over a batch.
  record Tries (descs : List Frame) (m : Machine World) (r : Result ℕ ℕ) (m' : Machine World)
      : Type 0 where
    result : (r ≡ ok (length descs)) ⊎ (r ≡ ok 0)
    quiet : Quiet m m'

  woken :
      (q : TxQueue) (descs : List Frame) (m : Machine World) (n : ℕ) (w : World)
      → TxQueue.produce k descs m.world ≡ (n, w)
      → (n ≡ length descs) ⊎ (n ≡ 0)
      → KeepsRx k rx_size rl rlc rc o m.world w
      → let (r, m') = TxQueue.produce_and_wakeup k q descs m in Tries descs m r m'
  woken q descs m n w e number kept =
      let m1 = record m { world = w } in
      let quiet = KeepsRx-LeavesRx k rx_size rl rlc rc o base m w kept in
      let result : (◌≡◌ {A = Result ℕ ℕ} (ok n) (ok (length descs)))
          ⊎ (◌≡◌ {A = Result ℕ ℕ} (ok n) (ok 0)) =
        elim number [ inl all ↦ inl (ap ok all) | inr none_free ↦ inr (ap ok none_free) ] in
      elim (produce_and_wakeup_cases k size l c q descs m n w e) [
        | inl same ↦
            subst (λ p. Tries descs m p.0 p.1) (sym same)
              (record { result = result; quiet = quiet })
        | inr sent ↦
            subst (λ p. Tries descs m p.0 p.1) (sym sent)
              (record {
                result = result;
                quiet =
                    LeavesRx-trans k rx_size rl rlc rc o base m m1 _ quiet (apart.sent q.fd.id m1);
              })
      ]

  attempt-Tries :
      (q : TxQueue) (descs : List Frame) (m : Machine World)
      → 0 < length descs
      → let (r, m') = TxQueue.produce_and_wakeup k q descs m in Tries descs m r m'
  attempt-Tries q descs m pos = elim (l.reserve_all_or_none (length descs) m.world) [
    | inl all ↦ woken q descs m _ _ (produce_granted k descs m.world all pos) (inl all) (
        apart.granted (length descs) (tx_descs k descs) m.world (sym (length-map tx_desc descs))
          all)
    | inr none_free ↦
        woken q descs m _ _ (produce_refused k descs m.world none_free pos) (inr refl)
          (apart.refused (length descs) m.world none_free)
  ]

  produce_all-LeavesRx :
      (fuel : ℕ) (q : TxQueue) (descs : List Frame) (m m' : Machine World)
      → 0 < length descs
      → produce_all k fuel q descs (length descs) m ≡ ret m'
      → Quiet m m'
  unfolding produce_all
  produce_all-LeavesRx zero q descs m m' pos run = cc
  produce_all-LeavesRx (suc fuel) q descs m m' pos run =
      let m1 = (TxQueue.produce_and_wakeup k q descs m).1 in
      let tried = attempt-Tries q descs m pos in
      elim tried.result [
        | inl e ↦
            let ends : produce_all k (suc fuel) q descs (length descs) m ≡ ret m1 =
              rw (e, produce_all) (rw (==_refl (length descs)) refl) in
            subst (Quiet m) (ret-injective (sym ends ∙ run)) tried.quiet
        | inr e ↦
            let again : produce_all k (suc fuel) q descs (length descs) m
                ≡ produce_all k fuel q descs (length descs) m1 =
              rw (e, produce_all) (rw (zero-==_pos (length descs) pos) refl) in
            LeavesRx-trans k rx_size rl rlc rc o base m m1 m' tried.quiet
              (produce_all-LeavesRx fuel q descs m1 m' pos (sym again ∙ run))
      ]

  -- A write to a frame in front of the receive frames.
  write-LeavesRx :
      (m : Machine World) (i : ℕ) (bytes : List ℕ)
      → i + length bytes ≤ base * frame_size
      → Quiet m (record m { mem = splice m.mem i bytes })
  write-LeavesRx m i bytes before = record {
    lent = λ a. refl;
    order = refl;
    bytes = λ p a b low lo le hi free.
        slice-splice_apart m.mem i a b bytes le (inl (omega (arith, before, lo, rows p low)));
    mapped = length-splice m.mem i bytes;
  }
    where
      rows : (p : ℕ) → base ≤ p → base * frame_size ≤ p * frame_size
      rows p low = grind arith

  pub send-LeavesRx :
      (fuel mtu : ℕ) (src : List ℕ) (tx : XskTx) (m : Machine World)
      (r : Result XskSendError (Unit {0})) (tx' : XskTx) (m' : Machine World)
      → IsValid c mtu tx m
      → IsStocked t.area tx
      → length tx.tx_frames * tx.frame_size ≤ base * frame_size
      → length src ≤ mtu
      → length src < 2 ^ 32
      → c.refusals m.world < fuel
      → send k fuel src tx m ≡ ret (r, tx', m')
      → LeavesRx k rx_size rl rlc rc o base m m'
  send-LeavesRx fuel mtu src tx m r tx' m' v stocked before short small enough run =
      let d = send-Delivers k size l lc c t fuel mtu src tx m v stocked short small enough in
      let m1 = after_completed k size l lc c t tx.outstanding_tx_frames m in
      let quiet = apart.completed tx.outstanding_tx_frames m in
      let row = mul-lt tx.tx_cursor (length tx.tx_frames) tx.frame_size v.coherent.cursor_in in
      subst (λ (x : Result XskSendError (Unit {0}) × XskTx × Machine World). Quiet m x.2)
        (ret-injective (sym d.run ∙ run))
        (elim d.moves [
          | inl same ↦ subst (Quiet m) (sym same) quiet
          | inr (bytes, fits, rest) ↦
              let m2 = record m1 { mem = splice m1.mem (tx.tx_cursor * tx.frame_size) bytes } in
              let written : Quiet m m2 = LeavesRx-trans k rx_size rl rlc rc o base m m1 m2 quiet (
                write-LeavesRx m1 (tx.tx_cursor * tx.frame_size) bytes
                  (omega (arith, row, fits, before))) in
              elim rest [
                | inl same ↦ subst (Quiet m) (sym same) written
                | inr (fuel', q, frames, pos, handed) ↦
                    LeavesRx-trans k rx_size rl rlc rc o base m m2 d.machine written
                      (produce_all-LeavesRx fuel' q frames m2 d.machine pos handed)
              ]
        ])
