-- ===== src/Xsk/Halves/Receiving.antt =====
-- `recv` leaves the sending half alone.
use mathlib.Core.Path.{subst}
use xdpsock.Prelude.{
  ℕ, zero, suc, ◌≤◌, ◌<◌, ◌≡◌, refl, sym, ap, ◌∙◌, ◌⊎◌, inl, inr, List, [], ◌∷◌, ret, ret-injective,
  Result, ok, length, length-map, ==_refl, zero-==_pos, arith,
}
use xdpsock.Kernel.{Kernel, Machine, Desc}
use xdpsock.Kernel.Laws.{IsProdRing, IsConsRing}
use xdpsock.Umem.Frame.{Frame}
use xdpsock.Umem.FillQueue
use xdpsock.Umem.FillQueue.Publish.{addrs, produce_granted, produce_refused}
use xdpsock.Socket.Poll.{Fd}
use xdpsock.Xsk.Tx.Lent.{TxContract}
use xdpsock.Xsk.Tx.Transcript.{Transcript}
use xdpsock.Xsk.Tx.Session.{LeavesTx}
use xdpsock.Xsk.Rx.{XskRx, recv, refill}
use xdpsock.Xsk.Rx.Refill.{woken_cases}
use xdpsock.Xsk.Rx.Contract.{RxContract, Looks, begin, polled, saw_none, consumed}
use xdpsock.Xsk.Rx.Valid.{IsValid}
use xdpsock.Xsk.Rx.Valid.Recv.{recv-Looks}
use xdpsock.Xsk.Halves.{KeepsTx, RxApart, LeavesTx-trans, KeepsTx-LeavesTx}

module _ (k : Kernel) (size : ℕ) (l : IsProdRing k.tx_ring size) (lc : IsConsRing k.comp_ring)
    (c : TxContract k) (t : Transcript k) (rx_size : ℕ) (rl : IsProdRing k.fill_ring rx_size)
    (rlc : IsConsRing k.rx_ring) {frame_size : ℕ} (rc : RxContract k frame_size)
    (apart : RxApart k size l lc c t) where
  open k use {World}

  abbrev Quiet : Machine World → Machine World → Type 0
  Quiet m m' = LeavesTx k size l lc c t m m'

  nothing : (m : Machine World) → Quiet m m
  nothing m = record { lent = λ a. refl; handed = refl; area = refl; mapped = refl }

  Looks-LeavesTx :
      {m m' : Machine World} {descs : List Desc} → Looks k rlc rc m m' descs → Quiet m m'
  Looks-LeavesTx {m} begin = nothing m
  Looks-LeavesTx {m} (polled {m'} s fd timeout) =
      LeavesTx-trans k size l lc c t m m' _ (Looks-LeavesTx s) (apart.polled fd timeout m')
  Looks-LeavesTx {m} (saw_none {m'} s n none_there) =
      LeavesTx-trans k size l lc c t m m' _ (Looks-LeavesTx s) (apart.peeked n m')
  Looks-LeavesTx {m} (consumed {m'} s n) =
      LeavesTx-trans k size l lc c t m m' _ (Looks-LeavesTx s) (apart.taken n m')

  -- One attempt to lend frames again.
  record Tries (descs : List Frame) (m : Machine World) (r : Result ℕ ℕ) (m' : Machine World)
      : Type 0 where
    result : (r ≡ ok (length descs)) ⊎ (r ≡ ok 0)
    quiet : Quiet m m'

  woken :
      (fd : Fd) (timeout : ℕ) (descs : List Frame) (m : Machine World) (n : ℕ) (w : World)
      → FillQueue.produce k descs m.world ≡ (n, w)
      → (n ≡ length descs) ⊎ (n ≡ 0)
      → KeepsTx k size l lc c t m.world w
      → let (r, m') = FillQueue.produce_and_wakeup k descs fd timeout m in Tries descs m r m'
  woken fd timeout descs m n w e number kept =
      let m1 = record m { world = w } in
      let quiet = KeepsTx-LeavesTx k size l lc c t m w kept in
      let result : (◌≡◌ {A = Result ℕ ℕ} (ok n) (ok (length descs)))
          ⊎ (◌≡◌ {A = Result ℕ ℕ} (ok n) (ok 0)) =
        elim number [ inl all ↦ inl (ap ok all) | inr none_free ↦ inr (ap ok none_free) ] in
      elim (woken_cases k rx_size rl rc.fill descs fd timeout m n w e) [
        | inl same ↦
            subst (λ p. Tries descs m p.0 p.1) (sym same)
              (record { result = result; quiet = quiet })
        | inr answered ↦
            subst (λ p. Tries descs m p.0 p.1) (sym answered)
              (record {
                result = result;
                quiet = LeavesTx-trans k size l lc c t m m1 _ quiet (apart.polled fd timeout m1);
              })
      ]

  attempt-Tries :
      (fd : Fd) (timeout : ℕ) (descs : List Frame) (m : Machine World)
      → 0 < length descs
      → let (r, m') = FillQueue.produce_and_wakeup k descs fd timeout m in Tries descs m r m'
  attempt-Tries fd timeout descs m pos = elim (rl.reserve_all_or_none (length descs) m.world) [
    | inl all ↦ woken fd timeout descs m _ _ (produce_granted k descs m.world all pos) (inl all) (
        apart.granted (length descs) (addrs k descs) m.world
          (sym (length-map (λ (f : Frame). f.addr) descs)) all)
    | inr none_free ↦
        woken fd timeout descs m _ _ (produce_refused k descs m.world none_free pos) (inr refl)
          (apart.refused (length descs) m.world none_free)
  ]

  refill-LeavesTx :
      (fuel : ℕ) (fd : Fd) (timeout : ℕ) (descs : List Frame) (m m' : Machine World)
      → 0 < length descs
      → refill k fuel fd timeout descs (length descs) m ≡ ret m'
      → Quiet m m'
  unfolding refill
  refill-LeavesTx zero fd timeout descs m m' pos run = cc
  refill-LeavesTx (suc fuel) fd timeout descs m m' pos run =
      let m1 = (FillQueue.produce_and_wakeup k descs fd timeout m).1 in
      let tried = attempt-Tries fd timeout descs m pos in
      elim tried.result [
        | inl e ↦
            let ends : refill k (suc fuel) fd timeout descs (length descs) m ≡ ret m1 =
              rw (e, refill) (rw (==_refl (length descs)) refl) in
            subst (Quiet m) (ret-injective (sym ends ∙ run)) tried.quiet
        | inr e ↦
            let again : refill k (suc fuel) fd timeout descs (length descs) m
                ≡ refill k fuel fd timeout descs (length descs) m1 =
              rw (e, refill) (rw (zero-==_pos (length descs) pos) refl) in
            LeavesTx-trans k size l lc c t m m1 m' tried.quiet
              (refill-LeavesTx fuel fd timeout descs m1 m' pos (sym again ∙ run))
      ]

  -- Where the kernel keeps the fill ring, the rx ring and `poll` apart from what is sent, and
  -- receives into other frames than those of the transmit end, every call of `recv` at a valid
  -- state, with a buffer for a whole frame and more fuel than refusals of the fill ring to come,
  -- leaves the sending half on the same machine alone: what the kernel holds to send, the
  -- transcript of what it was handed, every byte of the transmit end's part of the UMEM and the
  -- size of the memory stay.
  pub recv-LeavesTx :
      (fuel : ℕ) (pkt_receiver : List ℕ) (rx : XskRx) (m : Machine World) (len : ℕ) (bytes : List ℕ)
      (rx' : XskRx) (m' : Machine World)
      → IsValid rc rx m
      → frame_size ≤ length pkt_receiver
      → rc.fill.refusals m.world < fuel
      → recv k fuel pkt_receiver rx m ≡ ret (len, bytes, rx', m')
      → LeavesTx k size l lc c t m m'
  recv-LeavesTx fuel pkt_receiver rx m len bytes rx' m' v room enough run =
      let (r, m2, descs, seen, run', looks, lends) =
        recv-Looks k rx_size rl rlc rc fuel pkt_receiver rx m v room enough in
      let quiet = Looks-LeavesTx looks in
      subst (λ (x : ℕ × List ℕ × XskRx × Machine World). Quiet m x.3)
        (ret-injective (sym run' ∙ run))
        (elim lends [
          | inl same ↦ subst (Quiet m) (sym same) quiet
          | inr (f, again) ↦ LeavesTx-trans k size l lc c t m seen m2 quiet (
              refill-LeavesTx fuel rx.rx_q.fd rx.poll_ms_timeout (f ∷ []) seen m2 (omega arith)
                again)
        ])
