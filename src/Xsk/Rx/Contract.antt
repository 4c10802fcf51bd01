-- ===== src/Xsk/Rx/Contract.antt =====
-- What the receiving end relies on of the kernel, and the beginning of `recv` and of `recv_apply`
-- under it.
use mathlib.Core.Path.{fun_ext}
use native.Mathlib.Decide.{ℕ_discrete}
use xdpsock.Prelude.{
  ℕ, ◌≤◌, ◌≡◌, refl, sym, ap, ◌∙◌, inl, inr, Bool-cases, List, [], ret, ok, length, splice,
  splice-nil, add64, sub64, ==_iff, arith,
}
use xdpsock.Kernel.{Kernel, Machine, Desc}
use xdpsock.Kernel.Laws.{IsConsRing}
use xdpsock.Xsk.Lent.{without_all, AreLent}
use xdpsock.Socket.Poll.{Fd, poll_read}
use xdpsock.Socket.RxQueue
use xdpsock.Socket.RxQueue.{consume}
use xdpsock.Socket.RxQueue.Consume.{taken, after_taken, rx_consume_lem}
use xdpsock.Umem.FillQueue
use xdpsock.Xsk.Rx.{XskRx, wake_fill_q, check_rx}
use xdpsock.Xsk.Rx.Refill.{FillContract}
use xdpsock.Xsk.Rx.Frames.{AllFit, pieces}

-- The contract of the fill ring, `poll` and the rx ring. The rx ring gives back only pieces that the
-- kernel holds, and each once; a packet lies in its piece. The kernel neither grows nor shrinks the
-- UMEM, and taking packets does not make the fill ring refuse longer.
pub record RxContract (k : Kernel) (frame_size : ℕ) : Type 0 where
  pub fill : FillContract k frame_size
  pub taken_AreLent :
      (n : ℕ) (m : Machine k.World) → AreLent (fill.lent m.world) (pieces frame_size (taken k n m))
  pub taken_AllFit : (n : ℕ) (m : Machine k.World) → AllFit frame_size (taken k n m)
  pub taken_lent :
      (n : ℕ) (m : Machine k.World) (a : ℕ)
      → fill.lent (after_taken k n m).world a
        ≡ without_all (fill.lent m.world) (pieces frame_size (taken k n m)) a
  pub taken_refusals :
      (n : ℕ) (m : Machine k.World)
      → fill.refusals (after_taken k n m).world ≤ fill.refusals m.world
  pub peek_lent :
      (n : ℕ) (m : Machine k.World) (a : ℕ)
      → (k.rx_ring.peek n m).0.count ≡ 0
      → fill.lent (k.rx_ring.peek n m).1.world a ≡ fill.lent m.world a
  pub peek_refusals :
      (n : ℕ) (m : Machine k.World)
      → fill.refusals (k.rx_ring.peek n m).1.world ≤ fill.refusals m.world
  pub peek_mem : (n : ℕ) (m : Machine k.World) → length (k.rx_ring.peek n m).1.mem ≡ length m.mem

-- The state after `descs` were received.
abbrev pub received : XskRx → List Desc → XskRx
received rx descs = record rx {
  filled_frames = splice rx.filled_frames 0 descs;
  stats = record (rx.stats) { pkts_rx = add64 rx.stats.pkts_rx (length descs) };
  n_frames_to_be_filled = sub64 rx.n_frames_to_be_filled (length descs);
}

module _ (k : Kernel) (lc : IsConsRing k.rx_ring) {frame_size : ℕ}
    (c : RxContract k frame_size) where
  open k use {World}

  -- What a look at the rx ring does to the machine: polls, and one `consume` at most.
  pub data Looks (m : Machine World) : Machine World → List Desc → Type 0 where
    begin : Looks m m []
    polled :
        {m' : Machine World} {descs : List Desc}
        → Looks m m' descs
        → (fd : Fd) (timeout : ℕ) → Looks m (poll_read k fd timeout m').1 descs
    saw_none :
        {m' : Machine World}
        → Looks m m' []
        → (n : ℕ) → (k.rx_ring.peek n m').0.count ≡ 0
        → Looks m (k.rx_ring.peek n m').1 []
    consumed :
        {m' : Machine World} → Looks m m' [] → (n : ℕ) → Looks m (after_taken k n m') (taken k n m')

  -- A machine to which nothing happened but that packets were taken.
  pub record Took (m m' : Machine World) (descs : List Desc) : Type 0 where
    pub lent : c.fill.lent m'.world ≡ without_all (c.fill.lent m.world) (pieces frame_size descs)
    pub refusals : c.fill.refusals m'.world ≤ c.fill.refusals m.world
    pub mem : length m'.mem ≡ length m.mem
    pub looks : Looks m m' descs

  pub record Checks (rx : XskRx) (m : Machine World) : Type 0 where
    pub descs : List Desc
    pub machine : Machine World
    pub run : check_rx k rx m ≡ ret (length descs, received rx descs, machine)
    pub took : Took m machine descs
    pub were_lent : AreLent (c.fill.lent m.world) (pieces frame_size descs)
    pub fit : AllFit frame_size descs
    pub few : length descs ≤ rx.n_frames_to_be_filled

  -- Waking the fill queue, or not.
  woken :
      (rx : XskRx) (m : Machine World)
      → (m' : Machine World) × (wake_fill_q k rx m ≡ ret m')
        × Took m m' []
        × ((m0 : Machine World) (descs : List Desc) → Looks m0 m descs → Looks m0 m' descs)
  unfolding wake_fill_q FillQueue.wakeup
  woken rx m =
      let (ready, answered) = c.fill.poll_ok rx.rx_q.fd rx.poll_ms_timeout m in
      elim (Bool-cases (FillQueue.needs_wakeup k m.world)) [
        | inl wanted ↦ (
          (poll_read k rx.rx_q.fd rx.poll_ms_timeout m).1,
          rw (wanted, answered, wake_fill_q, FillQueue.wakeup) refl,
          record {
            lent = fun_ext (c.fill.poll_lent rx.rx_q.fd rx.poll_ms_timeout m);
            refusals = c.fill.poll_refusals rx.rx_q.fd rx.poll_ms_timeout m;
            mem = c.fill.poll_mem rx.rx_q.fd rx.poll_ms_timeout m;
            looks = polled begin rx.rx_q.fd rx.poll_ms_timeout;
          },
          λ m0 descs s. polled s rx.rx_q.fd rx.poll_ms_timeout,
        )
        | inr unwanted ↦ (
          m,
          rw (unwanted, wake_fill_q) refl,
          record { lent = refl; refusals = omega arith; mem = refl; looks = begin },
          λ m0 descs s. s,
        )
      ]

  -- What `poll_and_consume` comes to.
  pub record Polls (rx : XskRx) (m : Machine World) : Type 0 where
    pub descs : List Desc
    pub machine : Machine World
    pub run :
        RxQueue.poll_and_consume k rx.rx_q rx.n_frames_to_be_filled rx.filled_frames
          rx.poll_ms_timeout m
        ≡ (ok (length descs, splice rx.filled_frames 0 descs), machine)
    pub took : Took m machine descs
    pub were_lent : AreLent (c.fill.lent m.world) (pieces frame_size descs)
    pub fit : AllFit frame_size descs
    pub few : length descs ≤ rx.n_frames_to_be_filled

  none_taken :
      (rx : XskRx) (m m' : Machine World)
      → RxQueue.poll_and_consume k rx.rx_q rx.n_frames_to_be_filled rx.filled_frames
          rx.poll_ms_timeout m
        ≡ (ok (0, rx.filled_frames), m')
      → Took m m' []
      → Polls rx m
  none_taken rx m m' run took = record {
    descs = [];
    machine = m';
    run = run ∙ ap (λ x. (ok (0, x), m')) (sym (splice-nil rx.filled_frames 0));
    took = took;
    were_lent = tt;
    fit = tt;
    few = omega arith;
  }

  polls :
      (rx : XskRx) (m : Machine World)
      → rx.n_frames_to_be_filled ≤ length rx.filled_frames
      → Polls rx m
  unfolding RxQueue.poll_and_consume
  polls rx m room =
      let (ready, answered) = c.fill.poll_ok rx.rx_q.fd rx.poll_ms_timeout m in
      let m1 = (poll_read k rx.rx_q.fd rx.poll_ms_timeout m).1 in
      let n = rx.n_frames_to_be_filled in
      let lent1 : c.fill.lent m1.world ≡ c.fill.lent m.world =
        fun_ext (c.fill.poll_lent rx.rx_q.fd rx.poll_ms_timeout m) in
      let refusals1 = c.fill.poll_refusals rx.rx_q.fd rx.poll_ms_timeout m in
      let mem1 = c.fill.poll_mem rx.rx_q.fd rx.poll_ms_timeout m in
      let look1 : Looks m m1 [] = polled begin rx.rx_q.fd rx.poll_ms_timeout in
      elim (Bool-cases ready) [
        | inr unready ↦
            none_taken rx m m1 (rw (answered, unready, RxQueue.poll_and_consume) refl)
              (record { lent = lent1; refusals = refusals1; mem = mem1; looks = look1 })
        | inl yes_ready ↦ elim (rx_consume_lem k lc n rx.filled_frames m1 room) [
          | inl (few, took) ↦ record {
            descs = taken k n m1;
            machine = after_taken k n m1;
            run = rw (answered, yes_ready, RxQueue.poll_and_consume) (rw took refl);
            took = record {
              lent = rw⁻¹ lent1 (fun_ext (c.taken_lent n m1));
              refusals = omega (arith, c.taken_refusals n m1, refusals1);
              mem = c.peek_mem n m1 ∙ mem1;
              looks = consumed look1 n;
            };
            were_lent = rw⁻¹ lent1 (c.taken_AreLent n m1);
            fit = c.taken_AllFit n m1;
            few = few;
          }
          | inr (inl none_wanted) ↦
              none_taken rx m m1
                (rw (answered, yes_ready, RxQueue.poll_and_consume) (rw none_wanted refl))
                (record { lent = lent1; refusals = refusals1; mem = mem1; looks = look1 })
          | inr (inr (none_there, none_taken')) ↦
              none_taken rx m (k.rx_ring.peek n m1).1
                (rw (answered, yes_ready, RxQueue.poll_and_consume) (rw none_taken' refl))
                (record {
                  lent = fun_ext (λ a. c.peek_lent n m1 a none_there) ∙ lent1;
                  refusals = omega (arith, c.peek_refusals n m1, refusals1);
                  mem = c.peek_mem n m1 ∙ mem1;
                  looks = saw_none look1 n none_there;
                })
        ]
      ]

  -- The beginning of `recv` and of `recv_apply` returns.
  pub check_rx-Checks :
      (rx : XskRx) (m : Machine World)
      → rx.n_frames_to_be_filled ≤ length rx.filled_frames
      → Checks rx m
  unfolding check_rx
  check_rx-Checks rx m room =
      let p = polls rx m room in
      elim (ℕ_discrete (length p.descs) 0) [
        | no some_there ↦ record {
          descs = p.descs;
          machine = p.machine;
          run = rw (p.run, check_rx) (ground (arith, some_there));
          took = p.took;
          were_lent = p.were_lent;
          fit = p.fit;
          few = p.few;
        }
        | yes none_there ↦
            let (m', run, took, later) = woken (received rx p.descs) p.machine in
            record {
              descs = p.descs;
              machine = m';
              run = rw (p.run, check_rx) (rw ((==_iff (length p.descs) 0).1 none_there, run) refl);
              took = record {
                lent = took.lent ∙ p.took.lent;
                refusals = omega (arith, took.refusals, p.took.refusals);
                mem = took.mem ∙ p.took.mem;
                looks = later m p.descs p.took.looks;
              };
              were_lent = p.were_lent;
              fit = p.fit;
              few = p.few;
            }
      ]
