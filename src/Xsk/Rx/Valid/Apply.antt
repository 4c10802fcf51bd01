-- ===== src/Xsk/Rx/Valid/Apply.antt =====
-- `recv_apply` at a valid state.
use mathlib.Core.List.{foldl}
use mathlib.Core.Path.{fun_ext, subst}
use native.Mathlib.Decide.{ℕ_discrete}
use xdpsock.Prelude.{
  ℕ, ◌%◌, ◌^◌, ◌≤◌, ◌<◌, ◌≡◌, refl, sym, ap, ◌∙◌, List, [], ◌∷◌, ◌++◌, map, Outcome, ret, length,
  length-map, length-splice, slice-splice_zero, add64, lt→ltb, arith,
}
use xdpsock.Kernel.{Kernel, Machine, Desc}
use xdpsock.Kernel.Laws.{IsConsRing, IsProdRing}
use xdpsock.Umem.Frame.{Frame}
use xdpsock.Xsk.Lent.{Lent, without_all, with_all, with_all-without_all}
use xdpsock.Xsk.Rx.{XskRx, check_rx, recv_apply}
use xdpsock.Xsk.Rx.Place.{IsArea}
use xdpsock.Xsk.Rx.Apply.{packet}
use xdpsock.Xsk.Rx.Batch.{returned, apply_batch_run}
use xdpsock.Xsk.Rx.Refill.{chunks, refill_lem}
use xdpsock.Xsk.Rx.Frames.{pieces}
use xdpsock.Xsk.Rx.Contract.{RxContract, received, Checks, check_rx-Checks}
use xdpsock.Xsk.Rx.Valid.{IsValid, few_frames}
use xdpsock.Xsk.Rx.Rounds.{AreLent-AllHeld, frame_addrs, desc_addrs, chunks-pieces, apply_of_size}

no_descs : (descs : List Desc) → length descs ≡ 0 → descs ≡ []
no_descs [] h = refl
no_descs (d ∷ descs) h = absurd (omega (arith, h))

module _ (k : Kernel) (size : ℕ) (l : IsProdRing k.fill_ring size) (lc : IsConsRing k.rx_ring)
    {frame_size : ℕ} (c : RxContract k frame_size) {S : Type 0} where
  open k use {World}

  -- What one call of `recv_apply` comes to: the caller's function got exactly the received packets, in
  -- the order of the ring, and the kernel holds the frames that it held before.
  pub record Applies (f : S → List ℕ → S) (s : S) (rx : XskRx) (m : Machine World)
      (call : Outcome (S × XskRx × Machine World)) : Type 0 where
    pub descs : List Desc
    pub seen : Machine World
    pub look : check_rx k rx m ≡ ret (length descs, received rx descs, seen)
    pub rx' : XskRx
    pub machine : Machine World
    pub run : call ≡ ret (foldl f s (map (packet seen.mem) descs), rx', machine)
    pub valid : IsValid c rx' machine
    pub lent : c.fill.lent machine.world ≡ c.fill.lent m.world
    pub counted :
        rx'.stats.pkts_rx_delivered % 2 ^ 64 ≡ add64 rx.stats.pkts_rx_delivered (length descs)
    pub same_cursor : rx'.rx_cursor ≡ rx.rx_cursor

  module _ (f : S → List ℕ → S) (fuel : ℕ) (s : S) (rx : XskRx) (m : Machine World)
      (v : IsValid c rx m) where
    -- Nothing was received.
    none_received :
        (d : Checks k lc c rx m)
        → length d.descs ≡ 0
        → Applies f s rx m (recv_apply k fuel f s rx m)
    unfolding recv_apply
    none_received d none =
        let e = no_descs d.descs none in
        let look =
          subst (λ (ds : List Desc). check_rx k rx m ≡ ret (length ds, received rx ds, d.machine)) e
            d.run in
        let lent : c.fill.lent d.machine.world ≡ c.fill.lent m.world =
          subst
            (λ (ds : List Desc).
              c.fill.lent d.machine.world
              ≡ without_all (c.fill.lent m.world) (pieces frame_size ds))
            e d.took.lent in
        let few = few_frames rx v.area in
        record {
          descs = [];
          seen = d.machine;
          look = look;
          rx' = received rx [];
          machine = d.machine;
          run = rw (look, recv_apply) refl;
          valid = record {
            size = v.size;
            base = v.base;
            offset = v.offset;
            area = record {
              size_pos = v.area.size_pos;
              fits = v.area.fits;
              inside = omega (arith, d.took.mem, v.area.inside);
            };
            buffer = length-splice rx.filled_frames 0 [] ∙ v.buffer;
            cursor_in = v.cursor_in;
            clear = v.clear;
            frames = rw lent (v.frames);
            counted = omega (arith, v.counted, few);
            accounted = omega (arith, v.accounted);
            ring_pos = v.ring_pos;
          };
          lent = lent;
          counted = omega arith;
          same_cursor = refl;
        }

    -- Some packets were received.
    some_received :
        (d : Checks k lc c rx m)
        → 0 < length d.descs
        → rx.n_frames_to_be_filled ≤ c.fill.capacity
        → c.fill.refusals m.world < fuel
        → Applies f s rx m (recv_apply k fuel f s rx m)
    unfolding recv_apply
    some_received d pos ring enough =
        let rx1 = received rx d.descs in
        let m1 = d.machine in
        let few = few_frames rx v.area in
        let room : length d.descs ≤ length rx.filled_frames =
          omega (arith, d.few, v.counted, v.buffer) in
        let size1 = length-splice rx.filled_frames 0 d.descs in
        let area1 : IsArea m1.mem rx1 = record {
          size_pos = v.area.size_pos;
          fits = v.area.fits;
          inside = omega (arith, d.took.mem, v.area.inside);
        } in
        let held =
          AreLent-AllHeld (c.fill.lent m.world) (c.fill.lent m.world) (pieces frame_size d.descs)
            (λ a q. q) d.were_lent in
        let (frames, processed, run, after, count, same, all) =
          apply_of_size f frame_size v.base m1.mem (c.fill.lent m.world) d.descs s rx1 v.size area1
            v.offset v.frames held d.fit in
        let all' : frame_addrs processed ≡ desc_addrs d.descs =
          all ∙ ap (λ (xs : List Frame). frame_addrs xs ++ desc_addrs d.descs) v.clear in
        let number : length processed ≡ length d.descs = omega (
          arith,
          sym (length-map (λ (x : Frame). x.addr) processed),
          ap length all',
          length-map (λ (x : Desc). x.addr) d.descs,
        ) in
        let (m', again, mem, lent) =
          refill_lem k size l c.fill fuel rx.rx_q.fd rx.poll_ms_timeout processed m1
            (omega (arith, number, pos)) (omega (arith, number, d.few, ring))
            (omega (arith, d.took.refusals)) in
        let lent' : c.fill.lent m'.world ≡ c.fill.lent m.world =
          lent
          ∙ ap (λ (xs : List ℕ). with_all (c.fill.lent m1.world) (chunks frame_size xs)) all'
          ∙ ap (with_all (c.fill.lent m1.world)) (chunks-pieces frame_size d.descs)
          ∙ ap (λ (x : Lent). with_all x (pieces frame_size d.descs)) d.took.lent
          ∙ fun_ext (λ a.
            with_all-without_all (c.fill.lent m.world) (pieces frame_size d.descs) a d.were_lent) in
        let batch =
          apply_batch_run k size l c.fill fuel f (length d.descs) s
            (foldl f s (map (packet m1.mem) d.descs)) rx1 m1 m' frames processed
            (omega (arith, size1, room)) (rw (slice-splice_zero rx.filled_frames d.descs room) run)
            again in
        record {
          descs = d.descs;
          seen = m1;
          look = d.run;
          rx' = returned rx1 (length d.descs) frames;
          machine = m';
          run = rw (d.run, recv_apply) (rw (lt→ltb 0 (length d.descs) pos) batch);
          valid = record {
            size = v.size;
            base = v.base;
            offset = v.offset;
            area = record {
              size_pos = v.area.size_pos;
              fits = rw same (v.area.fits);
              inside = rw (same, mem, d.took.mem) (v.area.inside);
            };
            buffer = size1 ∙ v.buffer ∙ sym same;
            cursor_in = rw same (v.cursor_in);
            clear = refl;
            frames = rw lent' after;
            counted = omega (arith, d.few, v.counted, count, same, few);
            accounted = omega (arith, v.accounted, count);
            ring_pos = v.ring_pos;
          };
          lent = lent';
          counted = omega arith;
          same_cursor = refl;
        }

  -- Under the contract of the fill ring, `poll` and the rx ring, at a valid state, with a fill ring
  -- for all frames that are lent and more fuel than refusals of the fill ring to come, `recv_apply`
  -- returns, and the state stays valid: the caller's function was applied to the bytes of exactly
  -- the received packets, in the order of the ring, threading its state; the kernel holds the same
  -- frames as before; as many packets more, modulo 2 ^ 64, count as delivered; and the cursor
  -- stays.
  pub recv_apply_lem :
      (f : S → List ℕ → S) (fuel : ℕ) (s : S) (rx : XskRx) (m : Machine World)
      → IsValid c rx m
      → rx.n_frames_to_be_filled ≤ c.fill.capacity
      → c.fill.refusals m.world < fuel
      → Applies f s rx m (recv_apply k fuel f s rx m)
  recv_apply_lem f fuel s rx m v ring enough =
      let d = check_rx-Checks k lc c rx m (omega (arith, v.counted, v.buffer)) in
      elim (ℕ_discrete (length d.descs) 0) [
        | yes none ↦ none_received f fuel s rx m v d none
        | no some_there ↦ some_received f fuel s rx m v d (omega (arith, some_there)) ring enough
      ]
