-- ===== src/Xsk/Rx/Rounds.antt =====
-- The loop of `apply_batch`, and who holds the frames meanwhile: the kernel will hold them again.
use mathlib.Core.List.{foldl, append-nil}
use mathlib.Core.Path.{subst}
use xdpsock.Prelude.{
  ℕ, ◌+◌, ◌*◌, ◌<◌, ◌≡◌, refl, sym, ap, ◌∙◌, inl, inr, true, List, [], ◌∷◌, ◌++◌, map, ret, length,
  length-set, set, get_elem?, get_elem?-some, some, arith,
}
use xdpsock.Kernel.{Desc}
use xdpsock.Umem.Frame.{Frame}
use xdpsock.Xsk.Lent.{Lent, without, AreLent}
use xdpsock.Xsk.Rx.{XskRx, describe, apply_frames}
use xdpsock.Xsk.Rx.Place.{IsArea, rx_frame_index_lem}
use xdpsock.Xsk.Rx.Apply.{packet, stepped, IsArea-stepped, read-packet}
use xdpsock.Xsk.Rx.Refill.{chunk, chunks}
use xdpsock.Xsk.Rx.Frames.{
  packets, undelivered, undelivered-set, AreFrames, AreFrames-set, AllFit, pieces, ours,
}

abbrev pub AllHeld : Lent → List ℕ → Type 0
AllHeld lent [] = Unit {0}
AllHeld lent (a ∷ rest) = (lent a ≡ true) × AllHeld lent rest

pub AreLent-AllHeld :
    (lent part : Lent) (rest : List ℕ)
    → ((a : ℕ) → part a ≡ true → lent a ≡ true)
    → AreLent part rest
    → AllHeld lent rest
AreLent-AllHeld lent part [] more h = tt
AreLent-AllHeld lent part (a ∷ rest) more h =
    (more a h.0, AreLent-AllHeld lent (without part a) rest (λ b q. more b (ground arith)) h.1)

abbrev pub desc_addrs : List Desc → List ℕ
desc_addrs descs = map (λ (d : Desc). d.addr) descs

abbrev pub frame_addrs : List Frame → List ℕ
frame_addrs frames = map (λ (f : Frame). f.addr) frames

addrs_behind :
    (frames : List Frame) (g : Frame) (rest : List ℕ)
    → frame_addrs (frames ++ (g ∷ [])) ++ rest ≡ frame_addrs frames ++ (g.addr ∷ rest)
addrs_behind [] g rest = refl
addrs_behind (x ∷ frames) g rest = ap (λ zs. x.addr ∷ zs) (addrs_behind frames g rest)

pub chunks-pieces : (fs : ℕ) (descs : List Desc) → chunks fs (desc_addrs descs) ≡ pieces fs descs
chunks-pieces fs [] = refl
chunks-pieces fs (d ∷ descs) = ap (λ zs. chunk fs d.addr ∷ zs) (chunks-pieces fs descs)

-- Where a frame that the kernel holds gets a descriptor, it stays as good as held.
described-AreFrames :
    (fs base : ℕ) (lent : Lent) (frames : List Frame) (j : ℕ) (old : Frame) (d : Desc)
    → AreFrames fs base lent frames
    → get_elem? frames j ≡ some old
    → j < length frames
    → chunk fs d.addr ≡ base + j
    → lent (chunk fs d.addr) ≡ true
    → AreFrames fs base lent (set frames j (describe old d))
      × (undelivered (set frames j (describe old d)) ≡ undelivered frames)
described-AreFrames fs base lent frames j old d v found below here held =
    let before = v.each j old found in
    let none_there : packets old.status ≡ 0 = ground (arith, before.agrees, here, held) in
    (
      AreFrames-set fs base lent lent frames j (describe old d) v below
          (record { placed = here; agrees = inr (none_there, sym (ap lent here) ∙ held) })
          (λ i other. refl) (λ a q. inl q),
      omega (arith, undelivered-set frames j old (describe old d) found),
    )

module _ {S : Type 0} (f : S → List ℕ → S) (base : ℕ) where
  apply_frames-AreFrames :
      (mem : List ℕ) (lent : Lent) (descs : List Desc) (s : S) (rx : XskRx)
      → IsArea mem rx
      → rx.rx_frame_offset ≡ base * rx.frame_size
      → AreFrames rx.frame_size base lent rx.rx_frames
      → AllHeld lent (pieces rx.frame_size descs)
      → AllFit rx.frame_size descs
      → (frames : List Frame) × (processed : List Frame) × (apply_frames f mem descs s rx
          ≡ ret (
            foldl f s (map (packet mem) descs),
            record rx { rx_frames = frames; processed_frames = processed },
          ))
        × AreFrames rx.frame_size base lent frames
        × (undelivered frames ≡ undelivered rx.rx_frames)
        × (length frames ≡ length rx.rx_frames)
        × (frame_addrs processed ≡ frame_addrs rx.processed_frames ++ desc_addrs descs)
  unfolding apply_frames
  apply_frames-AreFrames mem lent [] s rx area offset v h fit = (
    rx.rx_frames,
    rx.processed_frames,
    refl,
    v,
    refl,
    refl,
    sym (append-nil (frame_addrs rx.processed_frames)),
  )
  apply_frames-AreFrames mem lent (d ∷ rest) s rx area offset v h fit =
      let (o, here) = ours base lent rx d area.size_pos offset v h.0 fit.0 in
      let (old, found) = get_elem?-some rx.rx_frames o.number o.below in
      let g = describe old d in
      let (v', kept) =
        described-AreFrames rx.frame_size base lent rx.rx_frames o.number old d v found o.below here
          h.0 in
      let (frames, processed, run, after, count, same, all) =
        apply_frames-AreFrames mem lent rest (f s (packet mem d)) (stepped rx o.number g)
          (IsArea-stepped mem rx o.number g area) offset v' h.1 fit.1 in
      (
        frames,
        processed,
        rw (rx_frame_index_lem mem rx d area o)
            (rw found (rw (read-packet mem rx d old area o) run)),
        after,
        count ∙ kept,
        same ∙ length-set rx.rx_frames o.number g,
        all ∙ addrs_behind rx.processed_frames g (desc_addrs rest),
      )

-- With the frames' size by another name, and where no frame waits to be lent again.
pub apply_of_size :
    {S : Type 0} (f : S → List ℕ → S) (fs base : ℕ) (mem : List ℕ) (lent : Lent) (descs : List Desc)
    (s : S) (rx : XskRx)
    → rx.frame_size ≡ fs
    → IsArea mem rx
    → rx.rx_frame_offset ≡ base * fs
    → AreFrames fs base lent rx.rx_frames
    → AllHeld lent (pieces fs descs)
    → AllFit fs descs
    → (frames : List Frame) × (processed : List Frame) × (apply_frames f mem descs s rx
        ≡ ret (
          foldl f s (map (packet mem) descs),
          record rx { rx_frames = frames; processed_frames = processed },
        ))
      × AreFrames fs base lent frames
      × (undelivered frames ≡ undelivered rx.rx_frames)
      × (length frames ≡ length rx.rx_frames)
      × (frame_addrs processed ≡ frame_addrs rx.processed_frames ++ desc_addrs descs)
apply_of_size f fs base mem lent descs s rx size area =
    subst
      (λ fs.
        rx.rx_frame_offset ≡ base * fs
        → AreFrames fs base lent rx.rx_frames
        → AllHeld lent (pieces fs descs)
        → AllFit fs descs
        → (frames : List Frame) × (processed : List Frame) × (apply_frames f mem descs s rx
            ≡ ret (
              foldl f s (map (packet mem) descs),
              record rx { rx_frames = frames; processed_frames = processed },
            ))
          × AreFrames fs base lent frames
          × (undelivered frames ≡ undelivered rx.rx_frames)
          × (length frames ≡ length rx.rx_frames)
          × (frame_addrs processed ≡ frame_addrs rx.processed_frames ++ desc_addrs descs))
      size (apply_frames-AreFrames f base mem lent descs s rx area)
