-- ===== src/Xsk/Rx/Apply.antt =====
-- What the caller's function of `recv_apply` gets.
use mathlib.Core.List.{foldl, map}
use xdpsock.Prelude.{
  ℕ, ◌+◌, ◌≡◌, refl, ◌∙◌, List, [], ◌∷◌, ◌++◌, ret, length, slice, set, length-set, length-append,
  get_elem?-some, arith,
}
use xdpsock.Kernel.{Desc}
use xdpsock.Umem.Frame.{Frame, read_from_umem}
use xdpsock.Umem.Frame.Copies.{mem_range_lem}
use xdpsock.Xsk.Rx.{XskRx, describe, apply_frames}
use xdpsock.Xsk.Rx.Place.{IsArea, IsOurs, AllOurs, row_le, rx_frame_index_lem}

-- The bytes of the packet that a descriptor describes.
abbrev pub packet : List ℕ → Desc → List ℕ
packet mem d = slice mem d.addr (d.addr + d.len)

-- One round: the frame's new descriptor, and the frame at the end of those to be lent again.
abbrev pub stepped : XskRx → ℕ → Frame → XskRx
stepped rx i frame = record rx {
  rx_frames = set rx.rx_frames i frame;
  processed_frames = rx.processed_frames ++ (frame ∷ []);
}

AllOurs-stepped :
    (rx : XskRx) (i : ℕ) (frame : Frame) (rest : List Desc)
    → AllOurs rx rest
    → AllOurs (stepped rx i frame) rest
AllOurs-stepped rx i frame [] h = tt
AllOurs-stepped rx i frame (d ∷ rest) h = (
  record {
    number = h.0.number;
    below = omega (arith, h.0.below, length-set rx.rx_frames i frame);
    behind = h.0.behind;
    starts = h.0.starts;
    ends = h.0.ends;
  },
  AllOurs-stepped rx i frame rest h.1,
)

pub IsArea-stepped :
    (mem : List ℕ) (rx : XskRx) (i : ℕ) (frame : Frame)
    → IsArea mem rx
    → IsArea mem (stepped rx i frame)
IsArea-stepped mem rx i frame a =
    let n = length-set rx.rx_frames i frame in
    record { size_pos = a.size_pos; fits = rw n (a.fits); inside = rw n (a.inside) }

pub read-packet :
    (mem : List ℕ) (rx : XskRx) (d : Desc) (f : Frame) (a : IsArea mem rx) (o : IsOurs rx d)
    → read_from_umem (describe f d) d.len mem ≡ ret (packet mem d)
unfolding read_from_umem
read-packet mem rx d f a o =
    let row = row_le o.number (length rx.rx_frames) rx.frame_size o.below in
    mem_range_lem mem d.addr d.len (omega (arith, a.fits, o.starts, row))
      (omega (arith, a.inside, o.ends, row))

-- Where the receive frames lie in the first 2 ^ 32 bytes of the mapped memory and every descriptor
-- is for one of them, the caller's function is applied to the bytes of exactly the received
-- packets, in the order of the ring, and threads its state through them; as many frames as were
-- received wait to be lent again, behind those that waited before, and no read leaves the mapped
-- memory.
pub apply_frames_lem :
    {S : Type 0} (f : S → List ℕ → S) (mem : List ℕ) (descs : List Desc) (s : S) (rx : XskRx)
    → IsArea mem rx
    → AllOurs rx descs
    → (rx_frames : List Frame) × (processed_frames : List Frame) × (apply_frames f mem descs s rx
        ≡ ret (
          foldl f s (map (packet mem) descs),
          record rx { rx_frames = rx_frames; processed_frames = processed_frames },
        ))
      × (length processed_frames ≡ length rx.processed_frames + length descs)
      × (length rx_frames ≡ length rx.rx_frames)
unfolding apply_frames
apply_frames_lem f mem [] s rx a h = (rx.rx_frames, rx.processed_frames, refl, omega arith, refl)
apply_frames_lem f mem (d ∷ rest) s rx a h =
    let (frame, found) = get_elem?-some rx.rx_frames h.0.number h.0.below in
    let new_frame = describe frame d in
    let (frames, processed, run, count, same) =
      apply_frames_lem f mem rest (f s (packet mem d)) (stepped rx h.0.number new_frame)
        (IsArea-stepped mem rx h.0.number new_frame a)
        (AllOurs-stepped rx h.0.number new_frame rest h.1) in
    (
      frames,
      processed,
      rw (rx_frame_index_lem mem rx d a h.0) (rw found (rw (read-packet mem rx d frame a h.0) run)),
      omega (arith, count, length-append rx.processed_frames (new_frame ∷ [])),
      same ∙ length-set rx.rx_frames h.0.number new_frame,
    )
