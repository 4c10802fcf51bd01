-- ===== src/Xsk/Tx/Slots.antt =====
-- Where the packets of the batch lie that waits, and which writes leave their bytes alone.
use mathlib.Core.Path.{ap₂}
use native.Mathlib.Nat.{mod-eq_of_lt, le_trans}
use xdpsock.Prelude.{
  ℕ, ◌+◌, ◌-◌, ◌^◌, ◌≤◌, ◌<◌, ◌≡◌, refl, ap, ◌∙◌, inr, List, [], ◌∷◌, ◌++◌, map, ret, ◌>>=◌,
  >>=-eq-ret, div, index, index-ret, take, set, slice, splice, update_range, slice-same,
  map-set_same, map-update_range_same, as_u32, arith,
}
use xdpsock.Kernel.{Desc}
use xdpsock.Umem.Frame.{Frame, FrameStatus, set_status}
use xdpsock.Umem.Frame.Isolation.{slice-splice_apart}
use xdpsock.Socket.TxQueue.{tx_desc}
use xdpsock.Xsk.Tx.{XskTx, mark_free}
use xdpsock.Xsk.Tx.Lending.{queue}

-- The address and the length of what each frame holds.
abbrev pub slot : Frame → ℕ × ℕ
slot f = (f.addr, f.len)

abbrev pub slots : List Frame → List (ℕ × ℕ)
slots = map slot

abbrev pub read : List ℕ → ℕ × ℕ → List ℕ
read mem (addr, len) = slice mem addr (addr + len)

-- The bytes that a descriptor names.
abbrev pub packet_at : List ℕ → Desc → List ℕ
packet_at mem e = slice mem e.addr (e.addr + e.len)

-- The frames of the batch, which end right before the cursor.
abbrev pub pending_slots : XskTx → List (ℕ × ℕ)
pending_slots tx = slice (slots tx.tx_frames) (tx.tx_cursor - tx.cur_batch_size) tx.tx_cursor

-- The packets that were accepted and not handed over yet, oldest first.
abbrev pub waiting : XskTx → List ℕ → List (List ℕ)
waiting tx mem = map (read mem) (pending_slots tx)

-- The slots lie below an address, and a descriptor can hold their lengths.
abbrev pub AreBelow : ℕ → List (ℕ × ℕ) → Type 0
AreBelow b [] = Unit {0}
AreBelow b ((addr, len) ∷ ss) = (addr + len ≤ b) × (len < 2 ^ 32) × AreBelow b ss

pub AreBelow-le : (b b' : ℕ) (ss : List (ℕ × ℕ)) → b ≤ b' → AreBelow b ss → AreBelow b' ss
AreBelow-le b b' [] le h = tt
AreBelow-le b b' ((addr, len) ∷ ss) le h = (le_trans h.0 le, h.1, AreBelow-le b b' ss le h.2)

pub AreBelow-snoc :
    (b : ℕ) (ss : List (ℕ × ℕ)) (addr len : ℕ)
    → AreBelow b ss
    → addr + len ≤ b
    → len < 2 ^ 32
    → AreBelow b (ss ++ ((addr, len) ∷ []))
AreBelow-snoc b [] addr len h le small = (le, small, tt)
AreBelow-snoc b ((a, n) ∷ ss) addr len h le small =
    (h.0, h.1, AreBelow-snoc b ss addr len h.2 le small)

-- A write from an address on leaves what lies below it.
pub read-splice :
    (mem : List ℕ) (i : ℕ) (src : List ℕ) (ss : List (ℕ × ℕ))
    → AreBelow i ss
    → map (read (splice mem i src)) ss ≡ map (read mem) ss
read-splice mem i src [] h = refl
read-splice mem i src ((addr, len) ∷ ss) h =
    ap₂ ◌∷◌ (slice-splice_apart mem i addr (addr + len) src (omega arith) (inr (h.0)))
      (read-splice mem i src ss h.2)

pub read-same :
    (mem mem' : List ℕ) (area : ℕ) (ss : List (ℕ × ℕ))
    → AreBelow area ss
    → take area mem ≡ take area mem'
    → map (read mem) ss ≡ map (read mem') ss
read-same mem mem' area [] h e = refl
read-same mem mem' area ((addr, len) ∷ ss) h e =
    ap₂ ◌∷◌ (slice-same mem mem' addr (addr + len) area (omega arith) (h.0) e)
      (read-same mem mem' area ss h.2 e)

-- The descriptors of queued frames name the bytes of their slots.
pub packet_at-tx_desc :
    (mem : List ℕ) (b : ℕ) (frames : List Frame)
    → AreBelow b (slots frames)
    → map (packet_at mem) (map tx_desc (map queue frames)) ≡ map (read mem) (slots frames)
packet_at-tx_desc mem b [] h = refl
packet_at-tx_desc mem b (f ∷ frames) h =
    ap₂ ◌∷◌ (ap (λ n. slice mem f.addr (f.addr + n)) (mod-eq_of_lt h.1))
      (packet_at-tx_desc mem b frames h.2)

pub slots-queue :
    (s n : ℕ) (frames : List Frame) → slots (update_range queue s n frames) ≡ slots frames
slots-queue s n frames = map-update_range_same slot queue s n frames (λ f. refl)

-- Completion changes the status of frames and nothing else of them.
pub slots-mark_free :
    (fs : ℕ) (addrs : List ℕ) (frames frames' : List Frame)
    → mark_free fs addrs frames ≡ ret frames'
    → slots frames' ≡ slots frames
unfolding mark_free
slots-mark_free fs [] frames frames' h = cc
slots-mark_free fs (a ∷ addrs) frames frames' h =
    let (i, at, h') =
      >>=-eq-ret (div (as_u32 a) fs)
        (λ i.
          index frames i >>= λ f. mark_free fs addrs (set frames i (set_status f FrameStatus.free)))
        h in
    let (f, found, h'') =
      >>=-eq-ret (index frames i)
        (λ f. mark_free fs addrs (set frames i (set_status f FrameStatus.free))) h' in
    slots-mark_free fs addrs (set frames i (set_status f FrameStatus.free)) frames' h''
    ∙ map-set_same slot frames i f (set_status f FrameStatus.free) (index-ret frames i f found) refl
