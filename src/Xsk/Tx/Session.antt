-- ===== src/Xsk/Tx/Session.antt =====
-- Any sequence of sends, with anything between them that leaves the transmit end alone.
use mathlib.Core.Path.{subst, fun_ext}
use mathlib.Core.List.{append-nil, append_assoc}
use xdpsock.Prelude.{
  ℕ, ◌*◌, ◌^◌, ◌≤◌, ◌<◌, ◌≡◌, sym, ap, ◌∙◌, inl, inr, List, [], ◌∷◌, ◌++◌, map, ret, ret-injective,
  Result, ok, err, length, take, arith,
}
use xdpsock.Kernel.{Kernel, Machine, Desc}
use xdpsock.Kernel.Laws.{IsProdRing, IsConsRing}
use xdpsock.Xsk.Tx.{XskTx, XskSendError, send}
use xdpsock.Xsk.Tx.Lent.{TxContract}
use xdpsock.Xsk.Tx.Frames.{mul-lt}
use xdpsock.Xsk.Tx.Complete.{IsCoherent}
use xdpsock.Xsk.Tx.Valid.{IsAligned, IsValid}
use xdpsock.Xsk.Tx.Send.{send_lem}
use xdpsock.Xsk.Tx.Slots.{packet_at, pending_slots, waiting, AreBelow-le, read-same}
use xdpsock.Xsk.Tx.Transcript.{Transcript}
use xdpsock.Xsk.Tx.Queue.{Packet, enqueue}
use xdpsock.Xsk.Tx.Packets.{IsStocked}
use xdpsock.Xsk.Tx.Packets.Deliver.{Delivers}
use xdpsock.Xsk.Tx.Packets.Refines.{send-Delivers}

-- The packets that a call accepted.
abbrev pub taken_up : Result XskSendError (Unit {0}) → Packet → List Packet
taken_up (ok _) packet = packet ∷ []
taken_up (err _) packet = []

-- A batch that is handed over and what is left make up what was there.
append-enqueue :
    (batch_size : ℕ) (packet : Packet) (queued : List Packet)
    → let (handed, left) = enqueue batch_size packet queued in
      handed ++ left ≡ queued ++ (packet ∷ [])
append-enqueue batch_size packet queued = ground (arith, append-nil (queued ++ (packet ∷ [])))

append-cancel : {A : Type 0} (xs ys zs : List A) → xs ++ ys ≡ xs ++ zs → ys ≡ zs
append-cancel [] ys zs h = h
append-cancel (x ∷ xs) ys zs h = append-cancel xs ys zs (cc h)

module _ (k : Kernel) (size : ℕ) (l : IsProdRing k.tx_ring size) (lc : IsConsRing k.comp_ring)
    (c : TxContract k) (t : Transcript k) where
  open k use {World}

  -- The machine moves, by the kernel or through the receiving half, and the transmit end's frames, its
  -- ring and what of them the kernel holds are as they were.
  pub record LeavesTx (m m' : Machine World) : Type 0 where
    pub lent : (a : ℕ) → c.lent m'.world a ≡ c.lent m.world a
    pub handed : t.handed m'.world ≡ t.handed m.world
    pub area : take t.area m'.mem ≡ take t.area m.mem
    pub mapped : length m'.mem ≡ length m.mem

  -- The states that a sequence of sends reaches from `tx0` and `m0`, with the packets that were
  -- accepted, and those that the kernel was handed as it could read them at that time. A send has
  -- data within the MTU, and fuel for the refusals to come.
  pub data Session (mtu : ℕ) (tx0 : XskTx) (m0 : Machine World)
      : XskTx → Machine World → List Packet → List Packet → Type 0 where
    begin : Session mtu tx0 m0 tx0 m0 [] []
    sent :
        {tx : XskTx} {m : Machine World} {accepted delivered : List Packet}
        → Session mtu tx0 m0 tx m accepted delivered
        → (fuel : ℕ) (src : Packet) (r : Result XskSendError (Unit {0})) (tx' : XskTx)
          (m' : Machine World) (descs : List Desc)
        → length src ≤ mtu
        → length src < 2 ^ 32
        → c.refusals m.world < fuel
        → send k fuel src tx m ≡ ret (r, tx', m')
        → t.handed m'.world ≡ t.handed m.world ++ descs
        → Session mtu tx0 m0 tx' m'
            (accepted ++ taken_up r src)
            (delivered ++ map (packet_at m'.mem) descs)
    other :
        {tx : XskTx} {m : Machine World} {accepted delivered : List Packet}
        → Session mtu tx0 m0 tx m accepted delivered
        → (m' : Machine World) → LeavesTx m m'
        → Session mtu tx0 m0 tx m' accepted delivered

  LeavesTx-IsValid :
      {mtu : ℕ} {tx : XskTx} (m m' : Machine World)
      → LeavesTx m m'
      → IsValid c mtu tx m
      → IsValid c mtu tx m'
  LeavesTx-IsValid {mtu} {tx} m m' same v =
      let e : c.lent m.world ≡ c.lent m'.world = fun_ext (λ a. sym (same.lent a)) in
      let old = v.coherent in
      record {
        coherent =
            subst (λ x. IsCoherent mtu x m'.mem tx) e
              (record {
                size_pos = old.size_pos;
                fits = old.fits;
                inside = rw (same.mapped) (old.inside);
                mtu_le = old.mtu_le;
                buffer = old.buffer;
                cursor_in = old.cursor_in;
                frames = old.frames;
                counted = old.counted;
              });
        aligned = subst (λ x. IsAligned x tx) e v.aligned;
        accounted = v.accounted;
        batch_le = v.batch_le;
      }

  -- What holds all the time.
  pub record Kept (mtu : ℕ) (waited : List Packet) (tx : XskTx) (m : Machine World)
      (accepted delivered : List Packet) : Type 0 where
    pub valid : IsValid c mtu tx m
    pub stocked : IsStocked t.area tx
    pub in_order : waited ++ accepted ≡ delivered ++ waiting tx m.mem

  LeavesTx-Kept :
      {mtu : ℕ} {waited : List Packet} {tx : XskTx} {accepted delivered : List Packet}
      (m m' : Machine World)
      → LeavesTx m m'
      → Kept mtu waited tx m accepted delivered
      → Kept mtu waited tx m' accepted delivered
  LeavesTx-Kept {mtu} {waited} {tx} {accepted} {delivered} m m' same h =
      let cursor_room =
        mul-lt tx.tx_cursor (length tx.tx_frames) tx.frame_size h.valid.coherent.cursor_in in
      let below =
        AreBelow-le (tx.tx_cursor * tx.frame_size) t.area (pending_slots tx)
          (omega (arith, cursor_room, h.stocked.room)) h.stocked.below in
      record {
        valid = LeavesTx-IsValid m m' same h.valid;
        stocked = h.stocked;
        in_order =
            h.in_order
            ∙ ap (λ ps. delivered ++ ps)
                (read-same m.mem m'.mem t.area (pending_slots tx) below (sym same.area));
      }

  module _ (mtu fuel : ℕ) (src : Packet) (tx : XskTx) (m : Machine World) (descs : List Desc) where
    abbrev After : Type 0
    After = Result XskSendError (Unit {0}) × XskTx × Machine World

    -- The packets that waited and that which was accepted are those handed over and those that wait.
    abbrev Joins : After → Type 0
    Joins p =
        t.handed p.2.world ≡ t.handed m.world ++ descs
        → waiting tx m.mem ++ taken_up p.0 src
          ≡ map (packet_at p.2.mem) descs ++ waiting p.1 p.2.mem

    Delivers-Joins :
        (d : Delivers k size l lc c t (λ packet. packet ≡ src) (send k fuel src tx m) tx m)
        → Joins (d.result, d.tx', d.machine)
    Delivers-Joins d = elim d.outcome [
      | inl (e, same, waits) ↦ λ joined.
          let none_new =
            append-cancel (t.handed m.world) descs []
              (sym joined ∙ same ∙ sym (append-nil (t.handed m.world))) in
          rw (none_new, e) (append-nil (waiting tx m.mem) ∙ sym waits)
      | inr (e, (packet, made, up)) ↦ λ joined.
          let new = append-cancel (t.handed m.world) descs up.descs (sym joined ∙ up.joined) in
          rw (new, e)
            (rw (← made) (sym (append-enqueue tx.batch_size packet (waiting tx m.mem)))
              ∙ ap (λ q. q.0 ++ q.1) up.refines)
    ]

    send-Kept :
        {waited accepted delivered : List Packet} (r : Result XskSendError (Unit {0})) (tx' : XskTx)
        (m' : Machine World)
        → length src ≤ mtu
        → length src < 2 ^ 32
        → c.refusals m.world < fuel
        → send k fuel src tx m ≡ ret (r, tx', m')
        → t.handed m'.world ≡ t.handed m.world ++ descs
        → Kept mtu waited tx m accepted delivered
        → Kept mtu waited tx' m'
            (accepted ++ taken_up r src)
            (delivered ++ map (packet_at m'.mem) descs)
    send-Kept {waited} {accepted} {delivered} r tx' m' short small enough run joined h =
        let s = send_lem k size l lc c fuel mtu src tx m h.valid short enough in
        let d =
          send-Delivers k size l lc c t fuel mtu src tx m h.valid h.stocked short small enough in
        let new = map (packet_at m'.mem) descs in
        let up = taken_up r src in
        record {
          valid =
              subst (λ (p : After). IsValid c mtu p.1 p.2) (ret-injective (sym s.run ∙ run))
                s.valid;
          stocked =
              subst (λ (p : After). IsStocked t.area p.1) (ret-injective (sym d.run ∙ run))
                d.stocked;
          in_order =
              sym (append_assoc waited accepted up)
              ∙ ap (λ ps. ps ++ up) h.in_order
              ∙ append_assoc delivered (waiting tx m.mem) up
              ∙ ap (λ ps. delivered ++ ps)
                  (subst Joins (ret-injective (sym d.run ∙ run)) (Delivers-Joins d) joined)
              ∙ sym (append_assoc delivered new (waiting tx' m'.mem));
        }

  -- From a valid state whose frames and waiting packets lie in the transmit end's part of the UMEM,
  -- whatever sequence of sends is made, each with data within the MTU and below 2 ^ 32 bytes and
  -- more fuel than refusals to come, and whatever happens between them that leaves the transmit
  -- end's frames, ring and loans alone: the state stays valid, and the packets that waited at first
  -- and those that were accepted since are, in this order, the packets that the kernel was handed,
  -- as their descriptors named them in the memory at that time, and those that wait. So no packet
  -- is lost, doubled, changed or overtaken.
  pub Session-Kept :
      {mtu : ℕ} {tx0 : XskTx} {m0 : Machine World} {tx : XskTx} {m : Machine World}
      {accepted delivered : List Packet}
      → IsValid c mtu tx0 m0
      → IsStocked t.area tx0
      → Session mtu tx0 m0 tx m accepted delivered
      → Kept mtu (waiting tx0 m0.mem) tx m accepted delivered
  Session-Kept {tx0 = tx0} {m0 = m0} v stocked begin = record {
    valid = v;
    stocked = stocked;
    in_order = append-nil (waiting tx0 m0.mem);
  }
  Session-Kept {mtu} v stocked
        (sent {tx} {m} s fuel src r tx' m' descs short small enough run joined) =
      send-Kept mtu fuel src tx m descs r tx' m' short small enough run joined
        (Session-Kept v stocked s)
  Session-Kept v stocked (other {m = m} s m' same) =
      LeavesTx-Kept m m' same (Session-Kept v stocked s)
