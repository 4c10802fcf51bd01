-- ===== src/Examples/DevToDev/Receiving.antt =====
-- Which packets the receiver counts, and which numbers it notes.
use mathlib.Core.List.{foldl}
use mathlib.Core.Path.{subst}
use native.Mathlib.Decide.{dec_lt}
use xdpsock.Prelude.{
  ℕ, ◌+◌, ◌^◌, ◌≤◌, ◌<◌, ◌≡◌, refl, ap, ◌∙◌, ◌⊎◌, inl, inr, true, Bool-cases, List, [], ◌∷◌,
  Outcome, ret, panic, Result, ok, err, index_range_lem, length, take, set, length-set, add64,
  lt→ltb, le→ltb, arith,
}
use xdpsock.Examples.Wire.{Etherparse, LittleEndian, SlicedPacket}
use xdpsock.Examples.DevToDev.{Filter, filter_pkt}
use xdpsock.Examples.DevToDev.Filtering.{Matches, filter_pkt_iff}
use xdpsock.Examples.DevToDev.Receipt.{Received, note_pkt, note_next}
use xdpsock.Examples.DevToDev.Notes.{AllBelow, Notes, one_more, Notes-cons}

module _ (eth : Etherparse) (le : LittleEndian) (filter : Filter) where
  -- The crate reads a packet from the bytes that is the filter's.
  abbrev pub Taken : List ℕ → SlicedPacket → Type 0
  Taken bytes pkt = (eth.from_ethernet bytes ≡ ok pkt) × Matches pkt filter

  -- It is the filter's, and begins with this number.
  abbrev pub HasNumber : List ℕ → ℕ → Type 0
  HasNumber bytes n =
      (pkt : SlicedPacket) × Taken bytes pkt
      × (8 ≤ length pkt.payload)
      × (n ≡ le.read_u64 (take 8 pkt.payload))

  -- It is the filter's, and has no number, or none of a flag.
  abbrev pub Breaks : ℕ → List ℕ → Type 0
  Breaks size bytes =
      (pkt : SlicedPacket) × Taken bytes pkt
      × ((length pkt.payload < 8) ⊎ (size ≤ le.read_u64 (take 8 pkt.payload)))

  -- The numbers of those packets that are the filter's, in their order.
  abbrev pub Numbers : List (List ℕ) → List ℕ → Type 0
  Numbers [] ns = ns ≡ []
  Numbers (bytes ∷ pkts) ns =
      (((pkt : SlicedPacket) → Taken bytes pkt → ⊥) × Numbers pkts ns)
      ⊎ ((n : ℕ) × (rest : List ℕ) × HasNumber bytes n × (ns ≡ n ∷ rest) × Numbers pkts rest)

  abbrev pub AnyBreaks : ℕ → List (List ℕ) → Type 0
  AnyBreaks size [] = ⊥
  AnyBreaks size (bytes ∷ pkts) = Breaks size bytes ⊎ AnyBreaks size pkts

  -- What the closure makes of a packet.
  abbrev Step : Received → List ℕ → Type 0
  Step s bytes =
      (((pkt : SlicedPacket) → Taken bytes pkt → ⊥) × (note_pkt eth le filter s bytes ≡ ret s))
      ⊎ ((n : ℕ) × HasNumber bytes n
          × (n < length s.recvd_nums)
          × (note_pkt eth le filter s bytes ≡ ret (one_more s n)))
      ⊎ (Breaks (length s.recvd_nums) bytes × (note_pkt eth le filter s bytes ≡ panic))

  note_pkt-Step : (s : Received) (bytes : List ℕ) → s.matched_recvd_pkts + 1 < 2 ^ 64 → Step s bytes
  unfolding note_pkt
  note_pkt-Step s bytes small = go (eth.from_ethernet bytes) refl
    where
      count : add64 s.matched_recvd_pkts 1 ≡ s.matched_recvd_pkts + 1
      count = omega (arith, small)

      mine :
          (pkt : SlicedPacket)
          → eth.from_ethernet bytes ≡ ok pkt
          → filter_pkt pkt filter ≡ true
          → Step s bytes
      mine pkt q wanted =
          let taken : Taken bytes pkt = (q, (filter_pkt_iff pkt filter).0 wanted) in
          let n = le.read_u64 (take 8 pkt.payload) in
          elim (dec_lt (length pkt.payload) 8) [
            | yes short ↦ inr (
                inr (
                  (pkt, taken, inl short),
                  rw (q, wanted, note_pkt) (rw (lt→ltb (length pkt.payload) 8 short) refl),
                ))
            | no long ↦ elim (dec_lt n (length s.recvd_nums)) [
              | yes below ↦ inr (
                  inl (
                    n,
                    (pkt, taken, omega arith, refl),
                    below,
                    rw (q, wanted, note_pkt)
                        (rw (index_range_lem pkt.payload 0 8 (omega arith) (omega arith)) (
                          rw (lt→ltb n (length s.recvd_nums) below) (λ i. ret (record {
                            matched_recvd_pkts = count i;
                            recvd_nums = set s.recvd_nums n true;
                          })))),
                  ))
              | no past ↦ inr (
                  inr (
                    (pkt, taken, inr (omega arith)),
                    rw (q, wanted, note_pkt)
                        (rw (index_range_lem pkt.payload 0 8 (omega arith) (omega arith))
                          (rw (le→ltb n (length s.recvd_nums) (omega arith)) refl)),
                  ))
            ]
          ]

      go : (read : Result eth.Error SlicedPacket) → eth.from_ethernet bytes ≡ read → Step s bytes
      go (err e) q = inl (λ pkt (parsed, fits). cc, rw (q, note_pkt) refl)
      go (ok pkt) q = elim (Bool-cases (filter_pkt pkt filter)) [
        | inl wanted ↦ mine pkt q wanted
        | inr other ↦ inl (
          λ pkt' (parsed, fits).
              let same : pkt' ≡ pkt = cc in let wanted = (filter_pkt_iff pkt' filter).1 fits in cc,
          rw (q, other, note_pkt) refl,
        )
      ]

  foldl-panic : (pkts : List (List ℕ)) → foldl (note_next eth le filter) panic pkts ≡ panic
  foldl-panic [] = refl
  foldl-panic (bytes ∷ pkts) = foldl-panic pkts

  -- What a run of the closure comes to, with `size` flags.
  abbrev pub ComesTo : ℕ → List (List ℕ) → Received → Outcome Received → Type 0
  ComesTo size pkts s run =
      ((ns : List ℕ) × (s' : Received) × (run ≡ ret s')
        × Numbers pkts ns
        × AllBelow size ns
        × Notes s s' ns)
      ⊎ (AnyBreaks size pkts × (run ≡ panic))

  note_all :
      (size : ℕ) (pkts : List (List ℕ)) (s : Received)
      → length s.recvd_nums ≡ size
      → s.matched_recvd_pkts + length pkts < 2 ^ 64
      → ComesTo size pkts s (foldl (note_next eth le filter) (ret s) pkts)
  note_all size [] s e small = inl (
    [],
    s,
    refl,
    refl,
    tt,
    record {
      count = omega arith;
      size = refl;
      noted = λ i h. absurd h;
      others = λ i h. refl;
      no_fewer = omega arith;
    },
  )
  note_all size (bytes ∷ pkts) s e small =
      let next = λ (m : Outcome Received). foldl (note_next eth le filter) m pkts in
      elim (note_pkt-Step s bytes (omega (arith, small))) [
        | inl (not_ours, run) ↦ elim (note_all size pkts s e (omega (arith, small))) [
          | inl (ns, s', rest, numbers, below, h) ↦
              inl (ns, s', ap next run ∙ rest, inl (not_ours, numbers), below, h)
          | inr (breaks, rest) ↦ inr (inr breaks, ap next run ∙ rest)
        ]
        | inr (inl (n, has, lt, run)) ↦
            elim (note_all size pkts (one_more s n) (length-set s.recvd_nums n true ∙ e)
              (omega (arith, small))) [
                | inl (ns, s', rest, numbers, below, h) ↦ inl (
                  n ∷ ns,
                  s',
                  ap next run ∙ rest,
                  inr (n, ns, has, refl, numbers),
                  (omega (arith, lt, e), below),
                  Notes-cons s s' n ns lt h,
                )
                | inr (breaks, rest) ↦ inr (inr breaks, ap next run ∙ rest)
              ]
        | inr (inr (breaks, run)) ↦
            inr (inl (subst (λ x. Breaks x bytes) e breaks), ap next run ∙ foldl-panic pkts)
      ]

  -- While the count of matched packets does not wrap, calling the closure of `rx_pkts` on any
  -- packets has one of two outcomes. Either each packet that is read as a UDP packet over IPv4 with
  -- the filter's addresses and ports begins with the number of a flag, and the closure returns on
  -- all of them: the count grows by the number of these packets, each counted once; the number of
  -- the flags stays; exactly the flags of these packets' numbers are set, and the others are as they
  -- were; and the count and the number of missing packets together do not become fewer. Or such a
  -- packet has fewer than eight bytes of payload or a number that has no flag, and it panics.
  pub note_all_lem :
      (pkts : List (List ℕ)) (s : Received)
      → s.matched_recvd_pkts + length pkts < 2 ^ 64
      → ComesTo (length s.recvd_nums) pkts s (foldl (note_next eth le filter) (ret s) pkts)
  note_all_lem pkts s small = note_all (length s.recvd_nums) pkts s refl small
