-- ===== src/Examples/DevToDev/Mac/Laws.antt =====
-- What `parse_mac` accepts, and that it reads what a MAC address is written as.
use native.Mathlib.Decide.{ℕ_discrete}
use xdpsock.Prelude.{
  ℕ, zero, suc, ◌+◌, ◌*◌, ◌/◌, ◌%◌, ◌≤◌, ◌<◌, ◌≡◌, ◌≢◌, refl, sym, ap, ◌∙◌, ◌⊎◌, inl, inr, false,
  ==_iff, Option, none, some, List, [], ◌∷◌, ◌++◌, map, ret, ok, err, length, length-map, replicate,
  splice, splice-set, splice-nil, length-set, set, get_elem?, lt→ltb, ltb, ◌==◌, if◌then◌else◌,
  arith,
}
use xdpsock.Examples.DevToDev.Mac.{
  MacError, split, hex_digit, hex_digits, u8_from_hex, parse_parts, parse_mac,
}

abbrev Parses : ℕ → List (List ℕ) → List ℕ → Type 0
Parses i parts mac_bytes =
    ((bytes : List ℕ) × (map u8_from_hex parts ≡ map some bytes)
      × (parse_parts i parts mac_bytes ≡ ret (ok (splice mac_bytes i bytes))))
    ⊎ ((j : ℕ) × (get_elem? (map u8_from_hex parts) j ≡ some none)
        × (parse_parts i parts mac_bytes ≡ ret (err MacError.bad_byte)))

-- Every part is a byte and they were written from place `i` on, or some part is none.
parse_parts_lem :
    (i : ℕ) (parts : List (List ℕ)) (mac_bytes : List ℕ)
    → i + length parts ≤ length mac_bytes
    → Parses i parts mac_bytes
unfolding parse_parts
parse_parts_lem i [] mac_bytes room =
    inl ([], refl, ap (λ x. ret (ok x)) (sym (splice-nil mac_bytes i)))
parse_parts_lem i (part ∷ parts) mac_bytes room =
    go (u8_from_hex part) refl λ b.
      parse_parts_lem (suc i) parts (set mac_bytes i b) (omega (arith, length-set mac_bytes i b))
  where
    go :
        (b : Option ℕ)
        → u8_from_hex part ≡ b
        → ((b : ℕ) → Parses (suc i) parts (set mac_bytes i b))
        → Parses i (part ∷ parts) mac_bytes
    go none e rest = inr (0, ap some e, rw (e, parse_parts) refl)
    go (some b) e rest =
        let place = lt→ltb i (length mac_bytes) (omega arith) in
        elim (rest b) [
          | inl (bytes, all, run) ↦ inl (
            b ∷ bytes,
            rw (e, all) refl,
            rw (e, parse_parts)
                (rw place (run ∙ ap (λ x. ret (ok x)) (splice-set mac_bytes i b bytes))),
          )
          | inr (j, wrong, run) ↦ inr (suc j, wrong, rw (e, parse_parts) (rw place run))
        ]

splice_whole : (xs ys : List ℕ) → length xs ≡ length ys → splice xs 0 ys ≡ ys
splice_whole [] [] h = refl
splice_whole [] (y ∷ ys) h = absurd (omega (arith, h))
splice_whole (x ∷ xs) [] h = absurd (omega (arith, h))
splice_whole (x ∷ xs) (y ∷ ys) h = ap (λ zs. y ∷ zs) (splice_whole xs ys (omega (arith, h)))

splice_six :
    (parts : List (List ℕ)) (bytes : List ℕ)
    → map u8_from_hex parts ≡ map some bytes
    → length parts ≡ 6
    → splice (replicate 6 0) 0 bytes ≡ bytes
splice_six parts bytes all six = splice_whole (replicate 6 0) bytes (
    omega (
      arith,
      six,
      ap length all,
      length-map u8_from_hex parts,
      length-map {B = Option ℕ} (λ b. some b) bytes,
    ))

-- `parse_mac` always returns. Either the string has six parts, each is a byte in hexadecimal, and it
-- returns these bytes in their order; or the number of parts is another, and it returns the error
-- for it; or there are six and one of them is no byte, and it returns the error for that.
pub parse_mac_cases :
    (mac : List ℕ)
    → let parts = split 58 mac in
      ((bytes : List ℕ) × (length parts ≡ 6)
        × (map u8_from_hex parts ≡ map some bytes)
        × (parse_mac mac ≡ ret (ok bytes)))
      ⊎ ((length parts ≢ 6) × (parse_mac mac ≡ ret (err MacError.wrong_len)))
      ⊎ ((j : ℕ) × (length parts ≡ 6)
          × (get_elem? (map u8_from_hex parts) j ≡ some none)
          × (parse_mac mac ≡ ret (err MacError.bad_byte)))
unfolding parse_mac
parse_mac_cases mac =
    let parts = split 58 mac in
    elim (ℕ_discrete (length parts) 6) [
      | no other ↦ inr (inl (other, ground (arith, other, ==_iff (length parts) 6)))
      | yes six ↦ elim (parse_parts_lem 0 parts (replicate 6 0) (omega arith)) [
        | inl (bytes, all, run) ↦ inl (
          bytes,
          six,
          all,
          ground
              (arith, six, ==_iff (length parts) 6, run, splice_six (split 58 mac) bytes all six),
        )
        | inr (j, wrong, run) ↦
            inr (inr (j, six, wrong, ground (arith, six, ==_iff (length parts) 6, run)))
      ]
    ]

abbrev pub digit : ℕ → ℕ
digit d = if ltb d 10 then 48 + d else 87 + d

-- A byte in two lower case digits, and bytes with a colon between any two of them.
abbrev pub byte_text : ℕ → List ℕ
byte_text b = digit (b / 16) ∷ digit (b % 16) ∷ []

abbrev pub mac_text : List ℕ → List ℕ
mac_text [] = []
mac_text (b ∷ []) = byte_text b
mac_text (b ∷ c ∷ bytes) = byte_text b ++ (58 ∷ mac_text (c ∷ bytes))

hex_digit-digit : (d : ℕ) → d < 16 → hex_digit (digit d) ≡ some d
hex_digit-digit d h = ground arith

digit-ne : (d : ℕ) → ((digit d == 58) ≡ false) × ((digit d == 43) ≡ false)
digit-ne d = (ground arith, ground arith)

u8_from_hex-byte_text : (b : ℕ) → b < 256 → u8_from_hex (byte_text b) ≡ some b
unfolding u8_from_hex hex_digits
u8_from_hex-byte_text b h =
    let high : b / 16 < 16 = omega arith in
    let low : b % 16 < 16 = omega arith in
    let within : (0 * 16 + b / 16) * 16 + b % 16 ≡ b = omega arith in
    rw ((digit-ne (b / 16)).1, hex_digits, hex_digit-digit (b / 16) high)
      (rw (lt→ltb (0 * 16 + b / 16) 256 (omega arith), hex_digits, hex_digit-digit (b % 16) low)
        (ground (arith, within)))

split-mac_text :
    (b : ℕ) (bytes : List ℕ) → split 58 (mac_text (b ∷ bytes)) ≡ map byte_text (b ∷ bytes)
split-mac_text b [] = rw ((digit-ne (b / 16)).0, (digit-ne (b % 16)).0) refl
split-mac_text b (c ∷ bytes) =
    rw ((digit-ne (b / 16)).0, (digit-ne (b % 16)).0, split-mac_text c bytes) refl

abbrev pub AreBytes : List ℕ → Type 0
AreBytes [] = Unit {0}
AreBytes (b ∷ bytes) = (b < 256) × AreBytes bytes

parts-mac_text :
    (bytes : List ℕ) → AreBytes bytes → map u8_from_hex (map byte_text bytes) ≡ map some bytes
parts-mac_text [] h = refl
parts-mac_text (b ∷ bytes) (small, h) =
    rw (u8_from_hex-byte_text b small, parts-mac_text bytes h) refl

some_bytes : (xs ys : List ℕ) → map {B = Option ℕ} some xs ≡ map some ys → xs ≡ ys
some_bytes [] [] h = refl
some_bytes [] (y ∷ ys) h = cc
some_bytes (x ∷ xs) [] h = cc
some_bytes (x ∷ xs) (y ∷ ys) h = let rest = some_bytes xs ys cc in cc

no_bad_part : (bytes : List ℕ) (j : ℕ) → get_elem? (map {B = Option ℕ} some bytes) j ≢ some none
no_bad_part [] j h = cc
no_bad_part (b ∷ bytes) zero h = cc
no_bad_part (b ∷ bytes) (suc j) h = no_bad_part bytes j h

-- Six bytes, written in hexadecimal with colons between them, are read back as they are.
pub parse_mac-mac_text :
    (bytes : List ℕ)
    → length bytes ≡ 6
    → AreBytes bytes
    → parse_mac (mac_text bytes) ≡ ret (ok bytes)
parse_mac-mac_text [] six small = absurd (omega (arith, six))
parse_mac-mac_text (b ∷ bytes) six small =
    let parts = split-mac_text b bytes in
    let read = ap (map u8_from_hex) parts ∙ parts-mac_text (b ∷ bytes) small in
    let number = ap length parts ∙ length-map byte_text (b ∷ bytes) ∙ six in
    elim (parse_mac_cases (mac_text (b ∷ bytes))) [
      | inl (found, six', all, run) ↦
          run ∙ ap (λ x. ret (ok x)) (some_bytes found (b ∷ bytes) (sym all ∙ read))
      | inr (inl (other, run)) ↦ absurd (other number)
      | inr (inr (j, six', wrong, run)) ↦
          absurd (no_bad_part (b ∷ bytes) j (sym (ap (λ x. get_elem? x j) read) ∙ wrong))
    ]
