-- ===== src/Examples/DevToDev/Mac.antt =====
-- `parse_mac` of examples/dev_to_dev.rs. A string is its bytes.
pub mod Laws
use xdpsock.Prelude.{
  ℕ, zero, suc, ◌+◌, ◌*◌, ◌-◌, not, ◌&&◌, Option, none, some, List, [], ◌∷◌, Outcome, ret, ◌>>=◌,
  Result, ok, err, length, replicate, assign, ltb, leb, ◌==◌, if◌then◌else◌,
}

pub data MacError : Type 0 where
  wrong_len bad_byte : MacError

-- `str::split` by one ASCII character.
abbrev pub push : ℕ → List (List ℕ) → List (List ℕ)
push b [] = (b ∷ []) ∷ []
push b (part ∷ parts) = (b ∷ part) ∷ parts

abbrev pub split : ℕ → List ℕ → List (List ℕ)
split sep [] = [] ∷ []
split sep (b ∷ bytes) = let parts = split sep bytes in if b == sep then [] ∷ parts else push b parts

-- `char::to_digit(16)`
abbrev pub hex_digit : ℕ → Option ℕ
hex_digit b =
    if leb 48 b && leb b 57
    then some (b - 48)
    else if leb 97 b && leb b 102
    then some (b - 87)
    else if leb 65 b && leb b 70
    then some (b - 55)
    else none

-- The digits of `u8::from_str_radix(_, 16)`: an overflow is an error.
unfoldable pub hex_digits : ℕ → List ℕ → Option ℕ
hex_digits n [] = some n
hex_digits n (b ∷ bytes) = elim (hex_digit b) [
  | none ↦ none
  | some d ↦ if ltb (n * 16 + d) 256 then hex_digits (n * 16 + d) bytes else none
]

-- `u8::from_str_radix(_, 16)`: some digits, behind at most one `+`.
unfoldable pub u8_from_hex : List ℕ → Option ℕ
u8_from_hex [] = none
u8_from_hex (b ∷ []) = hex_digits 0 (b ∷ [])
u8_from_hex (b ∷ c ∷ bytes) =
    if b == 43 then hex_digits 0 (c ∷ bytes) else hex_digits 0 (b ∷ c ∷ bytes)

-- The loop of `parse_mac`.
unfoldable pub parse_parts : ℕ → List (List ℕ) → List ℕ → Outcome (Result MacError (List ℕ))
parse_parts i [] mac_bytes = ret (ok mac_bytes)
parse_parts i (part ∷ parts) mac_bytes = elim (u8_from_hex part) [
  | none ↦ ret (err MacError.bad_byte)
  | some mac_byte ↦ do changed ← assign mac_bytes i mac_byte; parse_parts (suc i) parts changed
]

unfoldable pub parse_mac : List ℕ → Outcome (Result MacError (List ℕ))
parse_mac mac =
    let parts = split 58 mac in
    if not (length parts == 6)
    then ret (err MacError.wrong_len)
    else parse_parts 0 parts (replicate 6 0)
