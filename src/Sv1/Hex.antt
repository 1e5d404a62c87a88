-- ===== src/Sv1/Hex.antt =====
-- Hexadecimal as crates/datum-stratum-sv1/src/server.rs uses it: `format!("{:08x}")`, `format!("{:02x}")`,
-- and `u32::from_str_radix(s.trim_start_matches("0x"), 16)`. A string is its bytes.
pub mod RoundTrip
use datum_rs.Common.{
  ℕ, zero, suc, ◌+◌, ◌-◌, ◌*◌, ◌/◌, ◌%◌, ◌^◌, ◌&&◌, List, [], ◌∷◌, ◌++◌, leb, ltb, ◌==◌,
  if◌then◌else◌, Option, some, none,
}

-- The byte of a digit below 16.
abbrev pub hex_digit : ℕ → ℕ
hex_digit d = if ltb d 10 then 48 + d else 87 + d

-- The `width` low digits, the highest first.
abbrev pub hex_fixed : ℕ → ℕ → List ℕ
hex_fixed zero v = []
hex_fixed (suc width) v = hex_digit (v / 16 ^ width % 16) ∷ hex_fixed width v

-- `{:08x}` of a 32-bit number, which has no more than eight digits.
abbrev pub format_08x : ℕ → List ℕ
format_08x v = hex_fixed 8 v

-- `{:02x}` of every byte.
abbrev pub hex_bytes : List ℕ → List ℕ
hex_bytes [] = []
hex_bytes (b ∷ bs) = hex_fixed 2 b ++ hex_bytes bs

-- `char::to_digit(16)`.
abbrev pub to_digit : ℕ → Option ℕ
to_digit c =
    if leb 48 c && leb c 57
    then some (c - 48)
    else if leb 97 c && leb c 102
    then some (c - 87)
    else if leb 65 c && leb c 70
    then some (c - 55)
    else none

abbrev pub and_then {ℓ κ} : {A : Type ℓ} {B : Type κ} → Option A → (A → Option B) → Option B
and_then none f = none
and_then (some a) f = f a

abbrev pub push_digit : ℕ → ℕ → Option ℕ
push_digit acc d = if ltb (acc * 16 + d) (2 ^ 32) then some (acc * 16 + d) else none

-- The digits onto what is read so far, until one is none or the number leaves 32 bits.
abbrev pub from_digits : ℕ → List ℕ → Option ℕ
from_digits acc [] = some acc
from_digits acc (c ∷ cs) =
    and_then (and_then (to_digit c) (push_digit acc)) (λ next. from_digits next cs)

-- One leading `+` is allowed before at least one digit.
abbrev pub from_str_radix : List ℕ → Option ℕ
from_str_radix [] = none
from_str_radix (c ∷ []) = from_digits 0 (c ∷ [])
from_str_radix (c ∷ d ∷ rest) =
    if c == 43 then from_digits 0 (d ∷ rest) else from_digits 0 (c ∷ d ∷ rest)

-- `0x` off the front, as often as it stands there.
abbrev pub trim_start_matches_0x : List ℕ → List ℕ
trim_start_matches_0x [] = []
trim_start_matches_0x (a ∷ []) = a ∷ []
trim_start_matches_0x (a ∷ b ∷ rest) =
    let trimmed = trim_start_matches_0x rest in
    if (a == 48) && (b == 120) then trimmed else (a ∷ b ∷ rest)

unfoldable pub parse_u32_hex : List ℕ → Option ℕ
parse_u32_hex s = from_str_radix (trim_start_matches_0x s)
