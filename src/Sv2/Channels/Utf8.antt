-- ===== src/Sv2/Channels/Utf8.antt =====
-- `std::str::from_utf8`, as str_from_str0255 of crates/datum-stratum-sv2/src/channel_manager.rs uses it.
use datum_rs.Common.{
  ℕ, zero, suc, Bool, true, false, ◌&&◌, List, [], ◌∷◌, length, leb, ltb, ◌==◌, if◌then◌else◌,
  Option, some, none,
}

-- The bytes that follow a leading byte: how many, and the range of the first of them.
abbrev lead : ℕ → Option (ℕ × ℕ × ℕ)
lead b =
    if ltb b 0x80
    then some (0, 0, 0)
    else if leb 0xC2 b && leb b 0xDF
    then some (1, 0x80, 0xBF)
    else if b == 0xE0
    then some (2, 0xA0, 0xBF)
    else if b == 0xED
    then some (2, 0x80, 0x9F)
    else if leb 0xE1 b && leb b 0xEF
    then some (2, 0x80, 0xBF)
    else if b == 0xF0
    then some (3, 0x90, 0xBF)
    else if leb 0xF1 b && leb b 0xF3
    then some (3, 0x80, 0xBF)
    else if b == 0xF4
    then some (3, 0x80, 0x8F)
    else none

abbrev continues : List ℕ → Option (ℕ × ℕ × ℕ) → Bool
continues [] none = false
continues [] (some (zero, lo, hi)) = true
continues [] (some (suc n, lo, hi)) = false
continues (b ∷ bs) none = false
continues (b ∷ bs) (some (zero, lo, hi)) = continues bs (lead b)
continues (b ∷ bs) (some (suc n, lo, hi)) =
    (leb lo b && leb b hi) && continues bs (some (n, 0x80, 0xBF))

unfoldable pub from_utf8 : List ℕ → Bool
from_utf8 bytes = continues bytes (some (0, 0, 0))

-- The identity as a string: not the empty one, and UTF-8.
unfoldable pub str_from_str0255 : List ℕ → Option (List ℕ)
str_from_str0255 bytes =
    if length bytes == 0 then none else if from_utf8 bytes then some bytes else none
