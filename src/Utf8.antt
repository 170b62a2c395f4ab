-- ===== src/Utf8.antt =====
-- UTF-8 as the standard library encodes and checks it: `char::encode_utf8`, `std::str::from_utf8`.
pub mod Laws
use tabra.Prelude.{
  ℕ, zero, suc, ◌+◌, ◌*◌, ◌/◌, ◌%◌, Bool, ◌&&◌, ◌||◌, List, [], ◌∷◌, Option, none, some, Text, ltb,
  within, ◌==◌, if◌then◌else◌,
}

unfoldable pub encode_utf8 : ℕ → List ℕ
encode_utf8 c =
    if ltb c 0x80
    then c ∷ []
    else if ltb c 0x800
    then (0xC0 + c / 0x40) ∷ (0x80 + c % 0x40) ∷ []
    else if ltb c 0x10000
    then (0xE0 + c / 0x1000) ∷ (0x80 + c / 0x40 % 0x40) ∷ (0x80 + c % 0x40) ∷ []
    else (0xF0 + c / 0x40000)
      ∷ (0x80 + c / 0x1000 % 0x40)
      ∷ (0x80 + c / 0x40 % 0x40)
      ∷ (0x80 + c % 0x40)
      ∷ []

abbrev pub is_cont : ℕ → Bool
is_cont = within 0x80 0xBF

-- The second byte that may follow the first of three: no overlong form and no surrogate.
abbrev pub second_of_3 : ℕ → ℕ → Bool
second_of_3 a b =
    (a == 0xE0 && within 0xA0 0xBF b)
    || (a == 0xED && within 0x80 0x9F b)
    || ((within 0xE1 0xEC a || within 0xEE 0xEF a) && is_cont b)

-- The same of four: no overlong form, and nothing past U+10FFFF.
abbrev pub second_of_4 : ℕ → ℕ → Bool
second_of_4 a b =
    (a == 0xF0 && within 0x90 0xBF b)
    || (a == 0xF4 && within 0x80 0x8F b)
    || (within 0xF1 0xF3 a && is_cont b)

-- A character of more than one byte, and the bytes behind it.
unfoldable pub decode_wide : List ℕ → Option (ℕ × List ℕ)
decode_wide (a ∷ b ∷ []) =
    if within 0xC2 0xDF a && is_cont b then some (a % 0x20 * 0x40 + b % 0x40, []) else none
decode_wide (a ∷ b ∷ c ∷ []) =
    if within 0xC2 0xDF a && is_cont b
    then some (a % 0x20 * 0x40 + b % 0x40, c ∷ [])
    else if second_of_3 a b && is_cont c
    then some (a % 0x10 * 0x1000 + b % 0x40 * 0x40 + c % 0x40, [])
    else none
decode_wide (a ∷ b ∷ c ∷ d ∷ r) =
    if within 0xC2 0xDF a && is_cont b
    then some (a % 0x20 * 0x40 + b % 0x40, c ∷ d ∷ r)
    else if second_of_3 a b && is_cont c
    then some (a % 0x10 * 0x1000 + b % 0x40 * 0x40 + c % 0x40, d ∷ r)
    else if second_of_4 a b && (is_cont c && is_cont d)
    then some (a % 8 * 0x40000 + b % 0x40 * 0x1000 + c % 0x40 * 0x40 + d % 0x40, r)
    else none
decode_wide _ = none

-- The first character of the bytes, with the bytes behind it.
unfoldable pub decode_first : List ℕ → Option (ℕ × List ℕ)
decode_first [] = none
decode_first (a ∷ r) = if ltb a 0x80 then some (a, r) else decode_wide (a ∷ r)

abbrev pub cons? : ℕ → Option Text → Option Text
cons? c none = none
cons? c (some s) = some (c ∷ s)

-- Each round takes a byte at least, so the number of bytes is enough fuel.
unfoldable pub from_utf8 : ℕ → List ℕ → Option Text
from_utf8 f [] = some []
from_utf8 zero (b ∷ r) = none
from_utf8 (suc f) (b ∷ r) = elim (decode_first (b ∷ r)) [
  | none ↦ none
  | some (c, rest) ↦ cons? c (from_utf8 f rest)
]
