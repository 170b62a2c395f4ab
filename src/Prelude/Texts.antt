-- ===== src/Prelude/Texts.antt =====
-- Rust strings as lists of their characters' code points, and the standard library's operations.
use Prim.Native.Char.{code}
use Prim.Native.Nat.{ℕ, zero, suc, ◌+◌, ◌-◌, ◌/◌, ◌%◌, ◌≤◌}
use Prim.Native.String.{String}
use mathlib.Core.Path.{◌≡◌, refl}
use mathlib.Core.Logic.{◌↔◌, inl, inr}
use mathlib.Core.Bool.{Bool, true, false, ◌&&◌, ◌||◌}
use mathlib.Core.List.{List, [], ◌∷◌, ◌++◌}
use mathlib.Core.Option.{Option, none, some}
use native.Mathlib.Omega.{arith}
use tabra.Prelude.Lists.{take, drop, All}
use tabra.Prelude.Tests.{ltb, ◌==◌, if◌then◌else◌, Bool-cases}

abbrev pub Text : Type 0
Text = List ℕ

-- The code points of a literal. `String` has its own `[]` and `∷`.
abbrev pub codes : String → Text
codes String.[] = []
codes (String.◌∷◌ c s) = code c ∷ codes s

-- `==` on strings.
unfoldable pub eq_text : Text → Text → Bool
eq_text [] [] = true
eq_text (x ∷ xs) (y ∷ ys) = x == y && eq_text xs ys
eq_text _ _ = false

pub eq_text_iff : (a b : Text) → (eq_text a b ≡ true) ↔ (a ≡ b)
unfolding eq_text
eq_text_iff [] [] = ground arith
eq_text_iff [] (y ∷ ys) = ground arith
eq_text_iff (x ∷ xs) [] = ground arith
eq_text_iff (x ∷ xs) (y ∷ ys) = ground (arith, eq_text_iff xs ys)

-- `str::starts_with`.
unfoldable pub starts_with : Text → Text → Bool
starts_with s [] = true
starts_with [] (p ∷ ps) = false
starts_with (c ∷ s) (p ∷ ps) = c == p && starts_with s ps

-- `char::len_utf8`.
unfoldable pub len_utf8 : ℕ → ℕ
len_utf8 c = if ltb c 0x80 then 1 else if ltb c 0x800 then 2 else if ltb c 0x10000 then 3 else 4

-- `str::len`, in bytes.
unfoldable pub len_bytes : Text → ℕ
len_bytes [] = 0
len_bytes (c ∷ s) = len_utf8 c + len_bytes s

-- `s.char_indices().nth(n).map(|(i, _)| i).unwrap_or(s.len())`.
unfoldable pub byte_of_char : Text → ℕ → ℕ
byte_of_char [] n = 0
byte_of_char (c ∷ s) zero = 0
byte_of_char (c ∷ s) (suc n) = len_utf8 c + byte_of_char s n

-- `s.split_at(b)`: a panic, `none`, where `b` is past the end or inside a character.
abbrev pub cons_left : ℕ → Option (Text × Text) → Option (Text × Text)
cons_left c none = none
cons_left c (some (l, r)) = some (c ∷ l, r)

unfoldable pub split_at : Text → ℕ → Option (Text × Text)
split_at [] b = if b == 0 then some ([], []) else none
split_at (c ∷ s) b =
    if b == 0
    then some ([], c ∷ s)
    else if ltb b (len_utf8 c)
    then none
    else cons_left c (split_at s (b - len_utf8 c))

pub len_utf8_pos : (c : ℕ) → 1 ≤ len_utf8 c
unfolding len_utf8
len_utf8_pos c = ground arith

add-sub_self : (a b : ℕ) → a + b - a ≡ b
add-sub_self a b = omega arith

-- The byte offset of a character stands on a boundary, and cuts before that character.
pub split_at-byte_of_char :
    (s : Text) (n : ℕ) → split_at s (byte_of_char s n) ≡ some (take n s, drop n s)
unfolding split_at byte_of_char
split_at-byte_of_char [] zero = refl
split_at-byte_of_char [] (suc n) = refl
split_at-byte_of_char (c ∷ s) zero = refl
split_at-byte_of_char (c ∷ s) (suc n) =
    ground (
      arith,
      len_utf8_pos c,
      split_at-byte_of_char s n,
      add-sub_self (len_utf8 c) (byte_of_char s n),
    )

-- `s.repeat(n)`.
abbrev pub repeat_text : ℕ → Text → Text
repeat_text zero s = []
repeat_text (suc n) s = s ++ repeat_text n s

-- A number in decimal. A digit takes a round, so the number itself is enough fuel.
unfoldable pub digits_onto : ℕ → ℕ → Text → Text
digits_onto zero n s = (n % 10 + b'0') ∷ s
digits_onto (suc f) n s =
    let rest = digits_onto f (n / 10) ((n % 10 + b'0') ∷ s) in
    if ltb n 10 then (n + b'0') ∷ s else rest

unfoldable pub decimal : ℕ → Text
unfolding digits_onto
decimal n = digits_onto n n []

-- Digits, and no other characters.
abbrev pub IsDigit : ℕ → Type 0
IsDigit c = b'0' ≤ c

digits_onto-IsDigit : (f n : ℕ) (s : Text) → All IsDigit s → All IsDigit (digits_onto f n s)
unfolding digits_onto
digits_onto-IsDigit zero n s h = (omega arith, h)
digits_onto-IsDigit (suc f) n s h =
    let d : All IsDigit ((n % 10 + b'0') ∷ s) = (omega arith, h) in
    elim (Bool-cases (ltb n 10)) [
      | inl e ↦ rw e (omega arith, h)
      | inr e ↦ rw e (digits_onto-IsDigit f (n / 10) ((n % 10 + b'0') ∷ s) d)
    ]

pub decimal-IsDigit : (n : ℕ) → All IsDigit (decimal n)
unfolding decimal
decimal-IsDigit n = digits_onto-IsDigit n n [] tt

-- A text that begins with another is cut behind it at its length in bytes.
pub split_at-len_bytes : (pre suf : Text) → split_at (pre ++ suf) (len_bytes pre) ≡ some (pre, suf)
unfolding split_at len_bytes
split_at-len_bytes [] [] = refl
split_at-len_bytes [] (c ∷ suf) = refl
split_at-len_bytes (c ∷ pre) suf =
    ground
      (arith, len_utf8_pos c, split_at-len_bytes pre suf, add-sub_self (len_utf8 c) (len_bytes pre))

-- Behind a character whose offset is the length of the text there is nothing.
pub drop_end : (s : Text) (n : ℕ) → len_bytes s ≤ byte_of_char s n → drop n s ≡ []
unfolding len_bytes byte_of_char
drop_end [] zero h = refl
drop_end [] (suc n) h = refl
drop_end (c ∷ s) zero h = absurd (omega (arith, len_utf8_pos c))
drop_end (c ∷ s) (suc n) h = drop_end s n (omega arith)

-- `Path::join` of a relative name.
unfoldable pub path_join : Text → Text → Text
path_join [] name = name
path_join (c ∷ []) name = if c == b'/' then c ∷ name else c ∷ b'/' ∷ name
path_join (c ∷ d ∷ dir) name = c ∷ path_join (d ∷ dir) name

-- A path as `{:?}` prints it; characters that cannot be printed stand as they are.
abbrev debug_char : ℕ → Text
debug_char c =
    if c == b'"' || c == b'\\'
    then b'\\' ∷ c ∷ []
    else if c == 0x0a
    then codes "\\n"
    else if c == 0x0d
    then codes "\\r"
    else if c == 0x09
    then codes "\\t"
    else if c == 0
    then codes "\\0"
    else c ∷ []

unfoldable pub debug_chars : Text → Text
debug_chars [] = []
debug_chars (c ∷ s) = debug_char c ++ debug_chars s

abbrev pub debug_path : Text → Text
debug_path path = b'"' ∷ (debug_chars path ++ b'"' ∷ [])
