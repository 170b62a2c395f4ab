-- ===== src/Lexer.antt =====
-- `tokenize` of src/engine/parser.rs: the command line up to the cursor, cut into words.
pub mod Slice
pub mod Spelling
use tabra.Prelude.{
  ℕ, Bool, true, false, not, ◌&&◌, ◌||◌, List, [], ◌∷◌, ◌++◌, ◌==◌, if◌then◌else◌, Text, is_empty,
  last?, take, Option, none, some, split_at, byte_of_char,
}

-- The loop's variables.
pub record Lexer : Type 0 where
  pub tokens : List Text
  pub current : Text
  pub in_single_quote : Bool
  pub in_double_quote : Bool
  pub escape_next : Bool

abbrev pub initial : Lexer
initial = record {
  tokens = [];
  current = [];
  in_single_quote = false;
  in_double_quote = false;
  escape_next = false;
}

abbrev pub is_blank : ℕ → Bool
is_blank ch = ch == b' ' || ch == b'\t'

abbrev pub push : Lexer → ℕ → Lexer
push s ch = record s { current = s.current ++ ch ∷ [] }

-- `std::mem::take` of a word that is not empty.
abbrev pub flush : Lexer → Text → Lexer
flush s [] = s
flush s (c ∷ cs) = record s { tokens = s.tokens ++ (c ∷ cs) ∷ []; current = [] }

-- One character of the loop.
unfoldable pub step : Lexer → ℕ → Lexer
step s ch =
    if s.escape_next
    then record s { current = s.current ++ ch ∷ []; escape_next = false }
    else if ch == b'\\' && not s.in_single_quote
    then record s { escape_next = true }
    else if ch == 39 && not s.in_double_quote
    then record s { in_single_quote = not s.in_single_quote }
    else if ch == b'"' && not s.in_single_quote
    then record s { in_double_quote = not s.in_double_quote }
    else if is_blank ch && (not s.in_single_quote && not s.in_double_quote)
    then flush s s.current
    else push s ch

unfoldable pub run : Lexer → Text → Lexer
run s [] = s
run s (ch ∷ cs) = run (step s ch) cs

-- `relevant.ends_with(' ') || relevant.ends_with('\t')`.
unfoldable pub ends_blank : Text → Bool
ends_blank s = elim (last? s) [ none ↦ false | some c ↦ is_blank c ]

unfoldable pub finish : Bool → Lexer → List Text × Text
finish true s = ((flush s s.current).tokens, [])
finish false s = (s.tokens, s.current)

-- The byte offset of the source is that of the cursor's character, so the slice is its prefix.
unfoldable pub tokenize : Text → ℕ → List Text × Text
tokenize buffer cursor =
    let relevant = take cursor buffer in finish (ends_blank relevant) (run initial relevant)

-- `&buffer[..byte_cursor]`, with the character index turned into a byte offset; `none` is a panic.
unfoldable pub relevant : Text → ℕ → Option Text
relevant buffer cursor = elim (split_at buffer (byte_of_char buffer cursor)) [
  | none ↦ none
  | some (l, r) ↦ some l
]
