-- ===== src/Popup/TokenStart.antt =====
-- `find_token_start` against the tokenizer of the parser.
use tabra.Prelude.{
  ℕ, min, ◌≡◌, ◌<◌, ap, ◌∙◌, [], ◌∷◌, ◌++◌, none, some, Text, arith, len_utf8, len_bytes, split_at,
  byte_of_char, take, drop, split_at-byte_of_char,
}
use tabra.Lexer
use tabra.Lexer.{Lexer, is_blank, flush}
use tabra.Lexer.Spelling.{outside}
use tabra.Popup.{scan_initial, scan, PopupState, find_token_start, before_cursor, boundary_of}
use tabra.Popup.Scanning.{Cut-scan, Cut-initial, byte_of_char-le}

-- The text before the cursor, cut where the last word begins, against the tokenizer's loop: it is
-- between words at the cut, with all the tokens of the text, and behind the cut it only reads the
-- word, to the state that it has at the cursor.
pub record StartsAt (before : Text) (start : ℕ) : Type 0 where
  pub pre : Text
  pub suf : Text
  pub whole : before ≡ pre ++ suf
  pub offset : start ≡ len_bytes pre
  pub between : Lexer.run Lexer.initial pre ≡ outside (Lexer.run Lexer.initial before).tokens []
  pub word :
      Lexer.run (outside (Lexer.run Lexer.initial before).tokens []) suf
      ≡ Lexer.run Lexer.initial before

pub scan-StartsAt : (before : Text) → StartsAt before (scan scan_initial before).last_boundary
scan-StartsAt before =
    let c = Cut-scan scan_initial Lexer.initial [] before Cut-initial in
    record {
      pre = c.pre;
      suf = c.suf;
      whole = c.whole;
      offset = c.agrees.boundary;
      between = c.agrees.between;
      word = c.agrees.word;
    }

-- Where the remembered cursor is the byte offset of the character at index `n`, the token start is
-- found, and it is where the tokenizer begins the word that the cursor is in, quotes and
-- backslashes included: the text before it gives all the tokens, the text behind it only the word.
pub find_token_start-StartsAt :
    {C : Type 0} (p : PopupState C) (n : ℕ)
    → p.last_cursor ≡ byte_of_char p.last_buffer n
    → (start : ℕ) × (find_token_start p ≡ some start) × StartsAt (take n p.last_buffer) start
unfolding find_token_start
find_token_start-StartsAt p n e =
    let b = p.last_buffer in
    let m : min p.last_cursor (len_bytes b) ≡ byte_of_char b n =
      omega (arith, e, byte_of_char-le b n) in
    let cut : before_cursor b p.last_cursor ≡ some (take n b, drop n b) =
      ap (split_at b) m ∙ split_at-byte_of_char b n in
    ((scan scan_initial (take n b)).last_boundary, ap boundary_of cut, scan-StartsAt (take n b))

wide_min : (c : ℕ) (rest : Text) → 1 < len_utf8 c → min 1 (len_bytes (c ∷ rest)) ≡ 1
unfolding len_bytes
wide_min c rest w = omega arith

wide_split : (c : ℕ) (rest : Text) → 1 < len_utf8 c → split_at (c ∷ rest) 1 ≡ none
unfolding split_at
wide_split c rest w = ground arith

-- A cursor that is a character index, as the session's tracker reports it, is read as a byte
-- offset: on a line that begins with a character of several bytes, with the cursor behind that
-- character, finding the token start panics.
pub find_token_start_wide :
    {C : Type 0} (p : PopupState C) (c : ℕ) (rest : Text)
    → 1 < len_utf8 c
    → p.last_buffer ≡ c ∷ rest
    → p.last_cursor ≡ 1
    → find_token_start p ≡ none
unfolding find_token_start split_at
find_token_start_wide p c rest w b e =
    let m : min p.last_cursor (len_bytes p.last_buffer) ≡ 1 = rw (b, e) (wide_min c rest w) in
    ap boundary_of (ap (split_at p.last_buffer) m ∙ ap (λ t. split_at t 1) b ∙ wide_split c rest w)
