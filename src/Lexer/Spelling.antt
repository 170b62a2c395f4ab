-- ===== src/Lexer/Spelling.antt =====
-- The ways to spell a word and a line, quotes and backslashes included, and that `tokenize` reads
-- them back.
use tabra.Prelude.{
  ℕ, ◌≡◌, ◌≢◌, refl, ap, ◌∙◌, Bool, true, false, not, ◌||◌, List, [], ◌∷◌, ◌++◌, Text, arith,
  length, take-length-append, ◌==◌,
}
use mathlib.Core.List.{append_assoc, append-nil}
use tabra.Lexer.{Lexer, initial, is_blank, step, run, finish, tokenize, ends_blank}

abbrev pub is_plain : ℕ → Bool
is_plain c = not (c == b'\\' || c == 39 || c == b'"' || is_blank c)

-- The text between two double quotes, and the characters that it stands for.
pub data InDouble : Text → Text → Type 0 where
  nil : InDouble [] []
  char :
      (c : ℕ) {w s : Text}
      → (c == b'"' || c == b'\\') ≡ false
      → InDouble w s
      → InDouble (c ∷ w) (c ∷ s)
  escaped : (c : ℕ) {w s : Text} → InDouble w s → InDouble (c ∷ w) (b'\\' ∷ c ∷ s)

pub data InSingle : Text → Type 0 where
  nil : InSingle []
  char : (c : ℕ) {w : Text} → (c == 39) ≡ false → InSingle w → InSingle (c ∷ w)

-- `Spells w s`: the text `s` is a way to write the word `w`.
pub data Spells : Text → Text → Type 0 where
  nil : Spells [] []
  plain : (c : ℕ) {w s : Text} → is_plain c ≡ true → Spells w s → Spells (c ∷ w) (c ∷ s)
  escaped : (c : ℕ) {w s : Text} → Spells w s → Spells (c ∷ w) (b'\\' ∷ c ∷ s)
  single : {q w s : Text} → InSingle q → Spells w s → Spells (q ++ w) (39 ∷ (q ++ 39 ∷ s))
  double : {q r w s : Text} → InDouble q r → Spells w s → Spells (q ++ w) (b'"' ∷ (r ++ b'"' ∷ s))

-- Words, each followed by a blank, with any blanks before and between.
pub data Line : List Text → Text → Type 0 where
  done : Line [] []
  blank : (c : ℕ) {ws : List Text} {s : Text} → is_blank c ≡ true → Line ws s → Line ws (c ∷ s)
  word :
      {w s : Text} {ws : List Text} {rest : Text} (c : ℕ)
      → w ≢ []
      → Spells w s
      → is_blank c ≡ true
      → Line ws rest
      → Line (w ∷ ws) (s ++ c ∷ rest)

pub run-append : (s : Lexer) (a b : Text) → run s (a ++ b) ≡ run (run s a) b
unfolding run
run-append s [] b = refl
run-append s (c ∷ a) b = run-append (step s c) a b

run-cons : (s : Lexer) (c : ℕ) (cs : Text) → run s (c ∷ cs) ≡ run (step s c) cs
unfolding run
run-cons s c cs = refl

-- Outside quotes, with words `ts` behind it and `w` being read.
abbrev pub outside : List Text → Text → Lexer
outside ts w = record initial { tokens = ts; current = w }

abbrev in_single : List Text → Text → Lexer
in_single ts w = record initial { tokens = ts; current = w; in_single_quote = true }

abbrev in_double : List Text → Text → Lexer
in_double ts w = record initial { tokens = ts; current = w; in_double_quote = true }

snoc : (w : Text) (c : ℕ) (v : Text) → (w ++ c ∷ []) ++ v ≡ w ++ c ∷ v
snoc w c v = append_assoc w (c ∷ []) v

run-InSingle :
    (ts : List Text) (v : Text) {q : Text}
    → InSingle q
    → run (in_single ts v) q ≡ in_single ts (v ++ q)
unfolding run step
run-InSingle ts v nil = rw append-nil
run-InSingle ts v (char c {w} h d) = ground (arith, run-InSingle ts (v ++ c ∷ []) d, snoc v c w)

run-InDouble :
    (ts : List Text) (v : Text) {q r : Text}
    → InDouble q r
    → run (in_double ts v) r ≡ in_double ts (v ++ q)
unfolding run step
run-InDouble ts v nil = rw append-nil
run-InDouble ts v (char c {w} h d) = ground (arith, run-InDouble ts (v ++ c ∷ []) d, snoc v c w)
run-InDouble ts v (escaped c {w} d) = ground (arith, run-InDouble ts (v ++ c ∷ []) d, snoc v c w)

open_single : (ts : List Text) (v : Text) → step (outside ts v) 39 ≡ in_single ts v
unfolding step
open_single ts v = refl

close_single : (ts : List Text) (v : Text) → step (in_single ts v) 39 ≡ outside ts v
unfolding step
close_single ts v = refl

open_double : (ts : List Text) (v : Text) → step (outside ts v) b'"' ≡ in_double ts v
unfolding step
open_double ts v = refl

close_double : (ts : List Text) (v : Text) → step (in_double ts v) b'"' ≡ outside ts v
unfolding step
close_double ts v = refl

step_plain :
    (ts : List Text) (v : Text) (c : ℕ)
    → is_plain c ≡ true
    → step (outside ts v) c ≡ outside ts (v ++ c ∷ [])
unfolding step
step_plain ts v c h = ground arith

step_escaped :
    (ts : List Text) (v : Text) (c : ℕ)
    → step (step (outside ts v) b'\\') c ≡ outside ts (v ++ c ∷ [])
unfolding step
step_escaped ts v c = refl

pub run-Spells :
    (ts : List Text) (v : Text) {w s : Text}
    → Spells w s
    → run (outside ts v) s ≡ outside ts (v ++ w)
run-Spells ts v nil = unfold run in rw append-nil
run-Spells ts v (plain c {w} h d) =
    rw (run-cons, step_plain ts v c h)
      (run-Spells ts (v ++ c ∷ []) d ∙ ap (outside ts) (snoc v c w))
run-Spells ts v (escaped c {w} d) =
    rw (run-cons, run-cons, step_escaped ts v c)
      (run-Spells ts (v ++ c ∷ []) d ∙ ap (outside ts) (snoc v c w))
run-Spells ts v (single {q} {w} {s} e d) = rw (
  run-cons,
  open_single ts v,
  run-append,
  run-InSingle ts v e,
  run-cons,
  close_single ts (v ++ q),
  run-Spells ts (v ++ q) d,
  append_assoc,
)
run-Spells ts v (double {q} {r} {w} {s} e d) = rw (
  run-cons,
  open_double ts v,
  run-append,
  run-InDouble ts v e,
  run-cons,
  close_double ts (v ++ q),
  run-Spells ts (v ++ q) d,
  append_assoc,
)

step_blank :
    (ts : List Text) (c : ℕ) (w : Text)
    → w ≢ []
    → is_blank c ≡ true
    → step (outside ts w) c ≡ outside (ts ++ w ∷ []) []
unfolding step
step_blank ts c [] h b = absurd (h refl)
step_blank ts c (x ∷ w) h b = ground arith

step_blank_nil :
    (ts : List Text) (c : ℕ) → is_blank c ≡ true → step (outside ts []) c ≡ outside ts []
unfolding step
step_blank_nil ts c b = ground arith

run-Line :
    (ts : List Text) {ws : List Text} {s : Text}
    → Line ws s
    → run (outside ts []) s ≡ outside (ts ++ ws) []
unfolding run
run-Line ts done = rw append-nil
run-Line ts (blank c h d) = rw (step_blank_nil ts c h) (run-Line ts d)
run-Line ts (word {w} {s} {ws} {rest} c n e h d) =
    rw (
      run-append,
      run-Spells ts [] e,
      step_blank ts c w n h,
      run-Line (ts ++ w ∷ []) d,
      append_assoc,
    )

finish_nil : (b : Bool) (ws : List Text) → finish b (outside ws []) ≡ (ws, [])
unfolding finish
finish_nil true ws = refl
finish_nil false ws = refl

ends_blank-append : (s : Text) (c : ℕ) (t : Text) → ends_blank (s ++ c ∷ t) ≡ ends_blank (c ∷ t)
unfolding ends_blank
ends_blank-append [] c t = refl
ends_blank-append (x ∷ []) c t = refl
ends_blank-append (x ∷ y ∷ s) c t = ends_blank-append (y ∷ s) c t

finish-Spells :
    (ws : List Text) (s : Text) {p t : Text}
    → Spells p t
    → ends_blank t ≡ false
    → finish (ends_blank (s ++ t)) (outside ws p) ≡ (ws, p)
unfolding finish
finish-Spells ws s {t = []} nil e = finish_nil _ ws
finish-Spells ws s {t = c ∷ t} d e = rw (ends_blank-append s c t, e)

-- A line of words that are not empty is read back: whatever the quotes and backslashes that they are
-- written with, the words that a blank follows are the tokens and the last one, which may be empty,
-- is the partial token, if the text before the cursor does not end in a blank that belongs to it.
-- (An empty word in quotes is not such a word: the loop drops it.)
pub tokenize-Line :
    {ws : List Text} {s : Text} {p t : Text} (after : Text)
    → Line ws s
    → Spells p t
    → ends_blank t ≡ false
    → tokenize ((s ++ t) ++ after) (length (s ++ t)) ≡ (ws, p)
unfolding tokenize
tokenize-Line {ws} {s} {p} {t} after l d e =
    rw (take-length-append (s ++ t) after, run-append, run-Line [] l, run-Spells ws [] d)
      (finish-Spells ws s d e)

-- A blank before the cursor always ends the word, also inside quotes and behind a backslash, where
-- the loop took it for a part of the word.
pub tokenize_partial_blank :
    (s : Text) (c : ℕ) (after : Text)
    → is_blank c ≡ true
    → (tokenize ((s ++ c ∷ []) ++ after) (length (s ++ c ∷ []))).1 ≡ []
unfolding tokenize
tokenize_partial_blank s c after h =
    rw (take-length-append (s ++ c ∷ []) after, ends_blank-append s c [])
      (unfold ends_blank finish in rw h)
