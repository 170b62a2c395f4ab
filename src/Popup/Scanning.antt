-- ===== src/Popup/Scanning.antt =====
-- The walk of `find_token_start` and the loop of the tokenizer, side by side.
use tabra.Prelude.{
  ℕ, zero, suc, ◌+◌, ◌≡◌, ◌≤◌, refl, sym, ap, subst, ◌∙◌, Bool, true, false, not, ◌&&◌, [], ◌∷◌,
  ◌++◌, Text, arith, len_utf8, len_bytes, byte_of_char, inl, inr, Bool-cases,
}
use mathlib.Core.List.{append_assoc, append-nil}
use tabra.Lexer
use tabra.Lexer.{Lexer, is_blank, flush}
use tabra.Lexer.Spelling.{outside, run-append}
use tabra.Popup.{Scan, scan_initial, scan_char, scan}

-- The scan has read `pre`, up to the boundary, and `suf`, and the lexer is in the same mode: at
-- the boundary it was between words, and all that it has read since belongs to one word.
pub record Agrees (s : Scan) (l : Lexer) (pre suf : Text) : Type 0 where
  pub boundary : s.last_boundary ≡ len_bytes pre
  pub offset : s.offset ≡ len_bytes (pre ++ suf)
  pub sq : s.in_sq ≡ l.in_single_quote
  pub dq : s.in_dq ≡ l.in_double_quote
  pub esc : s.escape_next ≡ l.escape_next
  pub between : Lexer.run Lexer.initial pre ≡ outside l.tokens []
  pub word : Lexer.run (outside l.tokens []) suf ≡ l

pub len_bytes-append : (a b : Text) → len_bytes (a ++ b) ≡ len_bytes a + len_bytes b
unfolding len_bytes
len_bytes-append [] b = omega arith
len_bytes-append (c ∷ a) b = omega (arith, len_bytes-append a b)

pub len_bytes_one : (c : ℕ) → len_bytes (c ∷ []) ≡ len_utf8 c
unfolding len_bytes
len_bytes_one c = omega arith

pub byte_of_char-le : (s : Text) (n : ℕ) → byte_of_char s n ≤ len_bytes s
unfolding byte_of_char len_bytes
byte_of_char-le [] n = omega arith
byte_of_char-le (c ∷ s) zero = omega arith
byte_of_char-le (c ∷ s) (suc n) = omega (arith, byte_of_char-le s n)

-- A blank outside quotes and not behind a backslash.
abbrev cuts : Lexer → ℕ → Bool
cuts l ch = not l.escape_next && (is_blank ch && (not l.in_single_quote && not l.in_double_quote))

flush_modes :
    (l : Lexer) (w : Text)
    → ((flush l w).in_single_quote ≡ l.in_single_quote)
      × ((flush l w).in_double_quote ≡ l.in_double_quote)
      × ((flush l w).escape_next ≡ l.escape_next)
flush_modes l [] = (refl, refl, refl)
flush_modes l (c ∷ w) = (refl, refl, refl)

flush_current : (l : Lexer) (w : Text) → l.current ≡ w → (flush l w).current ≡ []
flush_current l [] h = h
flush_current l (c ∷ w) h = refl

step_cut :
    (l : Lexer) (ch : ℕ) → cuts l ch ≡ true → Lexer.step l ch ≡ outside (Lexer.step l ch).tokens []
unfolding Lexer.step
step_cut l ch h = ground (arith, flush_modes l l.current, flush_current l l.current)

step_keep : (l : Lexer) (ch : ℕ) → cuts l ch ≡ false → (Lexer.step l ch).tokens ≡ l.tokens
unfolding Lexer.step
step_keep l ch h = ground arith

module _ (s : Scan) (l : Lexer) (sq : s.in_sq ≡ l.in_single_quote)
    (dq : s.in_dq ≡ l.in_double_quote) (esc : s.escape_next ≡ l.escape_next) (ch : ℕ) where
  scan_modes :
      ((scan_char s ch).in_sq ≡ (Lexer.step l ch).in_single_quote)
      × ((scan_char s ch).in_dq ≡ (Lexer.step l ch).in_double_quote)
      × ((scan_char s ch).escape_next ≡ (Lexer.step l ch).escape_next)
  unfolding scan_char Lexer.step
  scan_modes =
      let f = flush_modes l l.current in (ground (arith, f), ground (arith, f), ground (arith, f))

  scan_cut : cuts l ch ≡ true → (scan_char s ch).last_boundary ≡ s.offset + len_utf8 ch
  unfolding scan_char
  scan_cut h = ground arith

  scan_keep : cuts l ch ≡ false → (scan_char s ch).last_boundary ≡ s.last_boundary
  unfolding scan_char
  scan_keep h = ground arith

abbrev scan_step : Scan → ℕ → Scan
scan_step s ch = record (scan_char s ch) { offset = s.offset + len_utf8 ch }

run_one : (l : Lexer) (ch : ℕ) → Lexer.run l (ch ∷ []) ≡ Lexer.step l ch
unfolding Lexer.run
run_one l ch = refl

run_nil : (l : Lexer) → Lexer.run l [] ≡ l
unfolding Lexer.run
run_nil l = refl

-- Where a text is cut.
pub record Cut (s : Scan) (l : Lexer) (read : Text) : Type 0 where
  pub pre : Text
  pub suf : Text
  pub whole : read ≡ pre ++ suf
  pub agrees : Agrees s l pre suf

Cut-step :
    (s : Scan) (l : Lexer) (read : Text) (ch : ℕ)
    → Cut s l read
    → Cut (scan_step s ch) (Lexer.step l ch) (read ++ ch ∷ [])
Cut-step s l read ch c =
    let g = c.agrees in
    let m = scan_modes s l g.sq g.dq g.esc ch in
    let off : s.offset + len_utf8 ch ≡ len_bytes (read ++ ch ∷ []) =
      omega (
        arith,
        g.offset,
        ap len_bytes c.whole,
        len_bytes-append read (ch ∷ []),
        len_bytes_one ch,
      ) in
    let here : Lexer.run Lexer.initial read ≡ l =
      ap (Lexer.run Lexer.initial) c.whole
      ∙ run-append Lexer.initial c.pre c.suf
      ∙ ap (λ t. Lexer.run t c.suf) g.between
      ∙ g.word in
    elim (Bool-cases (cuts l ch)) [
      | inl e ↦ record {
        pre = read ++ ch ∷ [];
        suf = [];
        whole = sym (append-nil (read ++ ch ∷ []));
        agrees = record {
          boundary = scan_cut s l g.sq g.dq g.esc ch e ∙ off;
          offset = off ∙ ap len_bytes (sym (append-nil (read ++ ch ∷ [])));
          sq = m.0;
          dq = m.1;
          esc = m.2;
          between =
              run-append Lexer.initial read (ch ∷ [])
              ∙ ap (λ t. Lexer.run t (ch ∷ [])) here
              ∙ run_one l ch
              ∙ step_cut l ch e;
          word = run_nil _ ∙ sym (step_cut l ch e);
        };
      }
      | inr e ↦
          let whole : read ++ ch ∷ [] ≡ c.pre ++ (c.suf ++ ch ∷ []) =
            ap (λ t. t ++ ch ∷ []) c.whole ∙ append_assoc c.pre c.suf (ch ∷ []) in
          let kept = step_keep l ch e in
          record {
            pre = c.pre;
            suf = c.suf ++ ch ∷ [];
            whole = whole;
            agrees = record {
              boundary = scan_keep s l g.sq g.dq g.esc ch e ∙ g.boundary;
              offset = off ∙ ap len_bytes whole;
              sq = m.0;
              dq = m.1;
              esc = m.2;
              between = g.between ∙ ap (λ t. outside t []) (sym kept);
              word =
                  ap (λ t. Lexer.run (outside t []) (c.suf ++ ch ∷ [])) kept
                  ∙ run-append (outside l.tokens []) c.suf (ch ∷ [])
                  ∙ ap (λ t. Lexer.run t (ch ∷ [])) g.word
                  ∙ run_one l ch;
            };
          }
    ]

pub Cut-scan :
    (s : Scan) (l : Lexer) (read rest : Text)
    → Cut s l read
    → Cut (scan s rest) (Lexer.run l rest) (read ++ rest)
unfolding scan Lexer.run
Cut-scan s l read [] c = rw append-nil c
Cut-scan s l read (ch ∷ rest) c =
    subst (Cut _ _) (append_assoc read (ch ∷ []) rest)
      (Cut-scan (scan_step s ch) (Lexer.step l ch) (read ++ ch ∷ []) rest (Cut-step s l read ch c))

pub Cut-initial : Cut scan_initial Lexer.initial []
Cut-initial = record {
  pre = [];
  suf = [];
  whole = refl;
  agrees = record {
    boundary = unfold len_bytes in refl;
    offset = unfold len_bytes in refl;
    sq = refl;
    dq = refl;
    esc = refl;
    between = run_nil Lexer.initial;
    word = run_nil Lexer.initial;
  };
}
