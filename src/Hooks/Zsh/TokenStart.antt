-- ===== src/Hooks/Zsh/TokenStart.antt =====
-- The forward walk of the zsh hook against that of src/session/popup.rs and the tokenizer.
use tabra.Prelude.{
  ℕ, zero, suc, ◌+◌, ◌≡◌, ◌≤◌, refl, ap, sym, subst, ◌∙◌, ◌⊎◌, Bool, not, ◌&&◌, [], ◌∷◌, ◌++◌, Text,
  arith, len_utf8, len_bytes, len_utf8_pos, inl, inr, Bool-cases, length, take, take_all,
  length-append,
}
use mathlib.Core.List.{append_assoc, append-nil}
use tabra.Lexer.{is_blank}
use tabra.Popup.{Scan, scan_initial, scan_char, scan}
use tabra.Popup.Scanning.{len_bytes-append, len_bytes_one}
use tabra.Popup.TokenStart.{StartsAt, scan-StartsAt}
use tabra.Hooks.Zsh.{Walk, walk_initial, walk_char, walk, token_start}

-- The popup's scan and the hook's walk have read the same text: the same modes, and the byte
-- offset of the one is that of the character index of the other.
record Same (s : Scan) (w : Walk) (read : Text) : Type 0 where
  sq : s.in_sq ≡ w.in_sq
  dq : s.in_dq ≡ w.in_dq
  esc : s.escape_next ≡ w.escape_next
  offset : s.offset ≡ len_bytes read
  index : w.i ≡ length read
  inside : w.last_boundary ≤ length read
  boundary : s.last_boundary ≡ len_bytes (take w.last_boundary read)

take_before : (k : ℕ) (s t : Text) → k ≤ length s → take k (s ++ t) ≡ take k s
take_before zero s t h = refl
take_before (suc k) [] t h = absurd (omega arith)
take_before (suc k) (c ∷ s) t h = rw (take_before k s t (omega arith)) refl

-- A blank outside quotes and not behind a backslash.
abbrev cuts : Walk → ℕ → Bool
cuts w ch = not w.escape_next && (is_blank ch && (not w.in_sq && not w.in_dq))

module _ (s : Scan) (w : Walk) (ch : ℕ) where
  modes :
      s.in_sq ≡ w.in_sq
      → s.in_dq ≡ w.in_dq
      → s.escape_next ≡ w.escape_next
      → ((scan_char s ch).in_sq ≡ (walk_char w ch).in_sq)
        × ((scan_char s ch).in_dq ≡ (walk_char w ch).in_dq)
        × ((scan_char s ch).escape_next ≡ (walk_char w ch).escape_next)
  unfolding scan_char walk_char
  modes a b c = (ground arith, ground arith, ground arith)

  boundaries :
      s.in_sq ≡ w.in_sq
      → s.in_dq ≡ w.in_dq
      → s.escape_next ≡ w.escape_next
      → (((scan_char s ch).last_boundary ≡ s.offset + len_utf8 ch)
          × ((walk_char w ch).last_boundary ≡ w.i + 1))
        ⊎ (((scan_char s ch).last_boundary ≡ s.last_boundary)
            × ((walk_char w ch).last_boundary ≡ w.last_boundary))
  unfolding scan_char walk_char
  boundaries a b c = elim (Bool-cases (cuts w ch)) [
    | inl e ↦ inl (ground arith, ground arith)
    | inr e ↦ inr (ground arith, ground arith)
  ]

  Same-step :
      (read : Text)
      → Same s w read
      → Same
          (record (scan_char s ch) { offset = s.offset + len_utf8 ch })
          (record (walk_char w ch) { i = w.i + 1 })
          (read ++ ch ∷ [])
  Same-step read r =
      let m = modes r.sq r.dq r.esc in
      let bytes = len_bytes-append read (ch ∷ []) in
      let count = length-append read (ch ∷ []) in
      let off : s.offset + len_utf8 ch ≡ len_bytes (read ++ ch ∷ []) =
        omega (arith, r.offset, bytes, len_bytes_one ch) in
      elim (boundaries r.sq r.dq r.esc) [
        | inl e ↦ record {
          sq = m.0;
          dq = m.1;
          esc = m.2;
          offset = off;
          index = omega (arith, r.index, count);
          inside = omega (arith, e.1, r.index, count);
          boundary =
              e.0
              ∙ off
              ∙ ap len_bytes
                  (sym (take_all _ (read ++ ch ∷ []) (omega (arith, e.1, r.index, count))));
        }
        | inr e ↦ record {
          sq = m.0;
          dq = m.1;
          esc = m.2;
          offset = off;
          index = omega (arith, r.index, count);
          inside = omega (arith, e.1, r.inside, count);
          boundary =
              e.0
              ∙ r.boundary
              ∙ ap len_bytes (
                  sym (take_before w.last_boundary read (ch ∷ []) r.inside)
                  ∙ ap (λ k. take k (read ++ ch ∷ [])) (sym e.1));
        }
      ]

Same-walk :
    (s : Scan) (w : Walk) (read rest : Text)
    → Same s w read
    → Same (scan s rest) (walk w rest) (read ++ rest)
unfolding scan walk
Same-walk s w read [] r = rw append-nil r
Same-walk s w read (ch ∷ rest) r = subst (Same _ _) (append_assoc read (ch ∷ []) rest) (
    Same-walk (record (scan_char s ch) { offset = s.offset + len_utf8 ch })
      (record (walk_char w ch) { i = w.i + 1 }) (read ++ ch ∷ []) rest (Same-step s w ch read r))

Same-initial : Same scan_initial walk_initial []
unfolding len_bytes
Same-initial = ground arith

-- The popup's byte offset is that of the hook's character index.
pub token_start-scan :
    (before : Text)
    → (scan scan_initial before).last_boundary ≡ len_bytes (take (token_start before) before)
token_start-scan before = (Same-walk scan_initial walk_initial [] before Same-initial).boundary

-- A beginning of a text is known by its length in bytes.
take_of_len_bytes :
    (k : ℕ) (pre suf : Text)
    → len_bytes (take k (pre ++ suf)) ≡ len_bytes pre
    → k ≤ length (pre ++ suf)
    → k ≡ length pre
unfolding len_bytes
take_of_len_bytes zero [] suf h l = refl
take_of_len_bytes zero (c ∷ pre) suf h l = absurd (omega (arith, len_utf8_pos c))
take_of_len_bytes (suc k) [] [] h l = absurd (omega arith)
take_of_len_bytes (suc k) [] (c ∷ suf) h l = absurd (omega (arith, len_utf8_pos c))
take_of_len_bytes (suc k) (c ∷ pre) suf h l =
    ap suc (take_of_len_bytes k pre suf (omega arith) (omega arith))

-- The token starts before the cursor.
pub token_start-le : (s : Text) → token_start s ≤ length s
token_start-le s = (Same-walk scan_initial walk_initial [] s Same-initial).inside

-- The text before the cursor, cut at the hook's token start: a word begins there for the tokenizer.
pub token_start-StartsAt :
    (before : Text)
    → (p : StartsAt before (scan scan_initial before).last_boundary) × (token_start before
        ≡ length p.pre)
token_start-StartsAt before =
    let p = scan-StartsAt before in
    (
      p,
      take_of_len_bytes (token_start before) p.pre p.suf
          (ap (λ t. len_bytes (take (token_start before) t)) (sym p.whole)
            ∙ sym (token_start-scan before)
            ∙ p.offset)
          (subst (λ t. token_start before ≤ length t) p.whole (token_start-le before)),
    )
