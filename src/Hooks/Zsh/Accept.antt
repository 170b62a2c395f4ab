-- ===== src/Hooks/Zsh/Accept.antt =====
-- Accepting a suggestion in the zsh hook.
use tabra.Prelude.{
  ℕ, ◌+◌, ◌≡◌, ◌<◌, refl, ap, sym, subst, ◌∙◌, true, false, List, [], ◌∷◌, ◌++◌, Text, arith,
  length, take, drop, replicate, take-length-append, take-append-drop,
}
use mathlib.Core.List.{append_assoc}
use tabra.Lexer
use tabra.Lexer.Spelling.{outside}
use tabra.Hooks.{Hook, Effect, rows_up, send_accept, element}
use tabra.Hooks.Zsh.{
  cleared_row, erase_popup, token_start, insert_text, insert_at, close_behind, accept,
}
use tabra.Hooks.Zsh.TokenStart.{token_start-StartsAt}

-- The line with the text in the place of the word before the cursor, against the tokenizer: it is
-- between words where the text is put, and what the text replaces is one word or nothing.
pub record Replaced (h : Hook) (text : Text) (t : Hook) : Type 0 where
  pub pre : Text
  pub word : Text
  pub whole : h.buffer ≡ pre ++ (word ++ drop h.cursor h.buffer)
  pub between :
      Lexer.run Lexer.initial pre
      ≡ outside (Lexer.run Lexer.initial (take h.cursor h.buffer)).tokens []
  pub one_word :
      Lexer.run (outside (Lexer.run Lexer.initial (take h.cursor h.buffer)).tokens []) word
      ≡ Lexer.run Lexer.initial (take h.cursor h.buffer)
  pub line : t.buffer ≡ pre ++ (text ++ 0x20 ∷ drop h.cursor h.buffer)
  pub position : t.cursor ≡ length pre + length text + 1

insert_at-Replaced :
    (h : Hook) (text : Text)
    → Replaced h text (insert_at (token_start (take h.cursor h.buffer)) text h)
insert_at-Replaced h text =
    let before = take h.cursor h.buffer in
    let after = drop h.cursor h.buffer in
    let (p, e) = token_start-StartsAt before in
    let whole : h.buffer ≡ p.pre ++ (p.suf ++ after) =
      sym (take-append-drop h.cursor h.buffer)
      ∙ ap (λ t. t ++ after) p.whole
      ∙ append_assoc p.pre p.suf after in
    record {
      pre = p.pre;
      word = p.suf;
      whole = whole;
      between = p.between;
      one_word = p.word;
      line =
          ap (λ t. t ++ (text ++ 0x20 ∷ after))
            (ap (λ k. take k h.buffer) e
              ∙ ap (take (length p.pre)) whole
              ∙ take-length-append p.pre (p.suf ++ after));
      position = ap (λ k. k + length text + 1) e;
    }

abbrev pub erasing : Hook → List Effect
erasing h = replicate (h.popup_lines + 2) cleared_row ++ rows_up (h.popup_lines + 2) ∷ []

closed_lem :
    (h t : Hook) (sent : List Effect) (text : Text)
    → t.popup_visible ≡ true
    → Replaced h text t
    → Replaced h text (close_behind (t, sent)).0
      × ((close_behind (t, sent)).0.popup_visible ≡ false)
      × ((close_behind (t, sent)).0.item_count ≡ 0)
      × ((close_behind (t, sent)).1 ≡ sent ++ erasing t)
unfolding erase_popup
closed_lem h t sent text v r = rw v (
  record {
    pre = r.pre;
    word = r.word;
    whole = r.whole;
    between = r.between;
    one_word = r.one_word;
    line = r.line;
    position = r.position;
  },
  refl,
  refl,
  refl,
)

pub accepting :
    (h : Hook) (text : Text)
    → h.popup_visible ≡ true
    → 0 < h.item_count
    → element h.inserts h.selected ≡ text
    → accept h ≡ close_behind (insert_text text h)
unfolding accept
accepting h text v n e = ground (arith, ap (λ t. close_behind (insert_text t h)) e)

-- With a visible popup whose selected item has a text, Tab puts the text and a blank in the place of
-- the word that the cursor is in, as the tokenizer cuts the line, quotes and backslashes included,
-- leaves the text behind the cursor, sets the cursor behind the blank, tells the daemon the text,
-- and then erases the popup and forgets the items.
pub accept-Replaced :
    (h : Hook) (c : ℕ) (s : Text)
    → h.popup_visible ≡ true
    → 0 < h.item_count
    → element h.inserts h.selected ≡ c ∷ s
    → Replaced h (c ∷ s) (accept h).0
      × ((accept h).0.popup_visible ≡ false)
      × ((accept h).0.item_count ≡ 0)
      × ((accept h).1 ≡ send_accept (c ∷ s) ∷ erasing h)
accept-Replaced h c s v n e =
    subst
      (λ r.
        Replaced h (c ∷ s) r.0
        × (r.0.popup_visible ≡ false)
        × (r.0.item_count ≡ 0)
        × (r.1 ≡ send_accept (c ∷ s) ∷ erasing h))
      (sym (accepting h (c ∷ s) v n e))
      (closed_lem h (insert_at (token_start (take h.cursor h.buffer)) (c ∷ s) h)
        (send_accept (c ∷ s) ∷ []) (c ∷ s) v (insert_at-Replaced h (c ∷ s)))
