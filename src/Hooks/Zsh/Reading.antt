-- ===== src/Hooks/Zsh/Reading.antt =====
-- The zsh hook's reading of what src/ipc/client.rs prints.
use tabra.Prelude.{
  ℕ, suc, ◌≡◌, refl, ap, sym, ◌∙◌, true, false, List, [], ◌∷◌, ◌++◌, map, Option, none, some, Text,
  arith, inl, inr, Bool-cases, ◌==◌, is_empty, All, decimal, decimal-IsDigit, length,
}
use mathlib.Core.List.{append_assoc, append-nil}
use tabra.Protocol.{CompletionItem, completions}
use tabra.Client.{sanitize, item_lines, popup_part, print_shell}
use tabra.Client.Reading.{
  Without, until-append, sanitize-tab, sanitize-feed, digits-Without, line-append,
}
use tabra.Hooks.{Hook, substituted, split_blank_line, is_set, or_empty}
use tabra.Hooks.Texts.{
  IsLine, unlines, joined, unlines-joined, substituted-lines, behind, split-joined, split_on-joined,
  nil_of_is_empty, number-decimal, is_set-decimal,
}
use tabra.Hooks.Zsh.{
  behind_tab, fields, add_item, add_items, parse_lines, no_items, parse_response, fetch_and_render,
  take_response, show_items,
}

-- An item's line, without its line feed.
abbrev pub line_of : CompletionItem → Text
line_of i = sanitize i.display ++ 0x09 ∷ (sanitize i.insert ++ 0x09 ∷ sanitize i.description)

behind_tab-append : (s t : Text) → Without 0x09 s → behind_tab (s ++ 0x09 ∷ t) ≡ some t
unfolding behind_tab
behind_tab-append [] t w = refl
behind_tab-append (c ∷ s) t w = rw (w.0) (behind_tab-append s t w.1)

abbrev fields_of : CompletionItem → Text × (Text × Text)
fields_of i = (sanitize i.display, (sanitize i.insert, sanitize i.description))

fields-line_of : (i : CompletionItem) → fields (line_of i) ≡ fields_of i
unfolding fields
fields-line_of i =
    let d = sanitize-tab i.display in
    let n = sanitize-tab i.insert in
    let rest = sanitize i.insert ++ 0x09 ∷ sanitize i.description in
    rw
      (
        behind_tab-append (sanitize i.display) rest d,
        behind_tab-append (sanitize i.insert) (sanitize i.description) n,
        until-append 0x09 (sanitize i.display) rest d,
        until-append 0x09 (sanitize i.insert) (sanitize i.description) n,
      )
      refl

Without-append : (c : ℕ) (s t : Text) → Without c s → Without c t → Without c (s ++ t)
Without-append c [] t h k = k
Without-append c (x ∷ s) t h k = (h.0, Without-append c s t h.1 k)

is_set_inner : (s : Text) (c : ℕ) (t : Text) → is_set (s ++ c ∷ t) ≡ true
is_set_inner [] c t = refl
is_set_inner (x ∷ s) c t = refl

pub line_of-IsLine : (i : CompletionItem) → IsLine (line_of i)
line_of-IsLine i = (
  Without-append 0x0a (sanitize i.display) _ (sanitize-feed i.display) (
    refl,
    Without-append 0x0a (sanitize i.insert) _ (sanitize-feed i.insert)
        (refl, sanitize-feed i.description),
  ),
  is_set_inner (sanitize i.display) 0x09 _,
)

lines_of-IsLine : (is : List CompletionItem) → All IsLine (map line_of is)
lines_of-IsLine [] = tt
lines_of-IsLine (i ∷ is) = (line_of-IsLine i, lines_of-IsLine is)

pub decimal-IsLine : (n : ℕ) → IsLine (decimal n)
decimal-IsLine n = (digits-Without (decimal n) (decimal-IsDigit n), is_set-decimal n)

item_lines-unlines : (is : List CompletionItem) → item_lines is ≡ unlines (map line_of is)
unfolding item_lines
item_lines-unlines [] = refl
item_lines-unlines (i ∷ is) =
    line-append i (item_lines is)
    ∙ ap
        (λ u.
          sanitize i.display ++ 9 ∷ (sanitize i.insert ++ 9 ∷ (sanitize i.description ++ 10 ∷ u)))
        (item_lines-unlines is)
    ∙ ap (λ u. sanitize i.display ++ 9 ∷ u)
        (sym (append_assoc (sanitize i.insert) (9 ∷ sanitize i.description) _))
    ∙ sym (append_assoc (sanitize i.display) _ _)

-- What is printed, as lines with a text behind them.
abbrev pub joined_of : List CompletionItem → Text
joined_of is = joined (decimal (length is)) (map line_of is)

pub print_shell-joined :
    (is : List CompletionItem) (selected : ℕ) (query : Text) (popup : Option Text)
    → print_shell true (completions is selected query popup)
      ≡ joined_of is ++ 0x0a ∷ popup_part true popup
unfolding print_shell
print_shell-joined is selected query popup =
    ap (λ u. decimal (length is) ++ 0x0a ∷ (u ++ popup_part true popup)) (item_lines-unlines is)
    ∙ sym (append_assoc (decimal (length is)) (0x0a ∷ unlines (map line_of is)) _)
    ∙ ap (λ u. u ++ popup_part true popup) (unlines-joined (decimal (length is)) (map line_of is))
    ∙ append_assoc (joined_of is) (0x0a ∷ []) _

-- The popup that the shell gets: without the line feeds at its end.
abbrev pub popup_of : Option Text → Text
popup_of popup = substituted (or_empty popup)

-- The first half is the items' lines, the second the popup.
abbrev pub Halves : Text → Text → Text × Option Text → Type 0
Halves before after r = (r.0 ≡ before) × (or_empty r.1 ≡ after)

popup_Halves :
    (popup : Option Text)
    → Halves [] (popup_of popup) (split_blank_line (substituted (0x0a ∷ popup_part true popup)))
unfolding substituted split_blank_line
popup_Halves none = (refl, refl)
popup_Halves (some p) = elim (Bool-cases (is_empty (substituted p))) [
  | inl e ↦ rw e (refl, sym (nil_of_is_empty (substituted p) e))
  | inr e ↦ rw e (refl, refl)
]

behind-Halves :
    (s after : Text) (r : Text × Option Text) → Halves [] after r → Halves s after (behind s r)
behind-Halves s after (b, a) h = (ap (λ u. s ++ u) h.0 ∙ append-nil s, h.1)

split-Halves :
    (is : List CompletionItem) (popup : Option Text)
    → Halves
        (joined_of is)
        (popup_of popup)
        (split_blank_line (substituted (joined_of is ++ 0x0a ∷ popup_part true popup)))
split-Halves is popup =
    let l = decimal-IsLine (length is) in
    let ls = lines_of-IsLine is in
    let t = 0x0a ∷ popup_part true popup in
    rw
      (
        substituted-lines (decimal (length is)) (map line_of is) t l ls,
        split-joined (decimal (length is)) (map line_of is) (substituted t) l ls,
      )
      (behind-Halves (joined_of is) (popup_of popup) (split_blank_line (substituted t))
        (popup_Halves popup))

-- The variables that the items fill.
abbrev pub filled : List CompletionItem → Hook → Hook
filled is h = record h {
  displays = h.displays ++ map (λ i. sanitize i.display) is;
  inserts = h.inserts ++ map (λ i. sanitize i.insert) is;
  descs = h.descs ++ map (λ i. sanitize i.description) is;
}

add_items-filled :
    (is : List CompletionItem) (h : Hook) → add_items (length is) (map line_of is) h ≡ filled is h
unfolding add_items
add_items-filled [] h = rw (append-nil h.displays, append-nil h.inserts, append-nil h.descs) refl
add_items-filled (i ∷ is) h =
    ap (λ f. add_items (length is) (map line_of is) (add_item f h)) (fields-line_of i)
    ∙ add_items-filled is (add_item (fields_of i) h)
    ∙ rw
        (
          append_assoc h.displays (sanitize i.display ∷ []) (map (λ k. sanitize k.display) is),
          append_assoc h.inserts (sanitize i.insert ∷ []) (map (λ k. sanitize k.insert) is),
          append_assoc h.descs (sanitize i.description ∷ []) (map (λ k. sanitize k.description) is),
        )
        refl

-- The variables when the items are parsed.
abbrev pub items_of : List CompletionItem → Hook → Hook
items_of is h = record h {
  displays = map (λ i. sanitize i.display) is;
  inserts = map (λ i. sanitize i.insert) is;
  descs = map (λ i. sanitize i.description) is;
  item_count = length is;
}

suc_nonzero : (n : ℕ) → (suc n == 0) ≡ false
suc_nonzero n = ground arith

parse_lines-items :
    (is : List CompletionItem) (h : Hook)
    → parse_lines (decimal (length is) ∷ map line_of is) (no_items h) ≡ items_of is h
unfolding add_items
parse_lines-items [] h = rw (number-decimal 0) refl
parse_lines-items (i ∷ is) h =
    rw (number-decimal (length (i ∷ is)), suc_nonzero (length is))
      (add_items-filled (i ∷ is) (record (no_items h) { item_count = length (i ∷ is) }))

parse_response-joined :
    (is : List CompletionItem) (h : Hook) → parse_response (joined_of is) h ≡ items_of is h
unfolding parse_response
parse_response-joined is h =
    ap (λ l. parse_lines l (no_items h))
      (split_on-joined (decimal (length is)) (map line_of is) (decimal-IsLine (length is))
        (lines_of-IsLine is))
    ∙ parse_lines-items is h

take-Halves :
    (is : List CompletionItem) (popup : Text) (r : Text × Option Text) (h : Hook)
    → Halves (joined_of is) popup r
    → take_response r h
      ≡ show_items (items_of is (record h { selected = 0; rendered_popup = popup }))
take-Halves is popup (b, a) h e =
    rw (e.0, e.1)
      (ap show_items (parse_response-joined is (record h { selected = 0; rendered_popup = popup })))

is_set-joined : (l : Text) (ls : List Text) → is_set l ≡ true → is_empty (joined l ls) ≡ false
unfolding joined
is_set-joined [] ls h = cc
is_set-joined (c ∷ l) [] h = refl
is_set-joined (c ∷ l) (m ∷ ls) h = refl

is_empty-append : (s t : Text) → is_empty s ≡ false → is_empty (s ++ t) ≡ false
is_empty-append [] t h = cc
is_empty-append (c ∷ s) t h = refl

-- What the client prints for a completion, the hook reads: it selects the first item, its arrays
-- are the items' displays, inserts and descriptions with blanks for tabs and line breaks, their
-- number is `item_count`, the popup is the daemon's without the line feeds at its end, and it goes
-- on to show them, whatever characters the items hold.
pub fetch_and_render-print_shell :
    (is : List CompletionItem) (selected : ℕ) (query : Text) (popup : Option Text) (h : Hook)
    → fetch_and_render (print_shell true (completions is selected query popup)) h
      ≡ show_items (items_of is (record h { selected = 0; rendered_popup = popup_of popup }))
unfolding fetch_and_render
fetch_and_render-print_shell is selected query popup h =
    let t = 0x0a ∷ popup_part true popup in
    let e =
      substituted-lines (decimal (length is)) (map line_of is) t (decimal-IsLine (length is))
        (lines_of-IsLine is) in
    let s =
      is_empty-append (joined_of is) (substituted t)
        (is_set-joined (decimal (length is)) (map line_of is) (is_set-decimal (length is))) in
    rw (print_shell-joined is selected query popup) (
      rw (ap is_empty e ∙ s) (
        take-Halves is (popup_of popup) (split_blank_line (substituted (joined_of is ++ t))) h
          (split-Halves is popup)))
