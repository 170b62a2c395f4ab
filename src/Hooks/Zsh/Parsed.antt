-- ===== src/Hooks/Zsh/Parsed.antt =====
-- What the zsh hook's parsing gives, from any text.
use tabra.Prelude.{
  ℕ, zero, suc, ◌+◌, ◌≤◌, ◌≡◌, refl, List, [], ◌∷◌, ◌++◌, Text, arith, inl, inr, Bool-cases, ◌==◌,
  length, length-append,
}
use tabra.Hooks.{Hook, number, split_on}
use tabra.Hooks.Zsh.{fields, add_item, add_items, parse_lines, no_items, parse_response}

-- The line, and the arrays that are filled together.
pub record Lined (h : Hook) : Type 0 where
  pub cursor_inside : h.cursor ≤ length h.buffer
  pub inserts_filled : length h.inserts ≡ length h.displays
  pub descs_filled : length h.descs ≡ length h.displays

length_one : (xs : List Text) (x : Text) → length (xs ++ x ∷ []) ≡ length xs + 1
length_one xs x = omega (arith, length-append xs (x ∷ []))

Lined-add_item : (h : Hook) (f : Text × (Text × Text)) → Lined h → Lined (add_item f h)
Lined-add_item h f l = ground (
  arith,
  length_one h.displays f.0,
  length_one h.inserts (f.1).0,
  length_one h.descs (f.1).1,
  l.inserts_filled,
  l.descs_filled,
)

Lined-add_items : (n : ℕ) (lines : List Text) (h : Hook) → Lined h → Lined (add_items n lines h)
unfolding add_items
Lined-add_items zero lines h l = l
Lined-add_items (suc n) [] h l = l
Lined-add_items (suc n) (line ∷ lines) h l =
    Lined-add_items n lines (add_item (fields line) h) (Lined-add_item h (fields line) l)

-- What the loop leaves as it is.
add_items_kept :
    (n : ℕ) (lines : List Text) (h : Hook)
    → ((add_items n lines h).selected ≡ h.selected)
      × ((add_items n lines h).item_count ≡ h.item_count)
      × (length (add_items n lines h).displays ≤ length h.displays + n)
unfolding add_items
add_items_kept zero lines h = (refl, refl, omega arith)
add_items_kept (suc n) [] h = (refl, refl, omega arith)
add_items_kept (suc n) (line ∷ lines) h =
    let ih = add_items_kept n lines (add_item (fields line) h) in
    (ih.0, ih.1, omega (arith, ih.2, length_one h.displays (fields line).0))

-- What parsing gives, from any text: the arrays are filled together, with no more than the count.
pub record Parsed (h : Hook) (p : Hook) : Type 0 where
  pub lined : Lined p
  pub visible : p.popup_visible ≡ h.popup_visible
  pub lines : p.popup_lines ≡ h.popup_lines
  pub selected : p.selected ≡ h.selected
  pub arrays : length p.displays ≤ p.item_count

add_items_popup :
    (n : ℕ) (lines : List Text) (h : Hook)
    → ((add_items n lines h).popup_visible ≡ h.popup_visible)
      × ((add_items n lines h).popup_lines ≡ h.popup_lines)
unfolding add_items
add_items_popup zero lines h = (refl, refl)
add_items_popup (suc n) [] h = (refl, refl)
add_items_popup (suc n) (line ∷ lines) h = add_items_popup n lines (add_item (fields line) h)

Lined-counted : (h : Hook) (n : ℕ) → Lined h → Lined (record h { item_count = n })
Lined-counted h n l = record {
  cursor_inside = l.cursor_inside;
  inserts_filled = l.inserts_filled;
  descs_filled = l.descs_filled;
}

parse_lines-Parsed :
    (lines : List Text) (h : Hook)
    → Lined h
    → length h.displays ≡ 0
    → Parsed h (parse_lines lines h)
parse_lines-Parsed [] h l e = record {
  lined = l;
  visible = refl;
  lines = refl;
  selected = refl;
  arrays = omega (arith, e);
}
parse_lines-Parsed (first ∷ lines) h l e = elim (Bool-cases (number first == 0)) [
  | inl z ↦ rw z record {
    lined = Lined-counted h 0 l;
    visible = refl;
    lines = refl;
    selected = refl;
    arrays = omega (arith, e);
  }
  | inr z ↦
      let n = number first in
      let kept = add_items_kept n lines (record h { item_count = n }) in
      let popup = add_items_popup n lines (record h { item_count = n }) in
      rw z record {
        lined = Lined-add_items n lines (record h { item_count = n }) (Lined-counted h n l);
        visible = popup.0;
        lines = popup.1;
        selected = kept.0;
        arrays = omega (arith, e, kept.1, kept.2);
      }
]

Lined-no_items : (h : Hook) → Lined h → Lined (no_items h)
Lined-no_items h l = record {
  cursor_inside = l.cursor_inside;
  inserts_filled = refl;
  descs_filled = refl;
}

pub parse_response-Parsed : (s : Text) (h : Hook) → Lined h → Parsed h (parse_response s h)
unfolding parse_response
parse_response-Parsed s h l =
    let p = parse_lines-Parsed (split_on 0x0a s) (no_items h) (Lined-no_items h l) refl in
    record {
      lined = p.lined;
      visible = p.visible;
      lines = p.lines;
      selected = p.selected;
      arrays = p.arrays;
    }
