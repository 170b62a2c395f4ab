-- ===== src/Hooks/Bash/Same.antt =====
-- The parts of the bash hook that do what those of the zsh hook do.
use tabra.Prelude.{ℕ, zero, suc, ◌+◌, min, take, ◌≡◌, refl, ap, ◌∙◌, List, [], ◌∷◌, Option, Text}
use tabra.Hooks.{Hook, send_accept, split_blank_line, substituted, split_on, number}
use tabra.Hooks.Zsh
use tabra.Hooks.Zsh.{Walk, walk_initial}
use tabra.Hooks.Bash.{
  erase_popup, fields, add_item, add_items, parse_lines, no_items, parse_response, rows, draw,
  shown, render_popup, show_items, take_response, fetch_and_render, walk_char, walk, insert_text,
  insert_at,
}

pub erase_popup-zsh : (h : Hook) → erase_popup h ≡ Zsh.erase_popup h
unfolding erase_popup Zsh.erase_popup
erase_popup-zsh h = refl

add_items-zsh :
    (n : ℕ) (lines : List Text) (h : Hook) → add_items n lines h ≡ Zsh.add_items n lines h
unfolding add_items Zsh.add_items fields Zsh.fields
add_items-zsh zero lines h = refl
add_items-zsh (suc n) [] h = refl
add_items-zsh (suc n) (line ∷ lines) h = add_items-zsh n lines (add_item (fields line) h)

parse_lines-zsh : (lines : List Text) (h : Hook) → parse_lines lines h ≡ Zsh.parse_lines lines h
parse_lines-zsh [] h = refl
parse_lines-zsh (first ∷ lines) h =
    rw (add_items-zsh (number first) lines (record h { item_count = number first })) refl

parse_response-zsh : (s : Text) (h : Hook) → parse_response s h ≡ Zsh.parse_response s h
unfolding parse_response Zsh.parse_response
parse_response-zsh s h = parse_lines-zsh (split_on 0x0a s) (no_items h)

rows-zsh : (h : Hook) (i n : ℕ) → rows h i n ≡ Zsh.rows h i n
unfolding rows Zsh.rows
rows-zsh h i zero = refl
rows-zsh h i (suc n) = rw (rows-zsh h (i + 1) n) refl

draw-zsh : (h : Hook) (n : ℕ) → draw h n ≡ Zsh.draw h n
unfolding draw Zsh.draw
draw-zsh h n = rw (rows-zsh h 0 n) refl

pub render_popup-zsh : (h : Hook) → render_popup h ≡ Zsh.render_popup h
unfolding render_popup Zsh.render_popup
render_popup-zsh h =
    let e = (Zsh.erase_popup h).0 in
    rw (erase_popup-zsh h) (rw (draw-zsh (shown e) (min e.item_count 10)) refl)

show_items-zsh : (h : Hook) → show_items h ≡ Zsh.show_items h
unfolding show_items Zsh.show_items
show_items-zsh h = rw (erase_popup-zsh h, render_popup-zsh h) refl

take_response-zsh : (r : Text × Option Text) (h : Hook) → take_response r h ≡ Zsh.take_response r h
take_response-zsh (items_section, popup) h =
    ap show_items (parse_response-zsh items_section _) ∙ show_items-zsh _

-- Given the same output of the client, the two hooks fetch alike: the same variables afterwards, and
-- the same texts printed.
pub fetch_and_render-zsh :
    (output : Text) (h : Hook) → fetch_and_render output h ≡ Zsh.fetch_and_render output h
unfolding fetch_and_render Zsh.fetch_and_render
fetch_and_render-zsh output h =
    rw (erase_popup-zsh h, take_response-zsh (split_blank_line (substituted output)) h) refl

walk-zsh : (w : Walk) (s : Text) → walk w s ≡ Zsh.walk w s
unfolding walk Zsh.walk walk_char Zsh.walk_char
walk-zsh w [] = refl
walk-zsh w (ch ∷ s) = walk-zsh (record (walk_char w ch) { i = w.i + 1 }) s

pub insert_text-zsh : (text : Text) (h : Hook) → insert_text text h ≡ Zsh.insert_text text h
insert_text-zsh [] h = refl
insert_text-zsh (c ∷ s) h =
    ap (λ w. (insert_at w.last_boundary (c ∷ s) h, send_accept (c ∷ s) ∷ []))
      (walk-zsh walk_initial (take h.cursor h.buffer))
