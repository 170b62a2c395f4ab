-- ===== src/Hooks/Bash.antt =====
-- The bash hook: the functions of the script in src/shell/bash_hook.rs. The line is READLINE_LINE
-- and the cursor READLINE_POINT; the formats of the rows are those of the zsh hook.
pub mod Events
pub mod Same
pub mod Widgets
use tabra.Prelude.{
  ℕ, zero, suc, ◌+◌, ◌-◌, ◌%◌, ◌<◌, min, Bool, true, false, not, ◌&&◌, ◌||◌, List, [], ◌∷◌, ◌++◌,
  Option, none, some, Text, if◌then◌else◌, ◌==◌, ltb, is_empty, length, take, drop, replicate,
  codes,
}
use tabra.Client.Reading.{until}
use tabra.Hooks.{
  Hook, Effect, print, rows_up, send_accept, send_dismiss, substituted, split_blank_line, split_on,
  number, element, is_set, or_empty,
}
use tabra.Hooks.Zsh.{Walk, walk_initial, row, behind_tab, rest_of}

abbrev pub cleared_row : Effect
cleared_row = print (0x0a ∷ 0x0d ∷ 0x1b ∷ codes "[2K")

unfoldable pub erase_popup : Hook → Hook × List Effect
erase_popup h =
    if h.popup_visible
    then (
      record h { popup_visible = false; popup_lines = 0 },
      replicate (h.popup_lines + 2) cleared_row ++ rows_up (h.popup_lines + 2) ∷ [],
    )
    else (h, [])

-- The three fields of a line.
unfoldable pub fields : Text → Text × (Text × Text)
fields line =
    let rest = rest_of line (behind_tab line) in
    ((until 0x09 line).0, ((until 0x09 rest).0, or_empty (behind_tab rest)))

abbrev pub add_item : Text × (Text × Text) → Hook → Hook
add_item (display, (insert, desc)) h = record h {
  displays = h.displays ++ display ∷ [];
  inserts = h.inserts ++ insert ∷ [];
  descs = h.descs ++ desc ∷ [];
}

-- The loop from index `i` of the array of all the lines, while there is a line and `i` is not past
-- the count; `n` is the number of rounds left.
unfoldable pub add_items : ℕ → List Text → Hook → Hook
add_items zero lines h = h
add_items (suc n) [] h = h
add_items (suc n) (line ∷ lines) h = add_items n lines (add_item (fields line) h)

-- `lines[0]`, and the lines from `lines[1]`.
abbrev pub parse_lines : List Text → Hook → Hook
parse_lines [] h = h
parse_lines (first ∷ lines) h =
    if number first == 0
    then record h { item_count = 0 }
    else add_items (number first) lines (record h { item_count = number first })

abbrev pub no_items : Hook → Hook
no_items h = record h { displays = []; inserts = []; descs = []; item_count = 0 }

unfoldable pub parse_response : Text → Hook → Hook
parse_response s h = parse_lines (split_on 0x0a s) (no_items h)

-- The rows from `i`, `n` of them.
unfoldable pub rows : Hook → ℕ → ℕ → List Effect
rows h i zero = []
rows h i (suc n) =
    print (row (i == h.selected) (element h.displays i) (element h.descs i)) ∷ rows h (i + 1) n

unfoldable pub draw : Hook → ℕ → List Effect
draw h visible =
    if is_set h.rendered_popup && h.selected == 0
    then print h.rendered_popup ∷ []
    else print (0x0a ∷ []) ∷ (rows h 0 visible ++ rows_up (visible + 1) ∷ [])

abbrev pub shown : Hook → Hook
shown h = record h { popup_visible = true; popup_lines = min h.item_count 10 }

unfoldable pub render_popup : Hook → Hook × List Effect
render_popup h =
    let e = (erase_popup h).0 in
    if e.item_count == 0
    then erase_popup h
    else (shown e, (erase_popup h).1 ++ draw (shown e) (min e.item_count 10))

-- The end of `fetch_and_render`, behind the parsing.
unfoldable pub show_items : Hook → Hook × List Effect
show_items h = if h.item_count == 0 then erase_popup h else render_popup h

-- `_TABRA_ITEM_COUNT=0` behind `_tabra_erase_popup`, and `_TABRA_RENDERED_POPUP=""` too.
abbrev pub closed : Hook × List Effect → Hook × List Effect
closed (e, out) = (record e { item_count = 0 }, out)

abbrev pub forgotten : Hook × List Effect → Hook × List Effect
forgotten (e, out) = (record e { item_count = 0; rendered_popup = [] }, out)

abbrev pub take_response : Text × Option Text → Hook → Hook × List Effect
take_response (items_section, popup) h =
    show_items
      (parse_response items_section (record h { selected = 0; rendered_popup = or_empty popup }))

-- With what `tabra complete-shell` printed.
unfoldable pub fetch_and_render : Text → Hook → Hook × List Effect
fetch_and_render output h =
    if is_empty (substituted output)
    then forgotten (erase_popup h)
    else take_response (split_blank_line (substituted output)) h

-- The forward walk in `accept`, with `pos` for the variable `i` of the zsh hook.
unfoldable pub walk_char : Walk → ℕ → Walk
walk_char w ch =
    if w.escape_next
    then record w { escape_next = false }
    else if ch == b'\\' && not w.in_sq
    then record w { escape_next = true }
    else if ch == 39 && not w.in_dq
    then record w { in_sq = not w.in_sq }
    else if ch == b'"' && not w.in_sq
    then record w { in_dq = not w.in_dq }
    else if (ch == 0x20 || ch == 0x09) && (not w.in_sq && not w.in_dq)
    then record w { last_boundary = w.i + 1 }
    else w

unfoldable pub walk : Walk → Text → Walk
walk w [] = w
walk w (ch ∷ s) = walk (record (walk_char w ch) { i = w.i + 1 }) s

abbrev pub token_start : Text → ℕ
token_start before_cursor = (walk walk_initial before_cursor).last_boundary

abbrev pub insert_at : ℕ → Text → Hook → Hook
insert_at start text h = record h {
  buffer = take start h.buffer ++ (text ++ 0x20 ∷ drop h.cursor h.buffer);
  cursor = start + length text + 1;
}

abbrev pub insert_text : Text → Hook → Hook × List Effect
insert_text [] h = (h, [])
insert_text (c ∷ s) h =
    (insert_at (token_start (take h.cursor h.buffer)) (c ∷ s) h, send_accept (c ∷ s) ∷ [])

-- The messages before, and then the erasing.
abbrev pub close_behind : Hook × List Effect → Hook × List Effect
close_behind (h, sent) = ((forgotten (erase_popup h)).0, sent ++ (erase_popup h).1)

-- The status, 0 or 1, that the function returns is not modelled: `bind -x` does not look at it.
unfoldable pub accept : Hook → Hook × List Effect
accept h =
    if h.popup_visible && ltb 0 h.item_count
    then close_behind (insert_text (element h.inserts h.selected) h)
    else (h, [])

-- `%` by a count of 0 is an error of the shell, which leaves the function.
unfoldable pub up : Hook → Hook × List Effect
up h =
    if h.popup_visible
    then if h.item_count == 0
      then (h, [])
      else render_popup (record h { selected = (h.selected + h.item_count - 1) % h.item_count })
    else (h, [])

unfoldable pub down : Hook → Hook × List Effect
down h =
    if h.popup_visible
    then if h.item_count == 0
      then (h, [])
      else render_popup (record h { selected = (h.selected + 1) % h.item_count })
    else (h, [])

unfoldable pub dismiss : Hook → Hook × List Effect
dismiss h =
    if h.popup_visible
    then ((forgotten (erase_popup h)).0, (erase_popup h).1 ++ send_dismiss ∷ [])
    else (h, [])

abbrev pub inserted : Text → Hook → Hook
inserted char h =
    if is_set char
    then record h {
      buffer = take h.cursor h.buffer ++ (char ++ drop h.cursor h.buffer);
      cursor = h.cursor + length char;
    }
    else h

unfoldable pub self_insert : Text → Text → Hook → Hook × List Effect
self_insert char output h = fetch_and_render output (inserted char h)

abbrev pub deleted : Hook → Hook
deleted h =
    if ltb 0 h.cursor
    then record h {
      buffer = take (h.cursor - 1) h.buffer ++ drop h.cursor h.buffer;
      cursor = h.cursor - 1;
    }
    else h

unfoldable pub backward_delete : Text → Hook → Hook × List Effect
backward_delete output h =
    if is_set (deleted h).buffer
    then fetch_and_render output (deleted h)
    else closed (erase_popup (deleted h))

-- `PROMPT_COMMAND`, before the next prompt.
unfoldable pub pre_prompt : Hook → Hook × List Effect
pre_prompt h = forgotten (erase_popup h)
