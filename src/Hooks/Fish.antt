-- ===== src/Hooks/Fish.antt =====
-- The fish hook: the functions of the script in src/shell/fish_hook.rs. What the line editor
-- answers (`commandline`) is an argument: fish edits the line itself. The formats of the rows are
-- those of the zsh hook.
pub mod Reading
use tabra.Prelude.{
  ℕ, zero, suc, ◌+◌, ◌-◌, ◌%◌, ◌<◌, min, Bool, true, false, not, ◌&&◌, ◌||◌, List, [], ◌∷◌, ◌++◌,
  Option, none, some, Text, if◌then◌else◌, ◌==◌, ltb, is_empty, length, replicate, get_elem?, codes,
}
use tabra.Hooks.{
  Hook, Effect, print, rows_up, send_accept, send_dismiss, up_line_or_history, down_line_or_history,
  split_blank_line, split_on, number, element, is_set, or_empty,
}
use tabra.Hooks.Zsh.{row}

abbrev pub cleared_row : Effect
cleared_row = print (0x0a ∷ 0x0d ∷ 0x1b ∷ codes "[2K")

unfoldable pub erase_popup : Hook → Hook × List Effect
erase_popup h =
    if h.popup_visible
    then (
      record h { popup_visible = false; popup_lines = 0 },
      replicate (h.popup_lines + 2) cleared_row ++ rows_up (h.popup_lines + 2) ∷ [],
    )
    else (h, [])

-- `$parts[2]`, or `$parts[1]` where the line has no tab.
abbrev pub second_part : List Text → Text
second_part [] = []
second_part (p ∷ []) = p
second_part (p ∷ q ∷ ps) = q

-- The three fields of a line: `string split \t`.
unfoldable pub fields : Text → Text × (Text × Text)
fields line =
    let parts = split_on 0x09 line in (element parts 0, (second_part parts, element parts 2))

abbrev pub add_item : Text × (Text × Text) → Hook → Hook
add_item (display, (insert, desc)) h = record h {
  displays = h.displays ++ display ∷ [];
  inserts = h.inserts ++ insert ∷ [];
  descs = h.descs ++ desc ∷ [];
}

-- The loop over the lines behind the first, left by `break` behind as many as the count says; where
-- there is only one line, `seq 2 1` of GNU counts nothing.
unfoldable pub add_items : ℕ → List Text → Hook → Hook
add_items zero lines h = h
add_items (suc n) [] h = h
add_items (suc n) (line ∷ lines) h = add_items n lines (add_item (fields line) h)

abbrev pub parse_lines : List Text → Hook → Hook
parse_lines [] h = h
parse_lines (first ∷ lines) h =
    if number first == 0
    then record h { item_count = 0 }
    else add_items (number first) lines (record h { item_count = number first })

unfoldable pub parse_response : Text → Hook → Hook
parse_response s h =
    parse_lines (split_on 0x0a s)
      (record h { displays = []; inserts = []; descs = []; item_count = 0 })

-- The rows from `i`, `n` of them.
unfoldable pub rows : Hook → ℕ → ℕ → List Effect
rows h i zero = []
rows h i (suc n) =
    print (row (i == h.selected) (element h.displays i) (element h.descs i)) ∷ rows h (i + 1) n

unfoldable pub draw : Hook → ℕ → List Effect
draw h visible =
    if is_set h.rendered_popup && h.selected == 0
    then print h.rendered_popup ∷ []
    else print (0x0a ∷ []) ∷ (rows h 0 visible ++ rows_up (visible + 1) ∷ [])

abbrev pub shown : Hook → Hook
shown h = record h { popup_visible = true; popup_lines = min h.item_count 10 }

unfoldable pub render_popup : Hook → Hook × List Effect
render_popup h =
    let e = (erase_popup h).0 in
    if e.item_count == 0
    then erase_popup h
    else (shown e, (erase_popup h).1 ++ draw (shown e) (min e.item_count 10))

-- A command substitution: the lines of the output, a line feed at its end aside.
unfoldable pub without_feed : Text → Text
without_feed [] = []
without_feed (c ∷ []) = if c == 0x0a then [] else c ∷ []
without_feed (c ∷ d ∷ s) = c ∷ without_feed (d ∷ s)

unfoldable pub output_lines : Text → List Text
output_lines [] = []
output_lines (c ∷ s) = split_on 0x0a (without_feed (c ∷ s))

-- `test -z "$response"`: quotes join the elements of a list by blanks.
abbrev pub is_blank_list : List Text → Bool
is_blank_list [] = true
is_blank_list (l ∷ []) = not (is_set l)
is_blank_list (l ∷ m ∷ ls) = false

-- `string join \n` prints the elements with a line feed behind each, and the substitution takes the
-- lines apart again.
unfoldable pub string_join : List Text → Text
string_join [] = []
string_join (l ∷ ls) = l ++ 0x0a ∷ string_join ls

unfoldable pub joined : List Text → List Text
joined response = output_lines (string_join response)

unfoldable pub show_items : Hook → Hook × List Effect
show_items h = if h.item_count == 0 then erase_popup h else render_popup h

abbrev pub take_response : List Text → Hook → Hook × List Effect
take_response parts h =
    show_items (
      parse_response (element parts 0)
        (record h { selected = 0; rendered_popup = element parts 1 }))

abbrev pub forgotten : Hook × List Effect → Hook × List Effect
forgotten (e, out) = (record e { item_count = 0; rendered_popup = [] }, out)

abbrev pub closed : Hook × List Effect → Hook × List Effect
closed (e, out) = (record e { item_count = 0 }, out)

-- `string split \n\n -- $joined` splits each element for itself, and prints the parts with a line
-- feed behind each. No element holds a line feed, so the parts are the elements.
abbrev pub parts_of : List Text → List Text
parts_of lines = lines

-- With what `tabra complete-shell` printed.
unfoldable pub fetch_and_render : Text → Hook → Hook × List Effect
fetch_and_render output h =
    let response = output_lines output in
    if is_blank_list response
    then forgotten (erase_popup h)
    else take_response (parts_of (joined response)) h

-- `commandline --current-token -- "$insert_text "`: the text that is put in the place of the token
-- under the cursor, which fish itself finds.
abbrev pub replacement : Text → Option Text
replacement [] = none
replacement (c ∷ s) = some ((c ∷ s) ++ 0x20 ∷ [])

abbrev pub acknowledged : Text → List Effect
acknowledged [] = []
acknowledged (c ∷ s) = send_accept (c ∷ s) ∷ []

-- With what is put in the line, if anything is.
unfoldable pub accept : Hook → Hook × (Option Text × List Effect)
accept h =
    if h.popup_visible && ltb 0 h.item_count
    then (
      (closed (erase_popup h)).0,
      (
        replacement (element h.inserts h.selected),
        acknowledged (element h.inserts h.selected) ++ (erase_popup h).1,
      ),
    )
    else (h, (none, []))

-- `%` by a count of 0 is an error of `math`; a visible popup has items.
unfoldable pub up : Hook → Hook × List Effect
up h =
    if h.popup_visible
    then if h.item_count == 0
      then (h, [])
      else render_popup (record h { selected = (h.selected + h.item_count - 1) % h.item_count })
    else (h, up_line_or_history ∷ [])

unfoldable pub down : Hook → Hook × List Effect
down h =
    if h.popup_visible
    then if h.item_count == 0
      then (h, [])
      else render_popup (record h { selected = (h.selected + 1) % h.item_count })
    else (h, down_line_or_history ∷ [])

unfoldable pub dismiss : Hook → Hook × List Effect
dismiss h =
    if h.popup_visible
    then ((closed (erase_popup h)).0, (erase_popup h).1 ++ send_dismiss ∷ [])
    else (h, [])

-- Behind `commandline -f backward-delete-char`, with the line that `commandline` then gives.
unfoldable pub backward_delete : Text → Text → Hook → Hook × List Effect
backward_delete current_buffer output h =
    if is_set current_buffer then fetch_and_render output h else closed (erase_popup h)
