-- ===== src/Hooks/Screen.antt =====
-- What the zsh hook keeps of the client's items and draws of them: `_tabra_erase_popup`,
-- `_tabra_parse_response` and `_tabra_render_popup` of src/shell/hook.rs.
use tabra.Prelude.{
  ℕ, zero, suc, ◌+◌, min, Bool, true, false, ◌&&◌, List, [], ◌∷◌, ◌++◌, Option, none, some, Text,
  if◌then◌else◌, ◌==◌, replicate, codes,
}
use tabra.Client.Reading.{until}
use tabra.Hooks.{Hook, Effect, print, rows_up, split_on, number, element, is_set, or_empty}

abbrev pub cleared_row : Effect
cleared_row = print (0x0a ∷ 0x0d ∷ 0x1b ∷ codes "[2K")

unfoldable pub erase_popup : Hook → Hook × List Effect
erase_popup h =
    if h.popup_visible
    then (
      record h { popup_visible = false; popup_lines = 0 },
      replicate (h.popup_lines + 2) cleared_row ++ rows_up (h.popup_lines + 2) ∷ [],
    )
    else (h, [])

-- `${s#*<tab>}`: the text itself where there is no tab.
unfoldable pub behind_tab : Text → Option Text
behind_tab [] = none
behind_tab (c ∷ s) = if c == 0x09 then some s else behind_tab s

abbrev pub rest_of : Text → Option Text → Text
rest_of line none = line
rest_of line (some rest) = rest

-- The three fields of a line.
unfoldable pub fields : Text → Text × (Text × Text)
fields line =
    let rest = rest_of line (behind_tab line) in
    ((until 0x09 line).0, ((until 0x09 rest).0, or_empty (behind_tab rest)))

abbrev pub add_item : Text × (Text × Text) → Hook → Hook
add_item (display, (insert, desc)) h = record h {
  displays = h.displays ++ display ∷ [];
  inserts = h.inserts ++ insert ∷ [];
  descs = h.descs ++ desc ∷ [];
}

-- The loop over the lines behind the first, as many as the count says and there are.
unfoldable pub add_items : ℕ → List Text → Hook → Hook
add_items zero lines h = h
add_items (suc n) [] h = h
add_items (suc n) (line ∷ lines) h = add_items n lines (add_item (fields line) h)

abbrev pub parse_lines : List Text → Hook → Hook
parse_lines [] h = h
parse_lines (first ∷ lines) h =
    if number first == 0
    then record h { item_count = 0 }
    else add_items (number first) lines (record h { item_count = number first })

abbrev pub no_items : Hook → Hook
no_items h = record h { displays = []; inserts = []; descs = []; item_count = 0 }

unfoldable pub parse_response : Text → Hook → Hook
parse_response s h = parse_lines (split_on 0x0a s) (no_items h)

-- The four formats of a row, `printf` with its arguments put in.
unfoldable pub row : Bool → Text → Text → Text
row chosen display desc =
    if chosen
    then if is_set desc
      then 0x0d
        ∷ 0x1b
        ∷ (codes "[7m "
            ++ (display
                ++ (codes "  "
                    ++ 0x1b
                      ∷ (codes "[2m"
                          ++ (desc
                              ++ 0x1b
                                ∷ (codes "[22m "
                                    ++ 0x1b
                                      ∷ (codes "[0m" ++ 0x1b ∷ (codes "[K" ++ 0x0a ∷ []))))))))
      else 0x0d
        ∷ 0x1b
        ∷ (codes "[7m "
            ++ (display ++ (codes " " ++ 0x1b ∷ (codes "[0m" ++ 0x1b ∷ (codes "[K" ++ 0x0a ∷ [])))))
    else if is_set desc
    then 0x0d
      ∷ (codes "  "
          ++ (display
              ++ (codes "  "
                  ++ 0x1b
                    ∷ (codes "[90m"
                        ++ (desc ++ 0x1b ∷ (codes "[0m" ++ 0x1b ∷ (codes "[K" ++ 0x0a ∷ [])))))))
    else 0x0d ∷ (codes "  " ++ (display ++ (codes " " ++ 0x1b ∷ (codes "[K" ++ 0x0a ∷ []))))

-- The rows from `i`, `n` of them.
unfoldable pub rows : Hook → ℕ → ℕ → List Effect
rows h i zero = []
rows h i (suc n) =
    print (row (i == h.selected) (element h.displays i) (element h.descs i)) ∷ rows h (i + 1) n

unfoldable pub draw : Hook → ℕ → List Effect
draw h visible =
    if is_set h.rendered_popup && h.selected == 0
    then print h.rendered_popup ∷ []
    else print (0x0a ∷ []) ∷ (rows h 0 visible ++ rows_up (visible + 1) ∷ [])

abbrev pub shown : Hook → Hook
shown h = record h { popup_visible = true; popup_lines = min h.item_count 10 }

unfoldable pub render_popup : Hook → Hook × List Effect
render_popup h =
    let (e, out) = erase_popup h in
    if e.item_count == 0 then (e, out) else (shown e, out ++ draw (shown e) (min e.item_count 10))
