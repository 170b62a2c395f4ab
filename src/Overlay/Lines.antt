-- ===== src/Overlay/Lines.antt =====
-- The lines that the popup takes and that erasing it clears.
use tabra.Prelude.{
  sym, repeat_text, codes, ℕ, ◌+◌, ◌-◌, min, ◌≡◌, refl, ap, Bool, true, false, List, [], ◌∷◌, ◌++◌,
  Option, some, Text, ltb, ◌==◌, if◌then◌else◌, length, take, replicate, any, filter, arith,
  decimal, repeat_text, len_bytes, codes, Option-cases, inl, inr, All,
}
use tabra.Overlay.Feeds.{
  feeds, feeds-append, feeds-decimal, feeds-name_display, feeds-next_line, feeds-replicate,
  feeds-row_rest, feeds_char, feeds_icon, feeds_nil, feeds_constants, IsQuiet, IsSingleLine,
}
use tabra.Protocol.{CompletionItem}
use tabra.Overlay.{
  Ansi, Theme, next_line, hide_and_save, restore_and_show, write_colored, write_char,
  write_name_highlighted, write_row, write_rows, draw, erase_popup, count_str, name_display,
  row_rest, kind_icon_ascii, max_visible_items, shows_description, popup_width, render_popup,
}

module _ (a : Ansi) (quiet : IsQuiet a) where
  feeds-write_colored : (fg bg : a.Color) (s : Text) → feeds (write_colored a fg bg s) ≡ feeds s
  unfolding write_colored
  feeds-write_colored fg bg s = omega (
    arith,
    feeds-append (a.set_foreground fg)
        (a.set_background bg ++ (s ++ (a.set_foreground a.reset ++ a.set_background a.reset))),
    feeds-append (a.set_background bg)
        (s ++ (a.set_foreground a.reset ++ a.set_background a.reset)),
    feeds-append s (a.set_foreground a.reset ++ a.set_background a.reset),
    feeds-append (a.set_foreground a.reset) (a.set_background a.reset),
    quiet.foreground fg,
    quiet.background bg,
    quiet.foreground a.reset,
    quiet.background a.reset,
  )

  feeds-write_char :
      (theme : Theme a.Color) (bg : a.Color) (m : Bool) (ch : ℕ)
      → feeds (write_char a theme bg m ch) ≡ feeds (ch ∷ [])
  unfolding write_char
  feeds-write_char theme bg true ch = omega (
    arith,
    feeds-append (a.set_foreground theme.match_fg)
        (a.set_background bg ++ (a.bold ++ ch ∷ (a.reset_attribute ++ a.set_background a.reset))),
    feeds-append (a.set_background bg)
        (a.bold ++ ch ∷ (a.reset_attribute ++ a.set_background a.reset)),
    feeds-append a.bold (ch ∷ (a.reset_attribute ++ a.set_background a.reset)),
    feeds-append (ch ∷ []) (a.reset_attribute ++ a.set_background a.reset),
    feeds-append a.reset_attribute (a.set_background a.reset),
    quiet.foreground theme.match_fg,
    quiet.background bg,
    quiet.bold,
    quiet.attribute,
    quiet.background a.reset,
  )
  feeds-write_char theme bg false ch = omega (
    arith,
    feeds-append (a.set_foreground theme.text_fg) (a.set_background bg ++ ch ∷ []),
    feeds-append (a.set_background bg) (ch ∷ []),
    quiet.foreground theme.text_fg,
    quiet.background bg,
  )

  feeds-write_name :
      (i : ℕ) (name : Text) (idx : List ℕ) (theme : Theme a.Color) (bg : a.Color)
      → feeds (write_name_highlighted a i name idx theme bg) ≡ feeds name
  unfolding write_name_highlighted
  feeds-write_name i [] idx theme bg = refl
  feeds-write_name i (ch ∷ name) idx theme bg = omega (
    arith,
    feeds-append (write_char a theme bg (any (λ k. k == i) idx) ch)
        (write_name_highlighted a (i + 1) name idx theme bg),
    feeds-write_char theme bg (any (λ k. k == i) idx) ch,
    feeds-write_name (i + 1) name idx theme bg,
    feeds-append (ch ∷ []) name,
  )

  feeds-write_row :
      (theme : Theme a.Color) (width : ℕ) (sel : Bool) (item : CompletionItem)
      → IsSingleLine item
      → feeds (write_row a theme width sel item) ≡ 1
  unfolding write_row
  feeds-write_row theme width sel item l =
      let bg = if sel then theme.selected_bg else theme.popup_bg in
      let icon_color = if item.is_dangerous then theme.danger_fg else theme.kind_fg in
      let name = name_display width item in
      let clamped = filter (λ i. ltb i (length name)) item.match_indices in
      let icon = kind_icon_ascii item.kind ∷ b' ' ∷ [] in
      let fg = if shows_description width item then theme.desc_fg else theme.text_fg in
      let rest = write_colored a fg bg (row_rest width item) in
      let named = write_name_highlighted a 0 name clamped theme bg in
      omega (
        arith,
        feeds-append next_line (write_colored a icon_color bg icon ++ (named ++ rest)),
        feeds-append (write_colored a icon_color bg icon) (named ++ rest),
        feeds-append named rest,
        feeds-next_line,
        feeds-write_colored icon_color bg icon,
        feeds_icon item,
        feeds-write_name 0 name clamped theme bg,
        feeds-name_display width item l,
        feeds-write_colored fg bg (row_rest width item),
        feeds-row_rest width item l,
      )

  feeds-write_rows :
      (theme : Theme a.Color) (width selected i : ℕ) (items : List CompletionItem)
      → All IsSingleLine items
      → feeds (write_rows a theme width selected i items) ≡ length items
  unfolding write_rows
  feeds-write_rows theme width selected i [] l = feeds_nil
  feeds-write_rows theme width selected i (item ∷ items) l = omega (
    arith,
    feeds-append (write_row a theme width (i == selected) item)
        (write_rows a theme width selected (i + 1) items),
    feeds-write_row theme width (i == selected) item l.0,
    feeds-write_rows theme width selected (i + 1) items l.1,
  )

  feeds-count_str : (items : List CompletionItem) → feeds (count_str a items) ≡ 0
  unfolding count_str
  feeds-count_str items =
      let shown = decimal (min (length items) max_visible_items) in
      let total = decimal (length items) in
      ground (
        arith,
        feeds_nil,
        feeds_char b' ' (shown ++ b'/' ∷ (total ++ b' ' ∷ [])) refl,
        feeds-append shown (b'/' ∷ (total ++ b' ' ∷ [])),
        feeds_char b'/' (total ++ b' ' ∷ []) refl,
        feeds-append total (b' ' ∷ []),
        feeds_char b' ' [] refl,
        feeds-decimal (min (length items) max_visible_items),
        feeds-decimal (length items),
      )

  feeds-draw :
      (theme : Theme a.Color) (items : List CompletionItem) (selected width : ℕ)
      → All IsSingleLine (take max_visible_items items)
      → feeds (draw a theme items selected width) ≡ length (take max_visible_items items) + 2
  unfolding draw
  feeds-draw theme items selected width l =
      let top = write_colored a theme.border_fg theme.popup_bg (replicate width 0x2500) in
      let rows = write_rows a theme width selected 0 (take max_visible_items items) in
      let dashes = replicate (width - len_bytes (count_str a items)) 0x2500 in
      let bottom = write_colored a theme.border_fg theme.popup_bg (dashes ++ count_str a items) in
      let e : Text = codes "\u{1b}[0m" ++ restore_and_show in
      omega (
        arith,
        feeds-append hide_and_save (next_line ++ (top ++ (rows ++ (next_line ++ (bottom ++ e))))),
        feeds-append next_line (top ++ (rows ++ (next_line ++ (bottom ++ e)))),
        feeds-append top (rows ++ (next_line ++ (bottom ++ e))),
        feeds-append rows (next_line ++ (bottom ++ e)),
        feeds-append next_line (bottom ++ e),
        feeds-append bottom e,
        feeds-next_line,
        feeds_constants.0,
        feeds_constants.1,
        feeds-write_colored theme.border_fg theme.popup_bg (replicate width 0x2500),
        feeds-replicate width 0x2500 refl,
        feeds-write_rows theme width selected 0 (take max_visible_items items) l,
        feeds-write_colored theme.border_fg theme.popup_bg (dashes ++ count_str a items),
        feeds-append dashes (count_str a items),
        feeds-replicate (width - len_bytes (count_str a items)) 0x2500 refl,
        feeds-count_str items,
      )

  feeds-render_popup :
      (theme : Theme a.Color) (items : List CompletionItem) (selected : ℕ) (cols : Option ℕ)
      (s : Text)
      → All IsSingleLine (take max_visible_items items)
      → render_popup a theme items selected cols ≡ some (some s)
      → feeds s ≡ length (take max_visible_items items) + 2
  unfolding render_popup
  feeds-render_popup theme [] selected cols s l h = absurd (cc)
  feeds-render_popup theme (i ∷ is) selected cols s l h =
      elim (Option-cases (popup_width (take max_visible_items (i ∷ is)) cols)) [
        | inl e ↦ absurd (ground arith)
        | inr (w, e) ↦
            let q : draw a theme (i ∷ is) selected w ≡ s = ground arith in
            omega (arith, ap feeds q, feeds-draw theme (i ∷ is) selected w l)
      ]

  -- Where the items' texts are single lines and the colour sequences hold no line feed, erasing a
  -- popup that is drawn with the number of its visible items saves the cursor, moves down as many
  -- lines as the drawing has moved down, clearing each, and puts the cursor back.
  pub render-erase_lines :
      (theme : Theme a.Color) (items : List CompletionItem) (selected : ℕ) (cols : Option ℕ)
      (s : Text)
      → All IsSingleLine (take max_visible_items items)
      → render_popup a theme items selected cols ≡ some (some s)
      → erase_popup a (length (take max_visible_items items))
        ≡ codes "\u{1b}[?25l\u{1b}7"
          ++ (repeat_text (feeds s) (codes "\n\r\u{1b}[2K") ++ codes "\u{1b}8\u{1b}[?25h")
  unfolding erase_popup
  render-erase_lines theme items selected cols s l h =
      ap (λ n. hide_and_save ++ (repeat_text n next_line ++ restore_and_show))
        (sym (feeds-render_popup theme items selected cols s l h))
