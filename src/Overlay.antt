-- ===== src/Overlay.antt =====
-- src/render/overlay.rs and src/render/theme.rs: the popup as a string of ANSI sequences. The
-- colour sequences of crossterm are a parameter.
pub mod Widths
pub mod Feeds
pub mod Lines
pub mod Icons
use tabra.Prelude.{
  ℕ, zero, suc, ◌+◌, ◌-◌, ◌/◌, ◌%◌, min, max, Bool, true, false, not, ◌&&◌, List, [], ◌∷◌, ◌++◌,
  Option, none, some, Text, codes, ltb, leb, ◌==◌, if◌then◌else◌, length, is_empty, take, drop,
  replicate, any, filter, len_bytes, starts_with, map, decimal, repeat_text,
}
use tabra.Spec.{SuggestionType, folder, file, arg, subcommand, option, special, mixin, shortcut}
use tabra.Protocol.{CompletionItem}

-- `Color`, and what `SetForegroundColor`, `SetBackgroundColor` and `SetAttribute` write.
pub record Ansi : Type 1 where
  pub Color : Type 0
  pub rgb : ℕ → ℕ → ℕ → Color
  pub reset : Color
  pub set_foreground : Color → Text
  pub set_background : Color → Text
  pub bold : Text
  pub reset_attribute : Text

pub record Theme (Color : Type 0) : Type 0 where
  pub popup_bg : Color
  pub text_fg : Color
  pub selected_bg : Color
  pub match_fg : Color
  pub desc_fg : Color
  pub kind_fg : Color
  pub danger_fg : Color
  pub border_fg : Color

abbrev pub default_theme : (a : Ansi) → Theme a.Color
default_theme a = record {
  popup_bg = a.rgb 30 30 46;
  text_fg = a.rgb 205 214 244;
  selected_bg = a.rgb 69 71 90;
  match_fg = a.rgb 137 180 250;
  desc_fg = a.rgb 127 132 156;
  kind_fg = a.rgb 166 227 161;
  danger_fg = a.rgb 243 139 168;
  border_fg = a.rgb 88 91 112;
}

unfoldable pub kind_icon_ascii : SuggestionType → ℕ
kind_icon_ascii subcommand = b'C'
kind_icon_ascii option = b'F'
kind_icon_ascii arg = b'A'
kind_icon_ascii file = b'f'
kind_icon_ascii folder = b'd'
kind_icon_ascii special = b'*'
kind_icon_ascii mixin = b'M'
kind_icon_ascii shortcut = b'S'

abbrev pub max_visible_items : ℕ
max_visible_items = 10

abbrev pub min_popup_width : ℕ
min_popup_width = 30

abbrev pub max_popup_width : ℕ
max_popup_width = 70

abbrev pub hide_and_save : Text
hide_and_save = codes "\u{1b}[?25l\u{1b}7"

abbrev pub restore_and_show : Text
restore_and_show = codes "\u{1b}8\u{1b}[?25h"

abbrev pub next_line : Text
next_line = codes "\n\r\u{1b}[2K"

unfoldable pub truncate : Text → ℕ → Text
truncate s max_len =
    if leb (length s) max_len
    then s
    else if ltb 1 max_len
    then take (max_len - 1) s ++ 0x2026 ∷ []
    else []

-- `usize::clamp` panics, `none`, where the bounds are crossed.
unfoldable pub clamp : ℕ → ℕ → ℕ → Option ℕ
clamp x lo hi =
    if ltb hi lo then none else some (if ltb x lo then lo else if ltb hi x then hi else x)

unfoldable pub max_width : Option ℕ → ℕ
max_width none = max_popup_width
max_width (some cols) = min (cols - 2) max_popup_width

-- The width that one item asks for.
unfoldable pub item_width : CompletionItem → ℕ
item_width item =
    2
    + length item.display
    + (if is_empty item.description then 0 else min (length item.description) 30 + 2)

unfoldable pub widest : List CompletionItem → ℕ
widest [] = 0
widest (i ∷ is) = max (item_width i) (widest is)

-- `max().unwrap_or(MIN_POPUP_WIDTH)`.
unfoldable pub content_width : List CompletionItem → ℕ
content_width [] = min_popup_width
content_width (i ∷ is) = widest (i ∷ is)

unfoldable pub popup_width : List CompletionItem → Option ℕ → Option ℕ
popup_width visible cols = clamp (content_width visible) min_popup_width (max_width cols)

-- The three parts of a row that take up columns.
unfoldable pub name_display : ℕ → CompletionItem → Text
name_display width item = truncate item.display (width - 4)

abbrev pub remaining : ℕ → CompletionItem → ℕ
remaining width item = width - (2 + length (name_display width item))

abbrev pub shows_description : ℕ → CompletionItem → Bool
shows_description width item = not (is_empty item.description) && ltb 5 (remaining width item)

unfoldable pub description_text : ℕ → CompletionItem → Text
description_text width item =
    let desc = truncate item.description (remaining width item - 3) in
    replicate (remaining width item - length desc - 3) b' ' ++ b' ' ∷ (desc ++ b' ' ∷ [])

unfoldable pub row_rest : ℕ → CompletionItem → Text
row_rest width item =
    if shows_description width item
    then description_text width item
    else replicate (remaining width item) b' '

module _ (a : Ansi) where
  unfoldable pub write_colored : a.Color → a.Color → Text → Text
  write_colored fg bg text =
      a.set_foreground fg
      ++ (a.set_background bg ++ (text ++ (a.set_foreground a.reset ++ a.set_background a.reset)))

  unfoldable pub write_char : Theme a.Color → a.Color → Bool → ℕ → Text
  write_char theme bg is_match ch =
      if is_match
      then a.set_foreground theme.match_fg
        ++ (a.set_background bg ++ (a.bold ++ ch ∷ (a.reset_attribute ++ a.set_background a.reset)))
      else a.set_foreground theme.text_fg ++ (a.set_background bg ++ ch ∷ [])

  -- The characters from the one at index `i` on.
  unfoldable pub write_name_highlighted : ℕ → Text → List ℕ → Theme a.Color → a.Color → Text
  write_name_highlighted i [] match_indices theme bg = []
  write_name_highlighted i (ch ∷ name) match_indices theme bg =
      write_char theme bg (any (λ k. k == i) match_indices) ch
      ++ write_name_highlighted (i + 1) name match_indices theme bg

  unfoldable pub write_row : Theme a.Color → ℕ → Bool → CompletionItem → Text
  write_row theme width is_selected item =
      let bg = if is_selected then theme.selected_bg else theme.popup_bg in
      let icon_color = if item.is_dangerous then theme.danger_fg else theme.kind_fg in
      let name = name_display width item in
      let clamped = filter (λ i. ltb i (length name)) item.match_indices in
      next_line
      ++ (write_colored icon_color bg (kind_icon_ascii item.kind ∷ b' ' ∷ [])
          ++ (write_name_highlighted 0 name clamped theme bg
              ++ write_colored
                  (if shows_description width item then theme.desc_fg else theme.text_fg) bg
                  (row_rest width item)))

  -- The rows from the one at index `i` on.
  unfoldable pub write_rows : Theme a.Color → ℕ → ℕ → ℕ → List CompletionItem → Text
  write_rows theme width selected i [] = []
  write_rows theme width selected i (item ∷ items) =
      write_row theme width (i == selected) item ++ write_rows theme width selected (i + 1) items

  unfoldable pub count_str : List CompletionItem → Text
  count_str items =
      if ltb max_visible_items (length items)
      then b' '
        ∷ (decimal (min (length items) max_visible_items)
            ++ b'/' ∷ (decimal (length items) ++ b' ' ∷ []))
      else []

  -- The popup at a given width.
  unfoldable pub draw : Theme a.Color → List CompletionItem → ℕ → ℕ → Text
  draw theme items selected width =
      hide_and_save
      ++ (next_line
          ++ (write_colored theme.border_fg theme.popup_bg (replicate width 0x2500)
              ++ (write_rows theme width selected 0 (take max_visible_items items)
                  ++ (next_line
                      ++ (write_colored theme.border_fg theme.popup_bg (
                            replicate (width - len_bytes (count_str items)) 0x2500
                            ++ count_str items)
                          ++ (codes "\u{1b}[0m" ++ restore_and_show))))))

  abbrev pub drawn : Theme a.Color → List CompletionItem → ℕ → Option ℕ → Option (Option Text)
  drawn theme items selected none = none
  drawn theme items selected (some width) = some (some (draw theme items selected width))

  -- The outer `none` is a panic, the inner one the `None` of the source.
  unfoldable pub render_popup :
      Theme a.Color → List CompletionItem → ℕ → Option ℕ → Option (Option Text)
  render_popup theme [] selected cols = some none
  render_popup theme (i ∷ is) selected cols =
      drawn theme (i ∷ is) selected (popup_width (take max_visible_items (i ∷ is)) cols)

  unfoldable pub erase_popup : ℕ → Text
  erase_popup num_lines =
      hide_and_save ++ (repeat_text (num_lines + 2) next_line ++ restore_and_show)

  -- `strip_prefix(p).unwrap_or(s)`.
  unfoldable pub strip : Text → Text → Text
  strip p s = if starts_with s p then drop (length p) s else s

  abbrev pub erased_first : ℕ → Option (Option Text) → Option (Option Text)
  erased_first prev_lines none = none
  erased_first prev_lines (some none) = some none
  erased_first prev_lines (some (some new_content)) = some (
      some (
        hide_and_save
        ++ (repeat_text (prev_lines + 2) next_line
            ++ (codes "\u{1b}8" ++ strip hide_and_save new_content))))

  unfoldable pub render_popup_inplace :
      Theme a.Color → List CompletionItem → ℕ → Option ℕ → ℕ → Option (Option Text)
  render_popup_inplace theme items selected cols prev_lines =
      if prev_lines == 0
      then render_popup theme items selected cols
      else erased_first prev_lines (render_popup theme items selected cols)
