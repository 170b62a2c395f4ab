-- ===== src/Tests/Screen.antt =====
-- The popup and its rendering on concrete items.
use tabra.Prelude.{
  codes, ◌++◌, repeat_text, ℕ, ◌≡◌, ◌≢◌, ◌<◌, ◌↔◌, refl, List, [], ◌∷◌, none, some, Text, arith,
  take, All,
}
use tabra.Keys.{tab}
use tabra.Overlay.{default_theme, render_popup, erase_popup}
use tabra.Overlay.Widths.{render_popup_panics, render_popup-some}
use tabra.Overlay.Feeds.{feeds, IsSingleLine}
use tabra.Overlay.Lines.{render-erase_lines}
use tabra.Popup.{on_key}
use tabra.Popup.Selection.{on_key-total}
use tabra.Tests.Fixtures.{mono, mono-IsQuiet, checkout, open_popup, open_cursor}

-- Twelve rows, of which ten are shown.
abbrev many : List ℕ
many = 0 ∷ 1 ∷ 2 ∷ 3 ∷ 4 ∷ 5 ∷ 6 ∷ 7 ∷ 8 ∷ 9 ∷ 10 ∷ 11 ∷ []

on_key-total_example : on_key mono open_popup tab ≢ none
on_key-total_example =
    on_key-total mono open_popup tab 6 (omega arith, refl) (omega arith) open_cursor

render_popup_panics_example :
    (render_popup mono (default_theme mono) (checkout ∷ []) 0 (some 20) ≡ none) ↔ (20 < 32)
render_popup_panics_example = render_popup_panics mono (default_theme mono) checkout [] 0 20

render_popup-some_example :
    (s : Text) × (render_popup mono (default_theme mono) (checkout ∷ []) 0 (some 80)
      ≡ some (some s))
render_popup-some_example =
    render_popup-some mono (default_theme mono) checkout [] 0 80 (omega arith)

abbrev shown_text : Text
shown_text = render_popup-some_example.0

single_lines : All IsSingleLine (take 10 (checkout ∷ []))
unfolding feeds
single_lines = (record { display = refl; description = refl }, tt)

render-erase_lines_example :
    erase_popup mono 1
    ≡ codes "\u{1b}[?25l\u{1b}7"
      ++ (repeat_text (feeds shown_text) (codes "\n\r\u{1b}[2K") ++ codes "\u{1b}8\u{1b}[?25h")
render-erase_lines_example =
    render-erase_lines mono mono-IsQuiet (default_theme mono) (checkout ∷ []) 0 (some 80) shown_text
      single_lines (render_popup-some_example.1)
