-- ===== src/Overlay/Widths.antt =====
-- The widths of the popup and of its rows.
use tabra.Prelude.{
  ℕ, ◌+◌, ◌-◌, ◌≡◌, ◌↔◌, inl, inr, ◌≤◌, ◌<◌, List, [], ◌∷◌, ◌++◌, none, some, Text, if◌then◌else◌,
  length, take, replicate, arith, length-append, length-take, length-replicate, Bool-cases,
  Option-cases, ◌==◌, codes, repeat_text,
}
use tabra.Protocol.{CompletionItem}
use tabra.Overlay.{
  Ansi, Theme, truncate, clamp, max_width, popup_width, name_display, remaining, shows_description,
  description_text, row_rest, render_popup, max_visible_items, draw, render_popup_inplace,
  hide_and_save, next_line, strip,
}

-- A truncated text has at most the length that it is cut to.
pub length-truncate : (s : Text) (n : ℕ) → length (truncate s n) ≤ n
unfolding truncate
length-truncate s n =
    ground (arith, length-append (take (n - 1) s) (0x2026 ∷ []), length-take (n - 1) s)

popup_width_panics :
    (items : List CompletionItem) (cols : ℕ) → (popup_width items (some cols) ≡ none) ↔ (cols < 32)
unfolding popup_width clamp max_width
popup_width_panics items cols = (ground arith, ground arith)

-- With something to show, the popup cannot be rendered, the code panics, exactly when the terminal
-- has fewer than 32 columns.
pub render_popup_panics :
    (a : Ansi) (theme : Theme a.Color) (item : CompletionItem) (items : List CompletionItem)
    (selected cols : ℕ)
    → (render_popup a theme (item ∷ items) selected (some cols) ≡ none) ↔ (cols < 32)
unfolding render_popup
render_popup_panics a theme item items selected cols =
    let p = popup_width_panics (take max_visible_items (item ∷ items)) cols in
    (λ h. p.0 (ground arith), λ h. ground (arith, p.1 h))

-- The columns of a row: the icon and a space, the name, and the rest.
abbrev pub row_columns : ℕ → CompletionItem → ℕ
row_columns width item = 2 + length (name_display width item) + length (row_rest width item)

length-description_text :
    (width : ℕ) (item : CompletionItem)
    → 5 < remaining width item
    → length (description_text width item) + 1 ≡ remaining width item
unfolding description_text
length-description_text width item h =
    let r = remaining width item in
    let desc = truncate item.description (r - 3) in
    omega (
      arith,
      length-truncate item.description (r - 3),
      length-append (replicate (r - length desc - 3) b' ') (b' ' ∷ (desc ++ b' ' ∷ [])),
      length-replicate {A = ℕ} (r - length desc - 3) b' ',
      length-append desc (b' ' ∷ []),
    )

-- A row is as wide as the popup where it shows no description, and one column narrower where it
-- shows one; so no row is wider than the border.
pub row_columns_lem :
    (width : ℕ) (item : CompletionItem)
    → 30 ≤ width
    → (row_columns width item + (if shows_description width item then 1 else 0)) ≡ width
unfolding row_rest
row_columns_lem width item h = elim (Bool-cases (shows_description width item)) [
  | inl e ↦
      let big : 5 < remaining width item = ground arith in
      rw e (omega (arith, length-description_text width item big))
  | inr e ↦
      let fits : length (name_display width item) ≤ width - 4 =
        unfold name_display in length-truncate item.display (width - 4) in
      rw e (omega (arith, length-replicate {A = ℕ} (remaining width item) b' '))
]

module _ (a : Ansi) (theme : Theme a.Color) (item : CompletionItem) (items : List CompletionItem)
    (selected cols : ℕ) (wide : 32 ≤ cols) where
  -- With 32 columns or more, and an item to show, something is rendered.
  pub render_popup-some :
      (s : Text) × (render_popup a theme (item ∷ items) selected (some cols) ≡ some (some s))
  unfolding render_popup
  render_popup-some =
      let visible = take max_visible_items (item ∷ items) in
      elim (Option-cases (popup_width visible (some cols))) [
        | inl e ↦ absurd (omega (arith, (popup_width_panics visible cols).0 e))
        | inr (w, e) ↦ (draw a theme (item ∷ items) selected w, ground arith)
      ]

  pub render_popup_inplace-some :
      (prev : ℕ)
      → (s : Text) × (render_popup_inplace a theme (item ∷ items) selected (some cols) prev
          ≡ some (some s))
  unfolding render_popup_inplace
  render_popup_inplace-some prev =
      let (s, e) = render_popup-some in
      elim (Bool-cases (prev == 0)) [
        | inl z ↦ (s, rw (z, render_popup_inplace) e)
        | inr z ↦ (
          hide_and_save
              ++ (repeat_text (prev + 2) next_line ++ (codes "\u{1b}8" ++ strip a hide_and_save s)),
          ground arith,
        )
      ]
