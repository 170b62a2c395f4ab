-- ===== src/Hooks/Zsh/Navigation.antt =====
-- The arrow keys of the zsh hook, and a popup that is left open when the line is submitted.
use tabra.Prelude.{
  ℕ, ◌+◌, ◌-◌, ◌%◌, ◌≡◌, ◌<◌, min, ap, ◌∙◌, true, [], ◌∷◌, ◌++◌, Text, arith, length,
}
use tabra.Popup.Selection.{down_up, up_down}
use tabra.Hooks.{Hook, element}
use tabra.Hooks.Zsh.{erase_popup, render_popup, up, down, insert_at, walk}
use tabra.Hooks.Zsh.Accept.{accepting}
use tabra.Hooks.Zsh.Events.{arrow_up, arrow_down, tab, new_line, on_event, started_line, run}
use tabra.Hooks.Zsh.Invariant.{Inv}

-- Drawing again changes no more than what the invariant fixes.
render_popup_again :
    (h : Hook)
    → h.popup_visible ≡ true
    → 0 < h.item_count
    → h.popup_lines ≡ min h.item_count 10
    → (render_popup h).0 ≡ h
unfolding render_popup erase_popup
render_popup_again h v n l = ground arith

module _ (h : Hook) (v : h.popup_visible ≡ true) (n : 0 < h.item_count)
    (l : h.popup_lines ≡ min h.item_count 10) where
  up_lem : (up h).0 ≡ record h { selected = (h.selected + h.item_count - 1) % h.item_count }
  unfolding up
  up_lem =
      let k = (h.selected + h.item_count - 1) % h.item_count in
      ground (arith, render_popup_again (record h { selected = k }) v n l)

  down_lem : (down h).0 ≡ record h { selected = (h.selected + 1) % h.item_count }
  unfolding down
  down_lem =
      let k = (h.selected + 1) % h.item_count in
      ground (arith, render_popup_again (record h { selected = k }) v n l)

-- While the popup is visible, the arrow keys undo each other: up and down, in either order, leave
-- every variable as it was, round the ends of the list too.
pub arrows_undo :
    (h : Hook)
    → Inv h
    → h.popup_visible ≡ true
    → (run h (arrow_up ∷ arrow_down ∷ []) ≡ h) × (run h (arrow_down ∷ arrow_up ∷ []) ≡ h)
unfolding run on_event
arrows_undo h i v =
    let n : 0 < h.item_count = omega (arith, i.shown_selected v) in
    let l = i.shown_lines v in
    let k = (h.selected + h.item_count - 1) % h.item_count in
    let m = (h.selected + 1) % h.item_count in
    (
      ap (λ t. (down t).0) (up_lem h v n l)
          ∙ down_lem (record h { selected = k }) v n l
          ∙ ap (λ t. record h { selected = t })
              (up_down h.selected h.item_count (i.shown_selected v)),
      ap (λ t. (up t).0) (down_lem h v n l)
          ∙ up_lem (record h { selected = m }) v n l
          ∙ ap (λ t. record h { selected = t })
              (down_up h.selected h.item_count (i.shown_selected v)),
    )

erase_popup_line :
    (h : Hook) → ((erase_popup h).0.buffer ≡ h.buffer) × ((erase_popup h).0.cursor ≡ h.cursor)
unfolding erase_popup
erase_popup_line h = ground arith

-- The popup of a submitted line stays the hook's: on the next line, still empty, Tab puts the text
-- that was selected on the line before.
pub tab_stale :
    (h : Hook) (c : ℕ) (s : Text)
    → Inv h
    → h.popup_visible ≡ true
    → element h.inserts h.selected ≡ c ∷ s
    → ((run h (new_line ∷ tab ∷ [])).buffer ≡ (c ∷ s) ++ 0x20 ∷ [])
      × ((run h (new_line ∷ tab ∷ [])).cursor ≡ length (c ∷ s) + 1)
unfolding run on_event walk
tab_stale h c s i v e =
    let a =
      accepting (started_line h) (c ∷ s) v
        (let n : 0 < h.item_count = omega (arith, i.shown_selected v) in n) e in
    let t = insert_at 0 (c ∷ s) (started_line h) in
    (
      ap (λ r. r.0.buffer) a ∙ (erase_popup_line t).0,
      ap (λ r. r.0.cursor) a
          ∙ (erase_popup_line t).1
          ∙ (let z : 0 + length (c ∷ s) + 1 ≡ length (c ∷ s) + 1 = omega arith in z),
    )
