-- ===== src/Popup/Selection.antt =====
-- Moving the selection, and that the popup's operations do not panic.
use tabra.Popup.TokenStart.{find_token_start-StartsAt}
use tabra.Prelude.{
  byte_of_char, ℕ, zero, suc, ◌+◌, ◌-◌, ◌%◌, ◌≡◌, ◌≢◌, ◌≤◌, ◌<◌, refl, inl, inr, Bool, true, false,
  List, [], ◌∷◌, Option, none, some, Text, ltb, if◌then◌else◌, length, is_empty, get_elem?, arith,
  Bool-cases, Option-cases,
}
use mathlib.Core.Bool.{false≢true}
use native.Mathlib.Nat.{mod-eq_of_lt}
use tabra.Keys.{KeyEvent, tab, arrow_up, arrow_down}
use tabra.Protocol.{CompletionItem}
use tabra.Overlay.{Ansi, render_popup_inplace}
use tabra.Overlay.Widths.{render_popup_inplace-some}
use tabra.Popup.{
  PopupAction, PopupState, window, window_start, accept_selected, render_inplace, select,
  on_visible_key, on_key, find_token_start,
}
use tabra.Popup.Invariant.{IsValid, Fits}
use tabra.Popup.Window.{length-window}

wrap : (n total : ℕ) → n < total → (n + total) % total ≡ n
wrap n total h = grind arith

pub down_up : (sel total : ℕ) → sel < total → ((sel + 1) % total + total - 1) % total ≡ sel
down_up sel total h = elim (Bool-cases (ltb (sel + 1) total)) [
  | inl e ↦
      let l : sel + 1 < total = ground arith in
      let q : sel + 1 + total - 1 ≡ sel + total = omega arith in
      rw (mod-eq_of_lt l, q) (wrap sel total h)
  | inr e ↦
      let l : sel + 1 ≡ total = ground arith in
      let z : (sel + 1) % total ≡ 0 = rw (← l) (grind arith) in
      let q : 0 + total - 1 ≡ sel = omega arith in rw (z, q) (mod-eq_of_lt h)
]

pub up_down : (sel total : ℕ) → sel < total → ((sel + total - 1) % total + 1) % total ≡ sel
up_down zero total h =
    let q : 0 + total - 1 ≡ total - 1 = omega arith in
    let l : total - 1 < total = omega arith in
    let m : total - 1 + 1 ≡ total = omega arith in rw (q, mod-eq_of_lt l, m) (grind arith)
up_down (suc n) total h =
    let q : suc n + total - 1 ≡ n + total = omega arith in
    let l : n < total = omega arith in
    let m : n + 1 ≡ suc n = omega arith in rw (q, wrap n total l, m) (mod-eq_of_lt h)

not_empty : {A : Type 0} (xs : List A) → 0 < length xs → is_empty xs ≡ false
not_empty [] h = absurd (omega arith)
not_empty (x ∷ xs) h = refl

Fits-lt :
    (b : Bool) (items : List CompletionItem) (sel lines : ℕ)
    → b ≡ true
    → Fits true b items sel lines
    → sel < length items
Fits-lt true items sel lines e h = h.0
Fits-lt false items sel lines e h = absurd (false≢true e)

selected_lt :
    {C : Type 0} (p : PopupState C) → p.visible ≡ true → IsValid p → p.selected < length p.items
selected_lt p v i = Fits-lt p.visible p.items p.selected p.popup_lines v i

module _ (a : Ansi) where
  render-some :
      (p : PopupState a.Color) (items : List CompletionItem) (sel prev cols : ℕ)
      → 32 ≤ cols
      → 0 < length items
      → (s : Text) × (render_popup_inplace a p.theme items sel (some cols) prev ≡ some (some s))
  render-some p [] sel prev cols w n = absurd (omega arith)
  render-some p (i ∷ is) sel prev cols w n =
      render_popup_inplace-some a p.theme i is sel cols w prev

  -- With 32 columns the rendering of an open popup succeeds.
  pub render_inplace-some :
      (p : PopupState a.Color) (prev : ℕ)
      → 32 ≤ p.terminal_cols
      → p.selected < length p.items
      → (s : Text) × (render_inplace a p prev
          ≡ some
              (record p { popup_lines = length (window p.items p.selected) }, PopupAction.show s))
  unfolding render_inplace
  render_inplace-some p prev w n =
      let l = length-window p.items p.selected n in
      let at = p.selected - window_start (length p.items) p.selected in
      let (s, e) =
        render-some p (window p.items p.selected) at prev p.terminal_cols w (omega arith) in
      (s, rw (e, render_inplace))

  -- A move of the selection.
  record Moved (p : PopupState a.Color) (n : ℕ) (o : Option (PopupState a.Color × PopupAction))
      : Type 0 where
    text : Text
    moved :
        o
        ≡ some (
          record p { selected = n; popup_lines = length (window p.items n) },
          PopupAction.show text,
        )

  select-Moved :
      (p : PopupState a.Color) (n : ℕ)
      → 32 ≤ p.terminal_cols
      → n < length p.items
      → Moved p n (select a p n)
  select-Moved p n w h =
      let (s, e) = render_inplace-some (record p { selected = n }) p.popup_lines w h in
      record { text = s; moved = e }

  move-Moved :
      (p : PopupState a.Color) (n : ℕ)
      → 32 ≤ p.terminal_cols
      → n < length p.items
      → Moved p n (if is_empty p.items then some (p, PopupAction.nothing) else select a p n)
  move-Moved p n w h = rw (not_empty p.items (omega arith)) (select-Moved p n w h)

  next_lt : (sel total : ℕ) → sel < total → (sel + 1) % total < total
  next_lt sel total h = grind arith

  prev_lt : (sel total : ℕ) → sel < total → (sel + total - 1) % total < total
  prev_lt sel total h = grind arith

  on_visible-down :
      (p : PopupState a.Color)
      → 32 ≤ p.terminal_cols
      → p.selected < length p.items
      → Moved p ((p.selected + 1) % length p.items) (on_visible_key a p arrow_down)
  unfolding on_visible_key
  on_visible-down p w h = move-Moved p _ w (next_lt p.selected (length p.items) h)

  on_visible-up :
      (p : PopupState a.Color)
      → 32 ≤ p.terminal_cols
      → p.selected < length p.items
      → Moved p ((p.selected + length p.items - 1) % length p.items) (on_visible_key a p arrow_up)
  unfolding on_visible_key
  on_visible-up p w h = move-Moved p _ w (prev_lt p.selected (length p.items) h)

  on_key-visible :
      (p : PopupState a.Color) (key : KeyEvent)
      → p.visible ≡ true
      → on_key a p key ≡ on_visible_key a p key
  unfolding on_key
  on_key-visible p key e = ground arith

  -- A result with this selection and the items of `p`.
  abbrev pub Selected : PopupState a.Color → ℕ → Option (PopupState a.Color × PopupAction) → Type 0
  Selected p n none = ⊥
  Selected p n (some (q, action)) =
      (q.selected ≡ n)
      × (q.items ≡ p.items)
      × (q.visible ≡ p.visible)
      × (q.terminal_cols ≡ p.terminal_cols)

  -- The key on the state of a result.
  abbrev pub then_key :
      Option (PopupState a.Color × PopupAction)
      → KeyEvent
      → Option (PopupState a.Color × PopupAction)
  then_key none key = none
  then_key (some (q, action)) key = on_key a q key

  -- In an open popup on a terminal of 32 columns or more, Down and then Up, and Up and then Down,
  -- give the selection that was there, at the ends of the list too, and neither panics.
  pub arrows_inverse :
      (p : PopupState a.Color)
      → p.visible ≡ true
      → IsValid p
      → 32 ≤ p.terminal_cols
      → Selected p p.selected (then_key (on_key a p arrow_down) arrow_up)
        × Selected p p.selected (then_key (on_key a p arrow_up) arrow_down)
  arrows_inverse p v i w =
      let h : p.selected < length p.items = selected_lt p v i in
      let total = length p.items in
      let d = on_visible-down p w h in
      let u = on_visible-up p w h in
      let n = (p.selected + 1) % total in
      let m = (p.selected + total - 1) % total in
      let pd = record p { selected = n; popup_lines = length (window p.items n) } in
      let pu = record p { selected = m; popup_lines = length (window p.items m) } in
      let du = on_visible-up pd w (next_lt p.selected total h) in
      let ud = on_visible-down pu w (prev_lt p.selected total h) in
      (
        rw (on_key-visible p arrow_down v, d.moved, on_key-visible pd arrow_up v, du.moved)
            (down_up p.selected total h, refl, refl, refl),
        rw (on_key-visible p arrow_up v, u.moved, on_key-visible pu arrow_down v, ud.moved)
            (up_down p.selected total h, refl, refl, refl),
      )

  accept-total :
      (p : PopupState a.Color) (o : Option CompletionItem)
      → find_token_start p ≢ none
      → accept_selected p o ≢ none
  unfolding accept_selected
  accept-total p none n = λ e. cc
  accept-total p (some item) n = elim (Option-cases (find_token_start p)) [
    | inl e ↦ absurd (n e)
    | inr (k, e) ↦ rw e (λ h. cc)
  ]

  Moved-total :
      (p : PopupState a.Color) (n : ℕ) (o : Option (PopupState a.Color × PopupAction))
      → Moved p n o
      → o ≢ none
  Moved-total p n o m e = cc (m.moved)

  visible-total :
      (p : PopupState a.Color) (key : KeyEvent)
      → 32 ≤ p.terminal_cols
      → p.selected < length p.items
      → find_token_start p ≢ none
      → on_visible_key a p key ≢ none
  visible-total p arrow_down w h n = Moved-total p _ _ (on_visible-down p w h)
  visible-total p arrow_up w h n = Moved-total p _ _ (on_visible-up p w h)
  visible-total p tab w h n =
      unfold on_visible_key in accept-total p (get_elem? p.items p.selected) n
  visible-total p _ w h n = unfold on_visible_key in λ e. cc

  token_start-some :
      (p : PopupState a.Color) (n : ℕ)
      → p.last_cursor ≡ byte_of_char p.last_buffer n
      → find_token_start p ≢ none
  token_start-some p n k e = let (start, f, w) = find_token_start-StartsAt p n k in cc

  hidden-total :
      (p : PopupState a.Color) (key : KeyEvent) → p.visible ≡ false → on_key a p key ≢ none
  unfolding on_key
  hidden-total p key v e = ground arith

  -- No key makes the popup panic, if the terminal has 32 columns, the remembered cursor is the byte
  -- offset of a character of the remembered line or its end, and the popup, if it is open, has a
  -- selected item and records the rows of its window, or else has neither items nor lines.
  pub on_key-total :
      (p : PopupState a.Color) (key : KeyEvent) (n : ℕ)
      → IsValid p
      → 32 ≤ p.terminal_cols
      → p.last_cursor ≡ byte_of_char p.last_buffer n
      → on_key a p key ≢ none
  on_key-total p key n i w k = elim (Bool-cases p.visible) [
    | inl v ↦
        rw (on_key-visible p key v)
          (visible-total p key w (selected_lt p v i) (token_start-some p n k))
    | inr v ↦ hidden-total p key v
  ]
