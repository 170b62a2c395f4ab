-- ===== src/Popup/Invariant.antt =====
-- The popup's invariant: it is kept by every operation, and makes the operations safe.
use tabra.Prelude.{
  ℕ, ◌+◌, ◌-◌, ◌%◌, min, ◌≡◌, ◌≢◌, ◌<◌, refl, inl, inr, Bool, true, false, List, [], ◌∷◌, Option,
  none, some, Text, if◌then◌else◌, length, is_empty, get_elem?, arith, Bool-cases, Option-cases,
}
use tabra.Keys.{KeyEvent, tab, escape, enter, arrow_up, arrow_down}
use tabra.Protocol.{CompletionItem, Response, completions}
use tabra.Overlay.{Ansi, render_popup, render_popup_inplace}
use tabra.Popup.{
  PopupAction, PopupState, window, hide, accept_selected, rendered, render_inplace, select,
  on_visible_key, on_key, show_items, on_command_line, find_token_start, left_by_key, left_by_items,
  left_by_command_line,
}
use tabra.Popup.Window.{length-window}

-- The recorded lines are the rows of the window, if they are `exact`.
abbrev pub Lines : Bool → List CompletionItem → ℕ → Type 0
Lines true items lines = lines ≡ min (length items) 10
Lines false items lines = Unit

abbrev pub Fits : Bool → Bool → List CompletionItem → ℕ → ℕ → Type 0
Fits exact true items selected lines = (selected < length items) × Lines exact items lines
Fits exact false items selected lines = (items ≡ []) × (lines ≡ 0)

-- A popup that is visible has a selected item, and `popup_lines` is the number of rows of its
-- window, if no panic has left it otherwise; one that is not has no items and no lines.
abbrev pub Holds : Bool → {C : Type 0} → PopupState C → Type 0
Holds exact p = Fits exact p.visible p.items p.selected p.popup_lines

abbrev pub IsValid : {C : Type 0} → PopupState C → Type 0
IsValid p = Holds true p

Lines-eq :
    (exact : Bool) (items : List CompletionItem) (lines : ℕ)
    → lines ≡ min (length items) 10
    → Lines exact items lines
Lines-eq true items lines e = e
Lines-eq false items lines e = tt

pub Fits-weaken :
    (exact visible : Bool) (items : List CompletionItem) (sel lines : ℕ)
    → Fits exact visible items sel lines
    → Fits false visible items sel lines
Fits-weaken exact true items sel lines h = (h.0, tt)
Fits-weaken exact false items sel lines h = h

-- If there is a result, its state is valid.
abbrev pub Keeps : Bool → {C : Type 0} → Option (PopupState C × PopupAction) → Type 0
Keeps exact none = Unit
Keeps exact (some (p, action)) = Holds exact p

step_down : (sel total : ℕ) → 0 < total → (sel + 1) % total < total
step_down sel total h = grind arith

step_up : (sel total : ℕ) → 0 < total → (sel + total - 1) % total < total
step_up sel total h = grind arith

module _ (exact : Bool) {C : Type 0} where
  hide-Holds : (p : PopupState C) → Holds exact p → Holds exact (hide p).0
  unfolding hide
  hide-Holds p v = ground arith

  accept-Keeps :
      (p : PopupState C) (o : Option CompletionItem)
      → Holds exact p
      → Keeps exact (accept_selected p o)
  unfolding accept_selected
  accept-Keeps p none v = hide-Holds p v
  accept-Keeps p (some item) v = elim (Option-cases (find_token_start p)) [
    | inl e ↦ rw e tt
    | inr (n, e) ↦ rw e (refl, refl)
  ]

  -- A selection that is in range in a popup that is open.
  abbrev Selects : PopupState C → Type 0
  Selects p = (p.visible ≡ true) × (p.selected < length p.items)

  abbrev moved : PopupState C → Text → ℕ → PopupState C
  moved p buffer cursor = record p { last_buffer = buffer; last_cursor = cursor }

module _ (exact : Bool) (a : Ansi) where
  rendered-Keeps :
      (p : PopupState a.Color) (lines : ℕ) (o : Option (Option Text))
      → Selects exact p
      → lines ≡ min (length p.items) 10
      → (o ≢ some none)
      → Keeps exact (rendered a p lines o)
  rendered-Keeps p lines none s e n = tt
  rendered-Keeps p lines (some none) s e n = absurd (n refl)
  rendered-Keeps p lines (some (some t)) s e n = rw (s.0) (s.1, Lines-eq exact p.items lines e)

  -- There is something to render, so rendering is not `None`.
  inplace-ne-none :
      (p : PopupState a.Color) (item : CompletionItem) (items : List CompletionItem) (sel prev : ℕ)
      (cols : Option ℕ)
      → render_popup_inplace a p.theme (item ∷ items) sel cols prev ≢ some none
  unfolding render_popup_inplace render_popup
  inplace-ne-none p item items sel prev cols = ground arith

  inplace-ne-none_of_pos :
      (p : PopupState a.Color) (items : List CompletionItem) (sel prev : ℕ) (cols : Option ℕ)
      → 0 < length items
      → render_popup_inplace a p.theme items sel cols prev ≢ some none
  inplace-ne-none_of_pos p [] sel prev cols h = absurd (omega arith)
  inplace-ne-none_of_pos p (i ∷ is) sel prev cols h = inplace-ne-none p i is sel prev cols

  render_inplace-Keeps :
      (p : PopupState a.Color) (prev : ℕ) → Selects exact p → Keeps exact (render_inplace a p prev)
  unfolding render_inplace
  render_inplace-Keeps p prev s =
      let l = length-window p.items p.selected s.1 in
      rendered-Keeps p (length (window p.items p.selected)) _ s l
        (inplace-ne-none_of_pos p (window p.items p.selected) _ prev _ (omega arith))

  select-Keeps :
      (p : PopupState a.Color) (n : ℕ)
      → p.visible ≡ true
      → n < length p.items
      → Keeps exact (select a p n)
  select-Keeps p n v h = render_inplace-Keeps (record p { selected = n }) p.popup_lines (v, h)

  move-Keeps :
      (p : PopupState a.Color) (n : ℕ)
      → p.visible ≡ true
      → Holds exact p
      → (0 < length p.items → n < length p.items)
      → Keeps exact (if is_empty p.items then some (p, PopupAction.nothing) else select a p n)
  move-Keeps p n v h f = elim (Bool-cases (is_empty p.items)) [
    | inl e ↦ rw e h
    | inr e ↦ rw e (select-Keeps p n v (f (ground arith)))
  ]

  on_visible_key-Keeps :
      (p : PopupState a.Color) (key : KeyEvent)
      → p.visible ≡ true
      → Holds exact p
      → Keeps exact (on_visible_key a p key)
  unfolding on_visible_key
  on_visible_key-Keeps p tab v h = accept-Keeps exact p (get_elem? p.items p.selected) h
  on_visible_key-Keeps p escape v h = hide-Holds exact p h
  on_visible_key-Keeps p arrow_down v h = move-Keeps p _ v h (step_down p.selected (length p.items))
  on_visible_key-Keeps p arrow_up v h = move-Keeps p _ v h (step_up p.selected (length p.items))
  on_visible_key-Keeps p enter v h = (refl, refl)
  on_visible_key-Keeps p _ v h = h

  Keeps-if :
      (b : Bool) (o q : Option (PopupState a.Color × PopupAction))
      → (b ≡ true → Keeps exact o)
      → (b ≡ false → Keeps exact q)
      → Keeps exact (if b then o else q)
  Keeps-if true o q h k = h refl
  Keeps-if false o q h k = k refl

  -- Every key keeps the invariant.
  pub on_key-Keeps :
      (p : PopupState a.Color) (key : KeyEvent) → Holds exact p → Keeps exact (on_key a p key)
  unfolding on_key
  on_key-Keeps p key h = Keeps-if p.visible _ _ (λ e. on_visible_key-Keeps p key e h) (λ e. h)

  show_items-Keeps :
      (p : PopupState a.Color) (items : List CompletionItem)
      → Holds exact p
      → Keeps exact (show_items a p items)
  show_items-Keeps p [] h = hide-Holds exact p h
  show_items-Keeps p (i ∷ is) h =
      render_inplace-Keeps (record p { items = i ∷ is; selected = 0; visible = true }) _
        (refl, omega arith)

  -- Every answer of the daemon, and every failure to get one, keeps the invariant.
  pub on_command_line-Keeps :
      (p : PopupState a.Color) (buffer : Text) (cursor : ℕ) (response : Option Response)
      → Holds exact p
      → Keeps exact (on_command_line a p buffer cursor response)
  unfolding on_command_line
  on_command_line-Keeps p buffer cursor none h = hide-Holds exact (moved exact p buffer cursor) h
  on_command_line-Keeps p buffer cursor (some (completions items sel query popup)) h =
      show_items-Keeps (moved exact p buffer cursor) items h
  on_command_line-Keeps p buffer cursor (some r) h =
      hide-Holds exact (moved exact p buffer cursor) h

-- A selection that a panic leaves is still in range.
selected-Fits :
    (visible : Bool) (items : List CompletionItem) (sel n lines : ℕ)
    → (0 < length items → n < length items)
    → Fits false visible items sel lines
    → Fits false visible items n lines
selected-Fits true items sel n lines f h = (f (omega (arith, h.0)), tt)
selected-Fits false items sel n lines f h = h

module _ {C : Type 0} where
  pub left_by_key-Holds :
      (p : PopupState C) (key : KeyEvent) → Holds false p → Holds false (left_by_key p key)
  unfolding left_by_key
  left_by_key-Holds p arrow_down h =
      selected-Fits p.visible p.items p.selected _ p.popup_lines
        (step_down p.selected (length p.items)) h
  left_by_key-Holds p arrow_up h =
      selected-Fits p.visible p.items p.selected _ p.popup_lines
        (step_up p.selected (length p.items)) h
  left_by_key-Holds p _ h = h

  left_by_items-Holds :
      (p : PopupState C) (items : List CompletionItem)
      → Holds false p
      → Holds false (left_by_items p items)
  left_by_items-Holds p [] h = h
  left_by_items-Holds p (i ∷ is) h = (omega arith, tt)

  pub left_by_command_line-Holds :
      (p : PopupState C) (buffer : Text) (cursor : ℕ) (response : Option Response)
      → Holds false p
      → Holds false (left_by_command_line p buffer cursor response)
  unfolding left_by_command_line
  left_by_command_line-Holds p buffer cursor none h = h
  left_by_command_line-Holds p buffer cursor (some (completions items sel query popup)) h =
      left_by_items-Holds (record p { last_buffer = buffer; last_cursor = cursor }) items h
  left_by_command_line-Holds p buffer cursor (some r) h = h
