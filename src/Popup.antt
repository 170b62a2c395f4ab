-- ===== src/Popup.antt =====
-- src/session/popup.rs: the popup's state machine. A panic is `none`. What the daemon answered is
-- an argument: `none` for an error of the client.
pub mod Window
pub mod Invariant
pub mod Selection
pub mod Scanning
pub mod TokenStart
use tabra.Prelude.{
  ℕ, zero, suc, ◌+◌, ◌-◌, ◌%◌, min, Bool, true, false, not, ◌&&◌, ◌||◌, List, [], ◌∷◌, ◌++◌, Option,
  none, some, Text, codes, ltb, leb, ◌==◌, if◌then◌else◌, length, is_empty, get_elem?, take, drop,
  len_utf8, len_bytes, split_at,
}
use tabra.Lexer.{is_blank}
use tabra.Keys.{KeyEvent, char, tab, escape, enter, backspace, arrow_up, arrow_down, raw_bytes}
use tabra.Protocol.{CompletionItem, Response, completions}
use tabra.Overlay.{Ansi, Theme, default_theme, render_popup, render_popup_inplace}

pub data PopupAction : Type 0 where
  show : Text → PopupAction
  erase : ℕ → PopupAction
  forward_key : List ℕ → PopupAction
  accept : ℕ → Text → PopupAction
  erase_and_forward : ℕ → List ℕ → PopupAction
  erase_and_show : ℕ → Text → PopupAction
  nothing : PopupAction

pub record PopupState (Color : Type 0) : Type 0 where
  pub visible : Bool
  pub items : List CompletionItem
  pub selected : ℕ
  pub last_buffer : Text
  pub last_cursor : ℕ
  pub terminal_cols : ℕ
  pub theme : Theme Color
  pub popup_lines : ℕ
  pub ghost_len : ℕ

-- `PopupState::new`.
abbrev pub initial : (a : Ansi) → ℕ → PopupState a.Color
initial a terminal_cols = record {
  visible = false;
  items = [];
  selected = 0;
  last_buffer = [];
  last_cursor = 0;
  terminal_cols = terminal_cols;
  theme = default_theme a;
  popup_lines = 0;
  ghost_len = 0;
}

abbrev pub max_visible : ℕ
max_visible = 10

-- The first item in the window: no subtraction here goes below 0 where it is read.
unfoldable pub window_start : ℕ → ℕ → ℕ
window_start total selected =
    if leb total max_visible
    then 0
    else if ltb selected max_visible
    then 0
    else min (selected - max_visible + 1) (total - max_visible)

unfoldable pub window {ℓ} : {A : Type ℓ} → List A → ℕ → List A
window items selected =
    if leb (length items) max_visible
    then items
    else take max_visible (drop (window_start (length items) selected) items)

-- The variables of the walk in `find_token_start`; `offset` is the byte offset of the character.
pub record Scan : Type 0 where
  pub last_boundary : ℕ
  pub in_sq : Bool
  pub in_dq : Bool
  pub escape_next : Bool
  pub offset : ℕ

abbrev pub scan_initial : Scan
scan_initial = record {
  last_boundary = 0;
  in_sq = false;
  in_dq = false;
  escape_next = false;
  offset = 0;
}

-- What a character changes, but for the offset.
unfoldable pub scan_char : Scan → ℕ → Scan
scan_char s ch =
    if s.escape_next
    then record s { escape_next = false }
    else if ch == b'\\' && not s.in_sq
    then record s { escape_next = true }
    else if ch == 39 && not s.in_dq
    then record s { in_sq = not s.in_sq }
    else if ch == b'"' && not s.in_sq
    then record s { in_dq = not s.in_dq }
    else if is_blank ch && (not s.in_sq && not s.in_dq)
    then record s { last_boundary = s.offset + len_utf8 ch }
    else s

unfoldable pub scan : Scan → Text → Scan
scan s [] = s
scan s (ch ∷ cs) = scan (record (scan_char s ch) { offset = s.offset + len_utf8 ch }) cs

-- `&last_buffer[..last_cursor.min(last_buffer.len())]`.
abbrev pub before_cursor : Text → ℕ → Option (Text × Text)
before_cursor buffer cursor = split_at buffer (min cursor (len_bytes buffer))

abbrev pub boundary_of : Option (Text × Text) → Option ℕ
boundary_of none = none
boundary_of (some (before, after)) = some (scan scan_initial before).last_boundary

unfoldable pub find_token_start : {C : Type 0} → PopupState C → Option ℕ
find_token_start p = boundary_of (before_cursor p.last_buffer p.last_cursor)

module _ {C : Type 0} where
  -- The fields that `hide`, Tab, Enter and a new prompt reset.
  abbrev pub closed : PopupState C → PopupState C
  closed p = record p { visible = false; popup_lines = 0; items = [] }

  unfoldable pub hide : PopupState C → PopupState C × PopupAction
  hide p =
      if p.visible then (record (closed p) { selected = 0 }, erase p.popup_lines) else (p, nothing)

  abbrev pub accepted : PopupState C → Text → Option ℕ → Option (PopupState C × PopupAction)
  accepted p insert none = none
  accepted p insert (some token_start) = some (closed p, accept token_start insert)

  -- Tab: `self.selected < self.items.len()` is that the item is there.
  unfoldable pub accept_selected :
      PopupState C → Option CompletionItem → Option (PopupState C × PopupAction)
  accept_selected p none = some (hide p)
  accept_selected p (some item) = accepted p item.insert (find_token_start p)

module _ (a : Ansi) where
  abbrev pub rendered :
      PopupState a.Color → ℕ → Option (Option Text) → Option (PopupState a.Color × PopupAction)
  rendered p lines none = none
  rendered p lines (some none) = some (hide p)
  rendered p lines (some (some s)) = some (record p { popup_lines = lines }, show s)

  unfoldable pub render_inplace : PopupState a.Color → ℕ → Option (PopupState a.Color × PopupAction)
  render_inplace p prev_lines =
      let visible_items = window p.items p.selected in
      rendered p (length visible_items) (
        render_popup_inplace a p.theme visible_items
          (p.selected - window_start (length p.items) p.selected) (some p.terminal_cols) prev_lines)

  -- `render_current`, which no caller uses.
  unfoldable pub render_current : PopupState a.Color → Option (PopupState a.Color × PopupAction)
  render_current p =
      let visible_items = window p.items p.selected in
      rendered p (length visible_items) (
        render_popup a p.theme visible_items (p.selected - window_start (length p.items) p.selected)
          (some p.terminal_cols))

  abbrev pub select : PopupState a.Color → ℕ → Option (PopupState a.Color × PopupAction)
  select p selected = render_inplace (record p { selected = selected }) p.popup_lines

  unfoldable pub on_visible_key :
      PopupState a.Color → KeyEvent → Option (PopupState a.Color × PopupAction)
  on_visible_key p tab = accept_selected p (get_elem? p.items p.selected)
  on_visible_key p escape = some (hide p)
  on_visible_key p arrow_down =
      if is_empty p.items then some (p, nothing) else select p ((p.selected + 1) % length p.items)
  on_visible_key p arrow_up =
      if is_empty p.items
      then some (p, nothing)
      else select p ((p.selected + length p.items - 1) % length p.items)
  on_visible_key p enter =
      some (record (closed p) { selected = 0 }, erase_and_forward p.popup_lines (raw_bytes enter))
  on_visible_key p key = some (p, forward_key (raw_bytes key))

  unfoldable pub on_key : PopupState a.Color → KeyEvent → Option (PopupState a.Color × PopupAction)
  on_key p key = if p.visible then on_visible_key p key else some (p, forward_key (raw_bytes key))

  abbrev pub show_items :
      PopupState a.Color → List CompletionItem → Option (PopupState a.Color × PopupAction)
  show_items p items =
      if is_empty items
      then some (hide p)
      else render_inplace (record p { items = items; selected = 0; visible = true })
          (if p.visible then p.popup_lines else 0)

  abbrev pub on_response :
      PopupState a.Color → Option Response → Option (PopupState a.Color × PopupAction)
  on_response p (some (completions items selected query popup)) = show_items p items
  on_response p _ = some (hide p)

  unfoldable pub on_command_line :
      PopupState a.Color → Text → ℕ → Option Response → Option (PopupState a.Color × PopupAction)
  on_command_line p buffer cursor response =
      on_response (record p { last_buffer = buffer; last_cursor = cursor }) response

-- What a panic leaves: the fields that are set before the rendering panics.
module _ {C : Type 0} where
  unfoldable pub left_by_key : PopupState C → KeyEvent → PopupState C
  left_by_key p arrow_down = record p { selected = (p.selected + 1) % length p.items }
  left_by_key p arrow_up = record p {
    selected = (p.selected + length p.items - 1) % length p.items;
  }
  left_by_key p key = p

  abbrev pub left_by_items : PopupState C → List CompletionItem → PopupState C
  left_by_items p [] = p
  left_by_items p (i ∷ is) = record p { items = i ∷ is; selected = 0; visible = true }

  abbrev pub left_by_response : PopupState C → Option Response → PopupState C
  left_by_response p (some (completions items selected query popup)) = left_by_items p items
  left_by_response p _ = p

  unfoldable pub left_by_command_line : PopupState C → Text → ℕ → Option Response → PopupState C
  left_by_command_line p buffer cursor response =
      left_by_response (record p { last_buffer = buffer; last_cursor = cursor }) response
