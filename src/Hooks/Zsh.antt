-- ===== src/Hooks/Zsh.antt =====
-- The zsh hook: the functions of the script in src/shell/hook.rs.
pub mod Reading
pub mod TokenStart
pub mod Parsed
pub mod Accept
pub mod Drawing
pub mod Navigation
pub mod Typing
pub mod Waiting
pub mod Events
pub mod Invariant
unfoldable pub use tabra.Hooks.Screen.{
  cleared_row, erase_popup, behind_tab, rest_of, fields, add_item, add_items, parse_lines, no_items,
  parse_response, row, rows, draw, shown, render_popup,
}
use tabra.Prelude.{
  ℕ, zero, suc, ◌+◌, ◌-◌, ◌%◌, Bool, true, false, not, ◌&&◌, ◌||◌, List, [], ◌∷◌, ◌++◌, Option,
  Text, if◌then◌else◌, ◌==◌, ltb, is_empty, length, take, drop,
}
use tabra.Hooks.{
  Hook, Effect, send_accept, send_dismiss, up_line_or_history, down_line_or_history, send_break,
  substituted, split_blank_line, element, is_set, or_empty,
}

-- The script's variables when it is loaded, on an empty line.
abbrev pub initial : Hook
initial = record {
  popup_visible = false;
  popup_lines = 0;
  selected = 0;
  item_count = 0;
  displays = [];
  inserts = [];
  descs = [];
  rendered_popup = [];
  buffer = [];
  cursor = 0;
}

-- The end of `fetch_and_render`, behind the parsing.
unfoldable pub show_items : Hook → Hook × List Effect
show_items h = if h.item_count == 0 then erase_popup h else render_popup h

-- `_TABRA_ITEM_COUNT=0` behind `_tabra_erase_popup`.
abbrev pub closed : Hook × List Effect → Hook × List Effect
closed (e, out) = (record e { item_count = 0 }, out)

abbrev pub forgotten : Hook × List Effect → Hook × List Effect
forgotten (e, out) = (record e { item_count = 0; rendered_popup = [] }, out)

-- The two parts of a response: the items, and the popup behind a blank line.
abbrev pub take_response : Text × Option Text → Hook → Hook × List Effect
take_response (items_section, popup) h =
    show_items
      (parse_response items_section (record h { selected = 0; rendered_popup = or_empty popup }))

-- With what `tabra complete-shell` printed.
unfoldable pub fetch_and_render : Text → Hook → Hook × List Effect
fetch_and_render output h =
    if is_empty (substituted output)
    then forgotten (erase_popup h)
    else take_response (split_blank_line (substituted output)) h

-- The variables of the forward walk in `accept`.
pub record Walk : Type 0 where
  pub i : ℕ
  pub last_boundary : ℕ
  pub in_sq : Bool
  pub in_dq : Bool
  pub escape_next : Bool

abbrev pub walk_initial : Walk
walk_initial = record {
  i = 0;
  last_boundary = 0;
  in_sq = false;
  in_dq = false;
  escape_next = false;
}

unfoldable pub walk_char : Walk → ℕ → Walk
walk_char w ch =
    if w.escape_next
    then record w { escape_next = false }
    else if ch == b'\\' && not w.in_sq
    then record w { escape_next = true }
    else if ch == 39 && not w.in_dq
    then record w { in_sq = not w.in_sq }
    else if ch == b'"' && not w.in_sq
    then record w { in_dq = not w.in_dq }
    else if (ch == 0x20 || ch == 0x09) && (not w.in_sq && not w.in_dq)
    then record w { last_boundary = w.i + 1 }
    else w

unfoldable pub walk : Walk → Text → Walk
walk w [] = w
walk w (ch ∷ s) = walk (record (walk_char w ch) { i = w.i + 1 }) s

abbrev pub token_start : Text → ℕ
token_start before_cursor = (walk walk_initial before_cursor).last_boundary

-- `BUFFER` and `CURSOR` with the text in place of the last word before the cursor.
abbrev pub insert_at : ℕ → Text → Hook → Hook
insert_at start text h = record h {
  buffer = take start h.buffer ++ (text ++ 0x20 ∷ drop h.cursor h.buffer);
  cursor = start + length text + 1;
}

abbrev pub insert_text : Text → Hook → Hook × List Effect
insert_text [] h = (h, [])
insert_text (c ∷ s) h =
    (insert_at (token_start (take h.cursor h.buffer)) (c ∷ s) h, send_accept (c ∷ s) ∷ [])

-- The messages before, and then `_tabra_erase_popup` and no items.
abbrev pub close_behind : Hook × List Effect → Hook × List Effect
close_behind (h, sent) = ((closed (erase_popup h)).0, sent ++ (erase_popup h).1)

unfoldable pub accept : Hook → Hook × List Effect
accept h =
    if h.popup_visible && ltb 0 h.item_count
    then close_behind (insert_text (element h.inserts h.selected) h)
    else (h, [])

-- `%` by a count of 0 is an error of the shell, which leaves the function.
unfoldable pub up : Hook → Hook × List Effect
up h =
    if h.popup_visible
    then if h.item_count == 0
      then (h, [])
      else render_popup (record h { selected = (h.selected + h.item_count - 1) % h.item_count })
    else (h, up_line_or_history ∷ [])

unfoldable pub down : Hook → Hook × List Effect
down h =
    if h.popup_visible
    then if h.item_count == 0
      then (h, [])
      else render_popup (record h { selected = (h.selected + 1) % h.item_count })
    else (h, down_line_or_history ∷ [])

unfoldable pub dismiss : Hook → Hook × List Effect
dismiss h =
    if h.popup_visible
    then ((closed (erase_popup h)).0, (erase_popup h).1 ++ send_dismiss ∷ [])
    else (h, send_break ∷ [])

-- `zle .self-insert`.
abbrev pub self_inserted : ℕ → Hook → Hook
self_inserted key h = record h {
  buffer = take h.cursor h.buffer ++ key ∷ drop h.cursor h.buffer;
  cursor = h.cursor + 1;
}

unfoldable pub self_insert : ℕ → Text → Hook → Hook × List Effect
self_insert key output h = fetch_and_render output (self_inserted key h)

-- `zle .backward-delete-char`.
abbrev pub backward_deleted : Hook → Hook
backward_deleted h = if h.cursor == 0 then h else record h {
  buffer = take (h.cursor - 1) h.buffer ++ drop h.cursor h.buffer;
  cursor = h.cursor - 1;
}

unfoldable pub backward_delete : Text → Hook → Hook × List Effect
backward_delete output h =
    if is_set (backward_deleted h).buffer
    then fetch_and_render output (backward_deleted h)
    else closed (erase_popup (backward_deleted h))

-- `zshexit`.
abbrev pub cleanup : Hook → Hook × List Effect
cleanup h = erase_popup h

-- `_tabra_ensure_daemon`, with what each `tabra status` says: whether the daemon is started, and
-- how many times it sleeps.
unfoldable pub wait_for_daemon : (ℕ → Bool) → ℕ → ℕ → ℕ
wait_for_daemon status call zero = 0
wait_for_daemon status call (suc rounds) =
    let rest = wait_for_daemon status (call + 1) rounds in if status call then 1 else rest + 1

unfoldable pub ensure_daemon : (ℕ → Bool) → Bool × ℕ
ensure_daemon status = if status 0 then (false, 0) else (true, wait_for_daemon status 1 5)
