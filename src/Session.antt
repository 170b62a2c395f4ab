-- ===== src/Session.antt =====
-- src/session/event_loop.rs: the tasks of a session as functions on one state. Each task's work on
-- one message is a step of its own, done while no other task holds the popup or the tracker. What
-- is sent to the terminal's writer and to the PTY is kept in the state, in order. A panic is `none`;
-- what it leaves of the state for the other tasks is a function of its own.
pub mod Accept
pub mod Debounce
pub mod Completing
pub mod Typing
pub mod Forward
pub mod Invariant
pub mod Panics
pub mod Reach
use tabra.Prelude.{
  ℕ, zero, suc, ◌+◌, ◌-◌, min, Bool, true, false, List, [], ◌∷◌, ◌++◌, Option, none, some, Text,
  codes, ltb, if◌then◌else◌, length, is_empty, split_at, len_bytes, repeat_text, take, drop,
  get_elem?,
}
use tabra.Utf8.{encode_utf8}
use tabra.Keys.{KeyEvent, raw_bytes, parse_bytes}
use tabra.Tracker
use tabra.Tracker.{BufferTracker, sync}
use tabra.Osc
use tabra.Osc.{OscParser, OscEvent, command_line, prompt_start, prompt_end, feed}
use tabra.Protocol.{Response}
use tabra.Overlay.{Ansi, erase_popup}
use tabra.Popup
use tabra.Popup.{
  PopupState, PopupAction, show, erase, forward_key, accept, erase_and_forward, erase_and_show,
  closed, on_key, on_command_line, left_by_command_line,
}

pub data TerminalWrite : Type 0 where
  passthrough : List ℕ → TerminalWrite
  show_popup : Text → TerminalWrite
  clear_popup : ℕ → TerminalWrite
  clear_and_show : ℕ → Text → TerminalWrite
  ghost_text : Text → TerminalWrite
  clear_ghost : ℕ → TerminalWrite

pub record Session (Color : Type 0) : Type 0 where
  pub popup : PopupState Color
  pub tracker : BufferTracker
  pub osc : OscParser
  pub escape_pending : Bool
  pub debounced : List (Text × ℕ)
  pub writes : List TerminalWrite
  pub pty : List ℕ

-- The bytes of a string.
unfoldable pub bytes_of : Text → List ℕ
bytes_of [] = []
bytes_of (c ∷ s) = encode_utf8 c ++ bytes_of s

abbrev pub slice_to : Text → ℕ → Option Text
slice_to s b = elim (split_at s b) [ none ↦ none | some (l, r) ↦ some l ]

abbrev pub slice_from : Text → ℕ → Option Text
slice_from s b = elim (split_at s b) [ none ↦ none | some (l, r) ↦ some r ]

abbrev pub new_line : Text → Option Text → Option Text → Option Text
new_line insert none after = none
new_line insert (some before) none = none
new_line insert (some before) (some after) = some (before ++ (insert ++ b' ' ∷ after))

-- The latest of the messages that are drained.
abbrev pub latest : Text × ℕ → List (Text × ℕ) → Text × ℕ
latest m [] = m
latest m (n ∷ ns) = latest n ns

module _ {C : Type 0} where
  abbrev pub write : Session C → TerminalWrite → Session C
  write s w = record s { writes = s.writes ++ w ∷ [] }

  abbrev pub send : Session C → List ℕ → Session C
  send s bytes = record s { pty = s.pty ++ bytes }

  abbrev pub track : Session C → Option (BufferTracker × Bool) → Option (Session C)
  track s none = none
  track s (some (t, changed)) = some (
      if changed
      then record s { tracker = t; debounced = s.debounced ++ (t.buffer, t.cursor) ∷ [] }
      else record s { tracker = t })

  -- The text behind the remembered cursor.
  unfoldable pub after_cursor : PopupState C → Option Text
  after_cursor p =
      if ltb p.last_cursor (len_bytes p.last_buffer)
      then slice_from p.last_buffer p.last_cursor
      else some []

  -- Ctrl-A and Ctrl-K, then the line.
  abbrev pub inject : Session C → Option Text → Option (Session C)
  inject s none = none
  inject s (some line) = some (send s (0x01 ∷ 0x0b ∷ bytes_of line))

  -- Accept: the items are counted after the popup's own handler has cleared them.
  unfoldable pub accept_text : Session C → ℕ → Text → Option (Session C)
  accept_text s token_start insert =
      inject (write s (clear_popup (min (length s.popup.items) 10)))
        (new_line insert (slice_to s.popup.last_buffer token_start) (after_cursor s.popup))

  -- What is done with an action, in the state that the popup has left.
  unfoldable pub perform : Session C → KeyEvent → PopupAction → Option (Session C)
  perform s event (forward_key bytes) = track (send s bytes) (Tracker.on_key s.tracker event)
  perform s event (show ansi) = some (write s (show_popup ansi))
  perform s event (erase lines) = some (write s (clear_popup lines))
  perform s event (accept token_start insert) = accept_text s token_start insert
  perform s event (erase_and_forward lines bytes) = some (send (write s (clear_popup lines)) bytes)
  perform s event (erase_and_show lines ansi) = some (write s (clear_and_show lines ansi))
  perform s event PopupAction.nothing = some s

  -- `dispatch_popup_action`.
  unfoldable pub dispatch_popup_action : Session C → PopupAction → Session C
  dispatch_popup_action s (show ansi) = write s (show_popup ansi)
  dispatch_popup_action s (erase lines) = write s (clear_popup lines)
  dispatch_popup_action s (erase_and_show lines ansi) = write s (clear_and_show lines ansi)
  dispatch_popup_action s _ = s

  -- A new prompt: the popup goes, and its lines are counted before it is closed.
  abbrev pub close_popup : Session C → Session C
  close_popup s =
      if s.popup.visible
      then write (record s { popup = closed s.popup }) (clear_popup (min (length s.popup.items) 10))
      else s

  unfoldable pub on_osc_event : Session C → OscEvent → Session C
  on_osc_event s (command_line buffer cursor) = record s { tracker = sync s.tracker buffer cursor }
  on_osc_event s prompt_start = close_popup (record s { tracker = sync s.tracker [] 0 })
  on_osc_event s prompt_end = s

  unfoldable pub on_osc_events : Session C → List OscEvent → Session C
  on_osc_events s [] = s
  on_osc_events s (e ∷ es) = on_osc_events (on_osc_event s e) es

  abbrev pub pass : Session C → List ℕ → Session C
  pass s bytes = if is_empty bytes then s else write s (passthrough bytes)

  -- A chunk of the shell's output.
  unfoldable pub on_output : (Text → Option (List ℕ)) → Session C → List ℕ → Option (Session C)
  on_output decode s chunk = elim (feed decode s.osc chunk) [
    | none ↦ none
    | some (osc, bytes, events) ↦ some (on_osc_events (pass (record s { osc = osc }) bytes) events)
  ]

  -- A change of the window's size.
  abbrev pub resize : Session C → ℕ → Session C
  resize s cols = record s { popup = record s.popup { terminal_cols = cols } }

module _ (a : Ansi) where
  abbrev pub initial : ℕ → Session a.Color
  initial cols = record {
    popup = Popup.initial a cols;
    tracker = Tracker.initial;
    osc = Osc.initial;
    escape_pending = false;
    debounced = [];
    writes = [];
    pty = [];
  }

  abbrev pub after_popup :
      Session a.Color
      → KeyEvent
      → Option (PopupState a.Color × PopupAction)
      → Option (Session a.Color)
  after_popup s event none = none
  after_popup s event (some (popup, action)) = perform (record s { popup = popup }) event action

  unfoldable pub handle_key_event : Session a.Color → KeyEvent → Option (Session a.Color)
  handle_key_event s event = after_popup s event (on_key a s.popup event)

  unfoldable pub handle_key_events : Session a.Color → List KeyEvent → Option (Session a.Color)
  handle_key_events s [] = some s
  handle_key_events s (e ∷ es) = elim (handle_key_event s e) [
    | none ↦ none
    | some t ↦ handle_key_events t es
  ]

  -- A chunk of standard input, and the time-out behind a pending ESC, which is an empty chunk.
  unfoldable pub on_stdin : Session a.Color → List ℕ → Option (Session a.Color)
  on_stdin s chunk =
      let (events, pending) = parse_bytes chunk s.escape_pending in
      handle_key_events (record s { escape_pending = pending }) events

  abbrev pub answered :
      Session a.Color → Option (PopupState a.Color × PopupAction) → Option (Session a.Color)
  answered s none = none
  answered s (some (popup, action)) =
      some (dispatch_popup_action (record s { popup = popup }) action)

  -- The debounce task on the messages that it drains; the daemon's answer is an argument.
  unfoldable pub on_debounce :
      Session a.Color → Text × ℕ → List (Text × ℕ) → Option Response → Option (Session a.Color)
  on_debounce s first drained response =
      let (buffer, cursor) = latest first drained in
      answered (record s { debounced = drop (suc (length drained)) s.debounced })
        (on_command_line a s.popup buffer cursor response)

  -- What a panic leaves of the shared state. A task that panics is gone, the locks that it held are
  -- free again, and the other tasks go on. An accepted text is cut out behind the erasing of the
  -- popup, and the tracker follows a key behind its bytes.
  abbrev pub left_performing : Session a.Color → PopupAction → Session a.Color
  left_performing s (forward_key bytes) = send s bytes
  left_performing s (accept token_start insert) =
      write s (clear_popup (min (length s.popup.items) 10))
  left_performing s action = s

  abbrev pub left_by_popup :
      Session a.Color → KeyEvent → Option (PopupState a.Color × PopupAction) → Session a.Color
  left_by_popup s event none = record s { popup = Popup.left_by_key s.popup event }
  left_by_popup s event (some (popup, action)) = left_performing (record s { popup = popup }) action

  unfoldable pub left_by_keys : Session a.Color → List KeyEvent → Session a.Color
  left_by_keys s [] = s
  left_by_keys s (e ∷ es) = elim (handle_key_event s e) [
    | none ↦ left_by_popup s e (on_key a s.popup e)
    | some t ↦ left_by_keys t es
  ]

  unfoldable pub left_by_stdin : Session a.Color → List ℕ → Session a.Color
  left_by_stdin s chunk =
      let (events, pending) = parse_bytes chunk s.escape_pending in
      left_by_keys (record s { escape_pending = pending }) events

  unfoldable pub left_by_debounce :
      Session a.Color → Text × ℕ → List (Text × ℕ) → Option Response → Session a.Color
  left_by_debounce s first drained response =
      let (buffer, cursor) = latest first drained in
      record s {
        debounced = drop (suc (length drained)) s.debounced;
        popup = left_by_command_line s.popup buffer cursor response;
      }

  -- What the writer thread puts on the terminal.
  unfoldable pub write_bytes : TerminalWrite → List ℕ
  write_bytes (passthrough bytes) = bytes
  write_bytes (show_popup ansi) = bytes_of ansi
  write_bytes (clear_popup lines) = bytes_of (erase_popup a lines)
  write_bytes (clear_and_show lines ansi) =
      bytes_of (erase_popup a lines)
      ++ (bytes_of (codes "\u{1b}[s") ++ (bytes_of ansi ++ bytes_of (codes "\u{1b}[u")))
  write_bytes (ghost_text text) =
      bytes_of (codes "\u{1b}[s\u{1b}[90m")
      ++ (bytes_of text ++ bytes_of (codes "\u{1b}[0m\u{1b}[u"))
  write_bytes (clear_ghost len) =
      bytes_of (codes "\u{1b}[s")
      ++ (bytes_of (repeat_text len (codes " ")) ++ bytes_of (codes "\u{1b}[u"))
