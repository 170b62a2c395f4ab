-- ===== src/Tests/Sessions.antt =====
-- A session with an open popup, and one that has read a key and printed a line.
use tabra.Prelude.{
  false, len_utf8, map, ℕ, ◌≡◌, ◌<◌, refl, true, List, [], ◌∷◌, Option, none, some, Text, codes,
  arith, split_at, byte_of_char,
}
use tabra.Protocol.{Response, completions}
use tabra.Utf8.{encode_utf8}
use tabra.Tracker
use tabra.Tracker.{insert_char, insert_at, char_to_byte}
use tabra.Overlay.{default_theme, render_popup_inplace}
use tabra.Overlay.Widths.{render_popup_panics}
use tabra.Popup
use tabra.Popup.{on_command_line, render_inplace, window, window_start}
use tabra.Keys.{parse_bytes, parse_loop, take_one, raw_bytes, tab}
use tabra.Session.{
  resize, left_by_debounce, Session, initial, handle_key_events, perform, on_debounce, clear_popup,
  handle_key_event, on_stdin, on_output,
}
use tabra.Session.Accept.{tab_leaves_lines}
use tabra.Session.Completing.{Retypes, debounced_tab}
use tabra.Server.{handle_complete}
use tabra.Tests.Serving.{bare_host, git_index, empty_cache, drawn_items, lists_subcommands}
use tabra.Session.Typing.{Read, chunk_read, timed_out, ended, stdin_task, Typed, stdin_task-Typed}
use tabra.Session.Debounce.{
  Message, Sublist, settled, last_of, debounce_task-Sublist, asked_line, debounce_task,
  debounce_task-settled,
}
use tabra.Session.Invariant.{IsValid, Done}
use tabra.Session.Reach.{Reach, Step, Reach-initial}
use tabra.Tests.Fixtures.{two_items, plain_item, mono, checkout, open_session, open_cursor}

abbrev no_decoder : Text → Option (List ℕ)
no_decoder s = none

-- An ESC that waits in vain, then a letter, and the end.
abbrev some_reads : List Read
some_reads = chunk_read (0x1b ∷ []) ∷ timed_out ∷ chunk_read (b'q' ∷ []) ∷ ended ∷ []

stdin_task-Typed_example :
    Typed mono (initial mono 80) (0x1b ∷ b'q' ∷ []) (stdin_task mono (initial mono 80) some_reads)
stdin_task-Typed_example = stdin_task-Typed mono (initial mono 80) some_reads refl

-- Four lines: the second is overtaken by the third, and an answer takes 100 ms.
abbrev some_lines : List Message
some_lines =
    (700, (codes "g", 1))
    ∷ (780, (codes "gi", 2))
    ∷ (792, (codes "git", 3))
    ∷ (850, (codes "git ", 4))
    ∷ []

abbrev slow : ℕ → Text × ℕ → ℕ
slow now m = 100

abbrev at_once : ℕ → Text × ℕ → ℕ
at_once now m = 0

debounce_task-Sublist_example :
    Sublist (map asked_line (debounce_task slow some_lines)) (settled some_lines)
    × (last_of (map asked_line (debounce_task slow some_lines))
        ≡ last_of (map (λ m. m.1) some_lines))
debounce_task-Sublist_example = debounce_task-Sublist slow some_lines

debounce_task-settled_example :
    map asked_line (debounce_task at_once some_lines)
    ≡ (codes "g", 1) ∷ (codes "git", 3) ∷ (codes "git ", 4) ∷ []
debounce_task-settled_example =
    debounce_task-settled at_once (λ now m. refl) some_lines
      (omega arith, (omega arith, (omega arith, (omega arith, tt))))

abbrev asked_session : Session ℕ
asked_session = record (initial mono 80) { debounced = (codes "git ", 4) ∷ [] }

-- `git ` is typed, and the daemon knows two subcommands.
debounced_tab_example :
    Retypes bare_host asked_session
      (codes "git ", 4)
      []
      4
      (handle_complete bare_host git_index empty_cache (codes "git ") 4 (codes "/") (some 80)).1
      (plain_item (codes "add"))
      (plain_item (codes "commit") ∷ [])
unfolding byte_of_char len_utf8
debounced_tab_example =
    debounced_tab bare_host asked_session (codes "git ", 4) [] git_index empty_cache (codes "/") 4
      (plain_item (codes "add")) (plain_item (codes "commit") ∷ []) 0 [] (some drawn_items.0)
      (omega arith) refl lists_subcommands

tab_leaves_lines_example :
    (t : Session ℕ) × (handle_key_event mono open_session tab ≡ some t)
    × (t.writes ≡ clear_popup 0 ∷ [])
    × (0 < 2)
tab_leaves_lines_example =
    tab_leaves_lines mono open_session checkout 6 (omega arith, refl) refl refl open_cursor

-- The letter `g` is typed.
abbrev typed_session : Session ℕ
typed_session = record (initial mono 80) {
  tracker = record { buffer = codes "g"; cursor = 1; active = true };
  debounced = (codes "g", 1) ∷ [];
  pty = b'g' ∷ [];
}

types_letter : on_stdin mono (initial mono 80) (b'g' ∷ []) ≡ some typed_session
unfolding on_stdin handle_key_events handle_key_event perform parse_bytes parse_loop take_one
    Popup.on_key Tracker.on_key insert_char insert_at split_at char_to_byte byte_of_char raw_bytes
    encode_utf8
types_letter = refl

-- The same on a terminal of 20 columns, where the answer of the daemon is not drawn.
abbrev narrow_session : Session ℕ
narrow_session = resize typed_session 20

abbrev two_answered : Option Response
two_answered = some (completions two_items 0 [] none)

narrow_panics : on_debounce mono narrow_session (codes "g", 1) [] two_answered ≡ none
unfolding on_debounce on_command_line render_inplace render_popup_inplace window window_start
narrow_panics =
    rw
      ((render_popup_panics mono (default_theme mono) (plain_item (codes "cherry-pick"))
          (checkout ∷ []) 0 20).1
        (omega arith))
      refl

Reach-initial_example :
    let t = left_by_debounce mono narrow_session (codes "g", 1) [] two_answered in
    IsValid false t × ((chunk : List ℕ) → Done false (on_output no_decoder t chunk))
Reach-initial_example = Reach-initial mono no_decoder 80 (
    Reach.next
      (Reach.next (Reach.next Reach.here (Step.typed (b'g' ∷ []) types_letter)) (Step.resized 20))
      (Step.completed_panics (codes "g", 1) [] [] two_answered refl narrow_panics))
