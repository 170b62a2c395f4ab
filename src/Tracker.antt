-- ===== src/Tracker.antt =====
-- src/session/buffer_tracker.rs: the command line as the session sees it typed.
pub mod Edit
pub mod Zipper
use tabra.Prelude.{
  ℕ, ◌+◌, ◌-◌, Bool, true, false, List, [], ◌∷◌, ◌++◌, Option, none, some, Text, ltb, if◌then◌else◌,
  length, len_utf8, split_at, byte_of_char,
}
use tabra.Keys.{KeyEvent, char, enter, backspace, arrow_left, arrow_right, ctrl_c, ctrl_l}

pub record BufferTracker : Type 0 where
  pub buffer : Text
  pub cursor : ℕ
  pub active : Bool

-- `BufferTracker::new`.
abbrev pub initial : BufferTracker
initial = record { buffer = []; cursor = 0; active = true }

unfoldable pub char_to_byte : BufferTracker → ℕ → ℕ
char_to_byte t char_idx = byte_of_char t.buffer char_idx

-- `String::insert`, `&s[b..]` and `String::drain`; `none` is a panic.
unfoldable pub insert_at : Text → ℕ → ℕ → Option Text
insert_at s b c = elim (split_at s b) [ none ↦ none | some (l, r) ↦ some (l ++ c ∷ r) ]

unfoldable pub slice_from : Text → ℕ → Option Text
slice_from s b = elim (split_at s b) [ none ↦ none | some (l, r) ↦ some r ]

unfoldable pub drain : Text → ℕ → ℕ → Option Text
drain s b len = elim (split_at s b) [
  | none ↦ none
  | some (l, r) ↦ elim (split_at r len) [ none ↦ none | some (m, r') ↦ some (l ++ r') ]
]

abbrev pub with_buffer : BufferTracker → Option Text → Option (BufferTracker × Bool)
with_buffer t none = none
with_buffer t (some s) = some (record t { buffer = s }, true)

-- The character behind the cursor goes, if there is one.
abbrev pub delete_first : BufferTracker → ℕ → Option Text → Option (BufferTracker × Bool)
delete_first t b none = none
delete_first t b (some []) = some (t, true)
delete_first t b (some (ch ∷ r)) = with_buffer t (drain t.buffer b (len_utf8 ch))

unfoldable pub insert_char : BufferTracker → ℕ → Option (BufferTracker × Bool)
insert_char t c =
    with_buffer (record t { cursor = t.cursor + 1 })
      (insert_at t.buffer (char_to_byte t t.cursor) c)

unfoldable pub delete_char : BufferTracker → Option (BufferTracker × Bool)
delete_char t =
    let b = char_to_byte t (t.cursor - 1) in
    if ltb 0 t.cursor
    then delete_first (record t { cursor = t.cursor - 1 }) b (slice_from t.buffer b)
    else some (t, false)

-- Whether the buffer changed comes with the new state; `none` is a panic.
unfoldable pub on_key : BufferTracker → KeyEvent → Option (BufferTracker × Bool)
on_key t (char c) = insert_char t c
on_key t backspace = delete_char t
on_key t enter = some (record t { buffer = []; cursor = 0 }, true)
on_key t ctrl_c = some (record t { buffer = []; cursor = 0 }, true)
on_key t ctrl_l = some (t, false)
on_key t arrow_left = some (if ltb 0 t.cursor then record t { cursor = t.cursor - 1 } else t, false)
on_key t arrow_right =
    some (if ltb t.cursor (length t.buffer) then record t { cursor = t.cursor + 1 } else t, false)
on_key t _ = some (t, false)

abbrev pub sync : BufferTracker → Text → ℕ → BufferTracker
sync t buffer cursor = record t { buffer = buffer; cursor = cursor }
