-- ===== src/Tracker/Edit.antt =====
-- The tracker's byte offsets never miss: each key edits the buffer by characters.
use tabra.Prelude.{
  ℕ, zero, suc, ◌+◌, ◌-◌, ◌≡◌, ◌≤◌, refl, ap, Bool, true, false, [], ◌∷◌, ◌++◌, some, Text, ltb,
  if◌then◌else◌, length, take, drop, len_utf8, split_at, byte_of_char, split_at-byte_of_char, arith,
  len_utf8_pos, length-append, length-take, length-drop,
}
use mathlib.Core.List.{append-nil}
use tabra.Keys.{KeyEvent, char, enter, backspace, arrow_left, arrow_right, ctrl_c}
use tabra.Tracker.{
  BufferTracker, on_key, insert_char, delete_char, insert_at, slice_from, drain, char_to_byte,
  delete_first,
}

-- The edit of a key, by characters.
unfoldable pub edit : BufferTracker → KeyEvent → BufferTracker
edit t (char c) = record t {
  buffer = take t.cursor t.buffer ++ c ∷ drop t.cursor t.buffer;
  cursor = t.cursor + 1;
}
edit t backspace = record t {
  buffer = take (t.cursor - 1) t.buffer ++ drop t.cursor t.buffer;
  cursor = t.cursor - 1;
}
edit t enter = record t { buffer = []; cursor = 0 }
edit t ctrl_c = record t { buffer = []; cursor = 0 }
edit t arrow_left = record t { cursor = t.cursor - 1 }
edit t arrow_right =
    if ltb t.cursor (length t.buffer) then record t { cursor = t.cursor + 1 } else t
edit t _ = t

-- Whether the popup should be updated.
unfoldable pub changes : BufferTracker → KeyEvent → Bool
changes t (char c) = true
changes t backspace = ltb 0 t.cursor
changes t enter = true
changes t ctrl_c = true
changes t _ = false

drop_tail : {c : ℕ} {r : Text} (n : ℕ) (s : Text) → drop n s ≡ c ∷ r → drop (suc n) s ≡ r
drop_tail zero [] h = absurd (ground arith)
drop_tail (suc n) [] h = absurd (ground arith)
drop_tail zero (x ∷ s) h = ground arith
drop_tail (suc n) (x ∷ s) h = drop_tail n s h

drop_nil : (n : ℕ) (s : Text) → drop n s ≡ [] → (drop (suc n) s ≡ []) × (take n s ≡ s)
drop_nil zero [] h = (refl, refl)
drop_nil (suc n) [] h = (refl, refl)
drop_nil zero (x ∷ s) h = absurd (ground arith)
drop_nil (suc n) (x ∷ s) h = let (p, q) = drop_nil n s h in (p, ap (λ t. x ∷ t) q)

-- The first character of a text can be cut off by its length in bytes.
split_first : (c : ℕ) (r : Text) → split_at (c ∷ r) (len_utf8 c) ≡ some (c ∷ [], r)
unfolding split_at
split_first c [] = ground (arith, len_utf8_pos c)
split_first c (x ∷ r) = ground (arith, len_utf8_pos c)

module _ (s : Text) (n : ℕ) where
  insert_at-eq : (c : ℕ) → insert_at s (byte_of_char s n) c ≡ some (take n s ++ c ∷ drop n s)
  unfolding insert_at
  insert_at-eq c = rw (split_at-byte_of_char s n, insert_at)

  slice_from-eq : slice_from s (byte_of_char s n) ≡ some (drop n s)
  unfolding slice_from
  slice_from-eq = rw (split_at-byte_of_char s n, slice_from)

  drain-eq :
      {c : ℕ} {r : Text}
      → drop n s ≡ c ∷ r
      → drain s (byte_of_char s n) (len_utf8 c) ≡ some (take n s ++ drop (suc n) s)
  unfolding drain
  drain-eq {c} {r} h =
      rw (split_at-byte_of_char s n, drain) (ground (arith, split_first c r, drop_tail n s h))

insert_char-eq : (t : BufferTracker) (c : ℕ) → insert_char t c ≡ some (edit t (char c), true)
unfolding insert_char char_to_byte edit
insert_char-eq t c = rw (insert_at-eq t.buffer t.cursor c, insert_char, char_to_byte)

delete_first-eq :
    (s : Text) (n : ℕ) (a : Bool) (d : Text)
    → drop n s ≡ d
    → delete_first (record { buffer = s; cursor = n; active = a }) (byte_of_char s n) (some d)
      ≡ some (record { buffer = take n s ++ drop (suc n) s; cursor = n; active = a }, true)
delete_first-eq s n a [] h = let (p, q) = drop_nil n s h in ground (arith, append-nil (take n s))
delete_first-eq s n a (c ∷ r) h = rw (drain-eq s n h)

abbrev at : Text → ℕ → Bool → BufferTracker
at s n a = record { buffer = s; cursor = n; active = a }

suc_sub_one : (n : ℕ) → suc n - 1 ≡ n
suc_sub_one n = omega arith

zero_lt : (n : ℕ) → ltb 0 (suc n) ≡ true
zero_lt n = ground arith

delete_at :
    (s : Text) (n : ℕ) (a : Bool)
    → delete_char (at s n a) ≡ some (edit (at s n a) backspace, changes (at s n a) backspace)
unfolding delete_char char_to_byte edit changes
delete_at s zero a = refl
delete_at s (suc n) a =
    rw (suc_sub_one n, zero_lt n, slice_from-eq s n) (delete_first-eq s n a (drop n s) refl)

delete_char-eq : (t : BufferTracker) → delete_char t ≡ some (edit t backspace, changes t backspace)
delete_char-eq t = delete_at t.buffer t.cursor t.active

arrow_left-eq : (t : BufferTracker) → on_key t arrow_left ≡ some (edit t arrow_left, false)
unfolding on_key edit
arrow_left-eq t = ground arith

-- Whatever the buffer, the cursor and the key, no operation on byte offsets panics, and the key
-- edits the buffer at the cursor by whole characters.
pub on_key-eq-edit : (t : BufferTracker) (e : KeyEvent) → on_key t e ≡ some (edit t e, changes t e)
unfolding on_key edit changes
on_key-eq-edit t (char c) = insert_char-eq t c
on_key-eq-edit t backspace = delete_char-eq t
on_key-eq-edit t arrow_left = arrow_left-eq t
on_key-eq-edit t _ = refl

-- The cursor stands in the buffer.
abbrev pub IsValid : BufferTracker → Type 0
IsValid t = t.cursor ≤ length t.buffer

-- A key keeps the cursor in the buffer.
pub edit-IsValid : (t : BufferTracker) (e : KeyEvent) → IsValid t → IsValid (edit t e)
unfolding edit
edit-IsValid t (char c) v = omega (
  arith,
  length-append (take t.cursor t.buffer) (c ∷ drop t.cursor t.buffer),
  length-take t.cursor t.buffer,
  length-drop t.cursor t.buffer,
)
edit-IsValid t backspace v = omega (
  arith,
  length-append (take (t.cursor - 1) t.buffer) (drop t.cursor t.buffer),
  length-take (t.cursor - 1) t.buffer,
  length-drop t.cursor t.buffer,
)
edit-IsValid t arrow_left v = omega arith
edit-IsValid t arrow_right v = ground arith
edit-IsValid t enter v = omega arith
edit-IsValid t ctrl_c v = omega arith
edit-IsValid t _ v = v
