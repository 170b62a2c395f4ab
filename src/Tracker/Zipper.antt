-- ===== src/Tracker/Zipper.antt =====
-- The tracker refines a line editor that keeps the text before and behind the cursor.
use tabra.Prelude.{
  ℕ, suc, ◌+◌, ◌-◌, ◌≡◌, refl, ap, Bool, [], ◌∷◌, ◌++◌, some, Text, length, take, drop, arith,
  length-take, take-length-append, drop-length-append, take-append-drop, sym, ◌∙◌,
}
use mathlib.Core.List.{append_assoc}
use tabra.Keys.{KeyEvent, char, enter, backspace, arrow_left, arrow_right, ctrl_c}
use tabra.Tracker.{BufferTracker, on_key}
use tabra.Tracker.Edit.{edit, changes, on_key-eq-edit, IsValid}

-- The text before the cursor, last character first, and the text behind it.
abbrev pub Zipper : Type 0
Zipper = Text × Text

abbrev pub act : Zipper → KeyEvent → Zipper
act (l, r) (char c) = (c ∷ l, r)
act (c ∷ l, r) backspace = (l, r)
act (c ∷ l, r) arrow_left = (l, c ∷ r)
act (l, c ∷ r) arrow_right = (c ∷ l, r)
act (l, r) enter = ([], [])
act (l, r) ctrl_c = ([], [])
act z _ = z

-- `rev_onto l r` is the reverse of `l`, then `r`.
abbrev pub rev_onto : Text → Text → Text
rev_onto [] r = r
rev_onto (c ∷ l) r = rev_onto l (c ∷ r)

-- The tracker that shows a zipper.
abbrev pub shown : Zipper → Bool → BufferTracker
shown (l, r) a = record { buffer = rev_onto l r; cursor = length l; active = a }

rev_onto-append : (l r : Text) → rev_onto l r ≡ rev_onto l [] ++ r
rev_onto-append [] r = refl
rev_onto-append (c ∷ l) r =
    rev_onto-append l (c ∷ r)
    ∙ sym (append_assoc (rev_onto l []) (c ∷ []) r)
    ∙ ap (λ t. t ++ r) (sym (rev_onto-append l (c ∷ [])))

length-rev_onto : (l r : Text) → length (rev_onto l r) ≡ length l + length r
length-rev_onto [] r = omega arith
length-rev_onto (c ∷ l) r = omega (arith, length-rev_onto l (c ∷ r))

length-front : (l : Text) → length l ≡ length (rev_onto l [])
length-front l = omega (arith, length-rev_onto l [])

take-rev_onto : (l r : Text) → take (length l) (rev_onto l r) ≡ rev_onto l []
take-rev_onto l r = rw (rev_onto-append l r, length-front l) (take-length-append (rev_onto l []) r)

drop-rev_onto : (l r : Text) → drop (length l) (rev_onto l r) ≡ r
drop-rev_onto l r = rw (rev_onto-append l r, length-front l) (drop-length-append (rev_onto l []) r)

suc_sub_one : (n : ℕ) → suc n - 1 ≡ n
suc_sub_one n = omega arith

shown-edit : (z : Zipper) (a : Bool) (e : KeyEvent) → edit (shown z a) e ≡ shown (act z e) a
unfolding edit
shown-edit (l, r) a (char c) =
    rw (take-rev_onto l r, drop-rev_onto l r, ← rev_onto-append l (c ∷ r)) (ground arith)
shown-edit ([], r) a backspace = refl
shown-edit (c ∷ l, r) a backspace = rw (
  suc_sub_one (length l),
  take-rev_onto l (c ∷ r),
  drop-rev_onto (c ∷ l) r,
  ← rev_onto-append l r,
)
shown-edit (l, []) a arrow_right = ground (arith, length-rev_onto l [])
shown-edit (l, c ∷ r) a arrow_right = ground (arith, length-rev_onto l (c ∷ r))
shown-edit ([], r) a arrow_left = refl
shown-edit (c ∷ l, r) a arrow_left = rw (suc_sub_one (length l))
shown-edit (l, r) a enter = refl
shown-edit (l, r) a ctrl_c = refl
shown-edit z a _ = refl

-- The tracker refines the editor: on a tracker that shows a zipper each key does what it does to
-- the zipper, without a panic.
pub on_key-act :
    (z : Zipper) (a : Bool) (e : KeyEvent)
    → on_key (shown z a) e ≡ some (shown (act z e) a, changes (shown z a) e)
on_key-act z a e =
    on_key-eq-edit (shown z a) e ∙ ap (λ t. some (t, changes (shown z a) e)) (shown-edit z a e)

rev_onto-rev_onto : (l m r : Text) → rev_onto (rev_onto l m) r ≡ rev_onto m (l ++ r)
rev_onto-rev_onto [] m r = refl
rev_onto-rev_onto (c ∷ l) m r = rev_onto-rev_onto l (c ∷ m) r

-- The zipper at the cursor.
abbrev pub zipper_of : BufferTracker → Zipper
zipper_of t = (rev_onto (take t.cursor t.buffer) [], drop t.cursor t.buffer)

-- Each tracker whose cursor stands in its buffer shows the zipper at its cursor.
pub shown-zipper_of : (t : BufferTracker) → IsValid t → t ≡ shown (zipper_of t) t.active
shown-zipper_of t v =
    let p : t.buffer ≡ rev_onto (rev_onto (take t.cursor t.buffer) []) (drop t.cursor t.buffer) =
      sym (
        rev_onto-rev_onto (take t.cursor t.buffer) [] (drop t.cursor t.buffer)
        ∙ take-append-drop t.cursor t.buffer) in
    let q : t.cursor ≡ length (rev_onto (take t.cursor t.buffer) []) =
      omega (arith, length-rev_onto (take t.cursor t.buffer) [], length-take t.cursor t.buffer) in
    λ i. record { buffer = p i; cursor = q i; active = t.active }

-- From a tracker with a valid cursor each key does what it does to the zipper at the cursor.
pub on_key-zipper_of :
    (t : BufferTracker) (e : KeyEvent)
    → IsValid t
    → on_key t e ≡ some (shown (act (zipper_of t) e) t.active, changes t e)
on_key-zipper_of t e v =
    let p = shown-zipper_of t v in
    ap (λ u. on_key u e) p
    ∙ on_key-act (zipper_of t) t.active e
    ∙ ap (λ u. some (shown (act (zipper_of t) e) t.active, changes u e)) (sym p)
