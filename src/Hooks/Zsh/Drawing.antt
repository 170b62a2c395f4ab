-- ===== src/Hooks/Zsh/Drawing.antt =====
-- What the zsh hook draws, and what it erases.
use tabra.Prelude.{
  ℕ, zero, suc, ◌+◌, ◌≡◌, ◌≤◌, min, refl, ap, ◌∙◌, Bool, true, false, ◌&&◌, List, [], ◌∷◌, ◌++◌,
  Text, arith, if◌then◌else◌, ◌==◌, replicate, All,
}
use tabra.Client.Reading.{Without}
use tabra.Hooks.{Hook, Effect, print, rows_up, element, is_set}
use tabra.Hooks.Zsh.{cleared_row, row, rows, draw}
use tabra.Hooks.Zsh.Accept.{erasing}

abbrev feeds_of : Text → ℕ
feeds_of [] = 0
feeds_of (c ∷ s) = if c == 0x0a then suc (feeds_of s) else feeds_of s

-- By how many rows the cursor goes down, and up.
unfoldable pub rows_down : List Effect → ℕ
rows_down [] = 0
rows_down (print s ∷ out) = feeds_of s + rows_down out
rows_down (_ ∷ out) = rows_down out

unfoldable pub rows_back : List Effect → ℕ
rows_back [] = 0
rows_back (rows_up n ∷ out) = n + rows_back out
rows_back (_ ∷ out) = rows_back out

feeds_of-append : (s t : Text) → feeds_of (s ++ t) ≡ feeds_of s + feeds_of t
feeds_of-append [] t = omega arith
feeds_of-append (c ∷ s) t = ground (arith, feeds_of-append s t)

feeds_of-Without : (s : Text) → Without 0x0a s → feeds_of s ≡ 0
feeds_of-Without [] w = refl
feeds_of-Without (c ∷ s) w = ground (arith, feeds_of-Without s w.1, w.0)

down-append : (a b : List Effect) → rows_down (a ++ b) ≡ rows_down a + rows_down b
unfolding rows_down
down-append [] b = omega arith
down-append (e ∷ a) b = ground (arith, down-append a b)

back-append : (a b : List Effect) → rows_back (a ++ b) ≡ rows_back a + rows_back b
unfolding rows_back
back-append [] b = omega arith
back-append (e ∷ a) b = ground (arith, back-append a b)

feeds_behind : (s t : Text) → feeds_of s ≡ 0 → feeds_of (s ++ t) ≡ feeds_of t
feeds_behind s t h = omega (arith, feeds_of-append s t, h)

-- A row of texts without line feeds goes down by one row.
row_feeds :
    (chosen : Bool) (display desc : Text)
    → feeds_of display ≡ 0
    → feeds_of desc ≡ 0
    → feeds_of (row chosen display desc) ≡ 1
unfolding row
row_feeds true display [] a b = feeds_behind display _ a
row_feeds false display [] a b = feeds_behind display _ a
row_feeds true display (c ∷ desc) a b = feeds_behind display _ a ∙ feeds_behind (c ∷ desc) _ b
row_feeds false display (c ∷ desc) a b = feeds_behind display _ a ∙ feeds_behind (c ∷ desc) _ b

-- The texts that are drawn have no line feeds.
abbrev pub IsClean : Hook → Type 0
IsClean h = All (Without 0x0a) h.displays × All (Without 0x0a) h.descs

element_clean : (a : List Text) (i : ℕ) → All (Without 0x0a) a → feeds_of (element a i) ≡ 0
element_clean [] i w = refl
element_clean (s ∷ a) zero w = feeds_of-Without s w.0
element_clean (s ∷ a) (suc i) w = element_clean a i w.1

rows_down-rows : (h : Hook) (i n : ℕ) → IsClean h → rows_down (rows h i n) ≡ n
unfolding rows_down rows
rows_down-rows h i zero w = refl
rows_down-rows h i (suc n) w = omega (
  arith,
  row_feeds (i == h.selected) (element h.displays i) (element h.descs i)
      (element_clean h.displays i w.0) (element_clean h.descs i w.1),
  rows_down-rows h (i + 1) n w,
)

rows_back-rows : (h : Hook) (i n : ℕ) → rows_back (rows h i n) ≡ 0
unfolding rows_back rows
rows_back-rows h i zero = refl
rows_back-rows h i (suc n) = rows_back-rows h (i + 1) n

cleared_feeds :
    (n : ℕ) → (rows_down (replicate n cleared_row) ≡ n) × (rows_back (replicate n cleared_row) ≡ 0)
unfolding rows_down rows_back
cleared_feeds zero = (refl, refl)
cleared_feeds (suc n) = (omega (arith, (cleared_feeds n).0), (cleared_feeds n).1)

down_up_only : (k : ℕ) → rows_down (rows_up k ∷ []) ≡ 0
unfolding rows_down
down_up_only k = refl

back_up_only : (k : ℕ) → rows_back (rows_up k ∷ []) ≡ k
unfolding rows_back
back_up_only k = omega arith

down_feed : (out : List Effect) → rows_down (print (0x0a ∷ []) ∷ out) ≡ suc (rows_down out)
unfolding rows_down
down_feed out = omega arith

back_feed : (out : List Effect) → rows_back (print (0x0a ∷ []) ∷ out) ≡ rows_back out
unfolding rows_back
back_feed out = refl

erasing_moves :
    (k : ℕ)
    → (rows_down (replicate k cleared_row ++ rows_up k ∷ []) ≡ k)
      × (rows_back (replicate k cleared_row ++ rows_up k ∷ []) ≡ k)
erasing_moves k = (
  omega (
    arith,
    down-append (replicate k cleared_row) (rows_up k ∷ []),
    (cleared_feeds k).0,
    down_up_only k,
  ),
  omega (
    arith,
    back-append (replicate k cleared_row) (rows_up k ∷ []),
    (cleared_feeds k).1,
    back_up_only k,
  ),
)

-- Where the hook draws the rows itself, with texts without line feeds, it goes down by one row more
-- than it draws and comes back by as many, and erasing that popup clears all of them and comes back
-- by as many rows as it goes down.
pub draw_returns :
    (h : Hook) (n : ℕ)
    → IsClean h
    → (is_set h.rendered_popup && h.selected == 0) ≡ false
    → (rows_down (draw h n) ≡ n + 1)
      × (rows_back (draw h n) ≡ n + 1)
      × (rows_down (erasing (record h { popup_lines = n })) ≡ n + 2)
      × (rows_back (erasing (record h { popup_lines = n })) ≡ n + 2)
unfolding draw
draw_returns h n w e =
    let down : rows_down (rows h 0 n ++ rows_up (n + 1) ∷ []) ≡ n = omega (
      arith,
      down-append (rows h 0 n) (rows_up (n + 1) ∷ []),
      rows_down-rows h 0 n w,
      down_up_only (n + 1),
    ) in
    let back : rows_back (rows h 0 n ++ rows_up (n + 1) ∷ []) ≡ n + 1 = omega (
      arith,
      back-append (rows h 0 n) (rows_up (n + 1) ∷ []),
      rows_back-rows h 0 n,
      back_up_only (n + 1),
    ) in
    rw e (
      down_feed _ ∙ ap suc down ∙ (let k : suc n ≡ n + 1 = omega arith in k),
      back_feed _ ∙ back,
      (erasing_moves (n + 2)).0,
      (erasing_moves (n + 2)).1,
    )

rows_unchosen :
    (h : Hook) (j k i n : ℕ)
    → i + n ≤ j
    → i + n ≤ k
    → rows (record h { selected = j }) i n ≡ rows (record h { selected = k }) i n
unfolding rows
rows_unchosen h j k i zero a b = refl
rows_unchosen h j k i (suc n) a b =
    rw
      (
        (let e : (i == j) ≡ false = ground arith in e),
        (let e : (i == k) ≡ false = ground arith in e),
        rows_unchosen h j k (i + 1) n (omega arith) (omega arith),
      )
      refl

-- The rows drawn are the first ten, whatever is selected: with more than ten items, going down from
-- the tenth draws the same rows for every item behind it, none of them marked.
pub draw_unmarked :
    (h : Hook) (j k : ℕ)
    → 10 ≤ j
    → 10 ≤ k
    → draw (record h { selected = j }) (min h.item_count 10)
      ≡ draw (record h { selected = k }) (min h.item_count 10)
unfolding draw
draw_unmarked h j k a b =
    let n = min h.item_count 10 in
    ground (arith, rows_unchosen h j k 0 n (omega arith) (omega arith))
