-- ===== src/Hooks/Texts.antt =====
-- The shells' operations on texts: trailing line feeds, blank lines, lines and numbers.
use tabra.Prelude.{
  ℕ, zero, suc, ◌+◌, ◌-◌, ◌*◌, ◌/◌, ◌%◌, ◌≤◌, ◌<◌, ◌≡◌, refl, ap, sym, ◌∙◌, true, false, List, [],
  ◌∷◌, ◌++◌, Option, Text, arith, inl, inr, Bool-cases, ◌==◌, ltb, is_empty, All, decimal,
  digits_onto,
}
use mathlib.Core.List.{append_assoc, append-nil}
use tabra.Client.Reading.{Without}
use tabra.Hooks.{substituted, cons_before, split_blank_line, split_on, number_from, number, is_set}

-- A line: characters, and none of them a line feed.
abbrev pub IsLine : Text → Type 0
IsLine l = Without 0x0a l × (is_set l ≡ true)

-- Lines with a line feed behind each, and with line feeds between them.
abbrev pub unlines : List Text → Text
unlines [] = []
unlines (l ∷ ls) = l ++ 0x0a ∷ unlines ls

unfoldable pub joined : Text → List Text → Text
joined l [] = l
joined l (m ∷ ls) = l ++ 0x0a ∷ joined m ls

pub unlines-joined : (l : Text) (ls : List Text) → unlines (l ∷ ls) ≡ joined l ls ++ 0x0a ∷ []
unfolding joined
unlines-joined l [] = refl
unlines-joined l (m ∷ ls) =
    ap (λ t. l ++ 0x0a ∷ t) (unlines-joined m ls)
    ∙ sym (append_assoc l (0x0a ∷ joined m ls) (0x0a ∷ []))

substituted_tail :
    (s t : Text) → is_empty (substituted t) ≡ true → substituted (s ++ t) ≡ substituted s
unfolding substituted
substituted_tail [] t h = ground arith
substituted_tail (c ∷ s) t h = rw (substituted_tail s t h) refl

substituted_kept :
    (s t : Text)
    → is_empty (substituted t) ≡ false
    → (substituted (s ++ t) ≡ s ++ substituted t) × (is_empty (substituted (s ++ t)) ≡ false)
unfolding substituted
substituted_kept [] t h = (refl, h)
substituted_kept (c ∷ s) t h = ground (arith, substituted_kept s t h)

substituted_line : (c : ℕ) (s : Text) → Without 0x0a (c ∷ s) → substituted (c ∷ s) ≡ c ∷ s
unfolding substituted
substituted_line c [] w = rw (w.0) refl
substituted_line c (d ∷ s) w = rw (substituted_line d s w.1, w.0) refl

substituted-joined :
    (l : Text) (ls : List Text)
    → IsLine l
    → All IsLine ls
    → (substituted (joined l ls) ≡ joined l ls) × (is_empty (substituted (joined l ls)) ≡ false)
unfolding joined
substituted-joined [] ls w a = cc
substituted-joined (c ∷ l) [] w a = let e = substituted_line c l w.0 in (e, ap is_empty e)
substituted-joined (c ∷ l) (m ∷ ls) w a =
    let ih = substituted-joined m ls a.0 a.1 in
    let k = substituted_kept (0x0a ∷ []) (joined m ls) ih.1 in
    let e = substituted_kept (c ∷ l) (0x0a ∷ joined m ls) k.1 in
    (e.0 ∙ ap (λ t. (c ∷ l) ++ t) (k.0 ∙ ap (λ t. 0x0a ∷ t) ih.0), e.1)

pub nil_of_is_empty : (s : Text) → is_empty s ≡ true → s ≡ []
nil_of_is_empty [] h = refl
nil_of_is_empty (c ∷ s) h = cc

-- Lines stay with a text behind them.
pub substituted-lines :
    (l : Text) (ls : List Text) (t : Text)
    → IsLine l
    → All IsLine ls
    → substituted (joined l ls ++ t) ≡ joined l ls ++ substituted t
substituted-lines l ls t w a = elim (Bool-cases (is_empty (substituted t))) [
  | inl e ↦
      substituted_tail (joined l ls) t e
      ∙ (substituted-joined l ls w a).0
      ∙ sym (append-nil (joined l ls))
      ∙ ap (λ u. joined l ls ++ u) (sym (nil_of_is_empty (substituted t) e))
  | inr e ↦ (substituted_kept (joined l ls) t e).0
]

abbrev pub behind : Text → Text × Option Text → Text × Option Text
behind s (before, after) = (s ++ before, after)

behind-behind :
    (l s : Text) (p : Text × Option Text)
    → behind l (cons_before 0x0a (behind s p)) ≡ behind (l ++ 0x0a ∷ s) p
behind-behind l s (before, after) = rw (append_assoc l (0x0a ∷ s) before) refl

split_character :
    (c : ℕ) (s : Text)
    → (c == 0x0a) ≡ false
    → split_blank_line (c ∷ s) ≡ cons_before c (split_blank_line s)
unfolding split_blank_line
split_character c [] h = refl
split_character c (d ∷ s) h = rw h refl

split_line :
    (l t : Text) → Without 0x0a l → split_blank_line (l ++ t) ≡ behind l (split_blank_line t)
split_line [] t w = refl
split_line (c ∷ l) t w = split_character c (l ++ t) w.0 ∙ ap (cons_before c) (split_line l t w.1)

split_feed :
    (c : ℕ) (s : Text)
    → (c == 0x0a) ≡ false
    → split_blank_line (0x0a ∷ c ∷ s) ≡ cons_before 0x0a (split_blank_line (c ∷ s))
unfolding split_blank_line
split_feed c s h = rw h refl

split_next :
    (m : Text) (ls : List Text) (t : Text)
    → IsLine m
    → split_blank_line (0x0a ∷ (joined m ls ++ t))
      ≡ cons_before 0x0a (split_blank_line (joined m ls ++ t))
unfolding joined
split_next [] ls t w = cc
split_next (c ∷ m) [] t w = split_feed c (m ++ t) (w.0).0
split_next (c ∷ m) (n ∷ ls) t w = split_feed c ((m ++ 0x0a ∷ joined n ls) ++ t) (w.0).0

-- Between lines there is no blank line.
pub split-joined :
    (l : Text) (ls : List Text) (t : Text)
    → IsLine l
    → All IsLine ls
    → split_blank_line (joined l ls ++ t) ≡ behind (joined l ls) (split_blank_line t)
unfolding joined
split-joined l [] t w a = split_line l t w.0
split-joined l (m ∷ ls) t w a =
    ap split_blank_line (append_assoc l (0x0a ∷ joined m ls) t)
    ∙ split_line l (0x0a ∷ (joined m ls ++ t)) w.0
    ∙ ap (behind l) (split_next m ls t a.0 ∙ ap (cons_before 0x0a) (split-joined m ls t a.0 a.1))
    ∙ behind-behind l (joined m ls) (split_blank_line t)

pub split_on-line : (sep : ℕ) (l : Text) → Without sep l → split_on sep l ≡ l ∷ []
unfolding split_on
split_on-line sep [] w = refl
split_on-line sep (c ∷ l) w = rw (split_on-line sep l w.1, w.0) refl

pub split_on_next :
    (sep : ℕ) (l t : Text) → Without sep l → split_on sep (l ++ sep ∷ t) ≡ l ∷ split_on sep t
unfolding split_on
split_on_next sep [] t w = ground arith
split_on_next sep (c ∷ l) t w = rw (split_on_next sep l t w.1, w.0) refl

-- Joined lines are split into the lines.
pub split_on-joined :
    (l : Text) (ls : List Text) → IsLine l → All IsLine ls → split_on 0x0a (joined l ls) ≡ l ∷ ls
unfolding joined
split_on-joined l [] w a = split_on-line 0x0a l w.0
split_on-joined l (m ∷ ls) w a =
    split_on_next 0x0a l (joined m ls) w.0 ∙ ap (λ t. l ∷ t) (split_on-joined m ls a.0 a.1)

digit_cancel : (d : ℕ) → d + 48 - 48 ≡ d
digit_cancel d = omega arith

number_digit :
    (d n m : ℕ) (s : Text)
    → d < 10
    → n * 10 + d ≡ m
    → number_from n ((d + 48) ∷ s) ≡ number_from m s
unfolding number_from
number_digit d n m s h e = ground (arith, digit_cancel d, e)

number-digits_onto :
    (f n : ℕ) (s : Text) → n ≤ f → number_from 0 (digits_onto f n s) ≡ number_from n s
unfolding digits_onto
number-digits_onto zero n s h = number_digit (n % 10) 0 n s (omega arith) (omega arith)
number-digits_onto (suc f) n s h = elim (Bool-cases (ltb n 10)) [
  | inl e ↦ rw e (number_digit n 0 n s (ground arith) (omega arith))
  | inr e ↦ rw e (
      number-digits_onto f (n / 10) ((n % 10 + 48) ∷ s) (ground arith)
      ∙ number_digit (n % 10) (n / 10) n s (omega arith) (omega arith))
]

-- The shell reads the number that was printed.
pub number-decimal : (n : ℕ) → number (decimal n) ≡ n
unfolding decimal number_from
number-decimal n = number-digits_onto n n [] (omega arith)

is_set-digits_onto : (f n : ℕ) (s : Text) → is_set (digits_onto f n s) ≡ true
unfolding digits_onto
is_set-digits_onto zero n s = refl
is_set-digits_onto (suc f) n s = ground (arith, is_set-digits_onto f (n / 10) ((n % 10 + 48) ∷ s))

pub is_set-decimal : (n : ℕ) → is_set (decimal n) ≡ true
unfolding decimal
is_set-decimal n = is_set-digits_onto n n []
