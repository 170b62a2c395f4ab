-- ===== src/Hooks.antt =====
-- What the three shell hooks share: the variables of the scripts in src/shell/hook.rs,
-- src/shell/bash_hook.rs and src/shell/fish_hook.rs, what a script does to the outside, and the
-- operations of the shells on texts. A shell's text is a list of characters, and its indices count
-- characters.
pub mod Screen
pub mod Zsh
pub mod Bash
pub mod Fish
pub mod Texts
use tabra.Prelude.{
  ℕ, zero, suc, ◌+◌, ◌-◌, ◌*◌, Bool, true, false, ◌&&◌, List, [], ◌∷◌, ◌++◌, Option, none, some,
  Text, if◌then◌else◌, ◌==◌, within, is_empty, get_elem?,
}

-- The variables of a hook, and the line editor's line and cursor.
pub record Hook : Type 0 where
  pub popup_visible : Bool
  pub popup_lines : ℕ
  pub selected : ℕ
  pub item_count : ℕ
  pub displays : List Text
  pub inserts : List Text
  pub descs : List Text
  pub rendered_popup : Text
  pub buffer : Text
  pub cursor : ℕ

-- What a function of a script does besides: texts printed, the cursor moved up by rows, messages
-- to the daemon, and widgets of the line editor that it calls.
pub data Effect : Type 0 where
  print : Text → Effect
  rows_up : ℕ → Effect
  send_accept : Text → Effect
  send_dismiss : Effect
  up_line_or_history : Effect
  down_line_or_history : Effect
  send_break : Effect

-- `$(command)`: the output without the line feeds at its end.
unfoldable pub substituted : Text → Text
substituted [] = []
substituted (c ∷ s) =
    let rest = substituted s in if c == 0x0a && is_empty rest then [] else c ∷ rest

abbrev pub cons_before : ℕ → Text × Option Text → Text × Option Text
cons_before c (before, after) = (c ∷ before, after)

-- `${s%%$'\n\n'*}`, and `${s#*$'\n\n'}` where there is a blank line.
unfoldable pub split_blank_line : Text → Text × Option Text
split_blank_line [] = ([], none)
split_blank_line (c ∷ []) = (c ∷ [], none)
split_blank_line (c ∷ d ∷ s) =
    let rest = split_blank_line (d ∷ s) in
    if c == 0x0a && d == 0x0a then ([], some s) else cons_before c rest

abbrev pub cons_first : ℕ → List Text → List Text
cons_first c [] = (c ∷ []) ∷ []
cons_first c (l ∷ ls) = (c ∷ l) ∷ ls

-- A text at each `sep`, `"${(@f)s}"` and `mapfile -t <<< "$s"` for the line feed.
unfoldable pub split_on : ℕ → Text → List Text
split_on sep [] = [] ∷ []
split_on sep (c ∷ s) =
    let rest = split_on sep s in if c == sep then [] ∷ rest else cons_first c rest

-- An arithmetic value. The client prints digits; another text counts as 0.
unfoldable pub number_from : ℕ → Text → ℕ
number_from n [] = n
number_from n (c ∷ s) =
    let rest = number_from (n * 10 + (c - b'0')) s in if within b'0' b'9' c then rest else 0

abbrev pub number : Text → ℕ
number s = number_from 0 s

-- An element of an array: a missing one is empty.
abbrev pub or_empty : Option Text → Text
or_empty none = []
or_empty (some s) = s

abbrev pub element : List Text → ℕ → Text
element a i = or_empty (get_elem? a i)

-- `! -z`, `-n`.
abbrev pub is_set : Text → Bool
is_set [] = false
is_set (c ∷ s) = true
