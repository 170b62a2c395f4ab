-- ===== src/Client/Reading.antt =====
-- The shell's reading of the client's lines.
use tabra.Prelude.{
  ℕ, zero, suc, ◌≡◌, refl, ap, ◌∙◌, Bool, false, List, [], ◌∷◌, ◌++◌, Option, Text, map, length,
  arith, if◌then◌else◌, ◌==◌, All, decimal, decimal-IsDigit, IsDigit,
}
use mathlib.Core.List.{append_assoc}
use tabra.Protocol.{CompletionItem, completions}
use tabra.Client.{sanitize, item_line, item_lines, popup_part, print_shell}

-- The text before the first `c`, and the text behind it.
abbrev pub until : ℕ → Text → Text × Text
until c [] = ([], [])
until c (x ∷ s) = let (l, r) = until c s in if x == c then ([], s) else (x ∷ l, r)

-- The fields of a line: up to a tab, up to a tab, and up to the line feed.
unfoldable pub read_item : Text → (Text × (Text × Text)) × Text
read_item s =
    let (display, s₁) = until 0x09 s in
    let (insert, s₂) = until 0x09 s₁ in
    let (description, s₃) = until 0x0a s₂ in ((display, (insert, description)), s₃)

unfoldable pub read_items : ℕ → Text → List (Text × (Text × Text)) × Text
read_items zero s = ([], s)
read_items (suc n) s =
    let (item, rest) = read_item s in
    let (items, rest') = read_items n rest in (item ∷ items, rest')

abbrev pub Without : ℕ → Text → Type 0
Without c s = All (λ x. (x == c) ≡ false) s

pub until-append : (c : ℕ) (s t : Text) → Without c s → until c (s ++ c ∷ t) ≡ (s, t)
until-append c [] t a = ground arith
until-append c (x ∷ s) t a = rw (until-append c s t a.1, a.0) refl

pub sanitize-tab : (s : Text) → Without 0x09 (sanitize s)
unfolding sanitize
sanitize-tab [] = tt
sanitize-tab (c ∷ s) = (ground arith, sanitize-tab s)

pub sanitize-feed : (s : Text) → Without 0x0a (sanitize s)
unfolding sanitize
sanitize-feed [] = tt
sanitize-feed (c ∷ s) = (ground arith, sanitize-feed s)

pub digits-Without : (s : Text) → All IsDigit s → Without 0x0a s
digits-Without [] a = tt
digits-Without (c ∷ s) a = (ground (arith, a.0), digits-Without s a.1)

-- The fields that the shell is meant to get.
abbrev pub fields_of : CompletionItem → Text × (Text × Text)
fields_of i = (sanitize i.display, (sanitize i.insert, sanitize i.description))

pub line-append :
    (i : CompletionItem) (t : Text)
    → item_line i ++ t
      ≡ sanitize i.display
        ++ 0x09 ∷ (sanitize i.insert ++ 0x09 ∷ (sanitize i.description ++ 0x0a ∷ t))
unfolding item_line
line-append i t =
    append_assoc (sanitize i.display) _ t
    ∙ ap (λ x. sanitize i.display ++ 0x09 ∷ x)
        (append_assoc (sanitize i.insert) _ t
          ∙ ap (λ x. sanitize i.insert ++ 0x09 ∷ x)
              (append_assoc (sanitize i.description) (0x0a ∷ []) t))

read_item-line : (i : CompletionItem) (t : Text) → read_item (item_line i ++ t) ≡ (fields_of i, t)
unfolding read_item
read_item-line i t = rw (line-append i t) (
    rw (until-append 0x09 (sanitize i.display) _ (sanitize-tab i.display)) (
      rw (until-append 0x09 (sanitize i.insert) _ (sanitize-tab i.insert))
        (rw (until-append 0x0a (sanitize i.description) t (sanitize-feed i.description)) refl)))

read_items-lines :
    (is : List CompletionItem) (t : Text)
    → read_items (length is) (item_lines is ++ t) ≡ (map fields_of is, t)
unfolding item_lines read_items
read_items-lines [] t = refl
read_items-lines (i ∷ is) t =
    rw
      (
        append_assoc (item_line i) (item_lines is) t,
        read_item-line i (item_lines is ++ t),
        read_items-lines is t,
      )
      refl

-- The first line that is printed is the number of the items, and reading that many lines behind it,
-- three fields each, gives the items' texts with blanks for tabs and line breaks, whatever
-- characters they hold, and leaves the popup.
pub print_shell-reads :
    (render : Bool) (items : List CompletionItem) (selected : ℕ) (query : Text)
    (popup : Option Text)
    → (until 0x0a (print_shell render (completions items selected query popup))
        ≡ (decimal (length items), item_lines items ++ popup_part render popup))
      × (read_items (length items) (item_lines items ++ popup_part render popup)
          ≡ (map fields_of items, popup_part render popup))
unfolding print_shell
print_shell-reads render items selected query popup = (
  until-append 0x0a (decimal (length items)) _
      (digits-Without (decimal (length items)) (decimal-IsDigit (length items))),
  read_items-lines items (popup_part render popup),
)
