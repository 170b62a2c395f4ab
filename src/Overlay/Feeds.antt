-- ===== src/Overlay/Feeds.antt =====
-- The line feeds of the texts that the popup is made of.
use tabra.Prelude.{
  ℕ, zero, suc, ◌+◌, ◌-◌, ◌≡◌, refl, ◌≤◌, false, [], ◌∷◌, ◌++◌, Text, ◌==◌, if◌then◌else◌, length,
  take, replicate, arith, decimal, repeat_text, decimal-IsDigit, codes, All,
}
use tabra.Protocol.{CompletionItem}
use tabra.Overlay.{
  Ansi, truncate, next_line, hide_and_save, restore_and_show, name_display, remaining,
  description_text, row_rest, kind_icon_ascii,
}

-- The number of line feeds.
unfoldable pub feeds : Text → ℕ
feeds [] = 0
feeds (c ∷ s) = (if c == b'\n' then 1 else 0) + feeds s

pub feeds-append : (s t : Text) → feeds (s ++ t) ≡ feeds s + feeds t
unfolding feeds
feeds-append [] t = omega arith
feeds-append (c ∷ s) t = omega (arith, feeds-append s t)

pub feeds-take-le : (n : ℕ) (s : Text) → feeds (take n s) ≤ feeds s
unfolding feeds
feeds-take-le zero s = omega arith
feeds-take-le (suc n) [] = omega arith
feeds-take-le (suc n) (c ∷ s) = omega (arith, feeds-take-le n s)

pub feeds-replicate : (n c : ℕ) → (c == b'\n') ≡ false → feeds (replicate n c) ≡ 0
unfolding feeds
feeds-replicate zero c h = refl
feeds-replicate (suc n) c h = ground (arith, feeds-replicate n c h)

pub feeds-next_line : feeds next_line ≡ 1
unfolding feeds
feeds-next_line = refl

pub feeds-repeat_text : (n : ℕ) → feeds (repeat_text n next_line) ≡ n
feeds-repeat_text zero = unfold feeds in refl
feeds-repeat_text (suc n) =
    omega (
      arith,
      feeds-append next_line (repeat_text n next_line),
      feeds-next_line,
      feeds-repeat_text n,
    )

pub feeds-digits : (s : Text) → All (λ c. b'0' ≤ c) s → feeds s ≡ 0
unfolding feeds
feeds-digits [] h = refl
feeds-digits (c ∷ s) h = let e : b'0' ≤ c = h.0 in let r = feeds-digits s h.1 in ground arith

pub feeds-decimal : (n : ℕ) → feeds (decimal n) ≡ 0
feeds-decimal n = feeds-digits (decimal n) (decimal-IsDigit n)

pub feeds_char : (c : ℕ) (s : Text) → (c == b'\n') ≡ false → feeds (c ∷ s) ≡ feeds s
unfolding feeds
feeds_char c s h = ground arith

pub feeds_nil : feeds [] ≡ 0
unfolding feeds
feeds_nil = refl

pub feeds-truncate-le : (s : Text) (n : ℕ) → feeds (truncate s n) ≤ feeds s
unfolding truncate
feeds-truncate-le s n = ground (
  arith,
  feeds-append (take (n - 1) s) (0x2026 ∷ []),
  feeds-take-le (n - 1) s,
  feeds_char 0x2026 [] refl,
  feeds_nil,
)

-- An item whose texts are single lines.
pub record IsSingleLine (item : CompletionItem) : Type 0 where
  pub display : feeds item.display ≡ 0
  pub description : feeds item.description ≡ 0

-- The colour sequences hold no line feed.
pub record IsQuiet (a : Ansi) : Type 0 where
  pub foreground : (c : a.Color) → feeds (a.set_foreground c) ≡ 0
  pub background : (c : a.Color) → feeds (a.set_background c) ≡ 0
  pub bold : feeds a.bold ≡ 0
  pub attribute : feeds a.reset_attribute ≡ 0

pub feeds-description_text :
    (width : ℕ) (item : CompletionItem)
    → IsSingleLine item
    → feeds (description_text width item) ≡ 0
unfolding description_text
feeds-description_text width item l =
    let r = remaining width item in
    let desc = truncate item.description (r - 3) in
    omega (
      arith,
      feeds-append (replicate (r - length desc - 3) b' ') (b' ' ∷ (desc ++ b' ' ∷ [])),
      feeds-replicate (r - length desc - 3) b' ' refl,
      feeds_char b' ' (desc ++ b' ' ∷ []) refl,
      feeds-append desc (b' ' ∷ []),
      feeds_char b' ' [] refl,
      feeds_nil,
      feeds-truncate-le item.description (r - 3),
      l.description,
    )

pub feeds-row_rest :
    (width : ℕ) (item : CompletionItem) → IsSingleLine item → feeds (row_rest width item) ≡ 0
unfolding row_rest
feeds-row_rest width item l =
    ground
      (arith, feeds-description_text width item l, feeds-replicate (remaining width item) b' ' refl)

pub feeds-name_display :
    (width : ℕ) (item : CompletionItem) → IsSingleLine item → feeds (name_display width item) ≡ 0
unfolding name_display
feeds-name_display width item l =
    omega (arith, feeds-truncate-le item.display (width - 4), l.display)

pub feeds_icon : (item : CompletionItem) → feeds (kind_icon_ascii item.kind ∷ b' ' ∷ []) ≡ 0
unfolding feeds kind_icon_ascii
feeds_icon item = ground arith

pub feeds_constants :
    (feeds hide_and_save ≡ 0)
    × (feeds (codes "\u{1b}[0m" ++ restore_and_show) ≡ 0)
    × (feeds restore_and_show ≡ 0)
unfolding feeds
feeds_constants = (refl, refl, refl)
