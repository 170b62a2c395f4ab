-- ===== src/Hooks/Fish/Reading.antt =====
-- What the fish hook reads of what src/ipc/client.rs prints.
use tabra.Prelude.{
  subst, sym, ℕ, min, ◌≡◌, refl, ap, ◌∙◌, true, List, [], ◌∷◌, ◌++◌, map, Option, none, Text, arith,
  inl, inr, Bool-cases, if◌then◌else◌, length, decimal,
}
use mathlib.Core.List.{append_assoc, append-nil}
use tabra.Protocol.{CompletionItem, completions}
use tabra.Client.{popup_part, print_shell}
use tabra.Hooks.{Hook, Effect, print, split_on}
use tabra.Hooks.Texts
use tabra.Hooks.Texts.{IsLine, split_on-line, split_on_next, number-decimal}
use tabra.Hooks.Zsh.Reading.{line_of, line_of-IsLine, print_shell-joined, decimal-IsLine}
use tabra.Hooks.Fish.{
  erase_popup, parse_response, add_items, draw, render_popup, show_items, without_feed,
  output_lines, is_blank_list, string_join, joined, take_response, parts_of, fetch_and_render,
  accept, forgotten,
}

without_feed-append :
    (s : Text) (c : ℕ) (t : Text) → without_feed (s ++ c ∷ t) ≡ s ++ without_feed (c ∷ t)
unfolding without_feed
without_feed-append [] c t = refl
without_feed-append (d ∷ []) c t = refl
without_feed-append (d ∷ e ∷ s) c t = ap (λ u. d ∷ u) (without_feed-append (e ∷ s) c t)

-- The lines of a text that begins with a line, and of one that goes on behind it.
output_lines-last : (l : Text) → IsLine l → output_lines (l ++ 0x0a ∷ []) ≡ l ∷ []
unfolding output_lines without_feed
output_lines-last [] w = cc
output_lines-last (c ∷ l) w =
    ap (split_on 0x0a) (without_feed-append (c ∷ l) 0x0a [] ∙ append-nil (c ∷ l))
    ∙ split_on-line 0x0a (c ∷ l) w.0

output_lines-next :
    (l : Text) (c : ℕ) (t : Text)
    → IsLine l
    → output_lines (l ++ 0x0a ∷ c ∷ t) ≡ l ∷ output_lines (c ∷ t)
unfolding output_lines without_feed
output_lines-next [] c t w = cc
output_lines-next (d ∷ l) c t w =
    ap (split_on 0x0a) (without_feed-append (d ∷ l) 0x0a (c ∷ t))
    ∙ split_on_next 0x0a (d ∷ l) (without_feed (c ∷ t)) w.0

-- The first lines of a text.
Begins : List Text → List Text → Type 0
Begins front lines = (rest : List Text) × (lines ≡ front ++ rest)

Begins-line : (l t : Text) → IsLine l → Begins (l ∷ []) (output_lines (l ++ 0x0a ∷ t))
unfolding Begins
Begins-line l [] w = ([], output_lines-last l w)
Begins-line l (c ∷ t) w = (output_lines (c ∷ t), output_lines-next l c t w)

Begins-lines :
    (d l t : Text)
    → IsLine d
    → IsLine l
    → Begins (d ∷ l ∷ []) (output_lines (d ++ 0x0a ∷ (l ++ 0x0a ∷ t)))
unfolding Begins
Begins-lines d [] t w v = cc
Begins-lines d (c ∷ l) t w v =
    let (rest, e) = Begins-line (c ∷ l) t v in
    (rest, output_lines-next d c (l ++ 0x0a ∷ t) w ∙ ap (λ ls. d ∷ ls) e)

-- Joining and taking apart again keeps them.
Begins-joined :
    (d l : Text) (response : List Text)
    → IsLine d
    → IsLine l
    → Begins (d ∷ l ∷ []) response
    → Begins (d ∷ l ∷ []) (joined response)
unfolding Begins joined string_join
Begins-joined d l response w v (rest, e) = rw e (Begins-lines d l (string_join rest) w v)

joined-front :
    (m : Text) (ls : List Text) (p : Text)
    → (x : Text) × (Texts.joined m ls ++ 0x0a ∷ p ≡ m ++ 0x0a ∷ x)
unfolding Texts.joined
joined-front m [] p = (p, refl)
joined-front m (n ∷ ls) p =
    (Texts.joined n ls ++ 0x0a ∷ p, append_assoc m (0x0a ∷ Texts.joined n ls) (0x0a ∷ p))

module _ (i : CompletionItem) (is : List CompletionItem) (selected : ℕ) (query : Text)
    (popup : Option Text) where
  abbrev printed : Text
  printed = print_shell true (completions (i ∷ is) selected query popup)

  abbrev count : Text
  count = decimal (length (i ∷ is))

  Begins-printed : Begins (count ∷ line_of i ∷ []) (output_lines printed)
  unfolding Texts.joined
  Begins-printed =
      let t = 0x0a ∷ popup_part true popup in
      let (x, e) = joined-front (line_of i) (map line_of is) (popup_part true popup) in
      let q : printed ≡ count ++ 0x0a ∷ (line_of i ++ 0x0a ∷ x) =
        print_shell-joined (i ∷ is) selected query popup
        ∙ append_assoc count (0x0a ∷ Texts.joined (line_of i) (map line_of is)) t
        ∙ ap (λ u. count ++ 0x0a ∷ u) e in
      rw q (Begins-lines count (line_of i) x (decimal-IsLine (length (i ∷ is))) (line_of-IsLine i))

  -- What the script has read: the count, no item, and the first item's line as the popup.
  abbrev pub first_line_only : Hook → Hook
  first_line_only h = record h {
    selected = 0;
    rendered_popup = line_of i;
    displays = [];
    inserts = [];
    descs = [];
    item_count = length (i ∷ is);
  }

  parse-count :
      (h : Hook)
      → parse_response count h
        ≡ record h { displays = []; inserts = []; descs = []; item_count = length (i ∷ is) }
  unfolding parse_response add_items
  parse-count h =
      rw
        (
          split_on-line 0x0a count (decimal-IsLine (length (i ∷ is))).0,
          number-decimal (length (i ∷ is)),
        )
        (ground arith)

  take-first :
      (parts : List Text) (h : Hook)
      → Begins (count ∷ line_of i ∷ []) parts
      → take_response parts h ≡ show_items (first_line_only h)
  unfolding Begins
  take-first parts h (rest, e) = rw e (ap show_items (parse-count _))

  fetched :
      (h : Hook) (response : List Text)
      → Begins (count ∷ line_of i ∷ []) response
      → (if is_blank_list response
          then forgotten (erase_popup h)
          else take_response (parts_of (joined response)) h)
        ≡ show_items (first_line_only h)
  unfolding Begins
  fetched h response (rest, e) = rw e (
      take-first (joined (count ∷ line_of i ∷ rest)) h (
        Begins-joined count (line_of i) (count ∷ line_of i ∷ rest)
          (decimal-IsLine (length (i ∷ is))) (line_of-IsLine i) (rest, refl)))

  abbrev drawn : Hook → Hook × List Effect
  drawn h = (
    record (first_line_only h) { popup_visible = true; popup_lines = min (length (i ∷ is)) 10 },
    (erase_popup h).1 ++ print (line_of i) ∷ [],
  )

  shown-first : (h : Hook) → show_items (first_line_only h) ≡ drawn h
  unfolding show_items render_popup draw erase_popup
  shown-first h = elim (Bool-cases h.popup_visible) [
    | inl v ↦ ground (arith, (line_of-IsLine i).1)
    | inr v ↦ ground (arith, (line_of-IsLine i).1)
  ]

  accept-nothing : (h : Hook) → (accept (drawn h).0).1 ≡ (none, (erase_popup (drawn h).0).1)
  unfolding accept erase_popup
  accept-nothing h = ground arith

  -- The fish hook cannot read the client's answer, with GNU's `seq`: whatever items and popup it
  -- lists, the arrays stay empty, the popup is drawn as the line of the first item, tabs and all, and
  -- the Tab that follows puts nothing in the line and only erases the popup, since the substitution
  -- of `string join` takes the lines apart again and the script goes on with the first two.
  pub fetch_fish-first_line :
      (h : Hook)
      → (fetch_and_render printed h ≡ (
        record (first_line_only h) { popup_visible = true; popup_lines = min (length (i ∷ is)) 10 },
        (erase_popup h).1 ++ print (line_of i) ∷ [],
      ))
        × ((accept (fetch_and_render printed h).0).1
            ≡ (none, (erase_popup (fetch_and_render printed h).0).1))
  unfolding fetch_and_render
  fetch_fish-first_line h =
      let e = fetched h (output_lines printed) Begins-printed in
      let q = e ∙ shown-first h in
      (q, subst (λ r. (accept r.0).1 ≡ (none, (erase_popup r.0).1)) (sym q) (accept-nothing h))
