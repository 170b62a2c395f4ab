-- ===== src/Hooks/Zsh/Typing.antt =====
-- From the client's answer to the accepted text: `fetch_and_render` and then `accept`.
use tabra.Prelude.{ℕ, ◌≡◌, ◌<◌, refl, ap, sym, subst, ◌∙◌, true, List, ◌∷◌, Option, Text, arith}
use tabra.Protocol.{CompletionItem, completions}
use tabra.Client.{sanitize, print_shell}
use tabra.Hooks.{Hook}
use tabra.Hooks.Zsh.{erase_popup, render_popup, show_items, shown, fetch_and_render, accept}
use tabra.Hooks.Zsh.Reading.{items_of, popup_of, fetch_and_render-print_shell}
use tabra.Hooks.Zsh.Accept.{Replaced, accept-Replaced}

show_items_lem : (h : Hook) → 0 < h.item_count → (show_items h).0 ≡ shown h
unfolding show_items render_popup erase_popup
show_items_lem h n = ground arith

-- The variables behind the fetching of items.
abbrev fetched : CompletionItem → List CompletionItem → Option Text → Hook → Hook
fetched i is popup h =
    shown (items_of (i ∷ is) (record h { selected = 0; rendered_popup = popup_of popup }))

fetch-fetched :
    (i : CompletionItem) (is : List CompletionItem) (selected : ℕ) (query : Text)
    (popup : Option Text) (h : Hook)
    → (fetch_and_render (print_shell true (completions (i ∷ is) selected query popup)) h).0
      ≡ fetched i is popup h
fetch-fetched i is selected query popup h =
    ap (λ r. r.0) (fetch_and_render-print_shell (i ∷ is) selected query popup h)
    ∙ show_items_lem
        (items_of (i ∷ is) (record h { selected = 0; rendered_popup = popup_of popup }))
        (omega arith)

-- When the client has printed completions, whatever popup was open before, Tab puts the first
-- item's text, with blanks for tabs and line breaks, in the place of the word that the cursor is
-- in, and the line outside that word stays as it was typed.
pub fetch-accept :
    (i : CompletionItem) (is : List CompletionItem) (selected : ℕ) (query : Text)
    (popup : Option Text) (h : Hook) (c : ℕ) (s : Text)
    → sanitize i.insert ≡ c ∷ s
    → let t =
        (fetch_and_render (print_shell true (completions (i ∷ is) selected query popup)) h).0 in
      (t.buffer ≡ h.buffer) × (t.cursor ≡ h.cursor) × Replaced t (c ∷ s) (accept t).0
fetch-accept i is selected query popup h c s e =
    subst (λ t. (t.buffer ≡ h.buffer) × (t.cursor ≡ h.cursor) × Replaced t (c ∷ s) (accept t).0)
      (sym (fetch-fetched i is selected query popup h))
      (refl, refl, (accept-Replaced (fetched i is popup h) c s refl (omega arith) e).0)
