-- ===== src/Hooks/Bash/Widgets.antt =====
-- The functions of the bash hook against the widgets of the zsh hook, and its invariant.
use tabra.Prelude.{
  ◌+◌, ◌-◌, ◌%◌, ◌≡◌, ◌<◌, refl, ap, sym, subst, ◌∙◌, true, false, List, [], ◌∷◌, ◌++◌, Text, arith,
  inl, inr, Bool-cases, take, drop, length-append, length-take,
}
use tabra.Hooks.{Hook, Effect, element, is_set}
use tabra.Hooks.Zsh
use tabra.Hooks.Zsh.Invariant.{
  Inv, Half, closed-Inv, forgotten-Inv, fetch_and_render-Inv, insert_text-Half, up-Inv, down-Inv,
  Inv-Half, started_line-Inv,
}
use tabra.Hooks.Zsh.Accept.{accepting}
use tabra.Hooks.Bash.{
  erase_popup, closed, forgotten, fetch_and_render, insert_text, close_behind, accept, up, down,
  dismiss, inserted, self_insert, deleted, backward_delete, pre_prompt,
}
use tabra.Hooks.Bash.Events.{
  Event, typed, backspace, tab, ctrl_p, ctrl_n, ctrl_g, prompt, on_event, run,
}
use tabra.Hooks.Bash.Same.{erase_popup-zsh, render_popup-zsh, fetch_and_render-zsh, insert_text-zsh}

-- The variables with the popup's text forgotten.
abbrev pub without_popup : Hook × List Effect → Hook × List Effect
without_popup (h, out) = (record h { rendered_popup = [] }, out)

close_behind-zsh : (r : Hook × List Effect) → close_behind r ≡ without_popup (Zsh.close_behind r)
close_behind-zsh (h, sent) = rw (erase_popup-zsh h) refl

accepting_here :
    (h : Hook)
    → h.popup_visible ≡ true
    → 0 < h.item_count
    → accept h ≡ close_behind (insert_text (element h.inserts h.selected) h)
unfolding accept
accepting_here h v n = ground arith

accept-zsh :
    (h : Hook) → h.popup_visible ≡ true → 0 < h.item_count → accept h ≡ without_popup (Zsh.accept h)
accept-zsh h v n =
    accepting_here h v n
    ∙ ap close_behind (insert_text-zsh (element h.inserts h.selected) h)
    ∙ close_behind-zsh (Zsh.insert_text (element h.inserts h.selected) h)
    ∙ ap without_popup (sym (accepting h (element h.inserts h.selected) v n refl))

dismiss-zsh : (h : Hook) → h.popup_visible ≡ true → dismiss h ≡ without_popup (Zsh.dismiss h)
unfolding dismiss Zsh.dismiss
dismiss-zsh h v = rw (erase_popup-zsh h) (ground arith)

up-zsh : (h : Hook) → h.popup_visible ≡ true → up h ≡ Zsh.up h
unfolding up Zsh.up
up-zsh h v = ground (
  arith,
  render_popup-zsh (record h { selected = (h.selected + h.item_count - 1) % h.item_count }),
)

down-zsh : (h : Hook) → h.popup_visible ≡ true → down h ≡ Zsh.down h
unfolding down Zsh.down
down-zsh h v =
    ground (arith, render_popup-zsh (record h { selected = (h.selected + 1) % h.item_count }))

-- While the popup is visible, the keys of the bash hook do what those of the zsh hook do, with the
-- same texts and messages in the same order, but for the popup's text, which bash forgets when it
-- accepts or dismisses.
pub keys-zsh :
    (h : Hook)
    → h.popup_visible ≡ true
    → 0 < h.item_count
    → (on_event h tab ≡ without_popup (Zsh.accept h))
      × (on_event h ctrl_g ≡ without_popup (Zsh.dismiss h))
      × (on_event h ctrl_p ≡ Zsh.up h)
      × (on_event h ctrl_n ≡ Zsh.down h)
unfolding on_event
keys-zsh h v n = (accept-zsh h v n, dismiss-zsh h v, up-zsh h v, down-zsh h v)

-- The invariant says nothing of the popup's text.
without_popup-Inv : (r : Hook × List Effect) → Inv r.0 → Inv (without_popup r).0
without_popup-Inv (h, out) i = ground (arith, i)

fetched-Inv : (output : Text) (h : Hook) → Half h → Inv (fetch_and_render output h).0
fetched-Inv output h f =
    subst (λ r. Inv r.0) (sym (fetch_and_render-zsh output h)) (fetch_and_render-Inv output h f)

inserted-Half : (char : Text) (h : Hook) → Inv h → Half (inserted char h)
inserted-Half char h i = ground (
  arith,
  i,
  length-take h.cursor h.buffer,
  length-append char (drop h.cursor h.buffer),
  length-append (take h.cursor h.buffer) (char ++ drop h.cursor h.buffer),
)

deleted-Half : (h : Hook) → Inv h → Half (deleted h)
deleted-Half h i = ground (
  arith,
  i,
  length-take (h.cursor - 1) h.buffer,
  length-append (take (h.cursor - 1) h.buffer) (drop h.cursor h.buffer),
)

closed_here-Inv : (h : Hook) → Half h → Inv (closed (erase_popup h)).0
closed_here-Inv h f = subst (λ r. Inv (closed r).0) (sym (erase_popup-zsh h)) (closed-Inv h f)

forgotten_here-Inv : (h : Hook) → Half h → Inv (forgotten (erase_popup h)).0
forgotten_here-Inv h f =
    subst (λ r. Inv (forgotten r).0) (sym (erase_popup-zsh h)) (forgotten-Inv h f)

accept-Inv : (h : Hook) → Inv h → Inv (accept h).0
unfolding accept
accept-Inv h i = ground (
  arith,
  i,
  forgotten_here-Inv (insert_text (element h.inserts h.selected) h).0 (
      subst (λ r. Half r.0) (sym (insert_text-zsh (element h.inserts h.selected) h))
        (insert_text-Half (element h.inserts h.selected) h i)),
)

up_here-Inv : (h : Hook) → Inv h → Inv (up h).0
up_here-Inv h i = elim (Bool-cases h.popup_visible) [
  | inl v ↦ subst (λ r. Inv r.0) (sym (up-zsh h v)) (up-Inv h i)
  | inr v ↦ unfold up in simp v i
]

down_here-Inv : (h : Hook) → Inv h → Inv (down h).0
down_here-Inv h i = elim (Bool-cases h.popup_visible) [
  | inl v ↦ subst (λ r. Inv r.0) (sym (down-zsh h v)) (down-Inv h i)
  | inr v ↦ unfold down in simp v i
]

dismiss-Inv : (h : Hook) → Inv h → Inv (dismiss h).0
unfolding dismiss
dismiss-Inv h i = ground (arith, i, forgotten_here-Inv h (Inv-Half h i))

backward_delete-Inv : (output : Text) (h : Hook) → Inv h → Inv (backward_delete output h).0
unfolding backward_delete
backward_delete-Inv output h i =
    let f = deleted-Half h i in
    elim (Bool-cases (is_set (deleted h).buffer)) [
      | inl e ↦ rw e (fetched-Inv output (deleted h) f)
      | inr e ↦ rw e (closed_here-Inv (deleted h) f)
    ]

on_event-Inv : (h : Hook) (e : Event) → Inv h → Inv (on_event h e).0
unfolding on_event self_insert pre_prompt
on_event-Inv h (typed char output) i = fetched-Inv output (inserted char h) (inserted-Half char h i)
on_event-Inv h (backspace output) i = backward_delete-Inv output h i
on_event-Inv h tab i = accept-Inv h i
on_event-Inv h ctrl_p i = up_here-Inv h i
on_event-Inv h ctrl_n i = down_here-Inv h i
on_event-Inv h ctrl_g i = dismiss-Inv h i
on_event-Inv h prompt i =
    started_line-Inv (forgotten (erase_popup h)).0 (forgotten_here-Inv h (Inv-Half h i))

run-Inv : (h : Hook) (es : List Event) → Inv h → Inv (run h es)
unfolding run
run-Inv h [] i = i
run-Inv h (e ∷ es) i = run-Inv (on_event h e).0 es (on_event-Inv h e i)

-- After any sequence of the bash hook's functions and prompts, with any output of the client, the
-- same holds of the variables as for the zsh hook: the cursor is inside the line, while the popup
-- is visible an item is selected and `popup_lines` is the number of the rows, and while it is not
-- there are neither rows nor items.
pub run_bash-Inv : (es : List Event) → Inv (run Zsh.initial es)
run_bash-Inv es = run-Inv Zsh.initial es (ground arith)

-- A prompt closes the popup, whatever the hook's state: no item, no row and no text of it is left,
-- the line is empty, and the Tab that follows changes nothing and does nothing.
pub prompt_closes :
    (h : Hook)
    → ((run h (prompt ∷ [])).popup_visible ≡ false)
      × ((run h (prompt ∷ [])).item_count ≡ 0)
      × ((run h (prompt ∷ [])).rendered_popup ≡ [])
      × ((run h (prompt ∷ [])).buffer ≡ [])
      × (on_event (run h (prompt ∷ [])) tab ≡ (run h (prompt ∷ []), []))
unfolding run on_event pre_prompt erase_popup accept
prompt_closes h = ground arith
