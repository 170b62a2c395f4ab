-- ===== src/Hooks/Zsh/Invariant.antt =====
-- What holds of the zsh hook's variables between two events.
use tabra.Prelude.{
  ℕ, ◌+◌, ◌-◌, ◌%◌, ◌≤◌, ◌<◌, ◌≡◌, min, sym, ◌∙◌, true, false, List, [], ◌∷◌, ◌++◌, Option, Text,
  arith, inl, inr, Bool-cases, length, take, drop, is_empty, length-append, length-take,
}
use tabra.Hooks.{Hook, element, or_empty, substituted, split_blank_line, is_set}
use tabra.Hooks.Zsh.{
  initial, erase_popup, parse_response, render_popup, show_items, closed, forgotten, take_response,
  fetch_and_render, token_start, insert_text, accept, up, down, dismiss, self_inserted, self_insert,
  backward_deleted, backward_delete,
}
use tabra.Hooks.Zsh.Parsed.{Lined, parse_response-Parsed}
use tabra.Hooks.Zsh.TokenStart.{token_start-le}
use tabra.Hooks.Zsh.Events.{
  Event, typed, backspace, tab, arrow_up, arrow_down, escape, new_line, started_line, on_event, run,
}

-- While the popup is visible there are items, one of them is selected, the arrays hold no more than
-- their number, and `popup_lines` is the number of rows drawn; while it is not there are neither
-- rows nor items.
pub record Inv (h : Hook) : Type 0 where
  pub lined : Lined h
  pub shown_selected : h.popup_visible ≡ true → h.selected < h.item_count
  pub shown_lines : h.popup_visible ≡ true → h.popup_lines ≡ min h.item_count 10
  pub shown_arrays : h.popup_visible ≡ true → length h.displays ≤ h.item_count
  pub hidden_lines : h.popup_visible ≡ false → h.popup_lines ≡ 0
  pub hidden_items : h.popup_visible ≡ false → h.item_count ≡ 0

-- What a widget's helpers may rely on in the middle of a widget.
pub record Half (h : Hook) : Type 0 where
  pub lined : Lined h
  pub hidden_lines : h.popup_visible ≡ false → h.popup_lines ≡ 0

pub closed-Inv : (h : Hook) → Half h → Inv (closed (erase_popup h)).0
unfolding erase_popup
closed-Inv h f = ground (arith, f.lined, f.hidden_lines)

pub forgotten-Inv : (h : Hook) → Half h → Inv (forgotten (erase_popup h)).0
unfolding erase_popup
forgotten-Inv h f = ground (arith, f.lined, f.hidden_lines)

render_popup-Inv :
    (h : Hook)
    → Lined h
    → h.selected < h.item_count
    → length h.displays ≤ h.item_count
    → Inv (render_popup h).0
unfolding render_popup erase_popup
render_popup-Inv h l s d = ground (arith, l)

show_items-Inv :
    (h : Hook) → Half h → h.selected ≡ 0 → length h.displays ≤ h.item_count → Inv (show_items h).0
unfolding show_items erase_popup
show_items-Inv h f s d = ground (arith, f.lined, f.hidden_lines, render_popup-Inv h f.lined)

take_response-Inv : (r : Text × Option Text) (h : Hook) → Half h → Inv (take_response r h).0
take_response-Inv (items_section, popup) h f =
    let start : Hook = record h { selected = 0; rendered_popup = or_empty popup } in
    let p = parse_response-Parsed items_section start (ground (arith, f.lined)) in
    show_items-Inv (parse_response items_section start)
      record { lined = p.lined; hidden_lines = λ e. p.lines ∙ f.hidden_lines (sym p.visible ∙ e) }
      p.selected p.arrays

pub fetch_and_render-Inv : (output : Text) (h : Hook) → Half h → Inv (fetch_and_render output h).0
unfolding fetch_and_render
fetch_and_render-Inv output h f = elim (Bool-cases (is_empty (substituted output))) [
  | inl e ↦ rw e (forgotten-Inv h f)
  | inr e ↦ rw e (take_response-Inv (split_blank_line (substituted output)) h f)
]

insert_text_cursor :
    (text : Text) (h : Hook)
    → h.cursor ≤ length h.buffer
    → (insert_text text h).0.cursor ≤ length (insert_text text h).0.buffer
insert_text_cursor [] h l = l
insert_text_cursor (c ∷ s) h l =
    let start = token_start (take h.cursor h.buffer) in
    omega (
      arith,
      l,
      token_start-le (take h.cursor h.buffer),
      length-take h.cursor h.buffer,
      length-take start h.buffer,
      length-append (take start h.buffer) ((c ∷ s) ++ 0x20 ∷ drop h.cursor h.buffer),
      length-append (c ∷ s) (0x20 ∷ drop h.cursor h.buffer),
    )

pub insert_text-Half : (text : Text) (h : Hook) → Inv h → Half (insert_text text h).0
insert_text-Half [] h i = ground (arith, i)
insert_text-Half (c ∷ s) h i = record {
  lined = record {
    cursor_inside = insert_text_cursor (c ∷ s) h i.lined.cursor_inside;
    inserts_filled = i.lined.inserts_filled;
    descs_filled = i.lined.descs_filled;
  };
  hidden_lines = i.hidden_lines;
}

accept-Inv : (h : Hook) → Inv h → Inv (accept h).0
unfolding accept
accept-Inv h i = ground (
  arith,
  i,
  closed-Inv (insert_text (element h.inserts h.selected) h).0
      (insert_text-Half (element h.inserts h.selected) h i),
)

pub turned-Inv :
    (h : Hook) (k : ℕ)
    → Inv h
    → h.popup_visible ≡ true
    → k < h.item_count
    → Inv (render_popup (record h { selected = k })).0
turned-Inv h k i v s =
    render_popup-Inv (record h { selected = k })
      record {
        cursor_inside = i.lined.cursor_inside;
        inserts_filled = i.lined.inserts_filled;
        descs_filled = i.lined.descs_filled;
      }
      s (i.shown_arrays v)

pub up-Inv : (h : Hook) → Inv h → Inv (up h).0
unfolding up
up-Inv h i = ground (arith, i, turned-Inv h ((h.selected + h.item_count - 1) % h.item_count) i)

pub down-Inv : (h : Hook) → Inv h → Inv (down h).0
unfolding down
down-Inv h i = ground (arith, i, turned-Inv h ((h.selected + 1) % h.item_count) i)

pub Inv-Half : (h : Hook) → Inv h → Half h
Inv-Half h i = record { lined = i.lined; hidden_lines = i.hidden_lines }

dismiss-Inv : (h : Hook) → Inv h → Inv (dismiss h).0
unfolding dismiss
dismiss-Inv h i = ground (arith, i, closed-Inv h (Inv-Half h i))

self_inserted-Half : (key : ℕ) (h : Hook) → Inv h → Half (self_inserted key h)
self_inserted-Half key h i = record {
  lined = record {
    cursor_inside = omega (
      arith,
      i.lined.cursor_inside,
      length-take h.cursor h.buffer,
      length-append (take h.cursor h.buffer) (key ∷ drop h.cursor h.buffer),
    );
    inserts_filled = i.lined.inserts_filled;
    descs_filled = i.lined.descs_filled;
  };
  hidden_lines = i.hidden_lines;
}

pub backward_deleted-Half : (h : Hook) → Inv h → Half (backward_deleted h)
backward_deleted-Half h i = ground (
  arith,
  i,
  length-take (h.cursor - 1) h.buffer,
  length-append (take (h.cursor - 1) h.buffer) (drop h.cursor h.buffer),
)

backward_delete-Inv : (output : Text) (h : Hook) → Inv h → Inv (backward_delete output h).0
unfolding backward_delete
backward_delete-Inv output h i =
    let f = backward_deleted-Half h i in
    elim (Bool-cases (is_set (backward_deleted h).buffer)) [
      | inl e ↦ rw e (fetch_and_render-Inv output (backward_deleted h) f)
      | inr e ↦ rw e (closed-Inv (backward_deleted h) f)
    ]

pub started_line-Inv : (h : Hook) → Inv h → Inv (started_line h)
started_line-Inv h i = ground (arith, i)

on_event-Inv : (h : Hook) (e : Event) → Inv h → Inv (on_event h e).0
unfolding on_event self_insert
on_event-Inv h (typed key output) i =
    fetch_and_render-Inv output (self_inserted key h) (self_inserted-Half key h i)
on_event-Inv h (backspace output) i = backward_delete-Inv output h i
on_event-Inv h tab i = accept-Inv h i
on_event-Inv h arrow_up i = up-Inv h i
on_event-Inv h arrow_down i = down-Inv h i
on_event-Inv h escape i = dismiss-Inv h i
on_event-Inv h new_line i = started_line-Inv h i

run-Inv : (h : Hook) (es : List Event) → Inv h → Inv (run h es)
unfolding run
run-Inv h [] i = i
run-Inv h (e ∷ es) i = run-Inv (on_event h e).0 es (on_event-Inv h e i)

-- After any sequence of the zsh hook's widgets, with any output of the client and any lines
-- submitted in between: the cursor is inside the line, the three arrays have the same length, while
-- the popup is visible an item is selected and `popup_lines` is the number of the rows, and while it
-- is not there are neither rows nor items.
pub run-initial-Inv : (es : List Event) → Inv (run initial es)
run-initial-Inv es = run-Inv initial es (ground arith)
