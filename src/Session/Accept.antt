-- ===== src/Session/Accept.antt =====
-- What Tab and Enter do while the popup is open.
use tabra.Prelude.{
  ℕ, ◌≡◌, ◌<◌, refl, sym, ap, ◌∙◌, Bool, true, false, List, [], ◌∷◌, ◌++◌, some, Text, ltb, arith,
  Bool-cases, inl, inr, get_elem?, take, drop, split_at, byte_of_char, len_bytes,
  split_at-byte_of_char, split_at-len_bytes, drop_end, take-append-drop,
}
use mathlib.Core.Bool.{false≢true}
use mathlib.Core.List.{append_assoc}
use tabra.Keys.{tab, enter, raw_bytes}
use tabra.Overlay.{Ansi}
use tabra.Protocol.{CompletionItem}
use tabra.Popup.{
  PopupState, closed, accept, accept_selected, on_visible_key, on_key, find_token_start,
}
use tabra.Popup.TokenStart.{StartsAt, find_token_start-StartsAt}
use tabra.Popup.Invariant.{IsValid, Fits}
use tabra.Session.{
  Session, clear_popup, send, write, perform, after_popup, handle_key_event, accept_text, slice_to,
  slice_from, after_cursor, bytes_of,
}

slice_from-eq :
    (s : Text) (b : ℕ) {l r : Text} → split_at s b ≡ some (l, r) → slice_from s b ≡ some r
slice_from-eq s b h = rw (h, slice_from)

Fits-pos :
    (b : Bool) (items : List CompletionItem) (sel lines : ℕ)
    → b ≡ true
    → Fits true b items sel lines
    → 0 < lines
Fits-pos true items sel lines e h = omega arith
Fits-pos false items sel lines e h = absurd (false≢true e)

lines_pos : {C : Type 0} (p : PopupState C) → p.visible ≡ true → IsValid p → 0 < p.popup_lines
lines_pos p v i = Fits-pos p.visible p.items p.selected p.popup_lines v i

module _ (a : Ansi) where
  tab-accepts :
      (p : PopupState a.Color) (item : CompletionItem) (start : ℕ)
      → p.visible ≡ true
      → get_elem? p.items p.selected ≡ some item
      → find_token_start p ≡ some start
      → on_key a p tab ≡ some (closed p, accept start item.insert)
  unfolding on_key on_visible_key accept_selected
  tab-accepts p item start v g f = ground arith

  after_cursor-eq :
      (p : PopupState a.Color) (n : ℕ)
      → p.last_cursor ≡ byte_of_char p.last_buffer n
      → after_cursor p ≡ some (drop n p.last_buffer)
  unfolding after_cursor
  after_cursor-eq p n e =
      let b = p.last_buffer in
      rw e (elim (Bool-cases (ltb (byte_of_char b n) (len_bytes b))) [
        | inl l ↦ rw l (slice_from-eq b (byte_of_char b n) (split_at-byte_of_char b n))
        | inr l ↦ rw l (ap some (sym (drop_end b n (ground arith))))
      ])

  slice_to-eq :
      (b pre suf : Text) (n start : ℕ)
      → take n b ≡ pre ++ suf
      → start ≡ len_bytes pre
      → slice_to b start ≡ some pre
  slice_to-eq b pre suf n start w e =
      let whole : b ≡ pre ++ (suf ++ drop n b) =
        sym (take-append-drop n b) ∙ ap (λ t. t ++ drop n b) w ∙ append_assoc pre suf (drop n b) in
      let cut : split_at b start ≡ some (pre, suf ++ drop n b) =
        ap (split_at b) e
        ∙ ap (λ t. split_at t (len_bytes pre)) whole
        ∙ split_at-len_bytes pre (suf ++ drop n b) in
      rw (cut, slice_to)

  abbrev pub retyped : Session a.Color → Text → Session a.Color
  retyped s line =
      send (write (record s { popup = closed s.popup }) (clear_popup 0))
        (0x01 ∷ 0x0b ∷ bytes_of line)

  accept_text-eq :
      (s : Session a.Color) (start : ℕ) (insert pre after : Text)
      → slice_to s.popup.last_buffer start ≡ some pre
      → after_cursor s.popup ≡ some after
      → accept_text (record s { popup = closed s.popup }) start insert
        ≡ some (retyped s (pre ++ (insert ++ b' ' ∷ after)))
  unfolding accept_text after_cursor
  accept_text-eq s start insert pre after h k = rw (h, k)

  -- Tab in an open popup retypes the line: where the remembered cursor is the byte offset of the
  -- character at index `n`, the PTY gets Ctrl-A, Ctrl-K and the line in which the word that the
  -- tokenizer is reading at the cursor has become the selected item's text and a space; what stands
  -- before that word and behind the cursor stays, and the popup is closed.
  pub tab_retypes :
      (s : Session a.Color) (item : CompletionItem) (n : ℕ)
      → s.popup.visible ≡ true
      → get_elem? s.popup.items s.popup.selected ≡ some item
      → s.popup.last_cursor ≡ byte_of_char s.popup.last_buffer n
      → (start : ℕ) × (w : StartsAt (take n s.popup.last_buffer) start) × (handle_key_event a s tab
          ≡ some (retyped s (w.pre ++ (item.insert ++ b' ' ∷ drop n s.popup.last_buffer))))
  unfolding handle_key_event perform
  tab_retypes s item n v g e =
      let p = s.popup in
      let (start, f, w) = find_token_start-StartsAt p n e in
      (
        start,
        w,
        ap (after_popup a s tab) (tab-accepts p item start v g f)
            ∙ accept_text-eq s start item.insert w.pre (drop n p.last_buffer)
                (slice_to-eq p.last_buffer w.pre w.suf n start w.whole w.offset)
                (after_cursor-eq p n e),
      )

  -- After Tab the screen is told to erase a popup of no lines, since the items are counted when
  -- they are gone, while the popup that was on the screen had at least one.
  pub tab_leaves_lines :
      (s : Session a.Color) (item : CompletionItem) (n : ℕ)
      → IsValid s.popup
      → s.popup.visible ≡ true
      → get_elem? s.popup.items s.popup.selected ≡ some item
      → s.popup.last_cursor ≡ byte_of_char s.popup.last_buffer n
      → (t : Session a.Color) × (handle_key_event a s tab ≡ some t)
        × (t.writes ≡ s.writes ++ clear_popup 0 ∷ [])
        × (0 < s.popup.popup_lines)
  tab_leaves_lines s item n i v g e =
      let (start, w, r) = tab_retypes s item n v g e in
      (
        retyped s (w.pre ++ (item.insert ++ b' ' ∷ drop n s.popup.last_buffer)),
        r,
        refl,
        lines_pos s.popup v i,
      )

  -- Enter in an open popup erases the popup's lines and sends the key to the shell, and the tracker
  -- is not told: it keeps the line that has been submitted.
  pub enter_keeps_tracker :
      (s : Session a.Color)
      → s.popup.visible ≡ true
      → (t : Session a.Color) × (handle_key_event a s enter ≡ some t)
        × (t.pty ≡ s.pty ++ 0x0d ∷ [])
        × (t.writes ≡ s.writes ++ clear_popup s.popup.popup_lines ∷ [])
        × (t.popup.visible ≡ false)
        × (t.tracker ≡ s.tracker)
        × (t.debounced ≡ s.debounced)
  unfolding handle_key_event perform on_key on_visible_key raw_bytes
  enter_keeps_tracker s v = (
    send
        (write (record s { popup = record (closed s.popup) { selected = 0 } })
          (clear_popup s.popup.popup_lines))
        (0x0d ∷ []),
    ground arith,
    refl,
    refl,
    refl,
    refl,
    refl,
  )
