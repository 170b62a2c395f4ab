-- ===== src/Session/Completing.antt =====
-- From a pause in the typing to the retyped line, through the daemon and the popup.
use tabra.Prelude.{
  ℕ, suc, sym, subst, ◌≡◌, ◌≤◌, refl, ap, ◌∙◌, true, List, [], ◌∷◌, ◌++◌, Option, some, Text, arith,
  take, drop, length, byte_of_char, get_elem?,
}
use tabra.Keys.{tab}
use tabra.Overlay.{Ansi}
use tabra.Protocol.{CompletionItem, Response, completions}
use tabra.Generators.{Cache}
use tabra.Loader.{SpecIndex}
use tabra.Server.{Host, handle_complete}
use tabra.Popup.{PopupState, PopupAction, window, on_command_line}
use tabra.Popup.Selection.{render_inplace-some}
use tabra.Popup.TokenStart.{StartsAt}
use tabra.Session.{
  Session, show_popup, latest, answered, dispatch_popup_action, on_debounce, handle_key_event,
}
use tabra.Session.Accept.{retyped, tab_retypes}

module _ (a : Ansi) where
  abbrev opened :
      PopupState a.Color → Text → ℕ → CompletionItem → List CompletionItem → PopupState a.Color
  opened p buffer cursor i is = record p {
    last_buffer = buffer;
    last_cursor = cursor;
    items = i ∷ is;
    selected = 0;
    visible = true;
    popup_lines = length (window (i ∷ is) 0);
  }

  on_command_line-opened :
      (p : PopupState a.Color) (buffer : Text) (cursor : ℕ) (i : CompletionItem)
      (is : List CompletionItem) (selected : ℕ) (query : Text) (popup : Option Text)
      → 32 ≤ p.terminal_cols
      → (text : Text) × (on_command_line a p buffer cursor
            (some (completions (i ∷ is) selected query popup))
          ≡ some (opened p buffer cursor i is, PopupAction.show text))
  unfolding on_command_line
  on_command_line-opened p buffer cursor i is selected query popup w =
      render_inplace-some a
        (record p {
          last_buffer = buffer;
          last_cursor = cursor;
          items = i ∷ is;
          selected = 0;
          visible = true;
        })
        _ w (omega arith)

  -- Where a round of the debounce task gets items.
  on_debounce-opened :
      (s : Session a.Color) (first : Text × ℕ) (drained : List (Text × ℕ)) (i : CompletionItem)
      (is : List CompletionItem) (selected : ℕ) (query : Text) (popup : Option Text)
      → 32 ≤ s.popup.terminal_cols
      → (t : Session a.Color) × (text : Text) × (on_debounce a s first drained
            (some (completions (i ∷ is) selected query popup))
          ≡ some t)
        × (t.writes ≡ s.writes ++ show_popup text ∷ [])
        × (t.popup ≡ opened s.popup (latest first drained).0 (latest first drained).1 i is)
  unfolding on_debounce dispatch_popup_action
  on_debounce-opened s first drained i is selected query popup w =
      let (buffer, cursor) = latest first drained in
      let (text, e) = on_command_line-opened s.popup buffer cursor i is selected query popup w in
      (
        _,
        text,
        ap (answered a (record s { debounced = drop (suc (length drained)) s.debounced })) e,
        refl,
        refl,
      )

module _ {V : Type 0} (host : Host V) where
  -- The popup lists an answer to the line, and the Tab that follows retypes it.
  pub record Retypes (s : Session host.ansi.Color) (first : Text × ℕ) (drained : List (Text × ℕ))
      (n : ℕ) (response : Option Response) (i : CompletionItem) (is : List CompletionItem)
      : Type 0 where
    pub session : Session host.ansi.Color
    pub text : Text
    pub result : on_debounce host.ansi s first drained response ≡ some session
    pub writes : session.writes ≡ s.writes ++ show_popup text ∷ []
    pub items : session.popup.items ≡ i ∷ is
    pub start : ℕ
    pub word : StartsAt (take n (latest first drained).0) start
    pub typed :
        handle_key_event host.ansi session tab
        ≡ some (
            retyped host.ansi session
              (word.pre ++ (i.insert ++ b' ' ∷ drop n (latest first drained).0)))

  tab_retypes_line :
      (t : Session host.ansi.Color) (i : CompletionItem) (n : ℕ) (buffer : Text)
      → t.popup.last_buffer ≡ buffer
      → t.popup.visible ≡ true
      → get_elem? t.popup.items t.popup.selected ≡ some i
      → t.popup.last_cursor ≡ byte_of_char t.popup.last_buffer n
      → (start : ℕ) × (word : StartsAt (take n buffer) start) × (handle_key_event host.ansi t tab
          ≡ some (retyped host.ansi t (word.pre ++ (i.insert ++ b' ' ∷ drop n buffer))))
  tab_retypes_line t i n buffer b v g k =
      subst
        (λ b.
          (start : ℕ) × (word : StartsAt (take n b) start) × (handle_key_event host.ansi t tab
            ≡ some (retyped host.ansi t (word.pre ++ (i.insert ++ b' ' ∷ drop n b)))))
        b (tab_retypes host.ansi t i n v g k)

  shown_tab :
      (s : Session host.ansi.Color) (first : Text × ℕ) (drained : List (Text × ℕ)) (n : ℕ)
      (i : CompletionItem) (is : List CompletionItem) (selected : ℕ) (query : Text)
      (popup : Option Text)
      → 32 ≤ s.popup.terminal_cols
      → (latest first drained).1 ≡ byte_of_char (latest first drained).0 n
      → Retypes s first drained n (some (completions (i ∷ is) selected query popup)) i is
  shown_tab s first drained n i is selected query popup w k =
      let (t, text, e, d, o) =
        on_debounce-opened host.ansi s first drained i is selected query popup w in
      let (start, word, typed) =
        tab_retypes_line t i n (latest first drained).0 (ap (λ p. p.last_buffer) o)
          (ap (λ p. p.visible) o) (ap (λ p. get_elem? p.items p.selected) o)
          (ap (λ p. p.last_cursor) o ∙ k ∙ ap (λ p. byte_of_char p.last_buffer n) (sym o)) in
      record {
        session = t;
        text = text;
        result = e;
        writes = d;
        items = ap (λ p. p.items) o;
        start = start;
        word = word;
        typed = typed;
      }

  -- Where the daemon finds completions for the line that the debounce task asks for, on a terminal
  -- of 32 columns or more, with a cursor that is the byte offset of the character at index `n`: the
  -- popup is drawn and lists the items of the daemon's answer, and the Tab that follows retypes the
  -- line with the first of them in the place of the word that the tokenizer is reading at the cursor.
  pub debounced_tab :
      (s : Session host.ansi.Color) (first : Text × ℕ) (drained : List (Text × ℕ))
      (index : SpecIndex V) (c : Cache) (cwd : Text) (n : ℕ) (i : CompletionItem)
      (is : List CompletionItem) (selected : ℕ) (query : Text) (popup : Option Text)
      → 32 ≤ s.popup.terminal_cols
      → (latest first drained).1 ≡ byte_of_char (latest first drained).0 n
      → (handle_complete host index c
          (latest first drained).0
          (latest first drained).1
          cwd
          (some s.popup.terminal_cols)).1
        ≡ some (completions (i ∷ is) selected query popup)
      → Retypes s first drained n
          (handle_complete host index c
            (latest first drained).0
            (latest first drained).1
            cwd
            (some s.popup.terminal_cols)).1
          i
          is
  debounced_tab s first drained index c cwd n i is selected query popup w k e =
      subst (λ r. Retypes s first drained n r i is) (sym e)
        (shown_tab s first drained n i is selected query popup w k)
