-- ===== src/Session/Forward.antt =====
-- With no popup on the screen the session is transparent to what is typed.
use tabra.Prelude.{
  ℕ, ◌≡◌, refl, sym, ap, subst, ◌∙◌, Bool, true, false, List, [], ◌∷◌, ◌++◌, Option, some, arith,
}
use mathlib.Core.List.{append_assoc, append-nil}
use tabra.Keys.{KeyEvent, raw_bytes, parse_bytes}
use tabra.Keys.Bytes.{SameBytes}
use tabra.Keys.Passthrough.{all_bytes, escape_if, parse_bytes-SameBytes}
use tabra.Tracker.{BufferTracker}
use tabra.Tracker.Edit.{edit, changes, on_key-eq-edit}
use tabra.Overlay.{Ansi}
use tabra.Popup.{PopupState, forward_key, on_key}
use tabra.Session.{
  Session, track, send, perform, after_popup, handle_key_event, handle_key_events, on_stdin,
}

module _ (a : Ansi) where
  -- The result of keys that went through: the bytes are on the PTY, the popup and the screen are
  -- as before.
  pub record Forwarded (s : Session a.Color) (bytes : List ℕ) (o : Option (Session a.Color))
      : Type 0 where
    pub session : Session a.Color
    pub result : o ≡ some session
    pub pty : session.pty ≡ s.pty ++ bytes
    pub popup : session.popup ≡ s.popup
    pub writes : session.writes ≡ s.writes
    pub pending : session.escape_pending ≡ s.escape_pending

  track-Forwarded :
      (s : Session a.Color) (bytes : List ℕ) (t : BufferTracker) (changed : Bool)
      → Forwarded s bytes (track (send s bytes) (some (t, changed)))
  track-Forwarded s bytes t true = record {
    session = _;
    result = refl;
    pty = refl;
    popup = refl;
    writes = refl;
    pending = refl;
  }
  track-Forwarded s bytes t false = record {
    session = _;
    result = refl;
    pty = refl;
    popup = refl;
    writes = refl;
    pending = refl;
  }

  hidden-forwards :
      (p : PopupState a.Color) (e : KeyEvent)
      → p.visible ≡ false
      → on_key a p e ≡ some (p, forward_key (raw_bytes e))
  unfolding on_key
  hidden-forwards p e h = ground arith

  perform-Forwarded :
      (s : Session a.Color) (e : KeyEvent) (bytes : List ℕ)
      → Forwarded s bytes (perform s e (forward_key bytes))
  unfolding perform
  perform-Forwarded s e bytes =
      rw (on_key-eq-edit s.tracker e)
        (track-Forwarded s bytes (edit s.tracker e) (changes s.tracker e))

  handle_key_event-Forwarded :
      (s : Session a.Color) (e : KeyEvent)
      → s.popup.visible ≡ false
      → Forwarded s (raw_bytes e) (handle_key_event a s e)
  unfolding handle_key_event
  handle_key_event-Forwarded s e h =
      subst (λ o. Forwarded s (raw_bytes e) (after_popup a s e o))
        (sym (hidden-forwards s.popup e h)) (perform-Forwarded s e (raw_bytes e))

  handle_key_events-Forwarded :
      (s : Session a.Color) (es : List KeyEvent)
      → s.popup.visible ≡ false
      → Forwarded s (all_bytes es) (handle_key_events a s es)
  unfolding handle_key_events
  handle_key_events-Forwarded s [] h = record {
    session = s;
    result = refl;
    pty = sym (append-nil s.pty);
    popup = refl;
    writes = refl;
    pending = refl;
  }
  handle_key_events-Forwarded s (e ∷ es) h =
      let f = handle_key_event-Forwarded s e h in
      let t = f.session in
      let g =
        handle_key_events-Forwarded t es (ap (λ (p : PopupState a.Color). p.visible) f.popup ∙ h) in
      record {
        session = g.session;
        result = rw (f.result, handle_key_events) g.result;
        pty =
            g.pty
            ∙ ap (λ x. x ++ all_bytes es) f.pty
            ∙ append_assoc s.pty (raw_bytes e) (all_bytes es);
        popup = g.popup ∙ f.popup;
        writes = g.writes ∙ f.writes;
        pending = g.pending ∙ f.pending;
      }

  -- With no popup on the screen a chunk of standard input goes to the shell and nothing is drawn:
  -- the chunk never makes the session panic, and the bytes that it sends to the PTY, with an ESC
  -- that is pending after it, are those of the chunk behind an ESC that was pending before it, but
  -- for 0x08 that may be sent as 0x7f.
  pub on_stdin-Forwarded :
      (s : Session a.Color) (chunk : List ℕ)
      → s.popup.visible ≡ false
      → (t : Session a.Color) × (sent : List ℕ) × (on_stdin a s chunk ≡ some t)
        × (t.pty ≡ s.pty ++ sent)
        × (t.writes ≡ s.writes)
        × (t.popup ≡ s.popup)
        × SameBytes (escape_if s.escape_pending ++ chunk) (sent ++ escape_if t.escape_pending)
  unfolding on_stdin
  on_stdin-Forwarded s chunk h =
      let r = parse_bytes chunk s.escape_pending in
      let f = handle_key_events-Forwarded (record s { escape_pending = r.1 }) r.0 h in
      (
        f.session,
        all_bytes r.0,
        f.result,
        f.pty,
        f.writes,
        f.popup,
        subst (λ b. SameBytes (escape_if s.escape_pending ++ chunk) (all_bytes r.0 ++ escape_if b))
            (sym f.pending) (parse_bytes-SameBytes chunk s.escape_pending),
      )
