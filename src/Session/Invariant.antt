-- ===== src/Session/Invariant.antt =====
-- The invariant of a session: what each task's work on a message keeps.
use tabra.Prelude.{
  ℕ, suc, min, ◌≡◌, refl, Bool, true, false, List, [], ◌∷◌, Option, none, some, Text, if◌then◌else◌,
  length, drop,
}
use mathlib.Core.Bool.{false≢true}
use tabra.Keys.{KeyEvent, parse_bytes}
use tabra.Tracker
use tabra.Tracker.{BufferTracker}
use tabra.Osc.{OscParser, OscEvent, command_line, prompt_start, prompt_end, feed}
use tabra.Osc.Steps
use tabra.Osc.Steps.{feed-Returns, Returns}
use tabra.Protocol.{CompletionItem, Response}
use tabra.Overlay.{Ansi}
use tabra.Popup.{PopupState, PopupAction, show, forward_key, accept, closed}
use tabra.Popup.Invariant
use tabra.Popup.Invariant.{
  Keeps, Fits, Fits-weaken, left_by_key-Holds, left_by_command_line-Holds, on_key-Keeps,
  on_command_line-Keeps,
}
use tabra.Session.{
  Session, clear_popup, send, write, track, perform, after_popup, handle_key_event,
  handle_key_events, on_stdin, accept_text, inject, on_output, on_osc_event, on_osc_events,
  close_popup, pass, on_debounce, answered, dispatch_popup_action,
}

-- The popup and the parser of the session are valid; the popup's lines are exact if no task has
-- panicked.
pub record IsValid (exact : Bool) {C : Type 0} (s : Session C) : Type 0 where
  pub popup : Invariant.Holds exact s.popup
  pub osc : Steps.IsValid s.osc

-- If there is a result, it is valid.
abbrev pub Kept : Bool → {C : Type 0} → Option (Session C) → Type 0
Kept exact none = Unit
Kept exact (some s) = IsValid exact s

-- There is a result, and it is valid.
abbrev pub Done : Bool → {C : Type 0} → Option (Session C) → Type 0
Done exact none = ⊥
Done exact (some s) = IsValid exact s

pub Done-Kept : (exact : Bool) {C : Type 0} (o : Option (Session C)) → Done exact o → Kept exact o
Done-Kept exact none d = absurd d
Done-Kept exact (some s) d = d

pub IsValid-weaken : (exact : Bool) {C : Type 0} (s : Session C) → IsValid exact s → IsValid false s
IsValid-weaken exact s v = record {
  popup =
      Fits-weaken exact s.popup.visible s.popup.items s.popup.selected s.popup.popup_lines v.popup;
  osc = v.osc;
}

Fits-lines :
    (b : Bool) (items : List CompletionItem) (sel lines : ℕ)
    → b ≡ true
    → Fits true b items sel lines
    → lines ≡ min (length items) 10
Fits-lines true items sel lines e h = h.1
Fits-lines false items sel lines e h = absurd (false≢true e)

pub recorded_lines :
    {C : Type 0} (p : PopupState C)
    → p.visible ≡ true
    → Invariant.IsValid p
    → p.popup_lines ≡ min (length p.items) 10
recorded_lines p v i = Fits-lines p.visible p.items p.selected p.popup_lines v i

module _ (exact : Bool) {C : Type 0} where
  track-Kept :
      (s : Session C) (o : Option (BufferTracker × Bool)) → IsValid exact s → Kept exact (track s o)
  track-Kept s none v = tt
  track-Kept s (some (t, true)) v = record { popup = v.popup; osc = v.osc }
  track-Kept s (some (t, false)) v = record { popup = v.popup; osc = v.osc }

  inject-Kept : (s : Session C) (o : Option Text) → IsValid exact s → Kept exact (inject s o)
  inject-Kept s none v = tt
  inject-Kept s (some line) v = record { popup = v.popup; osc = v.osc }

  perform-Kept :
      (s : Session C) (e : KeyEvent) (action : PopupAction)
      → IsValid exact s
      → Kept exact (perform s e action)
  unfolding perform accept_text
  perform-Kept s e (forward_key bytes) v =
      track-Kept (send s bytes) (Tracker.on_key s.tracker e)
        (record { popup = v.popup; osc = v.osc })
  perform-Kept s e (accept start insert) v =
      inject-Kept _ _ (record { popup = v.popup; osc = v.osc })
  perform-Kept s e (show t) v = record { popup = v.popup; osc = v.osc }
  perform-Kept s e _ v = record { popup = v.popup; osc = v.osc }

  dispatch-IsValid :
      (s : Session C) (action : PopupAction)
      → IsValid exact s
      → IsValid exact (dispatch_popup_action s action)
  unfolding dispatch_popup_action
  dispatch-IsValid s (show t) v = record { popup = v.popup; osc = v.osc }
  dispatch-IsValid s _ v = record { popup = v.popup; osc = v.osc }

  IsValid-if :
      (b : Bool) (s t : Session C)
      → IsValid exact s
      → IsValid exact t
      → IsValid exact (if b then s else t)
  IsValid-if true s t v w = v
  IsValid-if false s t v w = w

  close_popup-IsValid : (s : Session C) → IsValid exact s → IsValid exact (close_popup s)
  close_popup-IsValid s v =
      IsValid-if s.popup.visible
        (write (record s { popup = closed s.popup }) (clear_popup (min (length s.popup.items) 10)))
        s (record { popup = (refl, refl); osc = v.osc }) v

  on_osc_event-IsValid :
      (s : Session C) (e : OscEvent) → IsValid exact s → IsValid exact (on_osc_event s e)
  unfolding on_osc_event
  on_osc_event-IsValid s (command_line b c) v = record { popup = v.popup; osc = v.osc }
  on_osc_event-IsValid s prompt_start v =
      close_popup-IsValid (record s { tracker = Tracker.sync s.tracker [] 0 })
        (record { popup = v.popup; osc = v.osc })
  on_osc_event-IsValid s prompt_end v = v

  on_osc_events-IsValid :
      (s : Session C) (es : List OscEvent) → IsValid exact s → IsValid exact (on_osc_events s es)
  unfolding on_osc_events
  on_osc_events-IsValid s [] v = v
  on_osc_events-IsValid s (e ∷ es) v =
      on_osc_events-IsValid (on_osc_event s e) es (on_osc_event-IsValid s e v)

  pass-IsValid : (s : Session C) (bytes : List ℕ) → IsValid exact s → IsValid exact (pass s bytes)
  pass-IsValid s [] v = v
  pass-IsValid s (b ∷ bytes) v = record { popup = v.popup; osc = v.osc }

  -- The shell's output never makes a valid session panic, and leaves it valid.
  pub on_output-Done :
      (decode : Text → Option (List ℕ)) (s : Session C) (chunk : List ℕ)
      → IsValid exact s
      → Done exact (on_output decode s chunk)
  unfolding on_output
  on_output-Done decode s chunk v =
      go (feed decode s.osc chunk) (feed-Returns decode s.osc chunk v.osc)
    where
      go :
          (r : Option (OscParser × List ℕ × List OscEvent))
          → Returns r
          → Done exact (elim r [
            | none ↦ none
            | some (osc, bytes, events) ↦
                some (on_osc_events (pass (record s { osc = osc }) bytes) events)
          ])
      go none h = h
      go (some (osc, bytes, events)) h =
          on_osc_events-IsValid (pass (record s { osc = osc }) bytes) events
            (pass-IsValid (record s { osc = osc }) bytes (record { popup = v.popup; osc = h }))

module _ (exact : Bool) (a : Ansi) where
  after_popup-Kept :
      (s : Session a.Color) (e : KeyEvent) (o : Option (PopupState a.Color × PopupAction))
      → IsValid exact s
      → Keeps exact o
      → Kept exact (after_popup a s e o)
  after_popup-Kept s e none v k = tt
  after_popup-Kept s e (some (p, action)) v k =
      perform-Kept exact (record s { popup = p }) e action (record { popup = k; osc = v.osc })

  pub handle_key_event-Kept :
      (s : Session a.Color) (e : KeyEvent) → IsValid exact s → Kept exact (handle_key_event a s e)
  unfolding handle_key_event
  handle_key_event-Kept s e v = after_popup-Kept s e _ v (on_key-Keeps exact a s.popup e v.popup)

  handle_key_events-Kept :
      (s : Session a.Color) (es : List KeyEvent)
      → IsValid exact s
      → Kept exact (handle_key_events a s es)
  unfolding handle_key_events
  handle_key_events-Kept s [] v = v
  handle_key_events-Kept s (e ∷ es) v =
      go (handle_key_event a s e) (handle_key_event-Kept s e v) (λ t. handle_key_events-Kept t es)
    where
      go :
          (o : Option (Session a.Color))
          → Kept exact o
          → ((t : Session a.Color) → IsValid exact t → Kept exact (handle_key_events a t es))
          → Kept exact (elim o [ none ↦ none | some t ↦ handle_key_events a t es ])
      go none k ih = tt
      go (some t) k ih = ih t k

  pub on_stdin-Kept :
      (s : Session a.Color) (chunk : List ℕ) → IsValid exact s → Kept exact (on_stdin a s chunk)
  unfolding on_stdin
  on_stdin-Kept s chunk v =
      handle_key_events-Kept (record s { escape_pending = (parse_bytes chunk s.escape_pending).1 })
        (parse_bytes chunk s.escape_pending).0 (record { popup = v.popup; osc = v.osc })

  answered-Kept :
      (s : Session a.Color) (o : Option (PopupState a.Color × PopupAction))
      → IsValid exact s
      → Keeps exact o
      → Kept exact (answered a s o)
  answered-Kept s none v k = tt
  answered-Kept s (some (p, action)) v k =
      dispatch-IsValid exact (record s { popup = p }) action (record { popup = k; osc = v.osc })

  pub on_debounce-Kept :
      (s : Session a.Color) (first : Text × ℕ) (drained : List (Text × ℕ)) (r : Option Response)
      → IsValid exact s
      → Kept exact (on_debounce a s first drained r)
  unfolding on_debounce
  on_debounce-Kept s first drained r v =
      answered-Kept (record s { debounced = drop (suc (length drained)) s.debounced }) _
        (record { popup = v.popup; osc = v.osc })
        (on_command_line-Keeps exact a s.popup _ _ r v.popup)
