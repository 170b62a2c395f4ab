-- ===== src/Session/Panics.antt =====
-- What a panic of a task leaves is a valid session, but for the popup's recorded lines.
use tabra.Prelude.{ℕ, false, List, [], ◌∷◌, Option, none, some, Text}
use tabra.Keys.{KeyEvent, parse_bytes}
use tabra.Protocol.{Response}
use tabra.Overlay.{Ansi}
use tabra.Popup.{PopupState, PopupAction, on_key, forward_key, accept}
use tabra.Popup.Invariant.{Keeps, on_key-Keeps, left_by_key-Holds, left_by_command_line-Holds}
use tabra.Session.{
  Session, handle_key_event, left_performing, left_by_popup, left_by_keys, left_by_stdin,
  left_by_debounce,
}
use tabra.Session.Invariant.{IsValid, Kept, handle_key_event-Kept}

module _ (a : Ansi) where
  left_performing-IsValid :
      (s : Session a.Color) (action : PopupAction)
      → IsValid false s
      → IsValid false (left_performing a s action)
  left_performing-IsValid s (forward_key bytes) v = record { popup = v.popup; osc = v.osc }
  left_performing-IsValid s (accept start insert) v = record { popup = v.popup; osc = v.osc }
  left_performing-IsValid s _ v = v

  left_by_popup-IsValid :
      (s : Session a.Color) (e : KeyEvent) (o : Option (PopupState a.Color × PopupAction))
      → IsValid false s
      → Keeps false o
      → IsValid false (left_by_popup a s e o)
  left_by_popup-IsValid s e none v k = record {
    popup = left_by_key-Holds s.popup e v.popup;
    osc = v.osc;
  }
  left_by_popup-IsValid s e (some (p, action)) v k =
      left_performing-IsValid (record s { popup = p }) action (record { popup = k; osc = v.osc })

  left_by_keys-IsValid :
      (s : Session a.Color) (es : List KeyEvent)
      → IsValid false s
      → IsValid false (left_by_keys a s es)
  unfolding left_by_keys
  left_by_keys-IsValid s [] v = v
  left_by_keys-IsValid s (e ∷ es) v =
      go (handle_key_event a s e) (handle_key_event-Kept false a s e v)
        (λ t. left_by_keys-IsValid t es)
    where
      go :
          (o : Option (Session a.Color))
          → Kept false o
          → ((t : Session a.Color) → IsValid false t → IsValid false (left_by_keys a t es))
          → IsValid false (elim o [
            | none ↦ left_by_popup a s e (on_key a s.popup e)
            | some t ↦ left_by_keys a t es
          ])
      go none k ih =
          left_by_popup-IsValid s e (on_key a s.popup e) v (on_key-Keeps false a s.popup e v.popup)
      go (some t) k ih = ih t k

  pub left_by_stdin-IsValid :
      (s : Session a.Color) (chunk : List ℕ)
      → IsValid false s
      → IsValid false (left_by_stdin a s chunk)
  unfolding left_by_stdin
  left_by_stdin-IsValid s chunk v =
      left_by_keys-IsValid (record s { escape_pending = (parse_bytes chunk s.escape_pending).1 })
        (parse_bytes chunk s.escape_pending).0 (record { popup = v.popup; osc = v.osc })

  pub left_by_debounce-IsValid :
      (s : Session a.Color) (first : Text × ℕ) (drained : List (Text × ℕ)) (r : Option Response)
      → IsValid false s
      → IsValid false (left_by_debounce a s first drained r)
  unfolding left_by_debounce
  left_by_debounce-IsValid s first drained r v = record {
    popup = left_by_command_line-Holds s.popup _ _ r v.popup;
    osc = v.osc;
  }
