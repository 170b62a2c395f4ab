-- ===== src/Session/Reach.antt =====
-- The session as a transition system: what holds in every state that it can reach.
use tabra.Prelude.{
  none, Bool, ◌&&◌, ℕ, ◌≡◌, refl, subst, true, false, List, [], ◌∷◌, ◌++◌, Option, some, Text,
  arith,
}
use tabra.Osc.{prompt_start}
use tabra.Protocol.{Response}
use tabra.Overlay.{Ansi}
use tabra.Session.{
  left_by_stdin, left_by_debounce, Session, clear_popup, on_stdin, on_output, on_osc_event, resize,
  on_debounce, initial,
}
use tabra.Session.Panics.{left_by_stdin-IsValid, left_by_debounce-IsValid}
use tabra.Session.Invariant.{
  IsValid-weaken, IsValid, Kept, Done, Done-Kept, recorded_lines, on_output-Done, on_stdin-Kept,
  on_debounce-Kept,
}

module _ (a : Ansi) where
  module _ (decode : Text → Option (List ℕ)) where
    -- A task handles one message: a chunk that is typed, or the time-out as an empty chunk; a chunk
    -- that the shell prints; the debounced lines with an answer of the daemon; a new window size.
    -- The flag is `false` for a step in which the task panics: it leaves the state that is shared
    -- as it is then. That a task that has panicked takes no further message restricts the steps,
    -- and is left out.
    pub data Step (s : Session a.Color) : Bool → Session a.Color → Type 0 where
      typed : {t : Session a.Color} (chunk : List ℕ) → on_stdin a s chunk ≡ some t → Step s true t
      printed :
          {t : Session a.Color} (chunk : List ℕ) → on_output decode s chunk ≡ some t → Step s true t
      completed :
          {t : Session a.Color} (first : Text × ℕ) (drained rest : List (Text × ℕ))
          (response : Option Response)
          → s.debounced ≡ first ∷ (drained ++ rest)
          → on_debounce a s first drained response ≡ some t
          → Step s true t
      resized : (cols : ℕ) → Step s true (resize s cols)
      typed_panics :
          (chunk : List ℕ) → on_stdin a s chunk ≡ none → Step s false (left_by_stdin a s chunk)
      completed_panics :
          (first : Text × ℕ) (drained rest : List (Text × ℕ)) (response : Option Response)
          → s.debounced ≡ first ∷ (drained ++ rest)
          → on_debounce a s first drained response ≡ none
          → Step s false (left_by_debounce a s first drained response)

    -- The flag is `true` as long as no task has panicked.
    pub data Reach (s : Session a.Color) : Bool → Session a.Color → Type 0 where
      here : Reach s true s
      next :
          {quiet step : Bool} {t u : Session a.Color}
          → Reach s quiet t
          → Step t step u
          → Reach s (step && quiet) u

    Kept-some :
        (quiet : Bool) {t : Session a.Color} (o : Option (Session a.Color))
        → o ≡ some t
        → Kept quiet o
        → IsValid quiet t
    Kept-some quiet o e k = subst (Kept quiet) e k

    Step-IsValid :
        (quiet : Bool) {step : Bool} {s t : Session a.Color}
        → Step s step t
        → IsValid quiet s
        → IsValid (step && quiet) t
    Step-IsValid quiet {step} {s} (typed chunk e) v =
        Kept-some quiet _ e (on_stdin-Kept quiet a s chunk v)
    Step-IsValid quiet {step} {s} (printed chunk e) v =
        Kept-some quiet _ e (Done-Kept quiet _ (on_output-Done quiet decode s chunk v))
    Step-IsValid quiet {step} {s} (completed first drained rest r q e) v =
        Kept-some quiet _ e (on_debounce-Kept quiet a s first drained r v)
    Step-IsValid quiet (resized cols) v = record { popup = v.popup; osc = v.osc }
    Step-IsValid quiet {step} {s} (typed_panics chunk e) v =
        left_by_stdin-IsValid a s chunk (IsValid-weaken quiet s v)
    Step-IsValid quiet {step} {s} (completed_panics first drained rest r q e) v =
        left_by_debounce-IsValid a s first drained r (IsValid-weaken quiet s v)

    initial-IsValid : (cols : ℕ) → IsValid true (initial a cols)
    initial-IsValid cols = record { popup = (refl, refl); osc = refl }

    Reach-IsValid :
        {s : Session a.Color} {quiet : Bool} {t : Session a.Color}
        → IsValid true s
        → Reach s quiet t
        → IsValid quiet t
    Reach-IsValid v here = v
    Reach-IsValid v (next {quiet} r st) = Step-IsValid quiet st (Reach-IsValid v r)

    -- In every state that a session reaches, in whatever order its tasks take their messages and
    -- whatever is typed, printed and answered, also behind panics of the task that reads keys and
    -- of the one that asks the daemon, whose locks are free again: an open popup has a selected
    -- item, and a closed one has no items and no lines; as long as no task has panicked, the
    -- recorded lines of an open popup are the rows of its window; the parser of the output holds a
    -- proper part of its prefix or a payload within the limit; and no further output of the shell
    -- makes the task that reads it panic, or leaves any of this broken.
    pub Reach-initial :
        (cols : ℕ) {quiet : Bool} {t : Session a.Color}
        → Reach (initial a cols) quiet t
        → IsValid quiet t × ((chunk : List ℕ) → Done quiet (on_output decode t chunk))
    Reach-initial cols {quiet} r =
        let v = Reach-IsValid (initial-IsValid cols) r in
        (v, λ chunk. on_output-Done quiet decode _ chunk v)

    -- At a prompt marker the popup that a session shows, in which no task has panicked, is erased with exactly the lines
    -- that are recorded for it, and the tracker starts an empty line.
    pub prompt_start_erases :
        (cols : ℕ) {t : Session a.Color}
        → Reach (initial a cols) true t
        → t.popup.visible ≡ true
        → ((on_osc_event t prompt_start).writes ≡ t.writes ++ clear_popup t.popup.popup_lines ∷ [])
          × ((on_osc_event t prompt_start).popup.visible ≡ false)
          × ((on_osc_event t prompt_start).tracker.buffer ≡ [])
          × ((on_osc_event t prompt_start).tracker.cursor ≡ 0)
    unfolding on_osc_event
    prompt_start_erases cols {t} r v =
        let l = recorded_lines t.popup v (Reach-IsValid (initial-IsValid cols) r).popup in
        ground arith
