-- ===== src/Daemon/Serving.antt =====
-- The end of the daemon's loop.
use tabra.Prelude.{
  ◌≡◌, refl, ap, sym, ◌∙◌, Bool, true, false, ◌||◌, List, [], ◌∷◌, any, if◌then◌else◌, ℕ, Option,
  none, some, Text,
}
use tabra.Prelude.Results.{Result, ok, err}
use tabra.Protocol.{Request, Response, complete, accept, dismiss, status, stop}
use tabra.Server
use tabra.Server.{Host, handle_request, after_writing}
use tabra.Server.Connection.{Wire, written, handle_read, handle_connection}
use tabra.Daemon.{Event, connection, task, sigint, on_event, serve}

-- A request to stop that is read and whose answer is written, and the signal.
abbrev pub stops : Result Request → Result (Unit {0}) → Bool
stops (ok stop) (ok _) = true
stops _ sent = false

abbrev pub is_stop : {V : Type 0} → Wire → Event V → Bool
is_stop wire (connection uptime pid (some (ok line)) sent) = stops (wire.read_request line) sent
is_stop wire (connection uptime pid _ sent) = false
is_stop wire (task read_spec t) = false
is_stop wire sigint = true

or_false : (b : Bool) → (b || false) ≡ b
or_false true = refl
or_false false = refl

or_true : (b : Bool) → (b || true) ≡ true
or_true true = refl
or_true false = refl

module _ {V : Type 0} (host : Host V) (wire : Wire) where
  -- The answer to a line for completions.
  shutdown-written :
      (buffer cwd : Text) (cursor : ℕ) (cols : Option ℕ) (sent : Result (Unit {0}))
      (p : Server.Daemon V × Option Response)
      → (written host wire (complete buffer cursor cwd cols) sent p).0.shutdown ≡ p.0.shutdown
  unfolding after_writing
  shutdown-written buffer cwd cursor cols sent (d, none) = refl
  shutdown-written buffer cwd cursor cols (ok _) (d, some response) = refl
  shutdown-written buffer cwd cursor cols (err e) (d, some response) = refl

  shutdown-read :
      (d : Server.Daemon V) (uptime pid : ℕ) (sent : Result (Unit {0})) (r : Result Request)
      → (handle_read host wire d uptime pid sent r).0.shutdown ≡ (d.shutdown || stops r sent)
  unfolding handle_request after_writing
  shutdown-read d uptime pid sent (err e) = sym (or_false d.shutdown)
  shutdown-read d uptime pid sent (ok (complete buffer cursor cwd cols)) =
      shutdown-written buffer cwd cursor cols sent
        (handle_request host d uptime pid (complete buffer cursor cwd cols))
      ∙ sym (or_false d.shutdown)
  shutdown-read d uptime pid (ok _) (ok (accept text)) = sym (or_false d.shutdown)
  shutdown-read d uptime pid (err e) (ok (accept text)) = sym (or_false d.shutdown)
  shutdown-read d uptime pid (ok _) (ok dismiss) = sym (or_false d.shutdown)
  shutdown-read d uptime pid (err e) (ok dismiss) = sym (or_false d.shutdown)
  shutdown-read d uptime pid (ok _) (ok status) = sym (or_false d.shutdown)
  shutdown-read d uptime pid (err e) (ok status) = sym (or_false d.shutdown)
  shutdown-read d uptime pid (ok _) (ok stop) = sym (or_true d.shutdown)
  shutdown-read d uptime pid (err e) (ok stop) = sym (or_false d.shutdown)

  shutdown-on_event :
      (d : Server.Daemon V) (e : Event V)
      → (on_event host wire d e).shutdown ≡ (d.shutdown || is_stop wire e)
  unfolding on_event handle_connection
  shutdown-on_event d (connection uptime pid none sent) = sym (or_false d.shutdown)
  shutdown-on_event d (connection uptime pid (some (err e)) sent) = sym (or_false d.shutdown)
  shutdown-on_event d (connection uptime pid (some (ok line)) sent) =
      shutdown-read d uptime pid sent (wire.read_request line)
  shutdown-on_event d (task read_spec t) = sym (or_false d.shutdown)
  shutdown-on_event d sigint = sym (or_true d.shutdown)

  goes_on :
      (b : Bool) (x y : Server.Daemon V × (Bool × List (Event V))) (v s : Bool)
      → x.1.0 ≡ true
      → y.1.0 ≡ ((b || s) || v)
      → (if b then x else y).1.0 ≡ (b || (s || v))
  goes_on true x y v s h k = h
  goes_on false x y v s h k = k

  -- The daemon's loop ends exactly where a request to stop, read and answered, or the signal has
  -- come: not at other requests, at clients that write nothing in time or something that cannot be
  -- read, at those that are gone before the answer, or at the tasks of the watcher, whatever of
  -- these comes before and behind.
  pub serve_ends :
      (d : Server.Daemon V) (es : List (Event V))
      → (serve host wire d es).1.0 ≡ (d.shutdown || any (is_stop wire) es)
  unfolding serve
  serve_ends d [] = sym (or_false d.shutdown)
  serve_ends d (e ∷ es) =
      goes_on d.shutdown (d, (true, e ∷ es)) (serve host wire (on_event host wire d e) es)
        (any (is_stop wire) es) (is_stop wire e) refl
        (serve_ends (on_event host wire d e) es
          ∙ ap (λ b. b || any (is_stop wire) es) (shutdown-on_event d e))
