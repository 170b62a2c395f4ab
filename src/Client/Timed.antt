-- ===== src/Client/Timed.antt =====
-- The exchange of src/ipc/async_client.rs, each call of it under a time-out. A call takes some
-- milliseconds, or never ends.
use tabra.Prelude.{ℕ, ◌+◌, ◌≤◌, [], ◌∷◌, Option, none, some, Text, codes, arith, leb, if◌then◌else◌}
use tabra.Prelude.Results.{Result, ok, err, context}
use tabra.Protocol.{Request, Response, complete, status}

pub record Call (A : Type 0) : Type 0 where
  pub took : Option ℕ
  pub result : Result A

-- A computation's time, and what it gives.
abbrev pub Timed : Type 0 → Type 0
Timed A = ℕ × Result A

infixl 5 ◌>>=◌
abbrev pub ◌>>=◌ : {A B : Type 0} → Timed A → (A → Timed B) → Timed B
(t, ok a) >>= f = (t + (f a).0, (f a).1)
(t, err e) >>= f = (t, err e)

infixl 5 ◌>>◌
abbrev pub ◌>>◌ : {A B : Type 0} → Timed A → Timed B → Timed B
m >> k = m >>= λ _. k

abbrev pub expired : {A : Type 0} → ℕ → Text → Timed A
expired limit late =
    (limit, err (record { contexts = late ∷ []; cause = codes "deadline has elapsed" }))

-- `timeout(limit, call).await.context(late)?.context(failed)?`.
abbrev pub within_time : {A : Type 0} → ℕ → Text → Text → Option ℕ → Result A → Timed A
within_time limit late failed none result = expired limit late
within_time limit late failed (some took) result =
    if leb took limit then (took, context failed result) else expired limit late

abbrev pub timeout : {A : Type 0} → ℕ → Text → Text → Call A → Timed A
timeout limit late failed call = within_time limit late failed call.took call.result

-- Milliseconds.
abbrev pub connect_timeout : ℕ
connect_timeout = 500

abbrev pub write_timeout : ℕ
write_timeout = 500

abbrev pub read_timeout : ℕ
read_timeout = 2000

pub record Socket : Type 0 where
  pub connect : Call (Unit {0})
  pub write_all : Text → Call (Unit {0})
  pub flush : Call (Unit {0})
  pub read_line : Call Text
  pub to_json_line : Request → Text
  pub from_json : Text → Result Response

unfoldable pub send_request : Socket → Request → Timed Response
send_request s request = do
  timeout connect_timeout (codes "connect timeout")
      (codes "failed to connect to tabra daemon (is it running?)") s.connect
  timeout write_timeout (codes "write timeout") (codes "write request")
      (s.write_all (s.to_json_line request))
  timeout write_timeout (codes "flush timeout") (codes "flush request") s.flush
  let line = (← timeout read_timeout (codes "read timeout") (codes "read response") s.read_line)
  (0, context (codes "parse response") (s.from_json line))

unfoldable pub request_completion : Socket → Text → ℕ → Text → Option ℕ → Timed Response
request_completion s buffer cursor cwd cols = send_request s (complete buffer cursor cwd cols)

unfoldable pub request_status : Socket → Timed Response
request_status s = send_request s status

-- It takes no more than so many milliseconds.
record Within {A : Type 0} (limit : ℕ) (m : Timed A) : Type 0 where
  bounded : m.0 ≤ limit

Within-timeout :
    {A : Type 0} (limit : ℕ) (late failed : Text) (took : Option ℕ) (result : Result A)
    → Within limit (within_time limit late failed took result)
Within-timeout limit late failed none result = record { bounded = omega arith }
Within-timeout limit late failed (some took) result = record { bounded = ground arith }

Within-bind :
    {A B : Type 0} (m : Timed A) (f : A → Timed B) (a b : ℕ)
    → Within a m
    → ((x : A) → Within b (f x))
    → Within (a + b) (m >>= f)
Within-bind (t, ok x) f a b h k = record { bounded = omega (arith, h.bounded, (k x).bounded) }
Within-bind (t, err e) f a b h k = record { bounded = omega (arith, h.bounded) }

Within-call :
    {A B : Type 0} (limit : ℕ) (late failed : Text) (call : Call A) (f : A → Timed B) (b : ℕ)
    → ((x : A) → Within b (f x))
    → Within (limit + b) (timeout limit late failed call >>= f)
Within-call limit late failed call f b k =
    Within-bind (timeout limit late failed call) f limit b
      (Within-timeout limit late failed call.took call.result) k

-- An exchange ends, with a response or an error, within three and a half seconds, also where the
-- daemon never answers, takes no connection or hangs in the middle.
pub send_request_time : (s : Socket) (request : Request) → (send_request s request).0 ≤ 3500
unfolding send_request
send_request_time s request =
    (Within-call 500 _ _ s.connect _ 3000 λ _.
      Within-call 500 _ _ (s.write_all (s.to_json_line request)) _ 2500 λ _.
        Within-call 500 _ _ s.flush _ 2000 λ _.
          Within-call 2000 _ _ s.read_line _ 0 λ line. record { bounded = omega arith }).bounded
