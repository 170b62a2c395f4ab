-- ===== src/Client/Errors.antt =====
-- How the requests of src/ipc/client.rs fail.
use tabra.Prelude.{◌≡◌, refl, ap, false, Text, starts_with}
use tabra.Prelude.Results.{Failure, Result, ok, err, ◌>>=◌, context, or_else, to_string}
use tabra.Protocol.{Request, Response, stop}
use tabra.Client.Requests.{contains, Exchange, send_request, is_reset, stop_lines, request_stop}

-- An error, if it is one, whose text is not taken for the end of the daemon.
abbrev Quiet {ℓ} : {A : Type ℓ} → Result A → Type 0
Quiet (ok a) = Unit
Quiet (err e) = is_reset (to_string e) ≡ false

Quiet-context {ℓ κ} :
    {A : Type ℓ} {B : Type κ} (text : Text) (m : Result A) (f : A → Result B)
    → is_reset text ≡ false
    → ((a : A) → Quiet (f a))
    → Quiet (context text m >>= f)
Quiet-context text (ok a) f h k = k a
Quiet-context text (err e) f h k = h

Quiet-last {ℓ} :
    {A : Type ℓ} (text : Text) (m : Result A) → is_reset text ≡ false → Quiet (context text m)
Quiet-last text (ok a) h = tt
Quiet-last text (err e) h = h

Quiet-send_request : (x : Exchange) (request : Request) → Quiet (send_request x request)
unfolding send_request contains starts_with
Quiet-send_request x request = Quiet-context _ x.address _ refl λ _.
    Quiet-context _ (or_else x.connect_addr x.connect) _ refl λ _.
      Quiet-context _ x.set_read_timeout _ refl λ _. Quiet-context _ x.set_write_timeout _ refl λ _.
        Quiet-context _ (x.write_all (x.to_json_line request)) _ refl λ _.
          Quiet-context _ x.flush _ refl
            λ _. Quiet-context _ x.read_line _ refl λ line. Quiet-last _ (x.from_json line) refl

stop_lines-err : (r : Result Response) (e : Failure) → Quiet r → r ≡ err e → stop_lines r ≡ err e
stop_lines-err (ok response) e q h = cc
stop_lines-err (err f) e q h = rw q (ap err (let i : f ≡ e = cc in i))

-- A request to stop that fails fails, whatever the reason: the text that is looked at is the
-- outermost context, which names the step of the exchange and never a reset connection, so the
-- error of a daemon that goes away before it answers is not taken for its end.
pub request_stop-err :
    (x : Exchange) (e : Failure) → send_request x stop ≡ err e → request_stop x ≡ err e
unfolding request_stop
request_stop-err x e h = stop_lines-err (send_request x stop) e (Quiet-send_request x stop) h
