-- ===== src/Client/Requests.antt =====
-- The requests of src/ipc/client.rs: one exchange on the daemon's socket, and what each prints.
use tabra.Prelude.{
  ℕ, Bool, true, false, ◌||◌, List, [], ◌∷◌, ◌++◌, Option, Text, codes, starts_with, decimal,
  if◌then◌else◌,
}
use tabra.Prelude.Results.{Result, ok, err, ◌>>=◌, ◌>>◌, context, or_else, to_string, bail}
use tabra.Protocol.{
  Request, Response, complete, accept, dismiss, status, stop, status_info, goodbye, error,
}
use tabra.Client.{print_shell}

-- `str::contains`.
unfoldable pub contains : Text → Text → Bool
contains [] pattern = starts_with [] pattern
contains (c ∷ s) pattern = starts_with (c ∷ s) pattern || contains s pattern

-- What the system gives for each call of an exchange, and the reader of a response. A failing call
-- has an error without contexts.
pub record Exchange : Type 0 where
  pub address : Result (Unit {0})
  pub connect_addr : Result (Unit {0})
  pub connect : Result (Unit {0})
  pub set_read_timeout : Result (Unit {0})
  pub set_write_timeout : Result (Unit {0})
  pub write_all : Text → Result (Unit {0})
  pub flush : Result (Unit {0})
  pub read_line : Result Text
  pub to_json_line : Request → Text
  pub from_json : Text → Result Response

-- `send_request`. An invalid address leaves the function before the second way to connect.
unfoldable pub send_request : Exchange → Request → Result Response
send_request x request = do
  context (codes "invalid socket path") x.address
  context (codes "failed to connect to tabra daemon (is it running?)")
      (or_else x.connect_addr x.connect)
  context (codes "set read timeout") x.set_read_timeout
  context (codes "set write timeout") x.set_write_timeout
  context (codes "write request") (x.write_all (x.to_json_line request))
  context (codes "flush request") x.flush
  let line = (← context (codes "read response") x.read_line)
  context (codes "parse response") (x.from_json line)

-- What `request_complete` prints, with the printer of a response.
abbrev pub json_lines : (Response → Text) → Result Response → Result (List Text)
json_lines to_json (ok response) = ok (to_json response ∷ [])
json_lines to_json (err e) = err e

unfoldable pub request_complete :
    Exchange → (Response → Text) → Text → ℕ → Text → Option ℕ → Result (List Text)
request_complete x to_json buffer cursor cwd cols =
    json_lines to_json (send_request x (complete buffer cursor cwd cols))

abbrev pub shell_text : Bool → Result Response → Result Text
shell_text render (ok response) = ok (print_shell render response)
shell_text render (err e) = err e

unfoldable pub request_complete_shell : Exchange → Text → ℕ → Text → Option ℕ → Bool → Result Text
request_complete_shell x buffer cursor cwd cols render =
    shell_text render (send_request x (complete buffer cursor cwd cols))

unfoldable pub request_accept : Exchange → Text → Result (List Text)
request_accept x text = do send_request x (accept text); ok []

unfoldable pub request_dismiss : Exchange → Result (List Text)
request_dismiss x = do send_request x dismiss; ok []

abbrev pub is_status : Result Response → Bool
is_status (ok (status_info specs_loaded uptime_secs pid)) = true
is_status _ = false

unfoldable pub is_daemon_running : Exchange → Bool
is_daemon_running x = is_status (send_request x status)

abbrev pub status_lines : Response → Result (List Text)
status_lines (status_info specs_loaded uptime_secs pid) = ok (
    codes "tabra daemon is running"
    ∷ (codes "  PID: " ++ decimal pid)
    ∷ (codes "  uptime: " ++ (decimal uptime_secs ++ codes "s"))
    ∷ (codes "  specs loaded: " ++ decimal specs_loaded)
    ∷ [])
status_lines (error message) = bail (codes "daemon error: " ++ message)
status_lines _ = bail (codes "unexpected response from daemon")

unfoldable pub request_status : Exchange → Result (List Text)
request_status x = do let response = (← send_request x status); status_lines response

abbrev pub is_reset : Text → Bool
is_reset message =
    contains message (codes "Connection reset") || contains message (codes "Broken pipe")

abbrev pub stop_lines : Result Response → Result (List Text)
stop_lines (ok goodbye) = ok (codes "tabra daemon stopped" ∷ [])
stop_lines (ok _) = ok (codes "tabra daemon acknowledged stop" ∷ [])
stop_lines (err e) =
    if is_reset (to_string e) then ok (codes "tabra daemon stopped" ∷ []) else err e

unfoldable pub request_stop : Exchange → Result (List Text)
request_stop x = stop_lines (send_request x stop)
