-- ===== src/Tests/Processes.antt =====
-- The client and the session's scripts on concrete inputs.
use tabra.Prelude.{
  ℕ, ◌≡◌, ◌≤◌, refl, true, false, List, [], ◌∷◌, none, some, Text, codes, arith, decimal,
}
use tabra.Prelude.Results.{Failure, ok, err, bail}
use tabra.Protocol.{Request, Response, complete, status, goodbye, completions}
use tabra.Client.{sanitize}
use tabra.Client.Requests.{Exchange, send_request, request_stop, request_complete_shell}
use tabra.Client.Errors.{request_stop-err}
use tabra.Client.Timed
use tabra.Client.Timed.{Socket, send_request_time}
use tabra.Hooks.{Hook}
use tabra.Hooks.Zsh.{initial, fetch_and_render, accept}
use tabra.Hooks.Zsh.Accept.{Replaced}
use tabra.Server
use tabra.Server.Connection.{Wire}
use tabra.Daemon.Connection.{exchange_for, complete-accept}
use tabra.Osc.{command_line, feed}
use tabra.Osc.Strip.{resting, finished}
use tabra.Osc.Reports.{report, feed-report}
use tabra.Utf8.{from_utf8, decode_first}
use tabra.Tests.Fixtures.{plain_item}
use tabra.Tests.Serving.{
  bare_host, git_index, empty_cache, git_items, drawn_items, lists_subcommands,
}

abbrev pub running : Server.Daemon ℕ
running = record { index = git_index; cache = empty_cache; shutdown = false }

-- Behind `git ` in a shell.
abbrev git_hook : Hook
git_hook = record initial { buffer = codes "git "; cursor = 4 }

abbrev listed : Response
listed = completions git_items 0 [] (some drawn_items.0)

abbrev asked : Request
asked = complete (codes "git ") 4 (codes "/") (some 80)

-- One request and one response.
abbrev pub short_wire : Wire
short_wire = record {
  request_line = λ r. codes "{}";
  read_request = λ line. ok asked;
  response_line = λ r. codes "{}";
  read_response = λ line. ok listed;
}

complete-accept_example :
    (output : Text) × (request_complete_shell
        (exchange_for bare_host short_wire running 0 1 asked)
        (codes "git ")
        4
        (codes "/")
        (some 80)
        true
      ≡ ok output)
    × ((fetch_and_render output git_hook).0.buffer ≡ codes "git ")
    × ((fetch_and_render output git_hook).0.cursor ≡ 4)
    × Replaced
        (fetch_and_render output git_hook).0
        (codes "add")
        (accept (fetch_and_render output git_hook).0).0
unfolding sanitize
complete-accept_example =
    complete-accept bare_host short_wire running 0 1 git_hook (codes "/") (some 80)
      (plain_item (codes "add")) (plain_item (codes "commit") ∷ []) 0 [] (some drawn_items.0) b'a'
      (codes "dd") (record { request_read = refl; response_read = refl }) lists_subcommands refl

-- A daemon that goes away before it answers.
abbrev cut_off : Exchange
cut_off = record {
  address = ok tt;
  connect_addr = ok tt;
  connect = ok tt;
  set_read_timeout = ok tt;
  set_write_timeout = ok tt;
  write_all = λ line. ok tt;
  flush = ok tt;
  read_line = bail (codes "Connection reset by peer (os error 104)");
  to_json_line = λ r. codes "{}";
  from_json = λ line. ok goodbye;
}

abbrev pub reset_failure : Failure
reset_failure = record {
  contexts = codes "read response" ∷ [];
  cause = codes "Connection reset by peer (os error 104)";
}

request_stop-err_example : request_stop cut_off ≡ err reset_failure
unfolding send_request
request_stop-err_example = request_stop-err cut_off reset_failure refl

-- A daemon that takes the connection and never answers.
abbrev silent : Socket
silent = record {
  connect = record { took = some 1; result = ok tt };
  write_all = λ line. record { took = some 1; result = ok tt };
  flush = record { took = some 1; result = ok tt };
  read_line = record { took = none; result = ok [] };
  to_json_line = λ r. codes "{}";
  from_json = λ line. ok goodbye;
}

send_request_time_example : (Timed.send_request silent status).0 ≤ 3500
send_request_time_example = send_request_time silent status

-- A code of one character for each byte, for lines of small letters and blanks.
abbrev letters : List ℕ → Text
letters bytes = bytes

feed-report_example :
    feed (λ t. some t) (resting 0) (report letters (codes "ls a") 4)
    ≡ some (finished, [], command_line (codes "ls a") 4 ∷ [])
unfolding from_utf8 decode_first decimal
feed-report_example =
    feed-report letters (λ t. some t) 0 (codes "ls a") (codes "ls a") 4 (ground arith) refl refl
      (omega arith) (omega arith)
