-- ===== src/Server/Connection.antt =====
-- `handle_connection` of src/ipc/server.rs, from the line that a client writes to the line that it
-- gets. The JSON lines are serde's: an interface of writers and readers.
use tabra.Prelude.{ℕ, true, Option, none, some, Text, codes}
use tabra.Prelude.Results.{Result, ok, err, context, bail}
use tabra.Protocol.{Request, Response}
use tabra.Server
use tabra.Server.{Host, handle_request, after_writing}

pub record Wire : Type 0 where
  pub request_line : Request → Text
  pub read_request : Text → Result Request
  pub response_line : Response → Text
  pub read_response : Text → Result Response

module _ {V : Type 0} (host : Host V) (wire : Wire) where
  -- The line that is written back, if writing it succeeds; a panic closes the connection without
  -- one.
  abbrev pub written :
      Request
      → Result (Unit {0})
      → Server.Daemon V × Option Response
      → Server.Daemon V × Result Text
  written request sent (d, none) = (d, bail (codes "connection closed"))
  written request (ok _) (d, some response) =
      (after_writing host d request true, ok (wire.response_line response))
  written request (err e) (d, some response) = (d, err e)

  abbrev pub handle_read :
      Server.Daemon V → ℕ → ℕ → Result (Unit {0}) → Result Request → Server.Daemon V × Result Text
  handle_read d uptime pid sent (ok request) =
      written request sent (handle_request host d uptime pid request)
  handle_read d uptime pid sent (err e) = (d, err e)

  -- With what reading the client's line gives, if it comes in time, and what writing the answer
  -- gives.
  unfoldable pub handle_connection :
      Server.Daemon V
      → ℕ
      → ℕ
      → Option (Result Text)
      → Result (Unit {0})
      → Server.Daemon V × Result Text
  handle_connection d uptime pid none sent = (
    d,
    context (codes "IPC read timeout (client connected but sent no data)")
        (bail (codes "deadline has elapsed")),
  )
  handle_connection d uptime pid (some (err e)) sent = (d, err e)
  handle_connection d uptime pid (some (ok line)) sent =
      handle_read d uptime pid sent (wire.read_request line)
