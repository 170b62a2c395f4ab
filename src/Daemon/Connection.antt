-- ===== src/Daemon/Connection.antt =====
-- One exchange between src/ipc/client.rs and `handle_connection` of src/ipc/server.rs. That serde
-- reads a message as it was written is a hypothesis.
use tabra.Prelude.{ℕ, ◌≡◌, refl, ap, ◌∙◌, true, List, ◌∷◌, Option, none, some, Text, codes}
use tabra.Prelude.Results.{ok, context}
use tabra.Protocol.{CompletionItem, Request, Response, complete, completions}
use tabra.Client.{sanitize, print_shell}
use tabra.Client.Requests.{Exchange, send_request, shell_text, request_complete_shell}
use tabra.Server
use tabra.Server.{Host, handle_request, handle_complete}
use tabra.Server.Connection.{Wire, written, handle_read, handle_connection}
use tabra.Hooks.{Hook}
use tabra.Hooks.Zsh.{fetch_and_render, accept}
use tabra.Hooks.Zsh.Accept.{Replaced}
use tabra.Hooks.Zsh.Typing.{fetch-accept}

-- The two messages of an exchange are read as they were written.
pub record ReadsBack (wire : Wire) (request : Request) (response : Response) : Type 0 where
  pub request_read : wire.read_request (wire.request_line request) ≡ ok request
  pub response_read : wire.read_response (wire.response_line response) ≡ ok response

module _ {V : Type 0} (host : Host V) (wire : Wire) where
  -- The exchange of a client with that daemon, for a request.
  abbrev pub exchange_for : Server.Daemon V → ℕ → ℕ → Request → Exchange
  exchange_for d uptime pid request = record {
    address = ok tt;
    connect_addr = ok tt;
    connect = ok tt;
    set_read_timeout = ok tt;
    set_write_timeout = ok tt;
    write_all = λ line. ok tt;
    flush = ok tt;
    read_line =
        (handle_connection host wire d uptime pid (some (ok (wire.request_line request)))
          (ok tt)).1;
    to_json_line = wire.request_line;
    from_json = wire.read_response;
  }

  module _ (d : Server.Daemon V) (uptime pid : ℕ) where
    connection_answers :
        (request : Request) (response : Response)
        → ReadsBack wire request response
        → (handle_request host d uptime pid request).1 ≡ some response
        → (handle_connection host wire d uptime pid
            (some (ok (wire.request_line request)))
            (ok tt)).1
          ≡ ok (wire.response_line response)
    unfolding handle_connection
    connection_answers request response w h =
        ap (λ r. (handle_read host wire d uptime pid (ok tt) r).1) w.request_read
        ∙ answered (handle_request host d uptime pid request) h
      where
        answered :
            (p : Server.Daemon V × Option Response)
            → p.1 ≡ some response
            → (written host wire request (ok tt) p).1 ≡ ok (wire.response_line response)
        answered (e, none) h = cc
        answered (e, some r) h =
            ap (λ t. ok (wire.response_line t)) (let q : r ≡ response = cc in q)

    send_request-answers :
        (request : Request) (response : Response)
        → ReadsBack wire request response
        → (handle_request host d uptime pid request).1 ≡ some response
        → send_request (exchange_for d uptime pid request) request ≡ ok response
    unfolding send_request
    send_request-answers request response w h =
        rw (connection_answers request response w h)
          (ap (context (codes "parse response")) w.response_read)

    -- What the client prints for the shell is what the daemon answered.
    shell-answers :
        (buffer : Text) (cursor : ℕ) (cwd : Text) (cols : Option ℕ) (response : Response)
        → ReadsBack wire (complete buffer cursor cwd cols) response
        → (handle_request host d uptime pid (complete buffer cursor cwd cols)).1 ≡ some response
        → request_complete_shell
            (exchange_for d uptime pid (complete buffer cursor cwd cols))
            buffer
            cursor
            cwd
            cols
            true
          ≡ ok (print_shell true response)
    unfolding request_complete_shell
    shell-answers buffer cursor cwd cols response w h =
        ap (shell_text true) (send_request-answers (complete buffer cursor cwd cols) response w h)

    request-complete :
        (buffer : Text) (cursor : ℕ) (cwd : Text) (cols : Option ℕ)
        → (handle_request host d uptime pid (complete buffer cursor cwd cols)).1
          ≡ (handle_complete host d.index d.cache buffer cursor cwd cols).1
    unfolding handle_request
    request-complete buffer cursor cwd cols = refl

    -- From a key in the shell to the accepted text, through the client, the socket and the daemon:
    -- where the daemon finds completions for the hook's line and the messages are read as they are
    -- written, the client prints a text with which the hook leaves the line as it is, and a Tab
    -- behind it puts the daemon's first item, with blanks for tabs and line breaks, in the place of
    -- the word that the cursor is in; that item has a text.
    pub complete-accept :
        (h : Hook) (cwd : Text) (cols : Option ℕ) (i : CompletionItem) (is : List CompletionItem)
        (selected : ℕ) (query : Text) (popup : Option Text) (c : ℕ) (s : Text)
        → ReadsBack wire
            (complete h.buffer h.cursor cwd cols)
            (completions (i ∷ is) selected query popup)
        → (handle_complete host d.index d.cache h.buffer h.cursor cwd cols).1
          ≡ some (completions (i ∷ is) selected query popup)
        → sanitize i.insert ≡ c ∷ s
        → (output : Text) × (request_complete_shell
              (exchange_for d uptime pid (complete h.buffer h.cursor cwd cols))
              h.buffer
              h.cursor
              cwd
              cols
              true
            ≡ ok output)
          × ((fetch_and_render output h).0.buffer ≡ h.buffer)
          × ((fetch_and_render output h).0.cursor ≡ h.cursor)
          × Replaced (fetch_and_render output h).0 (c ∷ s) (accept (fetch_and_render output h).0).0
    complete-accept h cwd cols i is selected query popup c s w e t =
        let f = fetch-accept i is selected query popup h c s t in
        (
          print_shell true (completions (i ∷ is) selected query popup),
          shell-answers h.buffer h.cursor cwd cols (completions (i ∷ is) selected query popup) w
              (request-complete h.buffer h.cursor cwd cols ∙ e),
          f.0,
          f.1,
          f.2,
        )
