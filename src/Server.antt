-- ===== src/Server.antt =====
-- src/ipc/server.rs: the answer of the daemon to one request. A panic is `none`.
pub mod Answers
pub mod Connection
use tabra.Prelude.{ℕ, Bool, true, false, List, [], ◌∷◌, Option, none, some, Text, map, take, length}
use tabra.Lexer.{tokenize}
use tabra.Spec.{Spec}
use tabra.Parser.{ParseContext, parse}
use tabra.Suggest.{ResolvedSuggestion}
use tabra.Templates.{DirEntry}
use tabra.Generators.{Runtime, Cache}
use tabra.Resolver.{resolve}
use tabra.Matcher.{ScoredSuggestion, AtomKind, match_suggestions}
use tabra.Loader.{SpecIndex, get, len}
use tabra.Protocol.{
  CompletionItem, Request, Response, complete, accept, dismiss, status, stop, completions, empty,
  ack, status_info, goodbye,
}
use tabra.Overlay.{Ansi, default_theme, render_popup}

abbrev pub item_of : ScoredSuggestion → CompletionItem
item_of s = record {
  display = s.suggestion.display_text;
  insert = s.suggestion.insert_text;
  description = s.suggestion.description;
  kind = s.suggestion.kind;
  match_indices = s.match_indices;
  is_dangerous = s.suggestion.is_dangerous;
}

abbrev pub max_items : ℕ
max_items = 50

-- What the daemon has of the system: the colour sequences, directories, the runtime of generators,
-- and the scores of nucleo.
pub record Host (V : Type 0) : Type 1 where
  pub ansi : Ansi
  pub read_dir : Text → Option (List DirEntry)
  pub runtime : Runtime V
  pub indices : AtomKind → Text → Text → Option (ℕ × List ℕ)

pub record Daemon (V : Type 0) : Type 0 where
  pub index : SpecIndex V
  pub cache : Cache
  pub shutdown : Bool

module _ {V : Type 0} (host : Host V) where
  abbrev pub with_popup : List CompletionItem → Text → Option (Option Text) → Option Response
  with_popup items query none = none
  with_popup items query (some popup) = some (completions items 0 query popup)

  abbrev pub respond_items : List CompletionItem → Text → Option ℕ → Option Response
  respond_items items query cols =
      with_popup items query (render_popup host.ansi (default_theme host.ansi) items 0 cols)

  -- What is ranked: nothing, or the best items.
  abbrev pub respond_scored : List ScoredSuggestion → Text → Option ℕ → Option Response
  respond_scored [] query cols = some empty
  respond_scored (s ∷ ss) query cols =
      respond_items (map item_of (take max_items (s ∷ ss))) query cols

  abbrev pub respond : ParseContext → List ResolvedSuggestion → Option ℕ → Option Response
  respond ctx [] cols = some empty
  respond ctx (r ∷ rs) cols =
      respond_scored (match_suggestions host.indices ctx.current_token (r ∷ rs) ctx.filter_strategy)
        ctx.current_token cols

  -- With the spec of the command.
  abbrev pub complete_with : Cache → Spec V → Text → ℕ → Text → Option ℕ → Cache × Option Response
  complete_with c spec buffer cursor cwd cols =
      let ctx = parse spec buffer cursor in
      let (c', candidates) = resolve host.read_dir host.runtime c spec ctx cwd in
      (c', respond ctx candidates cols)

  abbrev pub complete_if :
      Cache → Option (Spec V) → Text → ℕ → Text → Option ℕ → Cache × Option Response
  complete_if c none buffer cursor cwd cols = (c, some empty)
  complete_if c (some spec) buffer cursor cwd cols = complete_with c spec buffer cursor cwd cols

  abbrev pub complete_tokens :
      SpecIndex V → Cache → List Text → Text → ℕ → Text → Option ℕ → Cache × Option Response
  complete_tokens index c [] buffer cursor cwd cols = (c, some empty)
  complete_tokens index c (name ∷ tokens) buffer cursor cwd cols =
      complete_if c (get index name) buffer cursor cwd cols

  unfoldable pub handle_complete :
      SpecIndex V → Cache → Text → ℕ → Text → Option ℕ → Cache × Option Response
  handle_complete index c buffer cursor cwd cols =
      complete_tokens index c (tokenize buffer cursor).0 buffer cursor cwd cols

  -- What `handle_connection` answers to a request, with the uptime and the process id.
  unfoldable pub handle_request : Daemon V → ℕ → ℕ → Request → Daemon V × Option Response
  handle_request d uptime pid (complete buffer cursor cwd cols) =
      let (c, response) = handle_complete d.index d.cache buffer cursor cwd cols in
      (record d { cache = c }, response)
  handle_request d uptime pid (accept text) = (d, some ack)
  handle_request d uptime pid dismiss = (d, some ack)
  handle_request d uptime pid status = (d, some (status_info (len d.index) uptime pid))
  handle_request d uptime pid stop = (d, some goodbye)

  -- What it does behind the answer: whether the answer could be written.
  unfoldable pub after_writing : Daemon V → Request → Bool → Daemon V
  after_writing d stop true = record d { shutdown = true }
  after_writing d _ sent = d
