-- ===== src/Server/Answers.antt =====
-- What the daemon answers to a request for completions.
use tabra.Prelude.{ℕ, ◌≤◌, ◌≢◌, List, [], ◌∷◌, Option, none, some, Text, map, take}
use tabra.Lexer.{tokenize}
use tabra.Spec.{Spec}
use tabra.Parser.{ParseContext, parse}
use tabra.Suggest.{ResolvedSuggestion}
use tabra.Generators.{Cache}
use tabra.Matcher.{ScoredSuggestion}
use tabra.Loader.{SpecIndex, get}
use tabra.Protocol.{CompletionItem}
use tabra.Overlay.{default_theme, render_popup}
use tabra.Overlay.Widths.{render_popup-some}
use tabra.Server.{
  Host, item_of, max_items, respond_items, respond_scored, respond, complete_if, complete_tokens,
  handle_complete,
}

module _ {V : Type 0} (host : Host V) where
  popup-total :
      (items : List CompletionItem) (query : Text) (cols : ℕ)
      → 32 ≤ cols
      → respond_items host items query (some cols) ≢ none
  popup-total [] query cols w = unfold render_popup in λ e. cc
  popup-total (i ∷ is) query cols w =
      let (s, e) = render_popup-some host.ansi (default_theme host.ansi) i is 0 cols w in
      rw e (λ f. cc)

  scored-total :
      (ss : List ScoredSuggestion) (query : Text) (cols : ℕ)
      → 32 ≤ cols
      → respond_scored host ss query (some cols) ≢ none
  scored-total [] query cols w = λ e. cc
  scored-total (s ∷ ss) query cols w =
      popup-total (map item_of (take max_items (s ∷ ss))) query cols w

  respond-total :
      (ctx : ParseContext) (rs : List ResolvedSuggestion) (cols : ℕ)
      → 32 ≤ cols
      → respond host ctx rs (some cols) ≢ none
  respond-total ctx [] cols w = λ e. cc
  respond-total ctx (r ∷ rs) cols w = scored-total _ ctx.current_token cols w

  if-total :
      (c : Cache) (o : Option (Spec V)) (buffer : Text) (cursor : ℕ) (cwd : Text) (cols : ℕ)
      → 32 ≤ cols
      → (complete_if host c o buffer cursor cwd (some cols)).1 ≢ none
  if-total c none buffer cursor cwd cols w = λ e. cc
  if-total c (some spec) buffer cursor cwd cols w =
      respond-total (parse spec buffer cursor) _ cols w

  tokens-total :
      (index : SpecIndex V) (c : Cache) (ts : List Text) (buffer : Text) (cursor : ℕ) (cwd : Text)
      (cols : ℕ)
      → 32 ≤ cols
      → (complete_tokens host index c ts buffer cursor cwd (some cols)).1 ≢ none
  tokens-total index c [] buffer cursor cwd cols w = λ e. cc
  tokens-total index c (name ∷ ts) buffer cursor cwd cols w =
      if-total c (get index name) buffer cursor cwd cols w

  -- On a terminal of 32 columns or more every request for completions is answered: there is no
  -- panic, whatever the line, the cursor, the index and the cache.
  pub handle_complete-total :
      (index : SpecIndex V) (c : Cache) (buffer : Text) (cursor : ℕ) (cwd : Text) (cols : ℕ)
      → 32 ≤ cols
      → (handle_complete host index c buffer cursor cwd (some cols)).1 ≢ none
  unfolding handle_complete
  handle_complete-total index c buffer cursor cwd cols w =
      tokens-total index c (tokenize buffer cursor).0 buffer cursor cwd cols w
