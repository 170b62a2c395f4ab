-- ===== src/Tests/Serving.antt =====
-- The index, the daemon's answers and the client's lines on concrete specs.
use tabra.Prelude.{
  ℕ, ◌≡◌, ◌≢◌, ap, List, [], ◌∷◌, Option, none, some, Text, codes, arith, if◌then◌else◌, eq_text,
}
use tabra.Lexer
use tabra.Lexer.{tokenize, finish, ends_blank}
use tabra.Spec.{Spec, to_list, to_vec, subcommands}
use tabra.Parser.{parse, parse_tokens, run, expected_of}
use tabra.Protocol.{CompletionItem, completions}
use tabra.Overlay.{default_theme, render_popup}
use tabra.Overlay.Widths.{render_popup-some}
use tabra.Suggest.{subcommand_suggestions, collect_options}
use tabra.Matcher.{match_suggestions, sort_by, insert, compare_listed, compare_text}
use tabra.Generators.{Cache, Script}
use tabra.Resolver.{resolve, walk_spec, inherited_options, arg_at}
use tabra.Loader.{SpecIndex, get, lookup}
use tabra.Server.{Host, with_popup, handle_complete}
use tabra.Server.Answers.{handle_complete-total}
use tabra.Tests.Fixtures.{mono, git, plain_item}

-- `git.json` can be read, and no other file.
abbrev pub only_git : Text → Option (Spec ℕ)
only_git path = if eq_text path (codes "git.json") then some git else none

abbrev pub git_index : SpecIndex ℕ
git_index = record { specs = (codes "git", git) ∷ [] }

abbrev pub bare_host : Host ℕ
bare_host = record {
  ansi = mono;
  read_dir = λ d. none;
  runtime = record {
    script_of = λ v. Script.other;
    hash = λ v. v;
    clock = λ n. n;
    output = λ n program args cwd timeout. none;
  };
  indices = λ kind query text. some (1, []);
}

abbrev pub empty_cache : Cache
empty_cache = record { entries = []; counter = 0 }

handle_complete-total_example :
    (handle_complete bare_host git_index empty_cache (codes "git ") 4 (codes "/") (some 80)).1
    ≢ none
handle_complete-total_example =
    handle_complete-total bare_host git_index empty_cache (codes "git ") 4 (codes "/") 80
      (omega arith)

abbrev pub git_items : List CompletionItem
git_items = plain_item (codes "add") ∷ plain_item (codes "commit") ∷ []

pub drawn_items :
    (s : Text) × (render_popup mono (default_theme mono) git_items 0 (some 80) ≡ some (some s))
drawn_items =
    render_popup-some mono (default_theme mono) (plain_item (codes "add"))
      (plain_item (codes "commit") ∷ []) 0 80 (omega arith)

pub lists_subcommands :
    (handle_complete bare_host git_index empty_cache (codes "git ") 4 (codes "/") (some 80)).1
    ≡ some (completions git_items 0 [] (some drawn_items.0))
unfolding handle_complete tokenize finish ends_blank Lexer.run Lexer.step get lookup eq_text resolve
    parse expected_of parse_tokens run subcommands walk_spec subcommand_suggestions to_list to_vec
    collect_options inherited_options arg_at match_suggestions sort_by insert compare_listed
    compare_text
lists_subcommands = ap (with_popup bare_host git_items []) drawn_items.1
