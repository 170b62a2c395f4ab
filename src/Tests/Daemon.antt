-- ===== src/Tests/Daemon.antt =====
-- The resolver and the matcher on concrete specs and candidates.
use tabra.Prelude.{
  ℕ, suc, ◌≡◌, refl, true, List, [], ◌∷◌, Option, none, some, Text, codes, arith, All, map,
  if◌then◌else◌,
}
use mathlib.Core.List.{Perm}
use tabra.Utf8.{from_utf8, decode_first}
use tabra.Lexer.{tokenize}
use tabra.Spec.{Spec, Opt, default, leaf}
use tabra.Parser.{parse, parse_tokens}
use tabra.Suggest.{ResolvedSuggestion, option_suggestion, collect_options}
use tabra.Suggest.Options.{IsUnused}
use tabra.Matcher.{AtomKind, match_suggestions}
use tabra.Matcher.Sorting.{Chain}
use tabra.Matcher.Ranking.{Before, kept, match_suggestions-Ranked}
use tabra.Templates.{join, directory_of, trim_back, is_absolute}
use tabra.Templates.Prefix.{IsName, IsTrimmed, directory_of-path}
use tabra.Generators.{
  Runtime, Cache, Script, lookup, lines_of, line_suggestion, output_of, run_command,
  execute_generator,
}
use tabra.Generators.Reuse.{execute_generator_again}
use tabra.Resolver.{walk_spec}
use tabra.Resolver.Walking.{walk_spec-parse}
use tabra.Resolver.Offers.{collect_options-parse}
use tabra.Tests.Fixtures.{git, message_option, no_fields}

walk_spec-parse_example :
    walk_spec git (parse git (codes "git commit -m ") 14).spec_path
    ≡ (parse_tokens git (tokenize (codes "git commit -m ") 14).0).current_cmd
walk_spec-parse_example = walk_spec-parse git (codes "git commit -m ") 14

collect_options-parse_example :
    All (IsUnused (parse git (codes "git commit -m x ") 16).used_options) (
      collect_options
        (walk_spec git (parse git (codes "git commit -m x ") 16).spec_path)
        (parse git (codes "git commit -m x ") 16).used_options)
collect_options-parse_example = collect_options-parse git (codes "git commit -m x ") 16

abbrev hidden_option : Opt ℕ
hidden_option = record message_option { is_persistent = true; hidden = true }

abbrev hiding : Spec ℕ
hiding = leaf (record (no_fields (codes "tool")) { options = some (hidden_option ∷ []) })

abbrev candidate : Text → ℕ → ResolvedSuggestion
candidate name priority = record (option_suggestion message_option) {
  match_text = name;
  priority = priority;
}

abbrev candidates : List ResolvedSuggestion
candidates = candidate (codes "add") 50 ∷ candidate (codes "commit") 75 ∷ []

-- Every text has the score 3, unless it is matched as a prefix.
abbrev by_kind : AtomKind → Text → Text → Option (ℕ × List ℕ)
by_kind AtomKind.fuzzy query text = some (3, [])
by_kind AtomKind.prefix query text = none

match_suggestions-Ranked_example :
    Perm
      (match_suggestions by_kind (codes "o") candidates default)
      (kept by_kind (codes "o") candidates default)
    × Chain (Before (codes "o")) (match_suggestions by_kind (codes "o") candidates default)
match_suggestions-Ranked_example = match_suggestions-Ranked by_kind (codes "o") candidates default

usr-IsTrimmed : IsTrimmed (codes "/usr")
unfolding trim_back
usr-IsTrimmed = refl

lo-IsName : IsName (codes "lo")
lo-IsName = ((refl, (refl, tt)), (λ e. cc, λ e. cc))

directory_of-path_example : directory_of (codes "/home") (codes "/usr/lo") ≡ (
    if is_absolute (codes "/usr")
    then (codes "/usr", codes "/usr")
    else (join (codes "/home") (codes "/usr"), codes "/usr/"))
directory_of-path_example =
    directory_of-path (codes "/home") (codes "/usr") (codes "lo") lo-IsName usr-IsTrimmed (λ e. cc)

-- A clock of one nanosecond each reading, and processes that print two lines.
abbrev two_lines : Runtime ℕ
two_lines = record {
  script_of = λ v. Script.string (codes "ls");
  hash = λ v. v;
  clock = λ n. n;
  output = λ n program args cwd timeout.
      some (record { success = true; stdout = b'a' ∷ 0x0a ∷ b'b' ∷ [] });
}

abbrev empty_cache : Cache
empty_cache = record { entries = []; counter = 0 }

prints : output_of two_lines 0 (Script.string (codes "ls")) (codes "/") 5000 ≡ some (codes "a\nb")
unfolding output_of run_command from_utf8 decode_first
prints = refl

execute_generator_again_example :
    (c' : Cache) × (lines : List ResolvedSuggestion) × (execute_generator two_lines empty_cache 7
        none none
        (codes "/")
      ≡ (c', lines))
    × (lines ≡ map line_suggestion (lines_of (codes "\n") (codes "a\nb")))
    × (execute_generator two_lines c' 7 (some (codes ",")) none (codes "/")
        ≡ (record c' { counter = suc c'.counter }, lines))
execute_generator_again_example =
    execute_generator_again two_lines empty_cache 7 none (some (codes ",")) none none (codes "/")
      (codes "a\nb") refl (unfold lookup in refl) prints (omega arith)
