-- ===== src/Tests/Line.antt =====
-- The lexer, the walk of the spec and the token start on concrete lines.
use tabra.Prelude.{
  ℕ, ◌≡◌, ◌<◌, refl, List, [], ◌∷◌, none, some, Text, codes, arith, take, len_utf8, eq_text,
  starts_with,
}
use tabra.Lexer
use tabra.Lexer.{tokenize, ends_blank, finish}
use tabra.Lexer.Spelling
use tabra.Lexer.Spelling.{Spells, Line, is_plain, tokenize-Line, tokenize_partial_blank}
use tabra.Spec.{subcommands, to_list, to_vec}
use tabra.Parser.{
  parse, parse_tokens, expected_of, run, step, nothing, option_arg, matching_option,
  matching_subcommand, find_subcommand, takes_arg,
}
use tabra.Parser.Paths.{Reached, parse_tokens-Reached}
use tabra.Parser.Options.{OptionsFit, parse_tokens-OptionsFit}
use tabra.Parser.Separator.{separated, parse_tokens-separator}
use tabra.Popup
use tabra.Popup.{PopupState, find_token_start}
use tabra.Popup.TokenStart.{StartsAt, find_token_start-StartsAt}
use tabra.Tests.Fixtures.{git, open_popup, open_cursor, mono}

-- `a\ "b"` and a blank.
word-Line : Line (codes "a b" ∷ []) (codes "a\\ \"b\" ")
word-Line =
    Line.word 32 (λ e. cc)
      (Spells.plain b'a' refl (
        Spells.escaped 32
          (Spells.double (Spelling.InDouble.char b'b' refl Spelling.InDouble.nil) Spells.nil)))
      refl Line.done

tokenize-Line_example : tokenize (codes "a\\ \"b\" -m rest") 9 ≡ (codes "a b" ∷ [], codes "-m")
tokenize-Line_example =
    tokenize-Line (codes " rest") word-Line
      (Spells.plain b'-' refl (Spells.plain b'm' refl Spells.nil)) (unfold ends_blank in refl)

abbrev commit_tokens : List Text
commit_tokens = codes "git" ∷ codes "commit" ∷ codes "-m" ∷ []

parse_tokens-Reached_example : Reached git (codes "git" ∷ []) (parse_tokens git commit_tokens)
parse_tokens-Reached_example = parse_tokens-Reached git commit_tokens

parse_tokens-OptionsFit_example : OptionsFit (parse_tokens git commit_tokens)
parse_tokens-OptionsFit_example = parse_tokens-OptionsFit git commit_tokens

expects_message : (parse git (codes "git commit -m ") 14).expected ≡ option_arg (codes "-m") 0
unfolding parse expected_of parse_tokens run tokenize finish ends_blank Lexer.run Lexer.step step
    eq_text matching_subcommand subcommands find_subcommand to_list to_vec starts_with
    matching_option takes_arg
expects_message = refl

add_waits_for_nothing : (parse_tokens git (codes "git" ∷ codes "x" ∷ [])).pending_option_arg ≡ none
unfolding parse_tokens run step matching_subcommand find_subcommand subcommands eq_text starts_with
    to_list to_vec
add_waits_for_nothing = refl

parse_tokens-separator_example :
    (parse_tokens git (codes "git" ∷ codes "x" ∷ codes "--" ∷ codes "commit" ∷ [])
      ≡ separated (parse_tokens git (codes "git" ∷ codes "x" ∷ codes "commit" ∷ [])))
    × (expected_of (parse_tokens git (codes "git" ∷ codes "x" ∷ codes "--" ∷ codes "commit" ∷ []))
        ≡ nothing)
parse_tokens-separator_example =
    parse_tokens-separator git (codes "git") (codes "x" ∷ []) (codes "commit" ∷ [])
      add_waits_for_nothing

at_the_root : (parse git (codes "git x") 5).spec_path ≡ []
unfolding parse parse_tokens run tokenize finish ends_blank Lexer.run Lexer.step
at_the_root = refl

find_token_start-StartsAt_example :
    (start : ℕ) × (find_token_start open_popup ≡ some start)
    × StartsAt (take 6 (codes "git ch -v")) start
find_token_start-StartsAt_example = find_token_start-StartsAt open_popup 6 open_cursor

-- `é`, behind which the tracker counts one character.
abbrev wide_popup : PopupState ℕ
wide_popup = record (Popup.initial mono 80) { last_buffer = 0xe9 ∷ []; last_cursor = 1 }

two_bytes : 1 < len_utf8 0xe9
unfolding len_utf8
two_bytes = omega arith
