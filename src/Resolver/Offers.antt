-- ===== src/Resolver/Offers.antt =====
-- Which options the resolver offers behind the parser.
use tabra.Prelude.{
  ℕ, ◌≡◌, refl, true, false, List, [], ◌∷◌, Text, codes, All, arith, eq_text, starts_with,
}
use tabra.Lexer.{tokenize}
use tabra.Spec.{Subcommand, Spec}
use tabra.Parser.{parse, parse_tokens}
use tabra.Parser.Options.{IsOptionOf, parse_tokens-OptionsFit}
use tabra.Suggest.{contains, collect_options}
use tabra.Suggest.Options.{IsUnused, collect_options-IsUnused}
use tabra.Resolver.{walk_spec}

dashed_is_some : (u : Text) → starts_with u (codes "-") ≡ true → eq_text u [] ≡ false
unfolding starts_with eq_text
dashed_is_some [] h = absurd (cc)
dashed_is_some (c ∷ u) h = refl

module _ {V : Type 0} where
  used_is_some :
      (c : Subcommand V) (used : List Text) → All (IsOptionOf c) used → contains used [] ≡ false
  used_is_some c [] a = refl
  used_is_some c (u ∷ us) a = ground (arith, dashed_is_some u (a.0.dashed), used_is_some c us a.1)

  -- Of the options of the command that the line has reached, none is offered under a name that the
  -- parser counts as used, also not an option that the spec marks as repeatable.
  pub collect_options-parse :
      (spec : Spec V) (buffer : Text) (cursor : ℕ)
      → All (IsUnused (parse spec buffer cursor).used_options) (
          collect_options
            (walk_spec spec (parse spec buffer cursor).spec_path)
            (parse spec buffer cursor).used_options)
  unfolding parse
  collect_options-parse spec buffer cursor =
      let w = parse_tokens spec (tokenize buffer cursor).0 in
      collect_options-IsUnused _ w.used_options (
        used_is_some w.current_cmd w.used_options
          (parse_tokens-OptionsFit spec (tokenize buffer cursor).0).used)
