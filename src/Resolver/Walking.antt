-- ===== src/Resolver/Walking.antt =====
-- The resolver finds the command that the parser has reached.
use tabra.Prelude.{ℕ, ◌≡◌, refl, List, [], ◌∷◌, ◌++◌, some, Text}
use tabra.Spec.{Subcommand, Spec}
use tabra.Lexer.{tokenize}
use tabra.Parser.{parse, parse_tokens}
use tabra.Parser.Paths.{Descends, parse_tokens-Reached}
use tabra.Resolver.{child, walk_spec}

-- The indices lead from one command to the other.
pub data Follows {V : Type 0} : Subcommand V → List ℕ → Subcommand V → Type 0 where
  here : {c : Subcommand V} → Follows c [] c
  step :
      {c d e : Subcommand V} {i : ℕ} {is : List ℕ}
      → child c i ≡ some d
      → Follows d is e
      → Follows c (i ∷ is) e

module _ {V : Type 0} where
  Follows-append :
      {c d e : Subcommand V} {is : List ℕ} (i : ℕ)
      → Follows c is d
      → child d i ≡ some e
      → Follows c (is ++ i ∷ []) e
  Follows-append i Follows.here g = Follows.step g Follows.here
  Follows-append i (Follows.step h f) g = Follows.step h (Follows-append i f g)

  Descends-Follows :
      {spec c : Subcommand V} {ns : List Text} {is : List ℕ}
      → Descends spec ns is c
      → Follows spec is c
  Descends-Follows Descends.here = Follows.here
  Descends-Follows (Descends.down {c} n i d cs h e g m) =
      Follows-append i (Descends-Follows h) (unfold child in rw (e, child) g)

  walk_spec-Follows : {c d : Subcommand V} {is : List ℕ} → Follows c is d → walk_spec c is ≡ d
  unfolding walk_spec
  walk_spec-Follows Follows.here = refl
  walk_spec-Follows (Follows.step {c} {d} {e} {i} {is} h f) =
      rw (h, walk_spec) (walk_spec-Follows f)

  -- The resolver, which is given the parser's path of indices and not its command, walks to the
  -- very command that the parser has reached, for every spec, line and cursor.
  pub walk_spec-parse :
      (spec : Spec V) (buffer : Text) (cursor : ℕ)
      → walk_spec spec (parse spec buffer cursor).spec_path
        ≡ (parse_tokens spec (tokenize buffer cursor).0).current_cmd
  unfolding parse
  walk_spec-parse spec buffer cursor =
      walk_spec-Follows
        (Descends-Follows (parse_tokens-Reached spec (tokenize buffer cursor).0).descends)
