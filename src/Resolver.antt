-- ===== src/Resolver.antt =====
-- `resolve` of src/engine/resolver.rs: what is suggested at a place of the command line. The
-- directory listing and the runtime of the generators are parameters.
pub mod Walking
pub mod Offers
pub mod Inherited
use tabra.Prelude.{
  ℕ, Bool, true, false, not, ◌&&◌, ◌||◌, List, [], ◌∷◌, ◌++◌, Option, none, some, Text, map,
  if◌then◌else◌, ltb, length, is_empty, get_elem?, last?, find, any, eq_text,
}
use tabra.Spec.{
  Arg, Opt, Subcommand, Spec, Generator, TemplateString, SingleOrArray, arg, special, to_vec,
  fields, subcommands, option_names,
}
use tabra.Parser.{
  ParseContext, ExpectedCompletion, subcommand_or_option_or_arg, option_arg, nothing,
  matching_option,
}
use tabra.Suggest.{
  ResolvedSuggestion, static_suggestions, collect_options, persistent_options,
  subcommand_suggestions,
}
use tabra.Templates.{DirEntry, expand_template}
use tabra.Generators.{Runtime, Cache, execute_generator}

-- `to_vec` of a value that may be missing.
abbrev pub list_of {ℓ} : {A : Type ℓ} → Option (SingleOrArray A) → List A
list_of none = []
list_of (some v) = to_vec v

module _ {V : Type 0} where
  unfoldable pub child : Subcommand V → ℕ → Option (Subcommand V)
  child c i = elim (subcommands c) [ none ↦ none | some cs ↦ get_elem? cs i ]

  unfoldable pub walk_spec : Subcommand V → List ℕ → Subcommand V
  walk_spec c [] = c
  walk_spec c (i ∷ is) = elim (child c i) [ none ↦ c | some d ↦ walk_spec d is ]

  -- `std::ptr::eq(parent, current_cmd)`: the walk gets no further than `parent`.
  abbrev pub is_deepest : Subcommand V → List ℕ → Bool
  is_deepest parent [] = true
  is_deepest parent (i ∷ is) = elim (child parent i) [ none ↦ true | some d ↦ false ]

  -- The persistent options of the commands between the root and the current one.
  unfoldable pub intermediate_options : Subcommand V → List ℕ → List Text → List ResolvedSuggestion
  intermediate_options parent [] used = []
  intermediate_options parent (i ∷ is) used = elim (child parent i) [
    | none ↦ []
    | some d ↦
        let rest = intermediate_options d is used in
        if is_deepest d is then [] else persistent_options d used ++ rest
  ]

  unfoldable pub inherited_options : Spec V → List ℕ → List Text → List ResolvedSuggestion
  inherited_options spec path used =
      if is_empty path
      then []
      else persistent_options spec used ++ intermediate_options spec path used

  abbrev pub if_variadic : Option (Arg V) → Option (Arg V)
  if_variadic none = none
  if_variadic (some a) = if a.is_variadic then some a else none

  -- The argument at an index, or the last one if it is variadic.
  unfoldable pub arg_at : List (Arg V) → ℕ → Option (Arg V)
  arg_at args i = if ltb i (length args) then get_elem? args i else if_variadic (last? args)

  -- The argument of an option at an index.
  unfoldable pub option_arg_at : Option (List (Opt V)) → Text → ℕ → Option (Arg V)
  option_arg_at opts name i = elim (matching_option name opts) [
    | none ↦ none
    | some o ↦ get_elem? (list_of o.args) i
  ]

  module _ (read_dir : Text → Option (List DirEntry)) (rt : Runtime V) where
    abbrev pub expand_templates : List TemplateString → Text → Text → List ResolvedSuggestion
    expand_templates [] cwd token = []
    expand_templates (t ∷ ts) cwd token =
        expand_template read_dir t cwd token ++ expand_templates ts cwd token

    abbrev pub run_script : Cache → Generator V → Option V → Text → Cache × List ResolvedSuggestion
    run_script c g none cwd = (c, [])
    run_script c g (some script) cwd = execute_generator rt c script g.split_on g.script_timeout cwd

    unfoldable pub run_generators :
        Cache → List (Generator V) → Text → Text → Cache × List ResolvedSuggestion
    run_generators c [] cwd token = (c, [])
    run_generators c (g ∷ gs) cwd token =
        let (c₁, found) = run_script c g g.script cwd in
        let (c₂, rest) = run_generators c₁ gs cwd token in
        (c₂, expand_templates (list_of g.template) cwd token ++ (found ++ rest))

    -- `collect_arg_suggestions`.
    unfoldable pub collect_arg_suggestions :
        Cache → Arg V → Text → Text → Cache × List ResolvedSuggestion
    collect_arg_suggestions c a cwd token =
        let (c', generated) = run_generators c (list_of a.generators) cwd token in
        (
          c',
          static_suggestions a.suggestions arg
              ++ (expand_templates (list_of a.template) cwd token ++ generated),
        )

    abbrev pub suggestions_of :
        Cache → Option (Arg V) → Text → Text → Cache × List ResolvedSuggestion
    suggestions_of c none cwd token = (c, [])
    suggestions_of c (some a) cwd token = collect_arg_suggestions c a cwd token

    abbrev pub resolve_at :
        Cache → Spec V → ParseContext → Text → ExpectedCompletion → Cache × List ResolvedSuggestion
    resolve_at c spec ctx cwd (subcommand_or_option_or_arg arg_index) =
        let cmd = walk_spec spec ctx.spec_path in
        let (c', found) =
          suggestions_of c (arg_at (list_of (fields cmd).args) arg_index) cwd ctx.current_token in
        (
          c',
          elim (subcommands cmd) [ none ↦ [] | some cs ↦ subcommand_suggestions cs ]
              ++ (collect_options cmd ctx.used_options
                  ++ (inherited_options spec ctx.spec_path ctx.used_options
                      ++ (found
                          ++ static_suggestions (fields cmd).additional_suggestions special))),
        )
    resolve_at c spec ctx cwd (option_arg name i) =
        let cmd = walk_spec spec ctx.spec_path in
        suggestions_of c (option_arg_at (fields cmd).options name i) cwd ctx.current_token
    resolve_at c spec ctx cwd nothing =
        let cmd = walk_spec spec ctx.spec_path in
        suggestions_of c (last? (list_of (fields cmd).args)) cwd ctx.current_token

    unfoldable pub resolve : Cache → Spec V → ParseContext → Text → Cache × List ResolvedSuggestion
    resolve c spec ctx cwd = resolve_at c spec ctx cwd ctx.expected
