-- ===== src/Suggest.antt =====
-- src/engine/resolver.rs: suggestions, and those of options and static lists.
pub mod Options
pub mod Persistent
use tabra.Prelude.{
  ℕ, Bool, false, not, ◌&&◌, ◌||◌, List, [], ◌∷◌, ◌++◌, map, Option, none, some, Text, any,
  if◌then◌else◌, eq_text,
}
use tabra.Spec.{
  Opt, Subcommand, Suggestion, SuggestionType, SuggestionOrString, into_suggestion, to_vec, fields,
  option_names, long_name, primary_name, first_or_empty,
}

pub record ResolvedSuggestion : Type 0 where
  pub match_text : Text
  pub display_text : Text
  pub insert_text : Text
  pub description : Text
  pub kind : SuggestionType
  pub priority : ℕ
  pub is_dangerous : Bool

-- `unwrap_or` and `unwrap_or_default`.
abbrev pub get_or {ℓ} : {A : Type ℓ} → Option A → A → A
get_or none d = d
get_or (some x) d = x

-- `push_option`: what it pushes.
unfoldable pub option_suggestion : {V : Type 0} → Opt V → ResolvedSuggestion
option_suggestion opt =
    let primary = get_or (long_name opt.name) (primary_name opt.name) in
    record {
      match_text = primary;
      display_text = get_or opt.display_name primary;
      insert_text = get_or opt.insert_value primary;
      description = get_or opt.description [];
      kind = SuggestionType.option;
      priority = get_or opt.priority 40;
      is_dangerous = opt.is_dangerous;
    }

-- `names` of a suggestion, of which it has none if the spec gives none.
abbrev suggestion_names : Suggestion → List Text
suggestion_names s = elim s.name [ none ↦ [] | some ns ↦ to_vec ns ]

-- `push_suggestion`.
unfoldable pub static_suggestion : Suggestion → SuggestionType → ResolvedSuggestion
static_suggestion s default_kind =
    let primary = first_or_empty (suggestion_names s) in
    record {
      match_text = primary;
      display_text = get_or s.display_name primary;
      insert_text = get_or s.insert_value primary;
      description = get_or s.description [];
      kind = get_or s.suggestion_type default_kind;
      priority = get_or s.priority 50;
      is_dangerous = s.is_dangerous;
    }

abbrev pub static_suggestions :
    Option (List SuggestionOrString) → SuggestionType → List ResolvedSuggestion
static_suggestions none kind = []
static_suggestions (some ss) kind = map (λ s. static_suggestion (into_suggestion s) kind) ss

-- `used.contains(…)`.
abbrev pub contains : List Text → Text → Bool
contains used n = any (λ u. eq_text u n) used

abbrev excluded : List Text → Option (List Text) → Bool
excluded used none = false
excluded used (some exclusive) = any (contains used) exclusive

module _ {V : Type 0} where
  abbrev pub already_used : List Text → Opt V → Bool
  already_used used opt = any (contains used) (option_names opt)

  push_options : List Text → List (Opt V) → List ResolvedSuggestion
  push_options used [] = []
  push_options used (opt ∷ opts) =
      let rest = push_options used opts in
      if already_used used opt
      then rest
      else if excluded used opt.exclusive_on
      then rest
      else if opt.hidden
      then rest
      else option_suggestion opt ∷ rest

  -- `collect_options`: what it pushes.
  unfoldable pub collect_options : Subcommand V → List Text → List ResolvedSuggestion
  unfolding push_options
  collect_options cmd used = elim (fields cmd).options [
    | none ↦ []
    | some opts ↦ push_options used opts
  ]

  push_persistent : List Text → List (Opt V) → List ResolvedSuggestion
  push_persistent used [] = []
  push_persistent used (opt ∷ opts) =
      let rest = push_persistent used opts in
      if opt.is_persistent && not (any (λ u. contains (option_names opt) u) used)
      then option_suggestion opt ∷ rest
      else rest

  -- The persistent options of one parent.
  unfoldable pub persistent_options : Subcommand V → List Text → List ResolvedSuggestion
  unfolding push_persistent
  persistent_options cmd used = elim (fields cmd).options [
    | none ↦ []
    | some opts ↦ push_persistent used opts
  ]

  abbrev pub named_suggestion : Subcommand V → Text → ResolvedSuggestion
  named_suggestion sc primary = record {
    match_text = primary;
    display_text = get_or (fields sc).display_name primary;
    insert_text = get_or (fields sc).insert_value primary;
    description = get_or (fields sc).description [];
    kind = SuggestionType.subcommand;
    priority = get_or (fields sc).priority 75;
    is_dangerous = (fields sc).is_dangerous;
  }

  abbrev push_named : Subcommand V → List Text → List ResolvedSuggestion → List ResolvedSuggestion
  push_named sc [] rest = rest
  push_named sc (primary ∷ names) rest = named_suggestion sc primary ∷ rest

  -- The subcommands that are not hidden and have a name.
  unfoldable pub subcommand_suggestions : List (Subcommand V) → List ResolvedSuggestion
  subcommand_suggestions [] = []
  subcommand_suggestions (sc ∷ scs) =
      let rest = subcommand_suggestions scs in
      if (fields sc).hidden then rest else push_named sc (to_vec (fields sc).name) rest
