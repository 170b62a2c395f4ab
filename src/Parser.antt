-- ===== src/Parser.antt =====
-- `parse` of src/engine/parser.rs: the walk of the spec tree along the words of the command line.
pub mod Paths
pub mod Options
pub mod Separator
use tabra.Prelude.{
  ℕ, zero, suc, ◌+◌, Bool, true, false, not, ◌&&◌, List, [], ◌∷◌, ◌++◌, Option, none, some, Text,
  codes, eq_text, starts_with, any, find, if◌then◌else◌,
}
use tabra.Lexer.{tokenize}
use tabra.Spec.{
  Arg, Opt, Subcommand, Spec, FilterStrategy, default, fields, subcommands, command_names,
  option_names, to_vec,
}

pub data ExpectedCompletion : Type 0 where
  subcommand_or_option_or_arg : ℕ → ExpectedCompletion
  option_arg : Text → ℕ → ExpectedCompletion
  nothing : ExpectedCompletion

pub record ParseContext : Type 0 where
  pub subcommand_path : List Text
  pub spec_path : List ℕ
  pub used_options : List Text
  pub expected : ExpectedCompletion
  pub current_token : Text
  pub filter_strategy : FilterStrategy

-- `names().iter().any(|n| n == token)`.
abbrev pub named : Text → List Text → Bool
named token = any (λ n. eq_text n token)

-- The loop's variables. The loop's index is the list of the tokens left.
pub record Walk (V : Type 0) : Type 0 where
  pub subcommand_path : List Text
  pub spec_path : List ℕ
  pub used_options : List Text
  pub current_cmd : Subcommand V
  pub arg_index : ℕ
  pub filter_strategy : FilterStrategy
  pub hit_separator : Bool
  pub pending_option_arg : Option (Text × ℕ)

abbrev new_strategy : Option FilterStrategy → FilterStrategy → FilterStrategy
new_strategy none old = old
new_strategy (some fs) old = fs

-- The first token is the command's name.
abbrev pub first_token : List Text → List Text
first_token [] = []
first_token (t ∷ ts) = t ∷ []

abbrev pub command_tokens : List Text → List Text
command_tokens [] = []
command_tokens (t ∷ ts) = ts

module _ {V : Type 0} where
  -- `subcmds.iter().enumerate().find(…)`, with the indices counted from `i`.
  unfoldable pub find_subcommand : Text → ℕ → List (Subcommand V) → Option (ℕ × Subcommand V)
  find_subcommand token i [] = none
  find_subcommand token i (c ∷ cs) =
      if named token (command_names c) then some (i, c) else find_subcommand token (i + 1) cs

  -- The same under `if let Some(subcmds)`.
  unfoldable pub matching_subcommand :
      Text → Option (List (Subcommand V)) → Option (ℕ × Subcommand V)
  matching_subcommand token none = none
  matching_subcommand token (some cs) = find_subcommand token 0 cs

  unfoldable pub matching_option : Text → Option (List (Opt V)) → Option (Opt V)
  matching_option token none = none
  matching_option token (some os) = find (λ o. named token (option_names o)) os

  first_is_mandatory : List (Arg V) → Bool
  first_is_mandatory [] = false
  first_is_mandatory (a ∷ as') = not a.is_optional

  -- Whether the next token is the option's argument.
  unfoldable pub takes_arg : Opt V → Bool
  unfolding first_is_mandatory
  takes_arg o = elim o.args [ none ↦ false | some args ↦ first_is_mandatory (to_vec args) ]

  abbrev pub enter : Walk V → Text → ℕ → Subcommand V → Walk V
  enter w token idx c = record w {
    subcommand_path = w.subcommand_path ++ token ∷ [];
    spec_path = w.spec_path ++ idx ∷ [];
    current_cmd = c;
    used_options = [];
    arg_index = 0;
    filter_strategy = new_strategy (fields c).filter_strategy w.filter_strategy;
  }

  abbrev pub use_option : Walk V → Text → Opt V → Walk V
  use_option w token o = record w {
    used_options = w.used_options ++ token ∷ [];
    pending_option_arg = if takes_arg o then some (token, 0) else none;
  }

  abbrev pub positional : Walk V → Walk V
  positional w = record w { arg_index = w.arg_index + 1 }

  abbrev pub try_option : Walk V → Text → Option (Opt V) → Walk V
  try_option w token none = positional w
  try_option w token (some o) = use_option w token o

  abbrev pub option_or_positional : Walk V → Text → Walk V
  option_or_positional w token =
      if starts_with token (codes "-")
      then try_option w token (matching_option token (fields w.current_cmd).options)
      else positional w

  abbrev pub try_subcommand : Walk V → Text → Option (ℕ × Subcommand V) → Walk V
  try_subcommand w token none = option_or_positional w token
  try_subcommand w token (some (idx, c)) = enter w token idx c

  -- A token that is not the argument of a pending option.
  abbrev pub dispatch : Walk V → Text → Walk V
  dispatch w token =
      if eq_text token (codes "--")
      then record w { hit_separator = true }
      else try_subcommand w token (matching_subcommand token (subcommands w.current_cmd))

  -- One round of the loop.
  unfoldable pub step : Walk V → Text → Walk V
  step w token = elim w.pending_option_arg [
    | some p ↦ record w { pending_option_arg = none }
    | none ↦ dispatch w token
  ]

  unfoldable pub run : Walk V → List Text → Walk V
  run w [] = w
  run w (t ∷ ts) = run (step w t) ts

  -- The variables before the loop.
  abbrev pub start : Spec V → List Text → Walk V
  start spec path = record {
    subcommand_path = path;
    spec_path = [];
    used_options = [];
    current_cmd = spec;
    arg_index = 0;
    filter_strategy = default;
    hit_separator = false;
    pending_option_arg = none;
  }

  unfoldable pub expected_of : Walk V → ExpectedCompletion
  expected_of w = if w.hit_separator then nothing else elim w.pending_option_arg [
    | some (name, index) ↦ option_arg name index
    | none ↦ subcommand_or_option_or_arg w.arg_index
  ]

  abbrev pub context_of : Walk V → Text → ParseContext
  context_of w partial = record {
    subcommand_path = w.subcommand_path;
    spec_path = w.spec_path;
    used_options = w.used_options;
    expected = expected_of w;
    current_token = partial;
    filter_strategy = w.filter_strategy;
  }

  -- `parse` after its call of `tokenize`.
  unfoldable pub parse_tokens : Spec V → List Text → Walk V
  parse_tokens spec tokens = run (start spec (first_token tokens)) (command_tokens tokens)

  unfoldable pub parse : Spec V → Text → ℕ → ParseContext
  parse spec buffer cursor =
      let (tokens, partial) = tokenize buffer cursor in
      context_of (parse_tokens spec tokens) partial
