-- ===== src/Spec.antt =====
-- The completion specs of src/spec/types.rs. `V` stands for `serde_json::Value`.
use tabra.Prelude.{
  ℕ, Bool, false, List, [], ◌∷◌, Option, none, some, Text, codes, starts_with, find, if◌then◌else◌,
}

pub data SingleOrArray {ℓ} (A : Type ℓ) : Type ℓ where
  single : A → SingleOrArray A
  array : List A → SingleOrArray A

-- `to_vec`, `into_vec` and `as_slice`.
unfoldable pub to_vec {ℓ} : {A : Type ℓ} → SingleOrArray A → List A
to_vec (single v) = v ∷ []
to_vec (array v) = v

pub data SuggestionType : Type 0 where
  folder file arg subcommand option special mixin shortcut : SuggestionType

pub data TemplateString : Type 0 where
  filepaths folders history help : TemplateString

pub data FilterStrategy : Type 0 where
  fuzzy prefix default : FilterStrategy

pub record Suggestion : Type 0 where
  pub name : Option (SingleOrArray Text)
  pub display_name : Option Text
  pub insert_value : Option Text
  pub description : Option Text
  pub icon : Option Text
  pub priority : Option ℕ
  pub suggestion_type : Option SuggestionType
  pub hidden : Bool
  pub is_dangerous : Bool

abbrev pub default_suggestion : Suggestion
default_suggestion = record {
  name = none;
  display_name = none;
  insert_value = none;
  description = none;
  icon = none;
  priority = none;
  suggestion_type = none;
  hidden = false;
  is_dangerous = false;
}

pub data SuggestionOrString : Type 0 where
  string : Text → SuggestionOrString
  suggestion : Suggestion → SuggestionOrString

unfoldable pub into_suggestion : SuggestionOrString → Suggestion
into_suggestion (string s) = record default_suggestion { name = some (single s) }
into_suggestion (suggestion s) = s

pub record Generator (V : Type 0) : Type 0 where
  pub template : Option (SingleOrArray TemplateString)
  pub script : Option V
  pub split_on : Option Text
  pub script_timeout : Option ℕ
  pub custom : Option V
  pub post_process : Option V
  pub trigger : Option V
  pub get_query_term : Option V

pub record Arg (V : Type 0) : Type 0 where
  pub name : Option Text
  pub description : Option Text
  pub suggestions : Option (List SuggestionOrString)
  pub template : Option (SingleOrArray TemplateString)
  pub generators : Option (SingleOrArray (Generator V))
  pub filter_strategy : Option FilterStrategy
  pub is_optional : Bool
  pub is_variadic : Bool
  pub is_command : Bool
  pub is_dangerous : Bool
  pub default_value : Option Text
  pub debounce : Bool
  pub options_can_break_variadic_arg : Option Bool
  pub suggest_current_token : Bool
  pub load_spec : Option V

pub record Opt (V : Type 0) : Type 0 where
  pub name : SingleOrArray Text
  pub display_name : Option Text
  pub insert_value : Option Text
  pub description : Option Text
  pub icon : Option Text
  pub priority : Option ℕ
  pub args : Option (SingleOrArray (Arg V))
  pub is_persistent : Bool
  pub is_required : Bool
  pub requires_equals : Bool
  pub requires_separator : Option V
  pub is_repeatable : Option V
  pub exclusive_on : Option (List Text)
  pub depends_on : Option (List Text)
  pub hidden : Bool
  pub is_dangerous : Bool
  pub deprecated : Option V

pub record ParserDirectives : Type 0 where
  pub flags_are_posix_noncompliant : Bool
  pub options_must_precede_arguments : Bool
  pub option_arg_separators : Option (SingleOrArray Text)

-- The fields of a subcommand but for its `subcommands`.
pub record CommandFields (V : Type 0) : Type 0 where
  pub name : SingleOrArray Text
  pub display_name : Option Text
  pub insert_value : Option Text
  pub description : Option Text
  pub icon : Option Text
  pub priority : Option ℕ
  pub requires_subcommand : Bool
  pub options : Option (List (Opt V))
  pub args : Option (SingleOrArray (Arg V))
  pub filter_strategy : Option FilterStrategy
  pub additional_suggestions : Option (List SuggestionOrString)
  pub load_spec : Option V
  pub generate_spec : Option V
  pub parser_directives : Option ParserDirectives
  pub cache : Option Bool
  pub hidden : Bool
  pub is_dangerous : Bool
  pub deprecated : Option V

-- `leaf` is a subcommand whose `subcommands` is `None`, `node` one with `Some` list.
mutual
  pub data Subcommand (V : Type 0) : Type 0 where
    leaf : CommandFields V → Subcommand V
    node : CommandFields V → Subcommands V → Subcommand V

  pub data Subcommands (V : Type 0) : Type 0 where
    nil : Subcommands V
    cons : Subcommand V → Subcommands V → Subcommands V

-- A complete spec is the subcommand at the root.
abbrev pub Spec : Type 0 → Type 0
Spec V = Subcommand V

unfoldable pub to_list : {V : Type 0} → Subcommands V → List (Subcommand V)
to_list nil = []
to_list (cons c cs) = c ∷ to_list cs

abbrev pub fields : {V : Type 0} → Subcommand V → CommandFields V
fields (leaf f) = f
fields (node f cs) = f

unfoldable pub subcommands : {V : Type 0} → Subcommand V → Option (List (Subcommand V))
subcommands (leaf f) = none
subcommands (node f cs) = some (to_list cs)

-- `Subcommand::names` and `Opt::names`.
abbrev pub command_names : {V : Type 0} → Subcommand V → List Text
command_names c = to_vec (fields c).name

abbrev pub option_names : {V : Type 0} → Opt V → List Text
option_names o = to_vec o.name

unfoldable pub first_or_empty : List Text → Text
first_or_empty [] = []
first_or_empty (n ∷ ns) = n

-- `primary_name` of both.
unfoldable pub primary_name : SingleOrArray Text → Text
unfolding first_or_empty
primary_name (single n) = n
primary_name (array ns) = first_or_empty ns

abbrev pub is_long : Text → Bool
is_long n = starts_with n (codes "--")

-- `Opt::long_name`.
unfoldable pub long_name : SingleOrArray Text → Option Text
long_name (single n) = if is_long n then some n else none
long_name (array ns) = find is_long ns
