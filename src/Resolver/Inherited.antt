-- ===== src/Resolver/Inherited.antt =====
-- The persistent options of the root.
use tabra.Prelude.{ℕ, ◌≡◌, true, false, List, ◌∷◌, ◌++◌, some, Text, any}
use tabra.Spec.{Opt, Spec, fields, option_names}
use tabra.Suggest.{option_suggestion, contains}
use tabra.Suggest.Persistent.{Has, Has-append, persistent_options-Has}
use tabra.Resolver.{inherited_options, intermediate_options}

module _ {V : Type 0} where
  -- Where the path is not empty, each persistent option of the root is offered of which no name is
  -- among the used options, which are those of the current command alone: it may be hidden, or
  -- exclude itself by one of the used options.
  pub inherited_options-Has :
      (spec : Spec V) (before after : List (Opt V)) (opt : Opt V) (i : ℕ) (path : List ℕ)
      (used : List Text)
      → (fields spec).options ≡ some (before ++ opt ∷ after)
      → opt.is_persistent ≡ true
      → any (contains (option_names opt)) used ≡ false
      → Has (option_suggestion opt) (inherited_options spec (i ∷ path) used)
  unfolding inherited_options
  inherited_options-Has spec before after opt i path used o p u =
      Has-append (intermediate_options spec (i ∷ path) used)
        (persistent_options-Has spec before after opt used o p u)
