-- ===== src/Suggest/Persistent.antt =====
-- What is collected of the persistent options of a command.
use tabra.Prelude.{
  ◌≡◌, refl, ap, ◌∙◌, inl, inr, true, false, not, ◌&&◌, List, [], ◌∷◌, ◌++◌, some, Text, any,
  Bool-cases,
}
use mathlib.Core.List.{append_assoc}
use tabra.Spec.{Opt, Subcommand, fields, option_names}
use tabra.Suggest.{
  ResolvedSuggestion, option_suggestion, contains, push_persistent, persistent_options,
}

-- The suggestion is in the list.
abbrev pub Has : ResolvedSuggestion → List ResolvedSuggestion → Type 0
Has s xs = (l : List ResolvedSuggestion) × (r : List ResolvedSuggestion) × (xs ≡ l ++ s ∷ r)

pub Has-append :
    {s : ResolvedSuggestion} {xs : List ResolvedSuggestion} (ys : List ResolvedSuggestion)
    → Has s xs
    → Has s (xs ++ ys)
Has-append {s} ys (l, r, e) = (l, r ++ ys, ap (λ t. t ++ ys) e ∙ append_assoc l (s ∷ r) ys)

Has-cons :
    {s : ResolvedSuggestion} {xs : List ResolvedSuggestion} (x : ResolvedSuggestion)
    → Has s xs
    → Has s (x ∷ xs)
Has-cons x (l, r, e) = (x ∷ l, r, ap (◌∷◌ x) e)

module _ {V : Type 0} where
  push_persistent-Has :
      (before after : List (Opt V)) (opt : Opt V) (used : List Text)
      → opt.is_persistent ≡ true
      → any (contains (option_names opt)) used ≡ false
      → Has (option_suggestion opt) (push_persistent used (before ++ opt ∷ after))
  unfolding push_persistent
  push_persistent-Has [] after opt used p u =
      rw (p, u, push_persistent) ([], push_persistent used after, refl)
  push_persistent-Has (o ∷ before) after opt used p u =
      let h = push_persistent-Has before after opt used p u in
      elim (Bool-cases (o.is_persistent && not (any (contains (option_names o)) used))) [
        | inl t ↦ rw (t, push_persistent) (Has-cons (option_suggestion o) h)
        | inr f ↦ rw (f, push_persistent) h
      ]

  pub persistent_options-Has :
      (cmd : Subcommand V) (before after : List (Opt V)) (opt : Opt V) (used : List Text)
      → (fields cmd).options ≡ some (before ++ opt ∷ after)
      → opt.is_persistent ≡ true
      → any (contains (option_names opt)) used ≡ false
      → Has (option_suggestion opt) (persistent_options cmd used)
  unfolding persistent_options
  persistent_options-Has cmd before after opt used o p u =
      rw (o, persistent_options) (push_persistent-Has before after opt used p u)
