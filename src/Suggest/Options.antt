-- ===== src/Suggest/Options.antt =====
-- No option is offered that is on the line already.
use tabra.Prelude.{
  ◌≡◌, inl, inr, Bool, false, List, [], ◌∷◌, some, Text, any, All, arith, Bool-cases, Option-cases,
  find,
}
use tabra.Spec.{
  Opt, SingleOrArray, single, array, Subcommand, fields, to_vec, long_name, primary_name,
  first_or_empty, is_long,
}
use tabra.Suggest.{
  ResolvedSuggestion, option_suggestion, contains, already_used, excluded, push_options,
  collect_options, get_or,
}

-- A suggestion whose text is no word of the list.
abbrev pub IsUnused : List Text → ResolvedSuggestion → Type 0
IsUnused used s = contains used s.match_text ≡ false

any_first :
    (p : Text → Bool) (ns : List Text)
    → any p ns ≡ false
    → p [] ≡ false
    → p (first_or_empty ns) ≡ false
unfolding first_or_empty
any_first p [] h e = e
any_first p (n ∷ ns) h e = ground arith

any_found :
    (p q : Text → Bool) (ns : List Text) (n : Text)
    → any p ns ≡ false
    → find q ns ≡ some n
    → p n ≡ false
any_found p q [] n h e = absurd (cc)
any_found p q (m ∷ ns) n h e = elim (Bool-cases (q m)) [
  | inl t ↦ ground arith
  | inr f ↦ any_found p q ns n (ground arith) (ground arith)
]

-- The name that an option is offered under is one of its names, if it has any.
any_primary :
    (p : Text → Bool) (name : SingleOrArray Text)
    → any p (to_vec name) ≡ false
    → p [] ≡ false
    → p (get_or (long_name name) (primary_name name)) ≡ false
unfolding to_vec long_name primary_name
any_primary p (single n) h e = elim (Bool-cases (is_long n)) [
  | inl t ↦ rw (t, long_name) (ground arith)
  | inr f ↦ rw (f, long_name) (ground arith)
]
any_primary p (array ns) h e = elim (Option-cases (find is_long ns)) [
  | inl t ↦ rw (t, long_name) (any_first p ns h e)
  | inr (n, f) ↦ rw (f, long_name) (any_found p is_long ns n h f)
]

module _ {V : Type 0} where
  push_options-IsUnused :
      (used : List Text) (opts : List (Opt V))
      → contains used [] ≡ false
      → All (IsUnused used) (push_options used opts)
  unfolding push_options
  push_options-IsUnused used [] e = tt
  push_options-IsUnused used (opt ∷ opts) e =
      let rest = push_options-IsUnused used opts e in
      elim (Bool-cases (already_used used opt)) [
        | inl t ↦ rw (t, push_options) rest
        | inr f ↦ elim (Bool-cases (excluded used opt.exclusive_on)) [
          | inl t ↦ rw (f, t, push_options) rest
          | inr g ↦ elim (Bool-cases opt.hidden) [
            | inl t ↦ rw (f, g, t, push_options) rest
            | inr h ↦
                rw (f, g, h, push_options)
                  (unfold option_suggestion in any_primary (contains used) opt.name f e, rest)
          ]
        ]
      ]

  -- If the empty text is not among the words, no option is collected under one of the words.
  pub collect_options-IsUnused :
      (cmd : Subcommand V) (used : List Text)
      → contains used [] ≡ false
      → All (IsUnused used) (collect_options cmd used)
  unfolding collect_options
  collect_options-IsUnused cmd used e = elim (Option-cases (fields cmd).options) [
    | inl n ↦ rw (n, collect_options) tt
    | inr (opts, s) ↦ rw (s, collect_options) (push_options-IsUnused used opts e)
  ]
