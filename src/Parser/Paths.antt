-- ===== src/Parser/Paths.antt =====
-- The path that `parse` returns is a path of the spec tree, and each step of it was named.
use tabra.Prelude.{
  ℕ, suc, ◌+◌, ◌≡◌, refl, sym, true, List, [], ◌∷◌, ◌++◌, Option, none, some, Text, codes, eq_text,
  get_elem?, arith, Bool-cases, Option-cases, inl, inr, starts_with,
}
use mathlib.Core.List.{append_assoc, append-nil}
use tabra.Spec.{Subcommand, Spec, subcommands, command_names, fields}
use tabra.Parser.{
  Walk, named, find_subcommand, matching_subcommand, matching_option, step, run, start, first_token,
  command_tokens, parse_tokens, dispatch, try_subcommand, option_or_positional,
}

-- The words `ns` name, one after another, the subcommands at the indices `is`, from `spec` to `c`.
pub data Descends {V : Type 0} (spec : Subcommand V)
    : List Text → List ℕ → Subcommand V → Type 0 where
  here : Descends spec [] [] spec
  down :
      {ns : List Text} {is : List ℕ} {c : Subcommand V} (n : Text) (i : ℕ) (d : Subcommand V)
      (cs : List (Subcommand V))
      → Descends spec ns is c
      → subcommands c ≡ some cs
      → get_elem? cs i ≡ some d
      → named n (command_names d) ≡ true
      → Descends spec (ns ++ n ∷ []) (is ++ i ∷ []) d

module _ {V : Type 0} where
  find_subcommand_found :
      (t : Text) (k i : ℕ) (d : Subcommand V) (cs : List (Subcommand V))
      → find_subcommand t k cs ≡ some (i, d)
      → (j : ℕ) × (i ≡ k + j) × (get_elem? cs j ≡ some d) × (named t (command_names d) ≡ true)
  unfolding find_subcommand
  find_subcommand_found t k i d [] h = absurd (cc)
  find_subcommand_found t k i d (c ∷ cs) h = elim (Bool-cases (named t (command_names c))) [
    | inl e ↦ (0, ground arith, ground arith, ground arith)
    | inr e ↦
        let (j, p, q, r) = find_subcommand_found t (k + 1) i d cs (ground arith) in
        (suc j, omega arith, q, r)
  ]

  pub matching_subcommand_found :
      (t : Text) (i : ℕ) (d : Subcommand V) (o : Option (List (Subcommand V)))
      → matching_subcommand t o ≡ some (i, d)
      → (cs : List (Subcommand V)) × (o ≡ some cs)
        × (get_elem? cs i ≡ some d)
        × (named t (command_names d) ≡ true)
  unfolding matching_subcommand
  matching_subcommand_found t i d none h = absurd (cc)
  matching_subcommand_found t i d (some cs) h =
      let (j, p, q, r) = find_subcommand_found t 0 i d cs h in (cs, refl, ground arith, r)

  -- What the walk has reached, behind the words `before` of its path.
  pub record Reached (spec : Spec V) (before : List Text) (w : Walk V) : Type 0 where
    pub names : List Text
    pub path : w.subcommand_path ≡ before ++ names
    pub descends : Descends spec names w.spec_path w.current_cmd

  module _ (spec : Spec V) (before : List Text) where
    option_or_positional-Reached :
        (w : Walk V) (t : Text)
        → Reached spec before w
        → Reached spec before (option_or_positional w t)
    option_or_positional-Reached w t r = elim (Bool-cases (starts_with t (codes "-"))) [
      | inl e ↦ elim (Option-cases (matching_option t (fields w.current_cmd).options)) [
        | inl n ↦ rw (e, n) (record { names = r.names; path = r.path; descends = r.descends })
        | inr (o, m) ↦ rw (e, m) (record { names = r.names; path = r.path; descends = r.descends })
      ]
      | inr e ↦ rw e (record { names = r.names; path = r.path; descends = r.descends })
    ]

    try_subcommand-Reached :
        (w : Walk V) (t : Text) (found : Option (ℕ × Subcommand V))
        → matching_subcommand t (subcommands w.current_cmd) ≡ found
        → Reached spec before w
        → Reached spec before (try_subcommand w t found)
    try_subcommand-Reached w t none e r = option_or_positional-Reached w t r
    try_subcommand-Reached w t (some (i, d)) e r =
        let (cs, p, q, n) = matching_subcommand_found t i d (subcommands w.current_cmd) e in
        record {
          names = r.names ++ t ∷ [];
          path = rw r.path (append_assoc before r.names (t ∷ []));
          descends = down t i d cs r.descends p q n;
        }

    dispatch-Reached :
        (w : Walk V) (t : Text) → Reached spec before w → Reached spec before (dispatch w t)
    dispatch-Reached w t r = elim (Bool-cases (eq_text t (codes "--"))) [
      | inl e ↦ rw e (record { names = r.names; path = r.path; descends = r.descends })
      | inr e ↦ rw e (try_subcommand-Reached w t _ refl r)
    ]

    step-Reached : (w : Walk V) (t : Text) → Reached spec before w → Reached spec before (step w t)
    unfolding step
    step-Reached w t r = elim (Option-cases w.pending_option_arg) [
      | inl e ↦ rw (e, step) (dispatch-Reached w t r)
      | inr (p, e) ↦ rw (e, step) (record { names = r.names; path = r.path; descends = r.descends })
    ]

    run-Reached :
        (w : Walk V) (ts : List Text) → Reached spec before w → Reached spec before (run w ts)
    unfolding run
    run-Reached w [] r = r
    run-Reached w (t ∷ ts) r = run-Reached (step w t) ts (step-Reached w t r)

  -- The path of `parse` leads, index by index, through the spec tree from the root to the command
  -- that the walk ends at, and the words of `subcommand_path` behind the command's own name are
  -- names or aliases of the subcommands on the path.
  pub parse_tokens-Reached :
      (spec : Spec V) (tokens : List Text)
      → Reached spec (first_token tokens) (parse_tokens spec tokens)
  unfolding parse_tokens
  parse_tokens-Reached spec tokens =
      run-Reached spec (first_token tokens) (start spec (first_token tokens))
        (command_tokens tokens) (record { names = []; path = sym (append-nil _); descends = here })
