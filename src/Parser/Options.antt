-- ===== src/Parser/Options.antt =====
-- The options that `parse` reports, and the option whose argument it expects.
use tabra.Prelude.{
  ℕ, ◌≡◌, refl, Bool, true, false, List, [], ◌∷◌, Option, none, some, Text, codes, eq_text, arith,
  Bool-cases, Option-cases, inl, inr, starts_with, if◌then◌else◌, All, All-append,
}
use tabra.Lexer.{tokenize}
use tabra.Spec.{Opt, Subcommand, Spec, fields}
use tabra.Parser.{
  option_arg, Walk, matching_option, step, run, start, first_token, command_tokens, parse_tokens,
  try_subcommand, option_or_positional, parse, takes_arg, expected_of,
}

module _ {V : Type 0} where
  -- `t` is spelled like an option and names one of the command's.
  pub record IsOptionOf (c : Subcommand V) (t : Text) : Type 0 where
    pub dashed : starts_with t (codes "-") ≡ true
    pub opt : Opt V
    pub found : matching_option t (fields c).options ≡ some opt

  -- The pending option, if there is one, is an option of the command that wants an argument.
  abbrev pub Waits : Subcommand V → Option (Text × ℕ) → Type 0
  Waits c none = Unit
  Waits c (some (t, i)) =
      (o : Opt V) × (matching_option t (fields c).options ≡ some o) × (takes_arg o ≡ true) × (i ≡ 0)

  pub record OptionsFit (w : Walk V) : Type 0 where
    pub used : All (IsOptionOf w.current_cmd) w.used_options
    pub waits : Waits w.current_cmd w.pending_option_arg

  use_option-Waits :
      (c : Subcommand V) (t : Text) (o : Opt V) (b : Bool)
      → takes_arg o ≡ b
      → matching_option t (fields c).options ≡ some o
      → Waits c (if b then some (t, 0) else none)
  use_option-Waits c t o true e m = (o, m, e, refl)
  use_option-Waits c t o false e m = tt

  option_or_positional-OptionsFit :
      (w : Walk V) (t : Text) → OptionsFit w → OptionsFit (option_or_positional w t)
  option_or_positional-OptionsFit w t f = elim (Bool-cases (starts_with t (codes "-"))) [
    | inl e ↦ elim (Option-cases (matching_option t (fields w.current_cmd).options)) [
      | inl n ↦ rw (e, n) (record { used = f.used; waits = f.waits })
      | inr (o, m) ↦
          rw (e, m)
            (record {
              used =
                  All-append (IsOptionOf w.current_cmd) w.used_options (t ∷ []) f.used
                    (record { dashed = e; opt = o; found = m }, tt);
              waits = use_option-Waits w.current_cmd t o (takes_arg o) refl m;
            })
    ]
    | inr e ↦ rw e (record { used = f.used; waits = f.waits })
  ]

  try_subcommand-OptionsFit :
      (w : Walk V) (t : Text) (found : Option (ℕ × Subcommand V))
      → w.pending_option_arg ≡ none
      → OptionsFit w
      → OptionsFit (try_subcommand w t found)
  try_subcommand-OptionsFit w t none e f = option_or_positional-OptionsFit w t f
  try_subcommand-OptionsFit w t (some (i, d)) e f = record { used = tt; waits = rw e tt }

  step-OptionsFit : (w : Walk V) (t : Text) → OptionsFit w → OptionsFit (step w t)
  step-OptionsFit w t f = elim (Option-cases w.pending_option_arg) [
    | inl e ↦ elim (Bool-cases (eq_text t (codes "--"))) [
      | inl s ↦ unfold step in rw (e, s, step) (record { used = f.used; waits = rw e tt })
      | inr s ↦ unfold step in rw (e, s, step) (try_subcommand-OptionsFit w t _ e f)
    ]
    | inr (p, e) ↦ unfold step in rw (e, step) (record { used = f.used; waits = tt })
  ]

  run-OptionsFit : (w : Walk V) (ts : List Text) → OptionsFit w → OptionsFit (run w ts)
  unfolding run
  run-OptionsFit w [] f = f
  run-OptionsFit w (t ∷ ts) f = run-OptionsFit (step w t) ts (step-OptionsFit w t f)

  -- Every option that `parse` reports as used begins with a dash and names an option of the
  -- command that the walk ends at, never of a parent; and a pending option is one of that command
  -- whose first argument is mandatory, with index 0.
  pub parse_tokens-OptionsFit :
      (spec : Spec V) (tokens : List Text) → OptionsFit (parse_tokens spec tokens)
  unfolding parse_tokens
  parse_tokens-OptionsFit spec tokens =
      run-OptionsFit (start spec (first_token tokens)) (command_tokens tokens)
        (record { used = tt; waits = tt })

  expected-Waits :
      (c : Subcommand V) (w : Walk V) (hit : Bool) (pending : Option (Text × ℕ)) (t : Text) (i : ℕ)
      → Waits c pending
      → expected_of (record w { hit_separator = hit; pending_option_arg = pending })
        ≡ option_arg t i
      → Waits c (some (t, i))
  unfolding expected_of
  expected-Waits c w true pending t i h e = absurd (cc)
  expected-Waits c w false none t i h e = absurd (cc)
  expected-Waits c w false (some (t', i')) t i h e =
      let p : t' ≡ t = ground arith in let q : i' ≡ i = ground arith in rw (← p, ← q) h

  -- Where `parse` expects an option's argument, the command that the walk ends at has an option of
  -- that name, the option wants an argument, and the argument's index is 0.
  pub parse-option_arg :
      (spec : Spec V) (buffer : Text) (cursor : ℕ) (t : Text) (i : ℕ)
      → (parse spec buffer cursor).expected ≡ option_arg t i
      → Waits (parse_tokens spec (tokenize buffer cursor).0).current_cmd (some (t, i))
  unfolding parse
  parse-option_arg spec buffer cursor t i e =
      let w = parse_tokens spec (tokenize buffer cursor).0 in
      expected-Waits w.current_cmd w w.hit_separator w.pending_option_arg t i
        (parse_tokens-OptionsFit spec (tokenize buffer cursor).0).waits e
