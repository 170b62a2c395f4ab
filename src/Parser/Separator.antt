-- ===== src/Parser/Separator.antt =====
-- The `--` separator, and the filter strategy, along the walk.
use tabra.Prelude.{
  ℕ, ◌≡◌, refl, true, List, [], ◌∷◌, ◌++◌, Option, none, some, Text, codes, eq_text, arith,
  Bool-cases, Option-cases, inl, inr,
}
use tabra.Lexer.{tokenize}
use tabra.Spec.{Subcommand, Spec, subcommands, default}
use tabra.Parser.{
  nothing, Walk, step, run, start, first_token, command_tokens, parse_tokens, dispatch,
  try_subcommand, option_or_positional, parse, expected_of, matching_subcommand,
}

append_not_nil : (is : List ℕ) (i : ℕ) → is ++ i ∷ [] ≡ [] → ⊥
append_not_nil [] i e = cc
append_not_nil (x ∷ is) i e = cc

module _ {V : Type 0} where
  abbrev pub separated : Walk V → Walk V
  separated w = record w { hit_separator = true }

  option-separated :
      (w : Walk V) (t : Text)
      → option_or_positional (separated w) t ≡ separated (option_or_positional w t)
  option-separated w t = ground arith

  subcommand-separated :
      (w : Walk V) (t : Text) (found : Option (ℕ × Subcommand V))
      → try_subcommand (separated w) t found ≡ separated (try_subcommand w t found)
  subcommand-separated w t none = option-separated w t
  subcommand-separated w t (some (i, d)) = refl

  dispatch-separated : (w : Walk V) (t : Text) → dispatch (separated w) t ≡ separated (dispatch w t)
  dispatch-separated w t = elim (Bool-cases (eq_text t (codes "--"))) [
    | inl e ↦ rw e
    | inr e ↦ rw e (subcommand-separated w t _)
  ]

  step-separated : (w : Walk V) (t : Text) → step (separated w) t ≡ separated (step w t)
  unfolding step
  step-separated w t = elim (Option-cases w.pending_option_arg) [
    | inl e ↦ rw (e, step) (dispatch-separated w t)
    | inr (p, e) ↦ rw (e, step)
  ]

  run-separated : (w : Walk V) (ts : List Text) → run (separated w) ts ≡ separated (run w ts)
  unfolding run
  run-separated w [] = refl
  run-separated w (t ∷ ts) = rw (step-separated w t) (run-separated (step w t) ts)

  run-append : (w : Walk V) (a b : List Text) → run w (a ++ b) ≡ run (run w a) b
  unfolding run
  run-append w [] b = refl
  run-append w (t ∷ a) b = run-append (step w t) a b

  dispatch_dashes : (w : Walk V) → dispatch w (codes "--") ≡ separated w
  unfolding eq_text
  dispatch_dashes w = refl

  step_dashes : (w : Walk V) → w.pending_option_arg ≡ none → step w (codes "--") ≡ separated w
  unfolding step
  step_dashes w e = ground (arith, dispatch_dashes w)

  run-cons : (w : Walk V) (t : Text) (ts : List Text) → run w (t ∷ ts) ≡ run (step w t) ts
  unfolding run
  run-cons w t ts = refl

  -- Behind a `--` that no pending option takes as its argument the parser expects nothing
  -- (`ExpectedCompletion::None`), and its walk goes on: what follows is still matched against
  -- subcommands and options, as without the `--`.
  pub parse_tokens-separator :
      (spec : Spec V) (name : Text) (before after : List Text)
      → (parse_tokens spec (name ∷ before)).pending_option_arg ≡ none
      → (parse_tokens spec (name ∷ (before ++ codes "--" ∷ after))
          ≡ separated (parse_tokens spec (name ∷ (before ++ after))))
        × (expected_of (parse_tokens spec (name ∷ (before ++ codes "--" ∷ after))) ≡ nothing)
  unfolding parse_tokens
  parse_tokens-separator spec name before after e =
      let w = start spec (name ∷ []) in
      let eq : run w (before ++ codes "--" ∷ after) ≡ separated (run w (before ++ after)) =
        rw (run-append w before (codes "--" ∷ after), run-append w before after)
          (rw (run-cons (run w before) (codes "--") after, step_dashes (run w before) e)
            (run-separated (run w before) after)) in
      (eq, rw eq (unfold expected_of in refl))

  -- Before a subcommand is entered the strategy is the default one.
  abbrev RootDefault : Walk V → Type 0
  RootDefault w = w.spec_path ≡ [] → w.filter_strategy ≡ default

  step-RootDefault : (w : Walk V) (t : Text) → RootDefault w → RootDefault (step w t)
  unfolding step
  step-RootDefault w t h e =
      elim (Option-cases (matching_subcommand t (subcommands w.current_cmd))) [
        | inl n ↦ ground (arith, h)
        | inr ((i, d), m) ↦ ground (arith, h, append_not_nil w.spec_path i)
      ]

  run-RootDefault : (w : Walk V) (ts : List Text) → RootDefault w → RootDefault (run w ts)
  unfolding run
  run-RootDefault w [] h = h
  run-RootDefault w (t ∷ ts) h = run-RootDefault (step w t) ts (step-RootDefault w t h)

  -- The filter strategy of the spec's root is never in effect: as long as no subcommand is entered
  -- the strategy is the default one, whatever the root says.
  pub parse_root_strategy :
      (spec : Spec V) (buffer : Text) (cursor : ℕ)
      → (parse spec buffer cursor).spec_path ≡ []
      → (parse spec buffer cursor).filter_strategy ≡ default
  unfolding parse parse_tokens
  parse_root_strategy spec buffer cursor =
      run-RootDefault (start spec (first_token (tokenize buffer cursor).0))
        (command_tokens (tokenize buffer cursor).0) (λ e. refl)
