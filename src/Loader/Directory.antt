-- ===== src/Loader/Directory.antt =====
-- The index after all files have been read.
use tabra.Prelude.{
  ◌≡◌, ◌≢◌, refl, ap, ◌∙◌, inl, inr, Bool, true, false, List, [], ◌∷◌, Option, none, some, Text,
  arith, All, any, map, if◌then◌else◌, eq_text, eq_text_iff, Bool-cases, Option-cases,
}
use tabra.Spec.{Spec}
use tabra.Loader.{SpecIndex, new, lookup, get, reload_file, load_entries, reload_all, entries}
use tabra.Loader.Lookup.{json_of, or_else, get-reload_file}

abbrev pub IsNonempty : Text → Type 0
IsNonempty t = t ≢ []

abbrev pub is_among : List Text → Text → Bool
is_among tools t = any (λ u. eq_text u t) tools

module _ {V : Type 0} (read_spec : Text → Option (Spec V)) where
  found_again :
      (t : Text) (b : Bool) (old : Option (Spec V))
      → (if b
          then or_else (read_spec (json_of t)) (or_else (read_spec (json_of t)) old)
          else or_else (read_spec (json_of t)) old)
        ≡ or_else (read_spec (json_of t)) old
  found_again t false old = refl
  found_again t true old = elim (Option-cases (read_spec (json_of t))) [
    | inl e ↦ rw e refl
    | inr (s, e) ↦ rw e refl
  ]

  read_again :
      (t : Text) (b : Bool) (x old : Option (Spec V))
      → x ≡ or_else (read_spec (json_of t)) old
      → (if b then or_else (read_spec (json_of t)) x else x) ≡ or_else (read_spec (json_of t)) old
  read_again t b x old e = rw e (found_again t b old)

  if_true : (b : Bool) (x y z : Option (Spec V)) → b ≡ true → x ≡ (if b then y else z) → x ≡ y
  if_true b x y z e h = ground arith

  if_false : (b : Bool) (x y z : Option (Spec V)) → b ≡ false → x ≡ (if b then y else z) → x ≡ z
  if_false b x y z e h = ground arith

  get-load_entries :
      (ix : SpecIndex V) (tools : List Text) (other : Text)
      → All IsNonempty tools
      → get (load_entries read_spec ix (map json_of tools)) other ≡ (
          if is_among tools other
          then or_else (read_spec (json_of other)) (get ix other)
          else get ix other)
  unfolding load_entries
  get-load_entries ix [] other a = refl
  get-load_entries ix (t ∷ ts) other a =
      let rest = get-load_entries (reload_file read_spec ix (json_of t)) ts other a.1 in
      let here = get-reload_file read_spec ix t other a.0 in
      elim (Bool-cases (eq_text t other)) [
        | inl e ↦
            let q : t ≡ other = (eq_text_iff t other).0 e in
            let x : get (reload_file read_spec ix (json_of t)) other
                ≡ or_else (read_spec (json_of other)) (get ix other) =
              if_true _ _ _ _ e here ∙ ap (λ u. or_else (read_spec (json_of u)) (get ix other)) q in
            rw e (rest ∙ read_again other (is_among ts other) _ _ x)
        | inr e ↦ rw e (rest ∙ rw (if_false _ _ _ _ e here) refl)
      ]

  or_else-none : (o : Option (Spec V)) → or_else o none ≡ o
  or_else-none none = refl
  or_else-none (some s) = refl

  -- Where the directory can be read and holds the files of the tools, each once or more, the index
  -- has for each of them the spec that its file gives, nothing if it gives none, and nothing else.
  pub get-reload_all :
      (ix : SpecIndex V) (tools : List Text) (other : Text)
      → All IsNonempty tools
      → get (reload_all read_spec ix (entries (map json_of tools))).1 other
        ≡ (if is_among tools other then read_spec (json_of other) else none)
  unfolding reload_all get lookup
  get-reload_all ix tools other a =
      get-load_entries new tools other a
      ∙ ap (λ o. if is_among tools other then o else none)
          (or_else-none (read_spec (json_of other)))
