-- ===== src/Loader/Lookup.antt =====
-- What the index holds after its operations.
use tabra.Prelude.{
  ◌≡◌, ◌≢◌, refl, ap, ◌∙◌, inl, inr, List, [], ◌∷◌, ◌++◌, Option, none, some, Text, codes, arith,
  All, if◌then◌else◌, eq_text, eq_text_iff, Option-cases,
}
use tabra.Spec.{Spec}
use tabra.Loader.{SpecIndex, lookup, without, insert, get, remove_file, reload_file, file_stem}
use tabra.Loader.Names.{NotDot, file_stem-append, is_json-append}

-- The file of a tool.
abbrev pub json_of : Text → Text
json_of tool = tool ++ codes ".json"

module _ {V : Type 0} where
  lookup-without :
      (es : List (Text × Spec V)) (name other : Text)
      → lookup (without es name) other ≡ (if eq_text name other then none else lookup es other)
  unfolding lookup without
  lookup-without [] name other = ground arith
  lookup-without ((k, s) ∷ es) name other = ground (
    arith,
    lookup-without es name other,
    eq_text_iff k name,
    eq_text_iff k other,
    eq_text_iff name other,
  )

  pub get-insert :
      (ix : SpecIndex V) (name other : Text) (spec : Spec V)
      → get (insert ix name spec) other ≡ (if eq_text name other then some spec else get ix other)
  unfolding get insert lookup
  get-insert ix name other spec = ground (arith, lookup-without ix.specs name other)

  abbrev pub or_else : Option (Spec V) → Option (Spec V) → Option (Spec V)
  or_else none old = old
  or_else (some s) old = some s

  -- When the file of a tool is deleted the tool's spec is gone and the others stay; and so it is
  -- when any file is deleted that has the tool's name before its last dot, whatever follows it.
  pub get-remove_file :
      (ix : SpecIndex V) (tool ext other : Text)
      → tool ≢ []
      → All NotDot ext
      → get (remove_file ix (tool ++ b'.' ∷ ext)) other
        ≡ (if eq_text tool other then none else get ix other)
  unfolding get remove_file
  get-remove_file ix tool ext other n a =
      ap (λ t. lookup (without ix.specs t) other) (file_stem-append tool ext a n)
      ∙ lookup-without ix.specs tool other

  module _ (read_spec : Text → Option (Spec V)) where
    stem-json_of : (tool : Text) → tool ≢ [] → file_stem (json_of tool) ≡ tool
    stem-json_of tool n = file_stem-append tool (codes "json") (refl, (refl, (refl, (refl, tt)))) n

    -- When the file of a tool changes, the tool's spec is the one that is read from the file, or
    -- the old one if none can be read, and the other tools' specs stay.
    pub get-reload_file :
        (ix : SpecIndex V) (tool other : Text)
        → tool ≢ []
        → get (reload_file read_spec ix (json_of tool)) other ≡ (
            if eq_text tool other
            then or_else (read_spec (json_of tool)) (get ix other)
            else get ix other)
    unfolding reload_file
    get-reload_file ix tool other n = elim (Option-cases (read_spec (json_of tool))) [
      | inl e ↦ rw (is_json-append tool n, e, reload_file) (ground arith)
      | inr (s, e) ↦
          rw (is_json-append tool n, e, reload_file)
            (ap (λ name. get (insert ix name s) other) (stem-json_of tool n)
              ∙ get-insert ix tool other s)
    ]
