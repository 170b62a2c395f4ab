-- ===== src/Loader/Files.antt =====
-- The commands on files of specs, src/spec/loader.rs: where the specs are, copying them there, and
-- checking a directory of them. A path is the name of its file, as in the index.
use tabra.Prelude.{
  ℕ, ◌+◌, ◌≡◌, refl, ap, sym, ◌∙◌, Bool, true, false, not, ◌&&◌, List, [], ◌∷◌, ◌++◌, Option, none,
  some, Text, codes, decimal, path_join, debug_path, length, map, filter, is_empty, if◌then◌else◌,
  arith,
}
use mathlib.Core.List.{append_assoc, append-nil}
use tabra.Prelude.Results.{Result, ok, err, context, to_string, bail}
use tabra.Spec.{Spec}
use tabra.Loader.{is_json, file_stem}

-- With the user's directory for data.
abbrev pub data_dir_or : Option Text → Text
data_dir_or none = codes "~/.local/share"
data_dir_or (some dir) = dir

unfoldable pub default_specs_dir : Option Text → Text
default_specs_dir data_dir =
    path_join (path_join (data_dir_or data_dir) (codes "tabra")) (codes "specs")

-- The loop of `install_specs`: the number of the files copied, and their names. The first file that
-- cannot be copied ends it.
module _ (copy : Text → Text → Result (Unit {0})) (from target : Text) where
  abbrev pub copied : Text → Result (Unit {0}) → Result ℕ × List Text → Result ℕ × List Text
  copied name (ok _) (r, names) = (r, name ∷ names)
  copied name (err e) rest = (
    context
        (codes "copying "
          ++ (debug_path (path_join from name)
              ++ (codes " -> " ++ debug_path (path_join target name))))
        (err e),
    [],
  )

  unfoldable pub install_entries : ℕ → List Text → Result ℕ × List Text
  install_entries count [] = (ok count, [])
  install_entries count (name ∷ names) =
      let skipped = install_entries count names in
      let rest = install_entries (count + 1) names in
      if is_json name
      then copied name (copy (path_join from name) (path_join target name)) rest
      else skipped

  -- With what reading the directory `from` gives.
  abbrev pub install_from : Result (List Text) → Result ℕ × List Text
  install_from (err e) = (context (codes "reading source dir: " ++ debug_path from) (err e), [])
  install_from (ok names) = install_entries 0 names

  -- With what creating the directory `target` gives.
  abbrev pub install_into : Result (Unit {0}) → Result (List Text) → Result ℕ × List Text
  install_into (err e) listing =
      (context (codes "creating specs dir: " ++ debug_path target) (err e), [])
  install_into (ok _) listing = install_from listing

unfoldable pub install_specs :
    (Text → Text → Result (Unit {0}))
    → Text
    → Option Text
    → Result (Unit {0})
    → Result (List Text)
    → Result ℕ × List Text
unfolding default_specs_dir
install_specs copy from data_dir created listing =
    install_into copy from (default_specs_dir data_dir) created listing

-- The variables of `validate_specs`.
pub record Report : Type 0 where
  pub valid : ℕ
  pub failures : List (Text × Text)

module _ {V : Type 0} (read_to_string : Text → Result Text)
    (from_str : Text → Result (Spec V)) where
  abbrev pub failed : Report → Text → Text → Report
  failed r path message = record r { failures = r.failures ++ (file_stem path, message) ∷ [] }

  abbrev pub parsed : Report → Text → Result (Spec V) → Report
  parsed r path (ok spec) = record r { valid = r.valid + 1 }
  parsed r path (err e) = failed r path (to_string e)

  abbrev pub validate_content : Report → Text → Result Text → Report
  validate_content r path (ok content) = parsed r path (from_str content)
  validate_content r path (err e) = failed r path (codes "read error: " ++ to_string e)

  unfoldable pub validate_entries : Report → List Text → Report
  validate_entries r [] = r
  validate_entries r (path ∷ paths) =
      let skipped = validate_entries r paths in
      let rest = validate_entries (validate_content r path (read_to_string path)) paths in
      if is_json path then rest else skipped

  abbrev pub verdict : Report → Result (Unit {0})
  verdict r =
      if is_empty r.failures
      then ok tt
      else bail (decimal (length r.failures) ++ codes " specs failed validation")

  unfoldable pub validate_specs : Text → Result (List Text) → Result (Unit {0})
  validate_specs from (err e) = context (codes "reading specs dir: " ++ debug_path from) (err e)
  validate_specs from (ok paths) =
      verdict (validate_entries (record { valid = 0; failures = [] }) paths)

  -- Whether `load_spec_file` gets a spec from a file.
  abbrev pub is_parsed : Result (Spec V) → Bool
  is_parsed (ok spec) = true
  is_parsed (err e) = false

  abbrev pub is_readable : Result Text → Bool
  is_readable (ok content) = is_parsed (from_str content)
  is_readable (err e) = false

  abbrev pub is_valid : Text → Bool
  is_valid path = is_readable (read_to_string path)

  abbrev pub names : Report → List Text
  names r = map (λ f. f.0) r.failures

  names_more :
      (fs : List (Text × Text)) (name message : Text)
      → map (λ f. f.0) (fs ++ (name, message) ∷ []) ≡ map (λ f. f.0) fs ++ name ∷ []
  names_more [] name message = refl
  names_more (f ∷ fs) name message = ap (λ l. f.0 ∷ l) (names_more fs name message)

  -- What a file adds to the report.
  abbrev Adds : Bool → Text → Report → Report → Type 0
  Adds true path r q = (q.valid ≡ r.valid + 1) × (names q ≡ names r)
  Adds false path r q = (q.valid ≡ r.valid) × (names q ≡ names r ++ file_stem path ∷ [])

  parsed-Adds :
      (r : Report) (path : Text) (p : Result (Spec V)) → Adds (is_parsed p) path r (parsed r path p)
  parsed-Adds r path (ok spec) = (refl, refl)
  parsed-Adds r path (err e) = (refl, names_more r.failures (file_stem path) (to_string e))

  content-Adds :
      (r : Report) (path : Text) (c : Result Text)
      → Adds (is_readable c) path r (validate_content r path c)
  content-Adds r path (ok content) = parsed-Adds r path (from_str content)
  content-Adds r path (err e) =
      (refl, names_more r.failures (file_stem path) (codes "read error: " ++ to_string e))

  abbrev pub valid_files : List Text → List Text
  valid_files paths = filter (λ p. is_json p && is_valid p) paths

  abbrev pub invalid_files : List Text → List Text
  invalid_files paths = filter (λ p. is_json p && not (is_valid p)) paths

  abbrev pub Counted : Report → List Text → Report → Type 0
  Counted r paths q =
      (q.valid ≡ r.valid + length (valid_files paths))
      × (names q ≡ names r ++ map file_stem (invalid_files paths))

  Counted-next :
      (b v : Bool) (path : Text) (paths : List Text) (r q t : Report)
      → is_json path ≡ b
      → is_valid path ≡ v
      → Adds v path r q
      → Counted (if b then q else r) paths t
      → Counted r (path ∷ paths) t
  Counted-next false v path paths r q t j k a c = rw j c
  Counted-next true true path paths r q t j k a c =
      rw (j, k)
        (omega (arith, a.0, c.0), c.1 ∙ ap (λ l. l ++ map file_stem (invalid_files paths)) a.1)
  Counted-next true false path paths r q t j k a c =
      rw (j, k)
        (
          omega (arith, a.0, c.0),
          c.1
              ∙ ap (λ l. l ++ map file_stem (invalid_files paths)) a.1
              ∙ append_assoc (names r) (file_stem path ∷ []) (map file_stem (invalid_files paths)),
        )

  chosen :
      (b : Bool) (paths : List Text) (r q x y : Report)
      → Counted q paths x
      → Counted r paths y
      → Counted (if b then q else r) paths (if b then x else y)
  chosen true paths r q x y c d = c
  chosen false paths r q x y c d = d

  -- Checking a directory counts the files with the extension json that are read and parsed, and
  -- lists the others with that extension, in their order, by the name before it: no file is counted
  -- twice, none of them is left out, and files with another extension are not looked at.
  pub validate_entries-Counted :
      (r : Report) (paths : List Text) → Counted r paths (validate_entries r paths)
  unfolding validate_entries
  validate_entries-Counted r [] = (omega arith, sym (append-nil (names r)))
  validate_entries-Counted r (path ∷ paths) =
      let q = validate_content r path (read_to_string path) in
      Counted-next (is_json path) (is_valid path) path paths r q (validate_entries r (path ∷ paths))
        refl refl (content-Adds r path (read_to_string path))
        (chosen (is_json path) paths r q (validate_entries q paths) (validate_entries r paths)
          (validate_entries-Counted q paths) (validate_entries-Counted r paths))
