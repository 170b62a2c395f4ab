-- ===== src/Loader.antt =====
-- The index of specs of src/spec/loader.rs. A path is the name of its file; what reading and
-- deserialising a file gives is a parameter, `none` for any error. The map is an association list
-- without a key twice.
pub mod Names
pub mod Lookup
pub mod Directory
pub mod Files
pub mod Install
use tabra.Prelude.{
  ℕ, Bool, true, false, not, ◌&&◌, List, [], ◌∷◌, Option, none, some, Text, codes, if◌then◌else◌,
  ◌==◌, length, is_empty, filter, eq_text,
}
use tabra.Spec.{Spec}

-- The text before the last dot and the text behind it, if there is a dot.
unfoldable pub rsplit_dot : Text → Option (Text × Text)
rsplit_dot [] = none
rsplit_dot (c ∷ s) = elim (rsplit_dot s) [
  | some (l, r) ↦ some (c ∷ l, r)
  | none ↦ if c == b'.' then some ([], s) else none
]

-- `Path::file_stem` of a name; a dot at the beginning begins no extension.
abbrev pub stem_of : Text → Option (Text × Text) → Text
stem_of name none = name
stem_of name (some ([], r)) = name
stem_of name (some (c ∷ l, r)) = c ∷ l

abbrev pub extension_of : Option (Text × Text) → Option Text
extension_of none = none
extension_of (some ([], r)) = none
extension_of (some (c ∷ l, r)) = some r

unfoldable pub file_stem : Text → Text
file_stem name = stem_of name (rsplit_dot name)

-- `Path::extension` of a name.
unfoldable pub extension : Text → Option Text
extension name = extension_of (rsplit_dot name)

abbrev pub is_text : Option Text → Text → Bool
is_text none t = false
is_text (some s) t = eq_text s t

abbrev pub is_json : Text → Bool
is_json name = is_text (extension name) (codes "json")

module _ {V : Type 0} where
  -- `HashMap::get`.
  unfoldable pub lookup : List (Text × Spec V) → Text → Option (Spec V)
  lookup [] name = none
  lookup ((k, s) ∷ es) name = if eq_text k name then some s else lookup es name

  -- `HashMap::remove`.
  unfoldable pub without : List (Text × Spec V) → Text → List (Text × Spec V)
  without [] name = []
  without ((k, s) ∷ es) name =
      let rest = without es name in if eq_text k name then rest else (k, s) ∷ rest

-- What there is of the directory: it is missing, it cannot be read, or its entries.
pub data Listing : Type 0 where
  missing unreadable : Listing
  entries : List Text → Listing

pub record SpecIndex (V : Type 0) : Type 0 where
  pub specs : List (Text × Spec V)

module _ {V : Type 0} where
  -- `SpecIndex::new`.
  abbrev pub new : SpecIndex V
  new = record { specs = [] }

  unfoldable pub insert : SpecIndex V → Text → Spec V → SpecIndex V
  insert ix name spec = record { specs = (name, spec) ∷ without ix.specs name }

  unfoldable pub get : SpecIndex V → Text → Option (Spec V)
  get ix tool_name = lookup ix.specs tool_name

  abbrev pub len : SpecIndex V → ℕ
  len ix = length ix.specs

  unfoldable pub remove_file : SpecIndex V → Text → SpecIndex V
  remove_file ix path = record { specs = without ix.specs (file_stem path) }

  abbrev pub named_spec : Text → Option (Spec V) → Option (Text × Spec V)
  named_spec path none = none
  named_spec path (some spec) = some (file_stem path, spec)

  module _ (read_spec : Text → Option (Spec V)) where
    -- `load_spec_file`.
    abbrev pub load_spec_file : Text → Option (Text × Spec V)
    load_spec_file path = named_spec path (read_spec path)

    abbrev pub insert_loaded : SpecIndex V → Option (Text × Spec V) → SpecIndex V
    insert_loaded ix none = ix
    insert_loaded ix (some (name, spec)) = insert ix name spec

    unfoldable pub reload_file : SpecIndex V → Text → SpecIndex V
    reload_file ix path = if is_json path then insert_loaded ix (load_spec_file path) else ix

    -- The loop of `reload_all`, whose round is that of `reload_file`.
    unfoldable pub load_entries : SpecIndex V → List Text → SpecIndex V
    load_entries ix [] = ix
    load_entries ix (path ∷ paths) = load_entries (reload_file ix path) paths

  -- `reload_all`: whether it returns `Ok`, and the index behind it.
  unfoldable pub reload_all : (Text → Option (Spec V)) → SpecIndex V → Listing → Bool × SpecIndex V
  reload_all read_spec ix missing = (true, new)
  reload_all read_spec ix unreadable = (false, new)
  reload_all read_spec ix (entries paths) = (true, load_entries read_spec new paths)

  abbrev pub loaded_index : Bool × SpecIndex V → Option (SpecIndex V)
  loaded_index (false, ix) = none
  loaded_index (true, ix) = some ix

  -- `SpecIndex::load`, where `none` is an error.
  unfoldable pub load : (Text → Option (Spec V)) → Listing → Option (SpecIndex V)
  load read_spec listing = loaded_index (reload_all read_spec new listing)
