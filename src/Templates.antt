-- ===== src/Templates.antt =====
-- `expand_template` of src/engine/resolver.rs: the files and folders of a directory. The paths are
-- those of `std::path` on Unix; what `read_dir` gives is a parameter.
pub mod Prefix
use tabra.Prelude.{
  ℕ, ◌-◌, Bool, true, false, not, ◌&&◌, ◌||◌, List, [], ◌∷◌, ◌++◌, Option, none, some, Text, codes,
  any, if◌then◌else◌, ◌==◌, is_empty, last?, starts_with,
}
use mathlib.Core.List.{reverse}
use tabra.Spec.{TemplateString, filepaths, folders, history, help, SuggestionType, file, folder}
use tabra.Suggest.{ResolvedSuggestion, get_or}

abbrev pub slash : ℕ
slash = b'/'

-- An entry that could be read; `is_dir` is false where its type could not.
pub record DirEntry : Type 0 where
  pub file_name : Text
  pub is_dir : Bool

-- On a path read from its end: `/` and `/.` at the end go, a root stays.
unfoldable pub trim_back : Text → Text
trim_back [] = []
trim_back (c ∷ []) = c ∷ []
trim_back (c ∷ d ∷ r) =
    let rest = trim_back (d ∷ r) in
    if (c == slash) || ((c == b'.') && (d == slash)) then rest else c ∷ d ∷ r

-- The last component goes.
unfoldable pub drop_component : Text → Text
drop_component [] = []
drop_component (c ∷ r) = let rest = drop_component r in if c == slash then c ∷ r else rest

abbrev pub is_root : Text → Bool
is_root (c ∷ []) = c == slash
is_root _ = false

-- `Path::parent`; `none` for an empty path and for a root.
unfoldable pub parent : Text → Option Text
parent path =
    let r = trim_back (reverse path) in
    if is_empty r || is_root r then none else some (reverse (trim_back (drop_component r)))

abbrev pub is_absolute : Text → Bool
is_absolute path = starts_with path (codes "/")

abbrev pub separator : Option ℕ → Text
separator none = []
separator (some c) = if c == slash then [] else slash ∷ []

-- `Path::join` with a path that is not absolute.
abbrev pub join : Text → Text → Text
join base path = base ++ (separator (last? base) ++ path)

-- `dir_prefix`.
abbrev pub dir_prefix : Text → Text → Text
dir_prefix token dir =
    if starts_with token (codes "/") then dir else if is_empty dir then [] else dir ++ slash ∷ []

-- The directory and the prefix of what is inserted.
unfoldable pub directory_of : Text → Text → Text × Text
directory_of cwd token =
    let dir = get_or (parent token) [] in
    if any (λ c. c == slash) token
    then (if is_absolute dir then dir else join cwd dir, dir_prefix token dir)
    else (cwd, [])

abbrev path_suggestion : Text → DirEntry → ResolvedSuggestion
path_suggestion prefix e = record {
  match_text = e.file_name;
  display_text = if e.is_dir then e.file_name ++ slash ∷ [] else e.file_name;
  insert_text = if e.is_dir then prefix ++ (e.file_name ++ slash ∷ []) else prefix ++ e.file_name;
  description = [];
  kind = if e.is_dir then folder else file;
  priority = 50;
  is_dangerous = false;
}

-- What an entry adds.
abbrev pub entry_suggestions : TemplateString → Text → DirEntry → List ResolvedSuggestion
entry_suggestions folders prefix e = if e.is_dir then path_suggestion prefix e ∷ [] else []
entry_suggestions filepaths prefix e = path_suggestion prefix e ∷ []
entry_suggestions history prefix e = []
entry_suggestions help prefix e = []

unfoldable pub list_entries : TemplateString → Text → List DirEntry → List ResolvedSuggestion
list_entries t prefix [] = []
list_entries t prefix (e ∷ es) = entry_suggestions t prefix e ++ list_entries t prefix es

-- `expand_template`: what it pushes; `read_dir` gives `none` for an error.
unfoldable pub expand_template :
    (Text → Option (List DirEntry)) → TemplateString → Text → Text → List ResolvedSuggestion
expand_template read_dir t cwd token =
    let (dir, prefix) = directory_of cwd token in
    elim (read_dir dir) [ none ↦ [] | some es ↦ list_entries t prefix es ]
