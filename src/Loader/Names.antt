-- ===== src/Loader/Names.antt =====
-- The tool's name in the name of a file.
use tabra.Prelude.{
  ℕ, ◌≡◌, ◌≢◌, refl, ap, true, false, [], ◌∷◌, ◌++◌, none, some, Text, codes, All, ◌==◌, eq_text,
}
use tabra.Loader.{rsplit_dot, file_stem, extension, stem_of, extension_of, is_json, is_text}

abbrev pub NotDot : ℕ → Type 0
NotDot c = (c == b'.') ≡ false

rsplit_dot-none : (s : Text) → All NotDot s → rsplit_dot s ≡ none
unfolding rsplit_dot
rsplit_dot-none [] a = refl
rsplit_dot-none (c ∷ s) a = rw (rsplit_dot-none s a.1, a.0, rsplit_dot) refl

rsplit_dot-append :
    (name ext : Text) → All NotDot ext → rsplit_dot (name ++ b'.' ∷ ext) ≡ some (name, ext)
unfolding rsplit_dot
rsplit_dot-append [] ext a = rw (rsplit_dot-none ext a, rsplit_dot) refl
rsplit_dot-append (c ∷ name) ext a = rw (rsplit_dot-append name ext a, rsplit_dot) refl

pub file_stem-append :
    (name ext : Text) → All NotDot ext → name ≢ [] → file_stem (name ++ b'.' ∷ ext) ≡ name
unfolding file_stem
file_stem-append [] ext a n = absurd (n refl)
file_stem-append (c ∷ name) ext a n =
    ap (stem_of ((c ∷ name) ++ b'.' ∷ ext)) (rsplit_dot-append (c ∷ name) ext a)

pub is_json-append : (name : Text) → name ≢ [] → is_json (name ++ codes ".json") ≡ true
unfolding extension eq_text
is_json-append [] n = absurd (n refl)
is_json-append (c ∷ name) n =
    ap (λ x. is_text (extension_of x) (codes "json"))
      (rsplit_dot-append (c ∷ name) (codes "json") (refl, (refl, (refl, (refl, tt)))))
