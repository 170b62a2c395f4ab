-- ===== src/Templates/Prefix.antt =====
-- The directory that a partial path leads to, and what is inserted before a name.
use tabra.Prelude.{
  ℕ, ◌≡◌, ◌≢◌, refl, ap, sym, ◌∙◌, inl, inr, true, false, ◌||◌, ◌&&◌, [], ◌∷◌, ◌++◌, some, Text,
  codes, any, All, All-append, arith, ◌==◌, if◌then◌else◌, starts_with, Bool-cases, is_empty,
}
use mathlib.Core.List.{
  reverse, reverse-append, reverse-cons, reverse-reverse, append_assoc, append-nil,
}
use tabra.Templates.{
  slash, trim_back, drop_component, is_root, parent, is_absolute, join, directory_of,
}

abbrev pub NotSlash : ℕ → Type 0
NotSlash c = (c == slash) ≡ false

-- A path that is its own normal form at the end.
abbrev pub IsTrimmed : Text → Type 0
IsTrimmed d = trim_back (reverse d) ≡ reverse d

All-reverse : (s : Text) → All NotSlash s → All NotSlash (reverse s)
All-reverse [] a = tt
All-reverse (c ∷ s) a =
    rw (reverse-cons c s) (All-append NotSlash (reverse s) (c ∷ []) (All-reverse s a.1) (a.0, tt))

-- A name, or one read from its end: not empty, without a slash, and not `.`.
abbrev pub IsName : Text → Type 0
IsName m = All NotSlash m × ((m ≢ []) × (m ≢ b'.' ∷ []))

reverse-IsName : (n : Text) → IsName n → IsName (reverse n)
reverse-IsName n (a, (e, d)) = (
  All-reverse n a,
  (
    λ h. e (sym (reverse-reverse n) ∙ ap reverse h),
    λ h. d (sym (reverse-reverse n) ∙ ap reverse h),
  ),
)

trim_back_step :
    (c e : ℕ) (r : Text)
    → NotSlash c
    → ((c == b'.') && (e == slash)) ≡ false
    → trim_back (c ∷ e ∷ r) ≡ c ∷ e ∷ r
unfolding trim_back
trim_back_step c e r h k = rw (h, k, trim_back) refl

not_dot : (c : ℕ) → c ∷ [] ≢ b'.' ∷ [] → ((c == b'.') && (slash == slash)) ≡ false
not_dot c d = elim (Bool-cases (c == b'.')) [
  | inl t ↦ absurd (let q : c ≡ b'.' = ground arith in d (ap (λ x. x ∷ []) q))
  | inr f ↦ rw f refl
]

trim_back_name : (m r : Text) → IsName m → trim_back (m ++ slash ∷ r) ≡ m ++ slash ∷ r
trim_back_name [] r (a, (n, d)) = absurd (n refl)
trim_back_name (c ∷ []) r (a, (n, d)) = trim_back_step c slash r a.0 (not_dot c d)
trim_back_name (c ∷ e ∷ m) r (a, (n, d)) =
    trim_back_step c e (m ++ slash ∷ r) a.0 (ground (arith, a.1.0))

trim_back_alone : (m : Text) → IsName m → trim_back m ≡ m
trim_back_alone [] (a, (n, d)) = absurd (n refl)
trim_back_alone (c ∷ []) (a, (n, d)) = unfold trim_back in refl
trim_back_alone (c ∷ e ∷ m) (a, (n, d)) = trim_back_step c e m a.0 (ground (arith, a.1.0))

not_root : (m r : Text) → IsName m → is_empty (m ++ r) || is_root (m ++ r) ≡ false
not_root [] r (a, (n, d)) = absurd (n refl)
not_root (c ∷ []) [] (a, (n, d)) = a.0
not_root (c ∷ []) (x ∷ r) (a, (n, d)) = refl
not_root (c ∷ e ∷ m) r (a, (n, d)) = refl

drop_component-append : (m r : Text) → All NotSlash m → drop_component (m ++ slash ∷ r) ≡ slash ∷ r
unfolding drop_component
drop_component-append [] r a = refl
drop_component-append (c ∷ m) r a = rw (a.0, drop_component) (drop_component-append m r a.1)

drop_component_alone : (m : Text) → All NotSlash m → drop_component m ≡ []
unfolding drop_component
drop_component_alone [] a = refl
drop_component_alone (c ∷ m) a = rw (a.0, drop_component) (drop_component_alone m a.1)

trim_back-slash : (r : Text) → r ≢ [] → trim_back (slash ∷ r) ≡ trim_back r
unfolding trim_back
trim_back-slash [] n = absurd (n refl)
trim_back-slash (c ∷ r) n = refl

reverse-path : (d n : Text) → reverse (d ++ slash ∷ n) ≡ reverse n ++ slash ∷ reverse d
reverse-path d n =
    reverse-append d (slash ∷ n)
    ∙ ap (λ t. t ++ reverse d) (reverse-cons slash n)
    ∙ append_assoc (reverse n) (slash ∷ []) (reverse d)

parent-some :
    (path t : Text)
    → trim_back (reverse path) ≡ t
    → is_empty t || is_root t ≡ false
    → parent path ≡ some (reverse (trim_back (drop_component t)))
unfolding parent
parent-some path t e f = rw (e, f, parent) refl

reverse-nonempty : (d : Text) → d ≢ [] → reverse d ≢ []
reverse-nonempty d n h = n (sym (reverse-reverse d) ∙ ap reverse h)

parent-path : (d n : Text) → IsName n → IsTrimmed d → d ≢ [] → parent (d ++ slash ∷ n) ≡ some d
parent-path d n i t e =
    let m = reverse n in
    let r = reverse d in
    let j : IsName m = reverse-IsName n i in
    let back : trim_back (reverse (d ++ slash ∷ n)) ≡ m ++ slash ∷ r =
      ap trim_back (reverse-path d n) ∙ trim_back_name m r j in
    let kept : trim_back (drop_component (m ++ slash ∷ r)) ≡ r =
      ap trim_back (drop_component-append m r j.0) ∙ trim_back-slash r (reverse-nonempty d e) ∙ t in
    parent-some (d ++ slash ∷ n) (m ++ slash ∷ r) back (not_root m (slash ∷ r) j)
    ∙ ap (λ x. some (reverse x)) kept
    ∙ ap some (reverse-reverse d)

parent-trailing : (n : Text) → IsName n → parent (n ++ slash ∷ []) ≡ some []
parent-trailing n i =
    let m = reverse n in
    let j : IsName m = reverse-IsName n i in
    let back : trim_back (reverse (n ++ slash ∷ [])) ≡ m =
      ap trim_back (reverse-append n (slash ∷ []))
      ∙ trim_back-slash m (j.1.0)
      ∙ trim_back_alone m j in
    parent-some (n ++ slash ∷ []) m back
      (ap (λ x. is_empty x || is_root x) (sym (append-nil m)) ∙ not_root m [] j)
    ∙ ap (λ x. some (reverse (trim_back x))) (drop_component_alone m j.0)
    ∙ unfold trim_back in refl

has_slash : (d n : Text) → any (λ c. c == slash) (d ++ slash ∷ n) ≡ true
has_slash [] n = refl
has_slash (c ∷ d) n = ground (arith, has_slash d n)

absolute-append :
    (d n : Text) → d ≢ [] → starts_with (d ++ n) (codes "/") ≡ starts_with d (codes "/")
unfolding starts_with
absolute-append [] n e = absurd (e refl)
absolute-append (c ∷ d) n e = refl

nonempty : (d : Text) → d ≢ [] → is_empty d ≡ false
nonempty [] e = absurd (e refl)
nonempty (c ∷ d) e = refl

-- For a token that is a path, a slash and a name, the entries of the path are listed. If the path
-- is relative, it and a slash are put before what is inserted; if it is absolute, it is put there
-- without the slash, so that the name that is inserted runs into the last folder's.
pub directory_of-path :
    (cwd d n : Text)
    → IsName n
    → IsTrimmed d
    → d ≢ []
    → directory_of cwd (d ++ slash ∷ n)
      ≡ (if is_absolute d then (d, d) else (join cwd d, d ++ slash ∷ []))
unfolding directory_of
directory_of-path cwd d n i t e =
    let p = parent-path d n i t e in
    let h = has_slash d n in
    let a = absolute-append d (slash ∷ n) e in
    let z = nonempty d e in
    elim (Bool-cases (is_absolute d)) [
      | inl y ↦ rw (p, h, a, z, y, directory_of) refl
      | inr y ↦ rw (p, h, a, z, y, directory_of) refl
    ]

relative : (n : Text) → IsName n → starts_with n (codes "/") ≡ false
unfolding starts_with
relative [] i = refl
relative (c ∷ n) i = ground (arith, i.0.0)

-- For a token that is a name and a slash, the working directory is listed and not that folder, and
-- the folder is not put before what is inserted.
pub directory_of-trailing :
    (cwd n : Text) → IsName n → directory_of cwd (n ++ slash ∷ []) ≡ (join cwd [], [])
unfolding directory_of starts_with
directory_of-trailing cwd n i =
    let p = parent-trailing n i in
    let h = has_slash n [] in
    let a : starts_with (n ++ slash ∷ []) (codes "/") ≡ false =
      absolute-append n (slash ∷ []) (i.1.0) ∙ relative n i in
    rw (p, h, a, directory_of) refl
