-- ===== src/Daemon/Tasks.antt =====
-- What the watcher's tasks do to the index.
use tabra.Prelude.{
  ◌≡◌, ◌≢◌, refl, ap, sym, ◌∙◌, Bool, true, false, List, [], ◌∷◌, ◌++◌, Option, none, some, Text,
  inl, inr, Bool-cases, if◌then◌else◌, eq_text, eq_text_iff, codes,
}
use tabra.Spec.{Spec}
use tabra.Loader.{SpecIndex, get, file_stem, reload_file, remove_file}
use tabra.Loader.Lookup.{json_of, or_else, get-reload_file, get-remove_file}
use tabra.Loader.Names.{file_stem-append}
use tabra.Daemon.{Task, reload, forget, run_task}

abbrev pub path_of : Task → Text
path_of (reload path) = path
path_of (forget path) = path

-- The last of the tasks for a path.
abbrev pub last_or : Option Task → Bool → Task → Option Task
last_or (some u) b t = some u
last_or none b t = if b then some t else none

unfoldable pub last_on : Text → List Task → Option Task
last_on path [] = none
last_on path (t ∷ ts) = last_or (last_on path ts) (eq_text (path_of t) path) t

last_or_if :
    (o : Option Task) (b c : Bool) (t u : Task)
    → last_or (if b then some t else o) c u ≡ (if b then some t else last_or o c u)
last_or_if o true c t u = refl
last_or_if o false c t u = refl

pub last_on-append :
    (path : Text) (ts : List Task) (t : Task)
    → last_on path (ts ++ t ∷ []) ≡ (if eq_text (path_of t) path then some t else last_on path ts)
unfolding last_on
last_on-append path [] t = refl
last_on-append path (u ∷ ts) t =
    ap (λ o. last_or o (eq_text (path_of u) path) u) (last_on-append path ts t)
    ∙ last_or_if (last_on path ts) (eq_text (path_of t) path) (eq_text (path_of u) path) t u

abbrev pub Named : Task → Type 0
Named t = (tool : Text) × (tool ≢ []) × (path_of t ≡ json_of tool)

stem-json : (tool : Text) → tool ≢ [] → file_stem (json_of tool) ≡ tool
stem-json tool n = file_stem-append tool (codes "json") (refl, (refl, (refl, (refl, tt)))) n

pub eq-json_of : (a b : Text) → a ≢ [] → b ≢ [] → eq_text (json_of a) (json_of b) ≡ eq_text a b
eq-json_of a b n m = elim (Bool-cases (eq_text a b)) [
  | inl e ↦ (eq_text_iff (json_of a) (json_of b)).1 (ap json_of ((eq_text_iff a b).0 e)) ∙ sym e
  | inr e ↦ elim (Bool-cases (eq_text (json_of a) (json_of b))) [
    | inr f ↦ f ∙ sym e
    | inl f ↦
        let j = (eq_text_iff (json_of a) (json_of b)).0 f in
        f ∙ sym ((eq_text_iff a b).1 (sym (stem-json a n) ∙ ap file_stem j ∙ stem-json b m))
  ]
]

self_eq : (tool : Text) → eq_text tool tool ≡ true
self_eq tool = (eq_text_iff tool tool).1 refl

module _ {V : Type 0} where
  -- What a task does to a tool's spec.
  abbrev pub after_task : Task → Option (Spec V) → Option (Spec V) → Option (Spec V)
  after_task (reload path) file old = or_else file old
  after_task (forget path) file old = none

  module _ (index : SpecIndex V) (disk : Text → Option (Spec V)) where
    other_file :
        (a b : Text) (x y : Option (Spec V))
        → (if eq_text a b then or_else (disk (json_of a)) x else y)
          ≡ (if eq_text a b then or_else (disk (json_of b)) x else y)
    other_file a b x y = elim (Bool-cases (eq_text a b)) [
      | inl e ↦
          ap (λ t. if eq_text a b then or_else (disk (json_of t)) x else y) ((eq_text_iff a b).0 e)
      | inr e ↦ rw e refl
    ]

    pub get-run_task :
        (t : Task) (a tool : Text)
        → a ≢ []
        → path_of t ≡ json_of a
        → get (run_task disk index t) tool ≡ (
            if eq_text a tool
            then after_task t (disk (json_of tool)) (get index tool)
            else get index tool)
    unfolding run_task
    get-run_task (reload path) a tool n e =
        ap (λ p. get (reload_file disk index p) tool) e
        ∙ get-reload_file disk index a tool n
        ∙ other_file a tool (get index tool) (get index tool)
    get-run_task (forget path) a tool n e =
        ap (λ p. get (remove_file index p) tool) e
        ∙ get-remove_file index a (codes "json") tool n (refl, (refl, (refl, (refl, tt))))

  -- The order of the tasks matters, and nothing fixes it where two run at once: for a file that was
  -- deleted and written again, the tool has its spec if they run in the order of the events, and
  -- none, though the file is there, if they run in the other.
  pub tasks_reordered :
      (index : SpecIndex V) (disk : Text → Option (Spec V)) (tool : Text) (s : Spec V)
      → tool ≢ []
      → disk (json_of tool) ≡ some s
      → (get
            (run_task disk (run_task disk index (forget (json_of tool))) (reload (json_of tool)))
            tool
          ≡ some s)
        × (get
              (run_task disk (run_task disk index (reload (json_of tool))) (forget (json_of tool)))
              tool
            ≡ none)
  tasks_reordered index disk tool s n e =
      let q = self_eq tool in
      (
        get-run_task (run_task disk index (forget (json_of tool))) disk (reload (json_of tool)) tool
              tool n refl
            ∙ rw (q, e) refl,
        get-run_task (run_task disk index (reload (json_of tool))) disk (forget (json_of tool)) tool
              tool n refl
            ∙ rw q refl,
      )
