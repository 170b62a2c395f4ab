-- ===== src/Daemon/Watching.antt =====
-- The index of specs against the directory while files change.
use tabra.Prelude.{
  ◌≡◌, ◌≢◌, refl, ap, sym, subst, ◌∙◌, Bool, true, false, List, [], ◌∷◌, ◌++◌, Option, none, some,
  Text, All, All-append, map, if◌then◌else◌, eq_text,
}
use tabra.Spec.{Spec}
use tabra.Loader.{SpecIndex, get, reload_all, entries}
use tabra.Loader.Lookup.{json_of, or_else}
use tabra.Loader.Directory.{is_among, IsNonempty, get-reload_all}
use tabra.Daemon.{Task, reload, forget, tasks_of, create, modify, remove, run_task}
use tabra.Daemon.Tasks.{
  path_of, last_or, last_on, last_on-append, Named, eq-json_of, after_task, get-run_task,
}

-- A file that is not there, one that cannot be read or parsed, and one that holds a spec.
pub data File (V : Type 0) : Type 0 where
  absent broken : File V
  holds : Spec V → File V

-- The daemon's index, the files, and the tasks that are not run yet, in the order of their events.
pub record Watched (V : Type 0) : Type 0 where
  pub index : SpecIndex V
  pub disk : Text → File V
  pub pending : List Task

module _ {V : Type 0} where
  abbrev pub with_file : (Text → File V) → Text → File V → Text → File V
  with_file disk path file other = if eq_text path other then file else disk other

  -- What reading and parsing gives.
  abbrev pub spec_of : File V → Option (Spec V)
  spec_of absent = none
  spec_of broken = none
  spec_of (holds s) = some s

  abbrev pub reads : (Text → File V) → Text → Option (Spec V)
  reads disk path = spec_of (disk path)

  abbrev pub IsPresent : File V → Type 0
  IsPresent absent = ⊥
  IsPresent broken = Unit
  IsPresent (holds s) = Unit

  -- A tool's spec agrees with its file, of which a broken one gives none to agree with.
  abbrev pub Agrees : File V → Option (Spec V) → Type 0
  Agrees absent spec = spec ≡ none
  Agrees broken spec = Unit
  Agrees (holds s) spec = spec ≡ some s

  -- A tool's file is written, whether it can be parsed or not, a new one or over another, or
  -- deleted, and the watcher tells; or the first task that is not run yet runs.
  pub data Step : Watched V → Watched V → Type 0 where
    created :
        (w : Watched V) (tool : Text) (file : File V)
        → tool ≢ []
        → IsPresent file
        → Step w (record w {
          disk = with_file w.disk (json_of tool) file;
          pending = w.pending ++ tasks_of (create (json_of tool ∷ []));
        })
    modified :
        (w : Watched V) (tool : Text) (file : File V)
        → tool ≢ []
        → IsPresent file
        → Step w (record w {
          disk = with_file w.disk (json_of tool) file;
          pending = w.pending ++ tasks_of (modify (json_of tool ∷ []));
        })
    deleted :
        (w : Watched V) (tool : Text)
        → tool ≢ []
        → Step w (record w {
          disk = with_file w.disk (json_of tool) absent;
          pending = w.pending ++ tasks_of (remove (json_of tool ∷ []));
        })
    ran :
        (w : Watched V) (t : Task) (ts : List Task)
        → w.pending ≡ t ∷ ts
        → Step w (record w { index = run_task (reads w.disk) w.index t; pending = ts })

  pub data Reach (w : Watched V) : Watched V → Type 0 where
    here : Reach w w
    next : {u v : Watched V} → Reach w u → Step u v → Reach w v

  -- With no task left for a tool its spec agrees with its file; otherwise the last task fits the
  -- file.
  abbrev Fits : Option Task → File V → Option (Spec V) → Type 0
  Fits none file spec = Agrees file spec
  Fits (some (reload path)) file spec = IsPresent file
  Fits (some (forget path)) file spec = file ≡ absent

  record Inv (w : Watched V) : Type 0 where
    named : All Named w.pending
    fits :
        (tool : Text)
        → tool ≢ []
        → Fits (last_on (json_of tool) w.pending) (w.disk (json_of tool)) (get w.index tool)

  reloaded-Agrees :
      (file : File V) (old spec : Option (Spec V))
      → spec ≡ or_else (spec_of file) old
      → IsPresent file
      → Agrees file spec
  reloaded-Agrees absent old spec e p = absurd p
  reloaded-Agrees broken old spec e p = tt
  reloaded-Agrees (holds s) old spec e p = e

  settled :
      (rest : Option Task) (b : Bool) (t : Task) (file : File V) (old spec : Option (Spec V))
      → spec ≡ (if b then after_task t (spec_of file) old else old)
      → Fits (last_or rest b t) file old
      → Fits rest file spec
  settled (some (reload path)) b t file old spec e f = f
  settled (some (forget path)) b t file old spec e f = f
  settled none false t file old spec e f = subst (Agrees file) (sym e) f
  settled none true (reload path) file old spec e f = reloaded-Agrees file old spec e f
  settled none true (forget path) file old spec e f = subst (λ g. Agrees g spec) (sym f) e

  ran-Fits :
      (index : SpecIndex V) (disk : Text → File V) (t : Task) (tool : Text) (rest : Option Task)
      → tool ≢ []
      → Named t
      → Fits
          (last_or rest (eq_text (path_of t) (json_of tool)) t)
          (disk (json_of tool))
          (get index tool)
      → Fits rest (disk (json_of tool)) (get (run_task (reads disk) index t) tool)
  ran-Fits index disk t tool rest n (a, m, e) f =
      let same : eq_text (path_of t) (json_of tool) ≡ eq_text a tool =
        ap (λ p. eq_text p (json_of tool)) e ∙ eq-json_of a tool m n in
      settled rest (eq_text a tool) t (disk (json_of tool)) (get index tool)
        (get (run_task (reads disk) index t) tool) (get-run_task index (reads disk) t a tool m e)
        (subst (λ b. Fits (last_or rest b t) (disk (json_of tool)) (get index tool)) same f)

  -- A task is put behind the others for the file that has changed.
  changed-Fits :
      (disk : Text → File V) (ts : List Task) (t : Task) (file : File V) (path : Text)
      (spec : Option (Spec V))
      → Fits (some t) file spec
      → Fits (last_on path ts) (disk path) spec
      → Fits (last_on path (ts ++ t ∷ [])) (with_file disk (path_of t) file path) spec
  changed-Fits disk ts t file path spec g f =
      subst (λ o. Fits o (with_file disk (path_of t) file path) spec)
        (sym (last_on-append path ts t))
        (chosen (eq_text (path_of t) path) (last_on path ts) (disk path) g f)
    where
      chosen :
          (b : Bool) (o : Option Task) (old : File V)
          → Fits (some t) file spec
          → Fits o old spec
          → Fits (if b then some t else o) (if b then file else old) spec
      chosen true o old g f = g
      chosen false o old g f = f

  changed-Inv :
      (w : Watched V) (t : Task) (file : File V)
      → Named t
      → ((spec : Option (Spec V)) → Fits (some t) file spec)
      → Inv w
      → Inv (record w { disk = with_file w.disk (path_of t) file; pending = w.pending ++ t ∷ [] })
  changed-Inv w t file n g i = record {
    named = All-append Named w.pending (t ∷ []) i.named (n, tt);
    fits = λ tool m.
        changed-Fits w.disk w.pending t file (json_of tool) (get w.index tool)
          (g (get w.index tool)) (i.fits tool m);
  }

  ran-Inv :
      (w : Watched V) (t : Task) (ts : List Task)
      → w.pending ≡ t ∷ ts
      → Inv w
      → Inv (record w { index = run_task (reads w.disk) w.index t; pending = ts })
  unfolding last_on
  ran-Inv w t ts e i =
      let a : All Named (t ∷ ts) = subst (All Named) e i.named in
      record {
        named = a.1;
        fits = λ tool m. ran-Fits w.index w.disk t tool (last_on (json_of tool) ts) m a.0 (
            subst (λ l. Fits (last_on (json_of tool) l) (w.disk (json_of tool)) (get w.index tool))
              e (i.fits tool m));
      }

  Step-Inv : {u v : Watched V} → Step u v → Inv u → Inv v
  unfolding tasks_of
  Step-Inv (created w tool file n p) i =
      changed-Inv w (reload (json_of tool)) file (tool, n, refl) (λ _. p) i
  Step-Inv (modified w tool file n p) i =
      changed-Inv w (reload (json_of tool)) file (tool, n, refl) (λ _. p) i
  Step-Inv (deleted w tool n) i =
      changed-Inv w (forget (json_of tool)) absent (tool, n, refl) (λ _. refl) i
  Step-Inv (ran w t ts e) i = ran-Inv w t ts e i

  Reach-Inv : {w v : Watched V} → Inv w → Reach w v → Inv v
  Reach-Inv i here = i
  Reach-Inv i (next r st) = Step-Inv st (Reach-Inv i r)

  -- The daemon when it has loaded its directory.
  abbrev pub loaded : SpecIndex V → (Text → File V) → List Text → Watched V
  loaded ix disk tools = record {
    index = (reload_all (reads disk) ix (entries (map json_of tools))).1;
    disk = disk;
    pending = [];
  }

  Agrees-spec_of : (file : File V) → Agrees file (spec_of file)
  Agrees-spec_of absent = refl
  Agrees-spec_of broken = tt
  Agrees-spec_of (holds s) = refl

  listed :
      (b : Bool) (file : File V)
      → (b ≡ false → file ≡ absent)
      → Agrees file (if b then spec_of file else none)
  listed true file h = Agrees-spec_of file
  listed false file h = subst (λ f. Agrees f none) (sym (h refl)) refl

  loaded-Inv :
      (ix : SpecIndex V) (disk : Text → File V) (tools : List Text)
      → All IsNonempty tools
      → ((tool : Text) → tool ≢ [] → is_among tools tool ≡ false → disk (json_of tool) ≡ absent)
      → Inv (loaded ix disk tools)
  unfolding last_on
  loaded-Inv ix disk tools a c = record {
    named = tt;
    fits = λ tool m.
        subst (Agrees (disk (json_of tool))) (sym (get-reload_all (reads disk) ix tools tool a))
          (listed (is_among tools tool) (disk (json_of tool)) (c tool m));
  }

  -- The index follows the directory: from the loading of a directory that holds the files of the
  -- given tools, through any sequence of files of tools written, with a spec or with something that
  -- cannot be parsed, and deleted, with the tasks that the watcher spawns run one by one in the
  -- order of the events and at any time, whenever no task is left: a tool whose file then holds a
  -- spec has that spec, and a tool without a file has none. Of a tool whose file cannot be parsed
  -- nothing is said.
  pub index_follows :
      (ix : SpecIndex V) (disk : Text → File V) (tools : List Text) (w : Watched V)
      → All IsNonempty tools
      → ((tool : Text) → tool ≢ [] → is_among tools tool ≡ false → disk (json_of tool) ≡ absent)
      → Reach (loaded ix disk tools) w
      → w.pending ≡ []
      → (tool : Text) → tool ≢ []
      → Agrees (w.disk (json_of tool)) (get w.index tool)
  unfolding last_on
  index_follows ix disk tools w a c r e tool n =
      let i = Reach-Inv (loaded-Inv ix disk tools a c) r in
      subst (λ l. Fits (last_on (json_of tool) l) (w.disk (json_of tool)) (get w.index tool)) e
        (i.fits tool n)
