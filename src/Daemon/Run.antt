-- ===== src/Daemon/Run.antt =====
-- `run` and `async_run` of src/daemon/mod.rs, from the start of the daemon to its end.
use tabra.Prelude.{
  ◌≡◌, refl, sym, ap, ◌∙◌, Bool, true, false, ◌||◌, List, [], ◌∷◌, ◌++◌, Option, none, some, Text,
  codes, any, debug_path,
}
use tabra.Prelude.Results.{Failure, Result, ok, err, context}
use tabra.Spec.{Spec}
use tabra.Generators.{Cache}
use tabra.Loader.{SpecIndex, Listing, load}
use tabra.Loader.Files.{default_specs_dir}
use tabra.Server
use tabra.Server.{Host}
use tabra.Server.Connection.{Wire}
use tabra.Daemon.{Bound, SocketAct, remove_socket, remove_pid, Event, start, serve}
use tabra.Daemon.Start.{Taken, start-Taken}
use tabra.Daemon.Serving.{is_stop, serve_ends}

-- What the system gives on the way: creating the specs directory and the runtime, why the directory
-- cannot be read, the socket, and the file watcher.
pub record System : Type 0 where
  pub create_dir_all : Result (Unit {0})
  pub new_runtime : Result (Unit {0})
  pub read_dir_failure : Failure
  pub bind : Bound
  pub connects : Bool
  pub bind_again : Bound
  pub set_permissions : Result (Unit {0})
  pub recommended_watcher : Result (Unit {0})
  pub watch : Result (Unit {0})

-- The result, `none` while the daemon runs, and what was done to the files.
abbrev pub Outcome : Type 0
Outcome = Option (Result (Unit {0})) × List SocketAct

module _ {V : Type 0} (host : Host V) (wire : Wire) (sys : System) where
  -- Behind the loop of the server, with the files' acts before it.
  abbrev pub ended : List SocketAct → Server.Daemon V × (Bool × List (Event V)) → Outcome
  ended acts (d, (true, left)) = (some (ok tt), acts ++ (remove_socket ∷ remove_pid ∷ []))
  ended acts (d, (false, left)) = (none, acts)

  -- Behind the watcher.
  abbrev pub watched :
      List SocketAct → Server.Daemon V → List (Event V) → Result (Unit {0}) → Outcome
  watched acts d es (ok _) = ended acts (serve host wire d es)
  watched acts d es (err e) = (some (err e), acts)

  abbrev pub watcher : Text → Result (Unit {0}) → Result (Unit {0}) → Result (Unit {0})
  watcher specs_dir (ok _) watch = context (codes "watching " ++ debug_path specs_dir) watch
  watcher specs_dir (err e) watch = context (codes "creating file watcher") (err e)

  -- Behind the socket.
  abbrev pub started :
      Text → Server.Daemon V → List (Event V) → Result (Unit {0}) × List SocketAct → Outcome
  started specs_dir d es (ok _, acts) =
      watched acts d es (watcher specs_dir sys.recommended_watcher sys.watch)
  started specs_dir d es (err e, acts) = (some (err e), acts)

  -- Behind the loading of the specs.
  abbrev pub with_specs : Text → Text → Cache → List (Event V) → Option (SpecIndex V) → Outcome
  with_specs specs_dir path cache es none = (
    some (
        context (codes "loading specs") (
          context (codes "reading specs dir: " ++ debug_path specs_dir)
            (err sys.read_dir_failure))),
    [],
  )
  with_specs specs_dir path cache es (some index) =
      started specs_dir (record { index = index; cache = cache; shutdown = false }) es
        (start path sys.bind sys.connects sys.bind_again sys.set_permissions)

  unfoldable pub async_run :
      Text → Text → (Text → Option (Spec V)) → Listing → Cache → List (Event V) → Outcome
  async_run specs_dir path read_spec listing cache es =
      with_specs specs_dir path cache es (load read_spec listing)

  abbrev pub specs_dir_or : Option Text → Option Text → Text
  specs_dir_or none data_dir = default_specs_dir data_dir
  specs_dir_or (some dir) data_dir = dir

  abbrev pub created : Text → Result (Unit {0}) → Result (Unit {0}) → Outcome → Outcome
  created specs_dir (err e) runtime next =
      (some (context (codes "creating specs dir: " ++ debug_path specs_dir) (err e)), [])
  created specs_dir (ok _) (err e) next =
      (some (context (codes "creating tokio runtime") (err e)), [])
  created specs_dir (ok _) (ok _) next = next

  unfoldable pub run :
      Option Text
      → Option Text
      → Text
      → (Text → Option (Spec V))
      → Listing
      → Cache
      → List (Event V)
      → Outcome
  run specs_dir data_dir path read_spec listing cache es =
      let dir = specs_dir_or specs_dir data_dir in
      created dir sys.create_dir_all sys.new_runtime (async_run dir path read_spec listing cache es)

  -- A daemon that has ended well.
  pub record Ended (es : List (Event V)) (acts : List SocketAct) : Type 0 where
    pub stopped : any (is_stop wire) es ≡ true
    pub at_start : List SocketAct
    pub taken : Taken sys.bind sys.connects sys.bind_again at_start
    pub files : acts ≡ at_start ++ (remove_socket ∷ remove_pid ∷ [])

  ended-Ended :
      (es : List (Event V)) (front acts : List SocketAct)
      (p : Server.Daemon V × (Bool × List (Event V)))
      → p.1.0 ≡ any (is_stop wire) es
      → Taken sys.bind sys.connects sys.bind_again front
      → ended front p ≡ (some (ok tt), acts)
      → Ended es acts
  ended-Ended es front acts (e, (true, left)) q t h = record {
    stopped = sym q;
    at_start = front;
    taken = t;
    files = sym (ap (λ o. o.1) h);
  }
  ended-Ended es front acts (e, (false, left)) q t h = cc

  watched-Ended :
      (d : Server.Daemon V) (es : List (Event V)) (front acts : List SocketAct)
      (r : Result (Unit {0}))
      → d.shutdown ≡ false
      → Taken sys.bind sys.connects sys.bind_again front
      → watched front d es r ≡ (some (ok tt), acts)
      → Ended es acts
  watched-Ended d es front acts (ok _) s t h =
      ended-Ended es front acts (serve host wire d es)
        (serve_ends host wire d es ∙ ap (λ b. b || any (is_stop wire) es) s) t h
  watched-Ended d es front acts (err e) s t h = cc

  started-Ended :
      (specs_dir path : Text) (d : Server.Daemon V) (es : List (Event V)) (acts : List SocketAct)
      (p : Result (Unit {0}) × List SocketAct)
      → d.shutdown ≡ false
      → start path sys.bind sys.connects sys.bind_again sys.set_permissions ≡ p
      → started specs_dir d es p ≡ (some (ok tt), acts)
      → Ended es acts
  started-Ended specs_dir path d es acts (ok _, front) s q h =
      watched-Ended d es front acts _ s
        (start-Taken path sys.bind sys.connects sys.bind_again sys.set_permissions front q) h
  started-Ended specs_dir path d es acts (err e, front) s q h = cc

  with_specs-Ended :
      (specs_dir path : Text) (cache : Cache) (es : List (Event V)) (acts : List SocketAct)
      (o : Option (SpecIndex V))
      → with_specs specs_dir path cache es o ≡ (some (ok tt), acts)
      → Ended es acts
  with_specs-Ended specs_dir path cache es acts none h = cc
  with_specs-Ended specs_dir path cache es acts (some index) h =
      started-Ended specs_dir path (record { index = index; cache = cache; shutdown = false }) es
        acts _ refl refl h

  created-Ended :
      (specs_dir : Text) (es : List (Event V)) (acts : List SocketAct)
      (dir runtime : Result (Unit {0})) (next : Outcome)
      → (next ≡ (some (ok tt), acts) → Ended es acts)
      → created specs_dir dir runtime next ≡ (some (ok tt), acts)
      → Ended es acts
  created-Ended specs_dir es acts (err e) runtime next k h = cc
  created-Ended specs_dir es acts (ok _) (err e) next k h = cc
  created-Ended specs_dir es acts (ok _) (ok _) next k h = k h

  -- A daemon that ends well has had the socket to itself, restricted to its owner before the file
  -- of the process id was written, and has removed another's socket file only where the address was
  -- in use and nobody answered; a request to stop or the signal has come; and at its end, and only
  -- there, both files are removed.
  pub run-Ended :
      (specs_dir data_dir : Option Text) (path : Text) (read_spec : Text → Option (Spec V))
      (listing : Listing) (cache : Cache) (es : List (Event V)) (acts : List SocketAct)
      → run specs_dir data_dir path read_spec listing cache es ≡ (some (ok tt), acts)
      → Ended es acts
  unfolding run async_run
  run-Ended specs_dir data_dir path read_spec listing cache es acts h =
      let dir = specs_dir_or specs_dir data_dir in
      created-Ended dir es acts sys.create_dir_all sys.new_runtime _
        (with_specs-Ended dir path cache es acts (load read_spec listing)) h
