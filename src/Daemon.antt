-- ===== src/Daemon.antt =====
-- The daemon's process, src/daemon/mod.rs: taking the socket, the tasks of the file watcher, and the
-- loop of src/ipc/server.rs. What the system gives is an argument.
pub mod Start
pub mod Run
pub mod Tasks
pub mod Watching
pub mod Serving
pub mod Connection
use tabra.Prelude.{
  debug_path, ℕ, Bool, true, false, List, [], ◌∷◌, ◌++◌, Option, none, some, Text, codes, map,
  if◌then◌else◌,
}
use tabra.Prelude.Results.{Failure, Result, ok, err, ◌>>=◌, ◌>>◌, context, bail}
use tabra.Spec.{Spec}
use tabra.Protocol.{Request, Response}
use tabra.Loader.{SpecIndex, reload_file, remove_file}
use tabra.Server.{Host}
use tabra.Server.Connection.{Wire, handle_connection}
use tabra.Server

-- What `UnixListener::bind` gives.
pub data Bound : Type 0 where
  listener : Bound
  addr_in_use : Bound
  failed : Text → Bound

-- What is done to the files of the socket and the process id.
pub data SocketAct : Type 0 where
  remove_socket : SocketAct
  restrict_socket : SocketAct
  write_pid : SocketAct
  remove_pid : SocketAct

abbrev pub in_use_message : Text
in_use_message = codes "Address already in use"

abbrev pub after_removal : Text → Bound → Result (Unit {0})
after_removal path listener = ok tt
after_removal path addr_in_use =
    context (codes "binding " ++ (debug_path path ++ codes " after removing stale socket"))
      (bail in_use_message)
after_removal path (failed e) =
    context (codes "binding " ++ (debug_path path ++ codes " after removing stale socket")) (bail e)

-- The match on the first `bind`: whether another process answers on the socket, and the second
-- `bind`, are looked at only where the address is in use.
unfoldable pub take_socket : Text → Bound → Bool → Bound → Result (Unit {0}) × List SocketAct
take_socket path listener live again = (ok tt, [])
take_socket path addr_in_use live again =
    if live
    then (bail (codes "another tabra daemon is already running on " ++ debug_path path), [])
    else (after_removal path again, remove_socket ∷ [])
take_socket path (failed e) live again =
    (context (codes "binding " ++ debug_path path) (bail e), [])

abbrev pub restricted : Text → Result (Unit {0}) → Result (Unit {0}) × List SocketAct
restricted path (ok _) = (ok tt, restrict_socket ∷ write_pid ∷ [])
restricted path (err e) = (
  context (codes "setting socket permissions on " ++ debug_path path) (err e),
  restrict_socket ∷ [],
)

abbrev pub and_then :
    Result (Unit {0}) × List SocketAct
    → Result (Unit {0}) × List SocketAct
    → Result (Unit {0}) × List SocketAct
and_then (ok _, acts) (r, more) = (r, acts ++ more)
and_then (err e, acts) next = (err e, acts)

-- From the binding to the pid file, with what `set_permissions` gives.
unfoldable pub start :
    Text → Bound → Bool → Bound → Result (Unit {0}) → Result (Unit {0}) × List SocketAct
start path first live again permissions =
    and_then (take_socket path first live again) (restricted path permissions)

-- An event of the watcher, `other` for the kinds that are not looked at, and an error.
pub data WatchEvent : Type 0 where
  create modify remove other : List Text → WatchEvent
  watch_error : WatchEvent

-- A task that is spawned for a path.
pub data Task : Type 0 where
  reload : Text → Task
  forget : Text → Task

unfoldable pub tasks_of : WatchEvent → List Task
tasks_of (create paths) = map reload paths
tasks_of (modify paths) = map reload paths
tasks_of (remove paths) = map forget paths
tasks_of (other paths) = []
tasks_of watch_error = []

-- What the loop waits for: a connection, with the uptime, the process id, what reading the client's
-- line gives, if it comes in time, and what writing the answer gives; a task that runs; the signal.
pub data Event (V : Type 0) : Type 0 where
  connection : ℕ → ℕ → Option (Result Text) → Result (Unit {0}) → Event V
  task : (Text → Option (Spec V)) → Task → Event V
  sigint : Event V

module _ {V : Type 0} where
  -- A task, with what the files hold when it runs.
  unfoldable pub run_task : (Text → Option (Spec V)) → SpecIndex V → Task → SpecIndex V
  run_task read_spec index (reload path) = reload_file read_spec index path
  run_task read_spec index (forget path) = remove_file index path

  module _ (host : Host V) (wire : Wire) where
    unfoldable pub on_event : Server.Daemon V → Event V → Server.Daemon V
    on_event d (connection uptime pid line sent) =
        (handle_connection host wire d uptime pid line sent).0
    on_event d (task read_spec t) = record d { index = run_task read_spec d.index t }
    on_event d sigint = record d { shutdown = true }

    -- The loop of `server::run`: whether it has ended, and the events it did not come to.
    unfoldable pub serve :
        Server.Daemon V → List (Event V) → Server.Daemon V × (Bool × List (Event V))
    serve d [] = (d, (d.shutdown, []))
    serve d (e ∷ es) =
        let rest = serve (on_event d e) es in if d.shutdown then (d, (true, e ∷ es)) else rest
