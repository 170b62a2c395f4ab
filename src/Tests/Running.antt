-- ===== src/Tests/Running.antt =====
-- The daemon, from its start to its end, on concrete inputs.
use tabra.Prelude.{
  ℕ, ◌≡◌, ◌||◌, refl, false, List, [], ◌∷◌, none, some, Text, codes, any, if◌then◌else◌, eq_text,
}
use tabra.Prelude.Results.{ok, bail}
use tabra.Loader.{new, get}
use tabra.Loader.Lookup.{json_of}
use tabra.Loader.Files.{Counted, validate_entries, validate_entries-Counted}
use tabra.Daemon.{
  listener, addr_in_use, start, remove_socket, restrict_socket, write_pid, remove_pid, on_event,
  connection, Event, sigint, serve, reload, forget, run_task, tasks_of, take_socket,
}
use tabra.Daemon.Run.{System, Ended, run, async_run, run-Ended}
use tabra.Loader.{missing, load, reload_all}
use tabra.Server.Connection.{handle_connection}
use tabra.Daemon.Serving.{is_stop, serve_ends}
use tabra.Daemon.Tasks.{tasks_reordered}
use tabra.Daemon.Watching.{
  Watched, File, absent, broken, holds, reads, Agrees, modified, Reach, here, next, created, ran,
  loaded, with_file, index_follows,
}
use tabra.Tests.Fixtures.{git}
use tabra.Tests.Serving.{bare_host, git_index, empty_cache, only_git}
use tabra.Tests.Processes.{running, short_wire, reset_failure}

-- A client that writes nothing, a request, the signal, and a client behind it.
abbrev some_events : List (Event ℕ)
some_events =
    connection 0 1 none (ok tt)
    ∷ connection 1 1 (some (ok (codes "{}"))) (ok tt)
    ∷ sigint
    ∷ connection 2 1 none (ok tt)
    ∷ []

serve_ends_example :
    (serve bare_host short_wire running some_events).1.0
    ≡ (false || any (is_stop short_wire) some_events)
serve_ends_example = serve_ends bare_host short_wire running some_events

-- A stale socket, a client that writes nothing, and the signal.
abbrev stale_socket : System
stale_socket = record {
  create_dir_all = ok tt;
  new_runtime = ok tt;
  read_dir_failure = reset_failure;
  bind = addr_in_use;
  connects = false;
  bind_again = listener;
  set_permissions = ok tt;
  recommended_watcher = ok tt;
  watch = ok tt;
}

abbrev quiet_events : List (Event ℕ)
quiet_events = connection 0 1 none (ok tt) ∷ sigint ∷ []

run-Ended_example :
    Ended bare_host short_wire stale_socket quiet_events
      (remove_socket ∷ restrict_socket ∷ write_pid ∷ remove_socket ∷ remove_pid ∷ [])
unfolding run async_run start take_socket load reload_all serve on_event handle_connection
run-Ended_example =
    run-Ended bare_host short_wire stale_socket (some (codes "/specs")) none
      (codes "/run/tabra.sock") only_git missing empty_cache quiet_events
      (remove_socket ∷ restrict_socket ∷ write_pid ∷ remove_socket ∷ remove_pid ∷ []) refl

tasks_reordered_example :
    (get
        (run_task only_git
          (run_task only_git git_index (forget (json_of (codes "git"))))
          (reload (json_of (codes "git"))))
        (codes "git")
      ≡ some git)
    × (get
          (run_task only_git
            (run_task only_git git_index (reload (json_of (codes "git"))))
            (forget (json_of (codes "git"))))
          (codes "git")
        ≡ none)
unfolding eq_text
tasks_reordered_example = tasks_reordered git_index only_git (codes "git") git (λ e. cc) refl

abbrev no_files : Text → File ℕ
no_files path = absent

-- An empty directory in which `git.json` is written, first with something that is no spec.
abbrev empty_directory : Watched ℕ
empty_directory = loaded new no_files []

abbrev git_json : Text
git_json = json_of (codes "git")

abbrev broken_written : Watched ℕ
broken_written = record empty_directory {
  disk = with_file no_files git_json broken;
  pending = reload git_json ∷ [];
}

abbrev git_file : Text → File ℕ
git_file = with_file broken_written.disk git_json (holds git)

abbrev written : Watched ℕ
written = record broken_written {
  disk = git_file;
  pending = reload git_json ∷ reload git_json ∷ [];
}

abbrev once_reloaded : Watched ℕ
once_reloaded = record written {
  index = run_task (reads git_file) written.index (reload git_json);
  pending = reload git_json ∷ [];
}

abbrev reloaded : Watched ℕ
reloaded = record once_reloaded {
  index = run_task (reads git_file) once_reloaded.index (reload git_json);
  pending = [];
}

reaches : Reach empty_directory reloaded
unfolding tasks_of
reaches =
    next
      (next
        (next (next here (created empty_directory (codes "git") broken (λ e. cc) tt))
          (modified broken_written (codes "git") (holds git) (λ e. cc) tt))
        (ran written (reload git_json) (reload git_json ∷ []) refl))
      (ran once_reloaded (reload git_json) [] refl)

index_follows_example : Agrees (git_file git_json) (get reloaded.index (codes "git"))
index_follows_example =
    index_follows new no_files [] reloaded tt (λ tool n e. refl) reaches refl (codes "git") λ e. cc

validate_entries-Counted_example :
    Counted
      (λ path. ok path)
      (λ content. if eq_text content (codes "git.json") then ok git else bail content)
      (record { valid = 0; failures = [] })
      (codes "git.json" ∷ codes "bad.json" ∷ codes "notes.txt" ∷ [])
      (validate_entries
        (λ path. ok path)
        (λ content. if eq_text content (codes "git.json") then ok git else bail content)
        (record { valid = 0; failures = [] })
        (codes "git.json" ∷ codes "bad.json" ∷ codes "notes.txt" ∷ []))
validate_entries-Counted_example =
    validate_entries-Counted (λ path. ok path)
      (λ content. if eq_text content (codes "git.json") then ok git else bail content)
      (record { valid = 0; failures = [] })
      (codes "git.json" ∷ codes "bad.json" ∷ codes "notes.txt" ∷ [])
