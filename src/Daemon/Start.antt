-- ===== src/Daemon/Start.antt =====
-- How the daemon takes its socket.
use tabra.Prelude.{◌≡◌, refl, ap, sym, ◌⊎◌, inl, inr, Bool, true, false, List, [], ◌∷◌, Text}
use tabra.Prelude.Results.{Result, ok, err}
use tabra.Daemon.{
  Bound, listener, addr_in_use, failed, SocketAct, remove_socket, restrict_socket, write_pid,
  take_socket, start,
}

-- Nothing was in the way, or the file of a socket on which no process answers, which is removed
-- before the second binding.
abbrev pub Taken : Bound → Bool → Bound → List SocketAct → Type 0
Taken first live again acts =
    ((first ≡ listener) × (acts ≡ restrict_socket ∷ write_pid ∷ []))
    ⊎ ((first ≡ addr_in_use)
        × (live ≡ false)
        × (again ≡ listener)
        × (acts ≡ remove_socket ∷ restrict_socket ∷ write_pid ∷ []))

-- The daemon starts only with the socket to itself, restricted to its owner before the pid file is
-- written; it removes a socket's file only where the address was in use and nobody answered.
pub start-Taken :
    (path : Text) (first : Bound) (live : Bool) (again : Bound) (permissions : Result (Unit {0}))
    (acts : List SocketAct)
    → start path first live again permissions ≡ (ok tt, acts)
    → Taken first live again acts
unfolding start take_socket
start-Taken path listener live again (ok _) acts h = inl (refl, sym (ap (λ r. r.1) h))
start-Taken path listener live again (err e) acts h = cc
start-Taken path addr_in_use true again permissions acts h = cc
start-Taken path addr_in_use false listener (ok _) acts h =
    inr (refl, refl, refl, sym (ap (λ r. r.1) h))
start-Taken path addr_in_use false listener (err e) acts h = cc
start-Taken path addr_in_use false addr_in_use permissions acts h = cc
start-Taken path addr_in_use false (failed e) permissions acts h = cc
start-Taken path (failed e) live again permissions acts h = cc
