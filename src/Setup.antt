-- ===== src/Setup.antt =====
-- The start of a session: the shell and the integration script that src/session/mod.rs chooses, the
-- daemon that it waits for, and the arguments that src/session/pty.rs gives the shell. Pseudo
-- terminals, terminal modes and processes are the system's.
pub mod Arguments
pub mod Quoting
use tabra.Prelude.{
  ℕ, zero, suc, ◌+◌, Bool, true, false, ◌||◌, List, [], ◌∷◌, ◌++◌, Option, none, some, Text, codes,
  starts_with, if◌then◌else◌, ◌==◌,
}
use mathlib.Core.List.{reverse}
use tabra.Client.Requests.{contains}

-- src/shell/mod.rs.
pub data ShellType : Type 0 where
  zsh bash fish : ShellType

-- The shell's path, with the variable SHELL.
unfoldable pub shell_path : Option ShellType → Option Text → Text
shell_path (some bash) variable = codes "bash"
shell_path (some zsh) variable = codes "zsh"
shell_path (some fish) variable = codes "fish"
shell_path none (some shell) = shell
shell_path none none = codes "bash"

-- The scripts of src/session/integration.rs; `no_script` is the empty text.
pub data Integration : Type 0 where
  bash_integration zsh_integration fish_integration no_script : Integration

unfoldable pub integration_script : Text → Integration
integration_script shell =
    if contains shell (codes "bash")
    then bash_integration
    else if contains shell (codes "zsh")
    then zsh_integration
    else if contains shell (codes "fish")
    then fish_integration
    else no_script

-- The rounds of the waiting loop that sleep; `call` counts the calls of `is_daemon_running`.
unfoldable pub wait_rounds : (ℕ → Bool) → ℕ → ℕ → ℕ
wait_rounds running call zero = 0
wait_rounds running call (suc rounds) =
    let rest = wait_rounds running (call + 1) rounds in if running call then 1 else rest + 1

-- Whether the daemon is started, and how many times the session sleeps.
unfoldable pub ensure_daemon : (ℕ → Bool) → Bool × ℕ
ensure_daemon running = if running 0 then (false, 0) else (true, wait_rounds running 1 10)

-- `str::ends_with`.
abbrev pub ends_with : Text → Text → Bool
ends_with s pattern = starts_with (reverse s) (reverse pattern)

-- `replace('\'', "'\\''")`.
unfoldable pub escaped : Text → Text
escaped [] = []
escaped (c ∷ s) = if c == 39 then 39 ∷ b'\\' ∷ 39 ∷ 39 ∷ escaped s else c ∷ escaped s

-- `source '{}'`.
abbrev pub source_command : Text → Text
source_command path = codes "source " ++ 39 ∷ (escaped path ++ 39 ∷ [])

-- The arguments of the shell in `spawn_shell`.
unfoldable pub shell_arguments : Text → Text → List Text
shell_arguments shell script =
    if ends_with shell (codes "bash")
    then codes "--rcfile" ∷ script ∷ []
    else if ends_with shell (codes "fish")
    then codes "-C" ∷ source_command script ∷ []
    else []
