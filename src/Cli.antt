-- ===== src/Cli.antt =====
-- The commands of src/main.rs, and what each calls.
use tabra.Prelude.{ℕ, Bool, true, false, Option, Text, codes}
use tabra.Setup.{ShellType, zsh, bash, fish}

-- The subcommands with their arguments, as clap gives them. A path is a text.
pub data Commands : Type 0 where
  daemon : Option Text → Commands
  init : ShellType → Commands
  complete : Text → ℕ → Text → Option ℕ → Commands
  complete_shell : Text → ℕ → Text → Option ℕ → Bool → Commands
  accept : Text → Commands
  dismiss status stop : Commands
  install_specs validate_specs : Text → Commands
  session : Option ShellType → Commands

-- The script that is printed.
pub data Script : Type 0 where
  zsh_hook bash_hook fish_hook : Script

unfoldable pub hook_of : ShellType → Script
hook_of zsh = zsh_hook
hook_of bash = bash_hook
hook_of fish = fish_hook

-- The functions that `main` calls.
pub data Called : Type 0 where
  daemon_run : Option Text → Called
  print_hook : Script → Called
  request_complete : Text → ℕ → Text → Option ℕ → Called
  request_complete_shell : Text → ℕ → Text → Option ℕ → Bool → Called
  request_accept : Text → Called
  request_dismiss request_status request_stop : Called
  loader_install_specs loader_validate_specs : Text → Called
  session_run : Option ShellType → Called

abbrev pub is_session : Commands → Bool
is_session (session shell) = true
is_session _ = false

unfoldable pub default_level : Commands → Text
default_level (session shell) = codes "tabra=warn"
default_level _ = codes "tabra=info"

unfoldable pub dispatch : Commands → Called
unfolding hook_of
dispatch (daemon specs_dir) = daemon_run specs_dir
dispatch (init shell) = print_hook (hook_of shell)
dispatch (complete buffer cursor cwd cols) = request_complete buffer cursor cwd cols
dispatch (complete_shell buffer cursor cwd cols render) =
    request_complete_shell buffer cursor cwd cols render
dispatch (accept text) = request_accept text
dispatch dismiss = request_dismiss
dispatch status = request_status
dispatch stop = request_stop
dispatch (install_specs from) = loader_install_specs from
dispatch (validate_specs from) = loader_validate_specs from
dispatch (session shell) = session_run shell
