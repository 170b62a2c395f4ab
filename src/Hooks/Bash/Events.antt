-- ===== src/Hooks/Bash/Events.antt =====
-- What can happen to the bash hook: a key that is bound to one of its functions, and a prompt, which
-- src/shell/bash_hook.rs handles by PROMPT_COMMAND before a new line is started.
use tabra.Prelude.{List, [], ◌∷◌, Text}
use tabra.Hooks.{Hook, Effect}
use tabra.Hooks.Zsh.Events.{started_line}
use tabra.Hooks.Bash.{accept, up, down, dismiss, self_insert, backward_delete, pre_prompt}

-- With the output of `tabra complete-shell` where the function calls it.
pub data Event : Type 0 where
  typed : Text → Text → Event
  backspace : Text → Event
  tab ctrl_p ctrl_n ctrl_g : Event
  prompt : Event

unfoldable pub on_event : Hook → Event → Hook × List Effect
on_event h (typed char output) = self_insert char output h
on_event h (backspace output) = backward_delete output h
on_event h tab = accept h
on_event h ctrl_p = up h
on_event h ctrl_n = down h
on_event h ctrl_g = dismiss h
on_event h prompt = let (t, out) = pre_prompt h in (started_line t, out)

unfoldable pub run : Hook → List Event → Hook
run h [] = h
run h (e ∷ es) = run (on_event h e).0 es
