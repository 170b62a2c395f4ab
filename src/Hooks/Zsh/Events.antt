-- ===== src/Hooks/Zsh/Events.antt =====
-- What can happen to the zsh hook: a key that is bound to one of its widgets, and a new line of the
-- editor, at which src/shell/hook.rs registers nothing.
use tabra.Prelude.{ℕ, List, [], ◌∷◌, Text}
use tabra.Hooks.{Hook, Effect}
use tabra.Hooks.Zsh.{accept, up, down, dismiss, self_insert, backward_delete}

-- With the output of `tabra complete-shell` where the widget calls it.
pub data Event : Type 0 where
  typed : ℕ → Text → Event
  backspace : Text → Event
  tab arrow_up arrow_down escape : Event
  new_line : Event

-- The line editor starts a line.
abbrev pub started_line : Hook → Hook
started_line h = record h { buffer = []; cursor = 0 }

unfoldable pub on_event : Hook → Event → Hook × List Effect
on_event h (typed key output) = self_insert key output h
on_event h (backspace output) = backward_delete output h
on_event h tab = accept h
on_event h arrow_up = up h
on_event h arrow_down = down h
on_event h escape = dismiss h
on_event h new_line = (started_line h, [])

unfoldable pub run : Hook → List Event → Hook
run h [] = h
run h (e ∷ es) = run (on_event h e).0 es
