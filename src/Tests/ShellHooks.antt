-- ===== src/Tests/ShellHooks.antt =====
-- The shell hooks on concrete lines and outputs.
use tabra.Prelude.{
  none, Text, ◌⊎◌, ℕ, ◌≡◌, refl, true, false, [], ◌∷◌, ◌++◌, some, codes, arith, length, Bool, ◌+◌,
  ◌==◌,
}
use tabra.Protocol.{completions}
use tabra.Client.{print_shell}
use tabra.Hooks.{Hook, print, send_accept}
use tabra.Hooks.Zsh
use tabra.Hooks.Zsh.{initial, draw, show_items}
use tabra.Hooks.Zsh.Reading.{items_of, popup_of, fetch_and_render-print_shell}
use tabra.Hooks.Zsh.Accept.{Replaced, erasing, accept-Replaced}
use tabra.Hooks.Zsh.Navigation.{tab_stale}
use tabra.Hooks.Zsh.Events as ZshEvents
use tabra.Hooks.Zsh.Invariant.{Inv, run-initial-Inv}
use tabra.Hooks.Zsh.Waiting.{Waited, ensure_daemon-Waited}
use tabra.Hooks.Bash.Events as BashEvents
use tabra.Hooks.Bash.Widgets.{without_popup, keys-zsh, run_bash-Inv}
use tabra.Hooks.Fish
use tabra.Hooks.Fish.Reading.{fetch_fish-first_line}
use tabra.Hooks.Zsh.Reading.{line_of}
use tabra.Tests.Fixtures.{plain_item, checkout}
use tabra.Tests.Fixtures.{two_items}

-- Behind `git ch` of the line `git ch -v`, with the second of two items selected.
abbrev open_hook : Hook
open_hook = record initial {
  popup_visible = true;
  popup_lines = 2;
  selected = 1;
  item_count = 2;
  displays = codes "cherry-pick" ∷ codes "checkout" ∷ [];
  inserts = codes "cherry-pick" ∷ codes "checkout" ∷ [];
  descs = [] ∷ codes "Switch branches" ∷ [];
  buffer = codes "git ch -v";
  cursor = 6;
}

open_hook-Inv : Inv open_hook
open_hook-Inv = ground arith

accept-Replaced_example :
    Replaced open_hook (codes "checkout") (Zsh.accept open_hook).0
    × ((Zsh.accept open_hook).0.popup_visible ≡ false)
    × ((Zsh.accept open_hook).0.item_count ≡ 0)
    × ((Zsh.accept open_hook).1 ≡ send_accept (codes "checkout") ∷ erasing open_hook)
accept-Replaced_example = accept-Replaced open_hook b'c' (codes "heckout") refl (omega arith) refl

fetch_and_render-print_shell_example :
    Zsh.fetch_and_render
      (print_shell true (completions two_items 0 [] (some (codes "popup\n"))))
      open_hook
    ≡ show_items (
        items_of two_items
          (record open_hook { selected = 0; rendered_popup = popup_of (some (codes "popup\n")) }))
fetch_and_render-print_shell_example =
    fetch_and_render-print_shell two_items 0 [] (some (codes "popup\n")) open_hook

run-initial-Inv_example : Inv (
    ZshEvents.run initial
      (ZshEvents.typed b'g' (codes "1\ngit\tgit\t\n") ∷ ZshEvents.arrow_down ∷ ZshEvents.tab ∷ []))
run-initial-Inv_example =
    run-initial-Inv
      (ZshEvents.typed b'g' (codes "1\ngit\tgit\t\n") ∷ ZshEvents.arrow_down ∷ ZshEvents.tab ∷ [])

run_bash-Inv_example : Inv (
    BashEvents.run initial (
      BashEvents.typed (codes "g") (codes "1\ngit\tgit\t\n")
      ∷ BashEvents.ctrl_n
      ∷ BashEvents.prompt
      ∷ []))
run_bash-Inv_example = run_bash-Inv (
    BashEvents.typed (codes "g") (codes "1\ngit\tgit\t\n")
    ∷ BashEvents.ctrl_n
    ∷ BashEvents.prompt
    ∷ [])

keys-zsh_example :
    (BashEvents.on_event open_hook BashEvents.tab ≡ without_popup (Zsh.accept open_hook))
    × (BashEvents.on_event open_hook BashEvents.ctrl_g ≡ without_popup (Zsh.dismiss open_hook))
    × (BashEvents.on_event open_hook BashEvents.ctrl_p ≡ Zsh.up open_hook)
    × (BashEvents.on_event open_hook BashEvents.ctrl_n ≡ Zsh.down open_hook)
keys-zsh_example = keys-zsh open_hook refl (omega arith)

abbrev fish_printed : Text
fish_printed = print_shell true (completions two_items 0 [] (some (codes "popup")))

fetch_fish-first_line_example :
    (Fish.fetch_and_render fish_printed open_hook ≡ (
      record open_hook {
        popup_visible = true;
        popup_lines = 2;
        selected = 0;
        rendered_popup = line_of (plain_item (codes "cherry-pick"));
        displays = [];
        inserts = [];
        descs = [];
        item_count = 2;
      },
      (Fish.erase_popup open_hook).1 ++ print (line_of (plain_item (codes "cherry-pick"))) ∷ [],
    ))
    × ((Fish.accept (Fish.fetch_and_render fish_printed open_hook).0).1
        ≡ (none, (Fish.erase_popup (Fish.fetch_and_render fish_printed open_hook).0).1))
fetch_fish-first_line_example =
    fetch_fish-first_line (plain_item (codes "cherry-pick")) (checkout ∷ []) 0 []
      (some (codes "popup")) open_hook

tab_stale_example :
    ((ZshEvents.run open_hook (ZshEvents.new_line ∷ ZshEvents.tab ∷ [])).buffer
      ≡ codes "checkout" ++ 0x20 ∷ [])
    × ((ZshEvents.run open_hook (ZshEvents.new_line ∷ ZshEvents.tab ∷ [])).cursor
        ≡ length (codes "checkout") + 1)
tab_stale_example = tab_stale open_hook b'c' (codes "heckout") open_hook-Inv refl refl

abbrev third_call : ℕ → Bool
third_call n = n == 3

ensure_daemon-Waited_example :
    ((third_call 0 ≡ true) × (Zsh.ensure_daemon third_call ≡ (false, 0)))
    ⊎ ((third_call 0 ≡ false)
        × ((Zsh.ensure_daemon third_call).0 ≡ true)
        × Waited third_call 1 5 (Zsh.ensure_daemon third_call).1)
ensure_daemon-Waited_example = ensure_daemon-Waited third_call
