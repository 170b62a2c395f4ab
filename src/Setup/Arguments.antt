-- ===== src/Setup/Arguments.antt =====
-- Which shells get the integration script.
use tabra.Prelude.{◌≡◌, refl, ap, [], ◌∷◌, ◌++◌, Text, codes, starts_with}
use mathlib.Core.List.{reverse, reverse-append}
use tabra.Setup.{ends_with, source_command, shell_arguments}

ends_with-append :
    (dir name pattern : Text)
    → ends_with (dir ++ name) pattern ≡ starts_with (reverse name ++ reverse dir) (reverse pattern)
ends_with-append dir name pattern =
    ap (λ s. starts_with s (reverse pattern)) (reverse-append dir name)

-- A shell whose path ends in bash or fish gets the script, as its start-up file or as a command. One
-- whose path ends in zsh gets no argument, so that the script, which is written for it too, is
-- never read.
pub shell_arguments_lem :
    (dir script : Text)
    → (shell_arguments (dir ++ codes "bash") script ≡ codes "--rcfile" ∷ script ∷ [])
      × (shell_arguments (dir ++ codes "fish") script ≡ codes "-C" ∷ source_command script ∷ [])
      × (shell_arguments (dir ++ codes "zsh") script ≡ [])
unfolding shell_arguments starts_with
shell_arguments_lem dir script = (
  rw (ends_with-append dir (codes "bash") (codes "bash")) refl,
  rw
      (
        ends_with-append dir (codes "fish") (codes "bash"),
        ends_with-append dir (codes "fish") (codes "fish"),
      )
      refl,
  rw
      (
        ends_with-append dir (codes "zsh") (codes "bash"),
        ends_with-append dir (codes "zsh") (codes "fish"),
      )
      refl,
)
