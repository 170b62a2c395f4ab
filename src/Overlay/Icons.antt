-- ===== src/Overlay/Icons.antt =====
-- The icons of src/render/theme.rs for terminals with a Nerd Font. No other function uses them.
use tabra.Prelude.{ℕ}
use tabra.Spec.{SuggestionType, folder, file, arg, subcommand, option, special, mixin, shortcut}

unfoldable pub kind_icon : SuggestionType → ℕ
kind_icon subcommand = 0xf0a0e
kind_icon option = 0xeb88
kind_icon arg = 0xeb69
kind_icon file = 0xea7b
kind_icon folder = 0xea83
kind_icon special = 0xeb5f
kind_icon mixin = 0xeb62
kind_icon shortcut = 0xeb37
