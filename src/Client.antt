-- ===== src/Client.antt =====
-- What src/ipc/client.rs prints for the shell hooks.
pub mod Reading
pub mod Requests
pub mod Errors
pub mod Timed
use tabra.Prelude.{
  ℕ, Bool, true, false, ◌||◌, List, [], ◌∷◌, ◌++◌, Option, none, some, Text, map, length,
  if◌then◌else◌, ◌==◌, decimal,
}
use tabra.Protocol.{CompletionItem, Response, completions}

-- `replace(['\t', '\n', '\r'], " ")`.
unfoldable pub sanitize : Text → Text
sanitize [] = []
sanitize (c ∷ s) = (if (c == 0x09) || ((c == 0x0a) || (c == 0x0d)) then 0x20 else c) ∷ sanitize s

unfoldable pub item_line : CompletionItem → Text
item_line item =
    sanitize item.display
    ++ 0x09 ∷ (sanitize item.insert ++ 0x09 ∷ (sanitize item.description ++ 0x0a ∷ []))

unfoldable pub item_lines : List CompletionItem → Text
item_lines [] = []
item_lines (i ∷ is) = item_line i ++ item_lines is

-- A blank line and the popup, if it is asked for and there is one.
abbrev pub popup_part : Bool → Option Text → Text
popup_part false popup = []
popup_part true none = []
popup_part true (some popup) = 0x0a ∷ popup

-- `request_complete_shell`: what it prints for a response.
unfoldable pub print_shell : Bool → Response → Text
print_shell render (completions items selected query popup) =
    decimal (length items) ++ 0x0a ∷ (item_lines items ++ popup_part render popup)
print_shell render _ = []
