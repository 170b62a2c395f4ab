-- ===== src/Tests/Fixtures.antt =====
-- A colour scheme without colours, a small spec of git, and a session with an open popup.
use tabra.Prelude.{
  ℕ, ◌≡◌, refl, true, false, List, [], ◌∷◌, none, some, Text, codes, byte_of_char, len_utf8,
}
use tabra.Spec.{
  single, array, Arg, Opt, Subcommand, leaf, node, cons, nil, CommandFields, Spec, subcommand,
  prefix,
}
use tabra.Protocol.{CompletionItem}
use tabra.Overlay.{Ansi}
use tabra.Overlay.Feeds.{feeds, IsQuiet}
use tabra.Osc
use tabra.Popup
use tabra.Popup.{PopupState}
use tabra.Session.{Session}

abbrev pub mono : Ansi
mono = record {
  Color = ℕ;
  rgb = λ r g b. r;
  reset = 0;
  set_foreground = λ c. codes "\u{1b}[39m";
  set_background = λ c. codes "\u{1b}[49m";
  bold = codes "\u{1b}[1m";
  reset_attribute = codes "\u{1b}[0m";
}

pub mono-IsQuiet : IsQuiet mono
unfolding feeds
mono-IsQuiet = record {
  foreground = λ c. refl;
  background = λ c. refl;
  bold = refl;
  attribute = refl;
}

-- `serde_json::Value` is not looked at.
abbrev pub no_fields : Text → CommandFields ℕ
no_fields n = record {
  name = single n;
  display_name = none;
  insert_value = none;
  description = none;
  icon = none;
  priority = none;
  requires_subcommand = false;
  options = none;
  args = none;
  filter_strategy = none;
  additional_suggestions = none;
  load_spec = none;
  generate_spec = none;
  parser_directives = none;
  cache = none;
  hidden = false;
  is_dangerous = false;
  deprecated = none;
}

abbrev pub message_arg : Arg ℕ
message_arg = record {
  name = some (codes "message");
  description = none;
  suggestions = none;
  template = none;
  generators = none;
  filter_strategy = none;
  is_optional = false;
  is_variadic = false;
  is_command = false;
  is_dangerous = false;
  default_value = none;
  debounce = false;
  options_can_break_variadic_arg = none;
  suggest_current_token = false;
  load_spec = none;
}

abbrev pub message_option : Opt ℕ
message_option = record {
  name = array (codes "-m" ∷ codes "--message" ∷ []);
  display_name = none;
  insert_value = none;
  description = none;
  icon = none;
  priority = none;
  args = some (single message_arg);
  is_persistent = false;
  is_required = false;
  requires_equals = false;
  requires_separator = none;
  is_repeatable = none;
  exclusive_on = none;
  depends_on = none;
  hidden = false;
  is_dangerous = false;
  deprecated = none;
}

abbrev pub commit : Subcommand ℕ
commit = leaf (record (no_fields (codes "commit")) { options = some (message_option ∷ []) })

abbrev pub git : Spec ℕ
git =
    node (record (no_fields (codes "git")) { filter_strategy = some prefix })
      (cons (leaf (no_fields (codes "add"))) (cons commit nil))

abbrev pub plain_item : Text → CompletionItem
plain_item t = record {
  display = t;
  insert = t;
  description = [];
  kind = subcommand;
  match_indices = [];
  is_dangerous = false;
}

abbrev pub checkout : CompletionItem
checkout = record (plain_item (codes "checkout")) { description = codes "Switch branches" }

abbrev pub two_items : List CompletionItem
two_items = plain_item (codes "cherry-pick") ∷ checkout ∷ []

-- The popup behind `git ch` of the line `git ch -v`, with its second item selected.
abbrev pub open_popup : PopupState ℕ
open_popup = record (Popup.initial mono 80) {
  visible = true;
  items = two_items;
  selected = 1;
  last_buffer = codes "git ch -v";
  last_cursor = 6;
  popup_lines = 2;
}

abbrev pub open_session : Session ℕ
open_session = record {
  popup = open_popup;
  tracker = record { buffer = codes "git ch -v"; cursor = 6; active = true };
  osc = Osc.initial;
  escape_pending = false;
  debounced = [];
  writes = [];
  pty = [];
}

pub open_cursor : open_popup.last_cursor ≡ byte_of_char open_popup.last_buffer 6
unfolding byte_of_char len_utf8
open_cursor = refl
