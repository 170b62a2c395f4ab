-- ===== src/Protocol.antt =====
-- The messages of src/ipc/protocol.rs. A `u16` is a number below 2 ^ 16.
use tabra.Prelude.{ℕ, Bool, List, ◌++◌, Option, none, some, Text, codes, decimal, path_join}
use tabra.Spec.{SuggestionType}

pub record CompletionItem : Type 0 where
  pub display : Text
  pub insert : Text
  pub description : Text
  pub kind : SuggestionType
  pub match_indices : List ℕ
  pub is_dangerous : Bool

-- `complete buffer cursor cwd terminal_cols`.
pub data Request : Type 0 where
  complete : Text → ℕ → Text → Option ℕ → Request
  accept : Text → Request
  dismiss status stop : Request

-- `completions items selected query rendered_popup`, `status_info specs_loaded uptime_secs pid`.
pub data Response : Type 0 where
  completions : List CompletionItem → ℕ → Text → Option Text → Response
  empty ack : Response
  status_info : ℕ → ℕ → ℕ → Response
  goodbye : Response
  error : Text → Response

-- With the variable XDG_RUNTIME_DIR and the user's number.
unfoldable pub socket_path : Option Text → ℕ → Text
socket_path (some runtime_dir) uid = path_join runtime_dir (codes "tabra.sock")
socket_path none uid = codes "/tmp/tabra-" ++ (decimal uid ++ codes ".sock")
