-- ===== src/Osc.antt =====
-- src/session/osc.rs: the parser that strips Tabra's sequences from the output of the shell.
-- The base64 decoder is a parameter. A `usize` is a number below 2 ^ 64.
pub mod Steps
pub mod Strip
pub mod Reports
pub mod Pass
use tabra.Prelude.{
  ℕ, zero, suc, ◌+◌, ◌-◌, ◌*◌, ◌^◌, Bool, true, false, ◌&&◌, List, [], ◌∷◌, ◌++◌, Option, none,
  some, Text, codes, ltb, ◌==◌, within, if◌then◌else◌, length, take, get_elem?, eq_text, is_empty,
}
use tabra.Utf8.{from_utf8}

abbrev pub osc_prefix : List ℕ
osc_prefix = 0x1b ∷ b']' ∷ b'6' ∷ b'9' ∷ b'7' ∷ b'3' ∷ b';' ∷ []

abbrev pub osc_terminator : ℕ
osc_terminator = 0x07

pub data OscEvent : Type 0 where
  command_line : Text → ℕ → OscEvent
  prompt_start prompt_end : OscEvent

pub data State : Type 0 where
  normal matching_prefix in_payload : State

pub record OscParser : Type 0 where
  pub state : State
  pub buf : List ℕ
  pub prefix_matched : ℕ

-- `OscParser::new` and `default`.
abbrev pub initial : OscParser
initial = record { state = normal; buf = []; prefix_matched = 0 }

-- The text before the first `;` and, if there is one, the text behind it.
unfoldable pub split_once : Text → Text × Option Text
split_once [] = ([], none)
split_once (c ∷ s) = let (l, r) = split_once s in if c == b';' then ([], some s) else (c ∷ l, r)

unfoldable pub digits_value : ℕ → Text → Option ℕ
digits_value acc [] = some acc
digits_value acc (c ∷ s) =
    let acc' = acc * 10 + (c - b'0') in
    let rest = digits_value acc' s in if within b'0' b'9' c && ltb acc' (2 ^ 64) then rest else none

unfoldable pub nonempty_digits : Text → Option ℕ
unfolding digits_value
nonempty_digits [] = none
nonempty_digits (c ∷ s) = digits_value 0 (c ∷ s)

-- `str::parse::<usize>`: an optional `+`, digits, and no overflow.
unfoldable pub parse_usize : Text → Option ℕ
unfolding nonempty_digits
parse_usize [] = none
parse_usize (c ∷ s) = if c == b'+' then nonempty_digits s else nonempty_digits (c ∷ s)

module _ (decode : Text → Option (List ℕ)) where
  bytes_to_text : Option (List ℕ) → Option Text
  bytes_to_text none = none
  bytes_to_text (some bytes) = from_utf8 (length bytes) bytes

  abbrev event_of : Option Text → Option ℕ → Option OscEvent
  event_of none cursor = none
  event_of (some buffer) none = none
  event_of (some buffer) (some cursor) = some (command_line buffer cursor)

  abbrev command_line_args : Option Text → Option OscEvent
  command_line_args none = none
  command_line_args (some args) =
      let (b64_buffer, cursor_str) = split_once args in
      elim cursor_str [
        | none ↦ none
        | some s ↦ event_of (bytes_to_text (decode b64_buffer)) (parse_usize s)
      ]

  -- `parse_payload` of a payload that is UTF-8; `splitn(3, ';')` is two splits.
  unfoldable pub parse_code : Text → Option OscEvent
  unfolding bytes_to_text
  parse_code s =
      let (code, args) = split_once s in
      if eq_text code (codes "CL")
      then command_line_args args
      else if eq_text code (codes "PS")
      then some prompt_start
      else if eq_text code (codes "PE")
      then some prompt_end
      else none

  unfoldable pub parse_payload : List ℕ → Option OscEvent
  parse_payload payload = elim (from_utf8 (length payload) payload) [
    | none ↦ none
    | some s ↦ parse_code s
  ]

  -- What a byte gives: the parser, the bytes passed through and the events; `none` is a panic.
  abbrev pub Fed : Type 0
  Fed = Option (OscParser × List ℕ × List OscEvent)

  abbrev pub to_events : Option OscEvent → List OscEvent
  to_events none = []
  to_events (some e) = e ∷ []

  unfoldable pub feed_normal : OscParser → ℕ → Fed
  feed_normal p byte =
      if byte == 0x1b
      then some (record { state = matching_prefix; prefix_matched = 1; buf = byte ∷ [] }, [], [])
      else some (p, byte ∷ [], [])

  unfoldable pub matched : OscParser → ℕ → Fed
  matched p byte =
      if p.prefix_matched + 1 == length osc_prefix
      then some
          (record { state = in_payload; prefix_matched = p.prefix_matched + 1; buf = [] }, [], [])
      else some
          (record p { prefix_matched = p.prefix_matched + 1; buf = p.buf ++ byte ∷ [] }, [], [])

  -- The bytes before the mismatched one are `p.buf`, the slice that the source takes.
  unfoldable pub mismatched : OscParser → ℕ → Fed
  mismatched p byte =
      if byte == 0x1b
      then some (record { state = matching_prefix; prefix_matched = 1; buf = byte ∷ [] }, p.buf, [])
      else some (record { state = normal; prefix_matched = 0; buf = [] }, p.buf ++ byte ∷ [], [])

  unfoldable pub feed_prefix : OscParser → ℕ → Fed
  feed_prefix p byte = elim (get_elem? osc_prefix p.prefix_matched) [
    | none ↦ none
    | some c ↦ if byte == c then matched p byte else mismatched p byte
  ]

  unfoldable pub feed_payload : OscParser → ℕ → Fed
  feed_payload p byte =
      if byte == osc_terminator
      then some (record p { state = normal; buf = [] }, [], to_events (parse_payload p.buf))
      else if ltb 65536 (length (p.buf ++ byte ∷ []))
      then some (record p { state = normal; buf = [] }, [], [])
      else some (record p { buf = p.buf ++ byte ∷ [] }, [], [])

  unfoldable pub feed_in : State → OscParser → ℕ → Fed
  feed_in normal p byte = feed_normal p byte
  feed_in matching_prefix p byte = feed_prefix p byte
  feed_in in_payload p byte = feed_payload p byte

  abbrev pub feed_byte : OscParser → ℕ → Fed
  feed_byte p byte = feed_in p.state p byte

  -- The output of one part before that of the next.
  abbrev pub after : List ℕ → List OscEvent → Fed → Fed
  after out es none = none
  after out es (some (p, out', es')) = some (p, out ++ out', es ++ es')

  -- The loop over the bytes of a chunk.
  unfoldable pub feed : OscParser → List ℕ → Fed
  feed p [] = some (p, [], [])
  feed p (b ∷ bs) = elim (feed_byte p b) [
    | none ↦ none
    | some (q, out, es) ↦ after out es (feed q bs)
  ]
