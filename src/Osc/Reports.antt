-- ===== src/Osc/Reports.antt =====
-- The sequences that the scripts of src/session/integration.rs print, read by the parser. The
-- base64 command is a parameter.
use tabra.Prelude.{
  ℕ, zero, suc, ◌+◌, ◌-◌, ◌*◌, ◌/◌, ◌%◌, ◌^◌, ◌≡◌, ◌≤◌, ◌<◌, refl, ap, ◌∙◌, true, false, List, [],
  ◌∷◌, ◌++◌, Option, none, some, Text, codes, ◌==◌, ltb, length, arith, All, All-append, inl, inr,
  Bool-cases, decimal, digits_onto, decimal-IsDigit, IsDigit, eq_text,
}
use tabra.Client.Reading.{Without}
use tabra.Hooks.Texts.{is_set-decimal}
use tabra.Hooks.{is_set}
use tabra.Utf8.{from_utf8, decode_first, cons?}
use tabra.Osc.{
  osc_prefix, osc_terminator, OscEvent, command_line, prompt_start, prompt_end, split_once,
  digits_value, nonempty_digits, command_line_args, bytes_to_text, event_of, parse_usize,
  parse_code, parse_payload, feed, to_events,
}
use tabra.Osc.Strip.{NotTerminator, resting, finished, feed_sequence}

-- `__tabra_report`: the payload for the bytes of the line, and the sequence.
abbrev pub report_payload : (List ℕ → Text) → List ℕ → ℕ → Text
report_payload base64 buffer cursor = codes "CL;" ++ (base64 buffer ++ b';' ∷ decimal cursor)

unfoldable pub report : (List ℕ → Text) → List ℕ → ℕ → List ℕ
report base64 buffer cursor =
    osc_prefix ++ (report_payload base64 buffer cursor ++ osc_terminator ∷ [])

-- The prompt's markers.
unfoldable pub prompt_start_marker : List ℕ
prompt_start_marker = osc_prefix ++ (codes "PS" ++ osc_terminator ∷ [])

unfoldable pub prompt_end_marker : List ℕ
prompt_end_marker = osc_prefix ++ (codes "PE" ++ osc_terminator ∷ [])

-- A character of base64, or a line feed.
abbrev pub IsPrintable : ℕ → Type 0
IsPrintable c = (c < 0x80) × ((c == b';') ≡ false) × ((c == osc_terminator) ≡ false)

decode_first-ascii : (c : ℕ) (s : Text) → c < 0x80 → decode_first (c ∷ s) ≡ some (c, s)
unfolding decode_first
decode_first-ascii c s h = ground arith

from_utf8-ascii : (f : ℕ) (s : Text) → length s ≤ f → All (λ c. c < 0x80) s → from_utf8 f s ≡ some s
unfolding from_utf8
from_utf8-ascii f [] h a = refl
from_utf8-ascii zero (c ∷ s) h a = absurd (omega arith)
from_utf8-ascii (suc f) (c ∷ s) h a =
    rw (decode_first-ascii c s a.0, from_utf8)
      (ap (cons? c) (from_utf8-ascii f s (omega arith) a.1))

split_once-append : (s t : Text) → Without b';' s → split_once (s ++ b';' ∷ t) ≡ (s, some t)
unfolding split_once
split_once-append [] t w = ground arith
split_once-append (c ∷ s) t w = rw (split_once-append s t w.1, w.0) refl

value_step :
    (d n m : ℕ) (s : Text)
    → d < 10
    → n * 10 + d ≡ m
    → m < 2 ^ 64
    → digits_value n ((d + 48) ∷ s) ≡ digits_value m s
unfolding digits_value
value_step d n m s h e b =
    let q : n * 10 + (d + 48 - 48) ≡ m = omega (arith, e) in rw q (ground (arith, h, b))

value-digits_onto :
    (f n : ℕ) (s : Text)
    → n ≤ f
    → n < 2 ^ 64
    → digits_value 0 (digits_onto f n s) ≡ digits_value n s
unfolding digits_onto
value-digits_onto zero n s h b = value_step (n % 10) 0 n s (omega arith) (omega arith) b
value-digits_onto (suc f) n s h b = elim (Bool-cases (ltb n 10)) [
  | inl e ↦ rw e (value_step n 0 n s (ground arith) (omega arith) b)
  | inr e ↦ rw e (
      value-digits_onto f (n / 10) ((n % 10 + 48) ∷ s) (ground arith) (omega arith)
      ∙ value_step (n % 10) (n / 10) n s (omega arith) (omega arith) b)
]

usize_digits : (s : Text) → is_set s ≡ true → All IsDigit s → parse_usize s ≡ digits_value 0 s
unfolding parse_usize nonempty_digits
usize_digits [] i a = cc
usize_digits (c ∷ s) i a = ground (arith, a.0)

parse_usize-decimal : (n : ℕ) → n < 2 ^ 64 → parse_usize (decimal n) ≡ some n
unfolding decimal digits_value
parse_usize-decimal n b =
    usize_digits (decimal n) (is_set-decimal n) (decimal-IsDigit n)
    ∙ value-digits_onto n n [] (omega arith) b

digit-IsPrintable : (d : ℕ) → d < 10 → IsPrintable (d + 48)
digit-IsPrintable d h = ground arith

digits_onto-IsPrintable :
    (f n : ℕ) (s : Text) → All IsPrintable s → All IsPrintable (digits_onto f n s)
unfolding digits_onto
digits_onto-IsPrintable zero n s a = (digit-IsPrintable (n % 10) (omega arith), a)
digits_onto-IsPrintable (suc f) n s a = elim (Bool-cases (ltb n 10)) [
  | inl e ↦ rw e (digit-IsPrintable n (ground arith), a)
  | inr e ↦ rw e (
      digits_onto-IsPrintable f (n / 10) ((n % 10 + 48) ∷ s)
        (digit-IsPrintable (n % 10) (omega arith), a))
]

decimal-IsPrintable : (n : ℕ) → All IsPrintable (decimal n)
unfolding decimal
decimal-IsPrintable n = digits_onto-IsPrintable n n [] tt

-- A byte of a payload that is read as text.
abbrev IsAscii : ℕ → Type 0
IsAscii c = (c < 0x80) × ((c == osc_terminator) ≡ false)

printable-IsAscii : (s : Text) → All IsPrintable s → All IsAscii s
printable-IsAscii [] a = tt
printable-IsAscii (c ∷ s) a = ((a.0.0, a.0.2), printable-IsAscii s a.1)

printable-Without : (s : Text) → All IsPrintable s → Without b';' s
printable-Without [] a = tt
printable-Without (c ∷ s) a = (a.0.1, printable-Without s a.1)

ascii_small : (s : Text) → All IsAscii s → All (λ c. c < 0x80) s
ascii_small [] a = tt
ascii_small (c ∷ s) a = (a.0.0, ascii_small s a.1)

ascii_open : (s : Text) → All IsAscii s → All NotTerminator s
ascii_open [] a = tt
ascii_open (c ∷ s) a = (a.0.1, ascii_open s a.1)

module _ (base64 : List ℕ → Text) (decode : Text → Option (List ℕ)) where
  payload-IsAscii :
      (buffer : List ℕ) (cursor : ℕ)
      → All IsPrintable (base64 buffer)
      → All IsAscii (report_payload base64 buffer cursor)
  payload-IsAscii buffer cursor p =
      All-append IsAscii (codes "CL;") (base64 buffer ++ b';' ∷ decimal cursor) (ground arith) (
        All-append IsAscii (base64 buffer) (b';' ∷ decimal cursor)
          (printable-IsAscii (base64 buffer) p)
          (ground arith, printable-IsAscii (decimal cursor) (decimal-IsPrintable cursor)))

  payload_text :
      (s : Text) → from_utf8 (length s) s ≡ some s → parse_payload decode s ≡ parse_code decode s
  unfolding parse_payload
  payload_text s e =
      ap (λ (o : Option Text). elim o [ none ↦ none | some t ↦ parse_code decode t ]) e

  code_parsed :
      (rest : Text) → parse_code decode (codes "CL;" ++ rest) ≡ command_line_args decode (some rest)
  unfolding parse_code eq_text
  code_parsed rest = rw (split_once-append (codes "CL") rest (refl, (refl, tt))) refl

  -- What `command_line_args` makes of the two parts.
  abbrev args_with : Text × Option Text → Option OscEvent
  args_with p = elim p.1 [
    | none ↦ none
    | some s ↦ event_of decode (bytes_to_text decode (decode p.0)) (parse_usize s)
  ]

  args_parsed :
      (buffer : List ℕ) (text : Text) (cursor : ℕ)
      → Without b';' (base64 buffer)
      → decode (base64 buffer) ≡ some buffer
      → from_utf8 (length buffer) buffer ≡ some text
      → cursor < 2 ^ 64
      → command_line_args decode (some (base64 buffer ++ b';' ∷ decimal cursor))
        ≡ some (command_line text cursor)
  unfolding bytes_to_text
  args_parsed buffer text cursor w d u b =
      ap args_with (split_once-append (base64 buffer) (decimal cursor) w)
      ∙ ap (λ o. event_of decode (bytes_to_text decode o) (parse_usize (decimal cursor))) d
      ∙ ap (λ o. event_of decode o (parse_usize (decimal cursor))) u
      ∙ ap (event_of decode (some text)) (parse_usize-decimal cursor b)

  payload_parsed :
      (buffer : List ℕ) (text : Text) (cursor : ℕ)
      → All IsPrintable (base64 buffer)
      → decode (base64 buffer) ≡ some buffer
      → from_utf8 (length buffer) buffer ≡ some text
      → cursor < 2 ^ 64
      → parse_payload decode (report_payload base64 buffer cursor) ≡ some (command_line text cursor)
  payload_parsed buffer text cursor p d u b =
      let s = report_payload base64 buffer cursor in
      payload_text s (
        from_utf8-ascii (length s) s (omega arith)
          (ascii_small s (payload-IsAscii buffer cursor p)))
      ∙ code_parsed (base64 buffer ++ b';' ∷ decimal cursor)
      ∙ args_parsed buffer text cursor (printable-Without (base64 buffer) p) d u b

  -- What the shell reports of its line, the session hears: from a resting parser the sequence
  -- passes no byte to the terminal and gives one event, with the line and the cursor, where base64
  -- gives printable characters but no semicolon, its decoder gives the bytes back, the bytes are
  -- UTF-8, and the payload is not longer than the limit.
  pub feed-report :
      (k : ℕ) (buffer : List ℕ) (text : Text) (cursor : ℕ)
      → All IsPrintable (base64 buffer)
      → decode (base64 buffer) ≡ some buffer
      → from_utf8 (length buffer) buffer ≡ some text
      → cursor < 2 ^ 64
      → length (report_payload base64 buffer cursor) ≤ 65536
      → feed decode (resting k) (report base64 buffer cursor)
        ≡ some (finished, [], command_line text cursor ∷ [])
  unfolding report
  feed-report k buffer text cursor p d u b l =
      let s = report_payload base64 buffer cursor in
      feed_sequence decode k s (ascii_open s (payload-IsAscii buffer cursor p)) l
      ∙ ap (λ o. some (finished, [], to_events decode o))
          (payload_parsed buffer text cursor p d u b)

  feed-prompt_start_marker :
      (k : ℕ) → feed decode (resting k) prompt_start_marker ≡ some (finished, [], prompt_start ∷ [])
  unfolding prompt_start_marker parse_payload parse_code from_utf8 decode_first split_once eq_text
  feed-prompt_start_marker k = feed_sequence decode k (codes "PS") (refl, (refl, tt)) (omega arith)

  feed-prompt_end_marker :
      (k : ℕ) → feed decode (resting k) prompt_end_marker ≡ some (finished, [], prompt_end ∷ [])
  unfolding prompt_end_marker parse_payload parse_code from_utf8 decode_first split_once eq_text
  feed-prompt_end_marker k = feed_sequence decode k (codes "PE") (refl, (refl, tt)) (omega arith)
