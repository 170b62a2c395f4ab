-- ===== src/Keys.antt =====
-- src/session/keys.rs: raw terminal bytes to key events and back. A byte is a number below 256.
pub mod Bytes
pub mod Decoding
pub mod Rounds
pub mod Passthrough
pub mod Chunks
use tabra.Prelude.{
  ℕ, zero, suc, ◌+◌, Bool, true, false, ◌&&◌, ◌||◌, List, [], ◌∷◌, ◌++◌, Option, none, some, Text,
  ltb, leb, within, ◌==◌, if◌then◌else◌, length, take, drop, len_utf8, min,
}
use tabra.Utf8.{encode_utf8, from_utf8}

pub data KeyEvent : Type 0 where
  char : ℕ → KeyEvent
  tab escape enter backspace : KeyEvent
  arrow_up arrow_down arrow_left arrow_right : KeyEvent
  ctrl_c ctrl_d ctrl_l : KeyEvent
  raw : List ℕ → KeyEvent

unfoldable pub raw_bytes : KeyEvent → List ℕ
raw_bytes (char c) = encode_utf8 c
raw_bytes tab = 0x09 ∷ []
raw_bytes escape = 0x1b ∷ []
raw_bytes enter = 0x0d ∷ []
raw_bytes backspace = 0x7f ∷ []
raw_bytes arrow_up = 0x1b ∷ b'[' ∷ b'A' ∷ []
raw_bytes arrow_down = 0x1b ∷ b'[' ∷ b'B' ∷ []
raw_bytes arrow_left = 0x1b ∷ b'[' ∷ b'D' ∷ []
raw_bytes arrow_right = 0x1b ∷ b'[' ∷ b'C' ∷ []
raw_bytes ctrl_c = 0x03 ∷ []
raw_bytes ctrl_d = 0x04 ∷ []
raw_bytes ctrl_l = 0x0c ∷ []
raw_bytes (raw bytes) = bytes

-- `decode_utf8_char` at one length: the slice is valid, and its first character takes all of it.
unfoldable pub try_len : List ℕ → ℕ → Option (ℕ × ℕ)
try_len bytes len = elim (from_utf8 len (take len bytes)) [
  | none ↦ none
  | some [] ↦ none
  | some (c ∷ cs) ↦ if len_utf8 c == len then some (c, len) else none
]

abbrev pub or_else : Option (ℕ × ℕ) → Option (ℕ × ℕ) → Option (ℕ × ℕ)
or_else (some a) b = some a
or_else none b = b

-- The lengths from `n` down to 1.
unfoldable pub try_lengths : List ℕ → ℕ → Option (ℕ × ℕ)
try_lengths bytes zero = none
try_lengths bytes (suc n) = or_else (try_len bytes (suc n)) (try_lengths bytes n)

unfoldable pub decode_utf8_char : List ℕ → Option (ℕ × ℕ)
unfolding try_lengths try_len
decode_utf8_char bytes = try_lengths bytes (min 4 (length bytes))

-- The bytes of a sequence up to its final byte, and the bytes behind it.
unfoldable pub csi_bytes : List ℕ → List ℕ × List ℕ
csi_bytes [] = ([], [])
csi_bytes (b ∷ bs) =
    let (l, r) = csi_bytes bs in if within 0x40 0x7e b then (b ∷ [], bs) else (b ∷ l, r)

abbrev pub unknown_csi : List ℕ → KeyEvent × List ℕ
unknown_csi bs = let (l, r) = csi_bytes bs in (raw (0x1b ∷ b'[' ∷ l), r)

-- What follows ESC and `[`.
unfoldable pub csi : List ℕ → KeyEvent × List ℕ
csi [] = (raw (0x1b ∷ b'[' ∷ []), [])
csi (b ∷ bs) =
    if b == b'A'
    then (arrow_up, bs)
    else if b == b'B'
    then (arrow_down, bs)
    else if b == b'C'
    then (arrow_right, bs)
    else if b == b'D'
    then (arrow_left, bs)
    else unknown_csi (b ∷ bs)

-- What follows ESC; `none` is a lone ESC at the end of the chunk.
unfoldable pub after_escape : List ℕ → Option (KeyEvent × List ℕ)
after_escape [] = none
after_escape (x ∷ xs) = some (if x == b'[' then csi xs else (raw (0x1b ∷ x ∷ []), xs))

abbrev pub wide_char : ℕ → List ℕ → Option (ℕ × ℕ) → KeyEvent × List ℕ
wide_char b bs none = (raw (b ∷ []), bs)
wide_char b bs (some (ch, len)) = (char ch, drop len (b ∷ bs))

-- One round of the loop on the bytes `b ∷ bs`: its event and the bytes left.
unfoldable pub take_one : ℕ → List ℕ → Option (KeyEvent × List ℕ)
take_one b bs =
    if b == 0x1b
    then after_escape bs
    else some (
        if b == 0x03
        then (ctrl_c, bs)
        else if b == 0x04
        then (ctrl_d, bs)
        else if b == 0x09
        then (tab, bs)
        else if b == 0x0c
        then (ctrl_l, bs)
        else if b == 0x0d
        then (enter, bs)
        else if b == 0x7f
        then (backspace, bs)
        else if b == 0x08
        then (backspace, bs)
        else if within 0x20 0x7e b
        then (char b, bs)
        else if leb 0x80 b
        then wide_char b bs (decode_utf8_char (b ∷ bs))
        else (raw (b ∷ []), bs))

abbrev pub add_event : KeyEvent → List KeyEvent × Bool → List KeyEvent × Bool
add_event e (es, pending) = (e ∷ es, pending)

-- The loop. A round takes a byte at least, so the number of bytes is enough fuel.
unfoldable pub parse_loop : ℕ → List ℕ → List KeyEvent × Bool
parse_loop f [] = ([], false)
parse_loop zero (b ∷ bs) = ([], false)
parse_loop (suc f) (b ∷ bs) = elim (take_one b bs) [
  | none ↦ ([], true)
  | some (e, rest) ↦ add_event e (parse_loop f rest)
]

abbrev pub resume : KeyEvent × List ℕ → List KeyEvent × Bool
resume (e, rest) = add_event e (parse_loop (length rest) rest)

-- The first byte of a chunk that follows a pending ESC.
unfoldable pub after_pending : List ℕ → List KeyEvent × Bool
after_pending [] = (escape ∷ [], false)
after_pending (b ∷ bs) =
    if b == b'[' then resume (csi bs) else add_event escape (parse_loop (length (b ∷ bs)) (b ∷ bs))

unfoldable pub parse_bytes : List ℕ → Bool → List KeyEvent × Bool
parse_bytes buf escape_pending =
    if escape_pending then after_pending buf else parse_loop (length buf) buf
