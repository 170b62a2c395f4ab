-- ===== src/Tests/Bytes.antt =====
-- Keys, the typed line and the output of the shell on concrete bytes.
use tabra.Prelude.{
  ℕ, zero, suc, ◌≡◌, refl, true, List, [], ◌∷◌, Option, none, some, Text, codes, arith, replicate,
  All,
}
use tabra.Keys.{char, parse_bytes}
use tabra.Keys.Bytes.{SameBytes}
use tabra.Keys.Passthrough.{written, parse_bytes-SameBytes}
use tabra.Tracker.{BufferTracker, on_key}
use tabra.Tracker.Edit.{changes}
use tabra.Tracker.Zipper.{act, shown, zipper_of, on_key-zipper_of}
use tabra.Osc.{initial, feed}
use tabra.Osc.Strip.{NotTerminator}
use tabra.Osc.Pass.{NoPrefix, Passed, feed-initial-Passed}

parse_bytes-SameBytes_example :
    SameBytes
      (0x1b ∷ b'[' ∷ b'A' ∷ 0x08 ∷ b'q' ∷ [])
      (written (parse_bytes (b'[' ∷ b'A' ∷ 0x08 ∷ b'q' ∷ []) true))
parse_bytes-SameBytes_example = parse_bytes-SameBytes (b'[' ∷ b'A' ∷ 0x08 ∷ b'q' ∷ []) true

abbrev typed_line : BufferTracker
typed_line = record { buffer = codes "gt"; cursor = 1; active = true }

on_key-zipper_of_example :
    on_key typed_line (char b'i')
    ≡ some (shown (act (zipper_of typed_line) (char b'i')) true, changes typed_line (char b'i'))
on_key-zipper_of_example = on_key-zipper_of typed_line (char b'i') (omega arith)

-- A decoder that refuses every text.
abbrev no_decoder : Text → Option (List ℕ)
no_decoder s = none

All-replicate : (n : ℕ) → All NotTerminator (replicate n b'a')
All-replicate zero = tt
All-replicate (suc n) = (refl, All-replicate n)

no_prefix : NoPrefix (b'l' ∷ b's' ∷ [])
no_prefix [] r e = cc
no_prefix (c ∷ []) r e = cc
no_prefix (c ∷ d ∷ []) r e = cc
no_prefix (c ∷ d ∷ f ∷ l) r e = cc

feed-initial-Passed_example :
    Passed no_decoder [] (b'l' ∷ b's' ∷ []) (feed no_decoder initial (b'l' ∷ b's' ∷ []))
feed-initial-Passed_example = feed-initial-Passed no_decoder (b'l' ∷ b's' ∷ []) no_prefix
