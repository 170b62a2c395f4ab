-- ===== src/Osc/Strip.antt =====
-- A whole sequence of Tabra's is stripped and reported; one that is too long is dropped.
use tabra.Prelude.{
  ℕ, ◌+◌, ◌≡◌, ◌≤◌, ◌<◌, refl, ap, ◌∙◌, false, List, [], ◌∷◌, ◌++◌, Option, some, Text, ◌==◌,
  length, arith, length-append, All,
}
use mathlib.Core.List.{append_assoc, append-nil}
use tabra.Osc.{
  osc_prefix, osc_terminator, normal, in_payload, OscParser, feed_normal, matched, feed_prefix,
  feed_payload, feed_in, feed, to_events, parse_payload,
}
use tabra.Osc.Steps.{feed-append, feed_rest, feed-cons, after-nil}

abbrev pub NotTerminator : ℕ → Type 0
NotTerminator b = (b == osc_terminator) ≡ false

abbrev pub collecting : List ℕ → OscParser
collecting buf = record { state = in_payload; buf = buf; prefix_matched = 7 }

abbrev pub finished : OscParser
finished = record { state = normal; buf = []; prefix_matched = 7 }

-- In normal state with an empty buffer, as every valid parser in normal state is.
abbrev pub resting : ℕ → OscParser
resting k = record { state = normal; buf = []; prefix_matched = k }

module _ (decode : Text → Option (List ℕ)) where
  feed-osc_prefix : (k : ℕ) → feed decode (resting k) osc_prefix ≡ some (collecting [], [], [])
  unfolding feed feed_in feed_normal feed_prefix matched
  feed-osc_prefix k = refl

  collect_byte :
      (b : ℕ) (buf : List ℕ)
      → NotTerminator b
      → length buf < 65536
      → feed_payload decode (collecting buf) b ≡ some (collecting (buf ++ b ∷ []), [], [])
  unfolding feed_payload
  collect_byte b buf h l = ground (arith, length-append buf (b ∷ []))

  collect :
      (buf payload : List ℕ)
      → All NotTerminator payload
      → length buf + length payload ≤ 65536
      → feed decode (collecting buf) payload ≡ some (collecting (buf ++ payload), [], [])
  collect buf [] h l = unfold feed in rw append-nil
  collect buf (b ∷ bs) h l =
      feed-cons decode (collecting buf) (collecting (buf ++ b ∷ [])) b bs [] []
        (unfold feed_in in collect_byte b buf h.0 (omega arith))
      ∙ after-nil decode (feed decode (collecting (buf ++ b ∷ [])) bs)
      ∙ collect (buf ++ b ∷ []) bs h.1 (omega (arith, length-append buf (b ∷ []), l))
      ∙ ap (λ t. some (collecting t, [], [])) (append_assoc buf (b ∷ []) bs)

  terminate :
      (buf : List ℕ)
      → feed decode (collecting buf) (osc_terminator ∷ [])
        ≡ some (finished, [], to_events decode (parse_payload decode buf))
  unfolding feed feed_in feed_payload
  terminate buf = ground (arith, append-nil (to_events decode (parse_payload decode buf)))

  -- A sequence of Tabra's, prefix, payload and BEL, passes no byte to the terminal and reports the
  -- event of its payload, and the parser rests behind it; the payload holds no BEL and is not
  -- longer than the limit.
  pub feed_sequence :
      (k : ℕ) (payload : List ℕ)
      → All NotTerminator payload
      → length payload ≤ 65536
      → feed decode (resting k) (osc_prefix ++ (payload ++ osc_terminator ∷ []))
        ≡ some (finished, [], to_events decode (parse_payload decode payload))
  feed_sequence k payload h l =
      feed-append decode (resting k) osc_prefix (payload ++ osc_terminator ∷ [])
      ∙ ap (λ r. feed_rest decode r (payload ++ osc_terminator ∷ [])) (feed-osc_prefix k)
      ∙ after-nil decode (feed decode (collecting []) (payload ++ osc_terminator ∷ []))
      ∙ feed-append decode (collecting []) payload (osc_terminator ∷ [])
      ∙ ap (λ r. feed_rest decode r (osc_terminator ∷ [])) (collect [] payload h (omega arith))
      ∙ after-nil decode (feed decode (collecting payload) (osc_terminator ∷ []))
      ∙ terminate payload

  overflow_byte :
      (b : ℕ) (buf : List ℕ)
      → NotTerminator b
      → length buf ≡ 65536
      → feed_payload decode (collecting buf) b ≡ some (finished, [], [])
  unfolding feed_payload
  overflow_byte b buf h l = ground (arith, length-append buf (b ∷ []))

  overflow :
      (b : ℕ) (buf rest : List ℕ)
      → NotTerminator b
      → length buf ≡ 65536
      → feed decode (collecting buf) (b ∷ rest) ≡ feed decode finished rest
  overflow b buf rest h l =
      feed-cons decode (collecting buf) finished b rest [] []
        (unfold feed_in in overflow_byte b buf h l)
      ∙ after-nil decode (feed decode finished rest)

  -- A payload that passes the limit is lost: neither its bytes nor the prefix reach the terminal,
  -- no event is reported, and the bytes behind the limit are read as output of the shell.
  pub feed_overflow :
      (k b : ℕ) (payload rest : List ℕ)
      → All NotTerminator payload
      → NotTerminator b
      → length payload ≡ 65536
      → feed decode (resting k) (osc_prefix ++ (payload ++ b ∷ rest)) ≡ feed decode finished rest
  feed_overflow k b payload rest h n l =
      feed-append decode (resting k) osc_prefix (payload ++ b ∷ rest)
      ∙ ap (λ r. feed_rest decode r (payload ++ b ∷ rest)) (feed-osc_prefix k)
      ∙ after-nil decode (feed decode (collecting []) (payload ++ b ∷ rest))
      ∙ feed-append decode (collecting []) payload (b ∷ rest)
      ∙ ap (λ r. feed_rest decode r (b ∷ rest)) (collect [] payload h (omega arith))
      ∙ after-nil decode (feed decode (collecting payload) (b ∷ rest))
      ∙ overflow b payload rest n l
