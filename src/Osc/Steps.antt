-- ===== src/Osc/Steps.antt =====
-- The parser's invariant, and that the cut of the output into chunks does not matter.
use tabra.Prelude.{
  ℕ, zero, suc, ◌≡◌, ◌≤◌, ◌<◌, refl, sym, ap, ◌∙◌, List, [], ◌∷◌, ◌++◌, Option, none, some, Text,
  length, take, arith, length-append,
}
use mathlib.Core.List.{append_assoc}
use tabra.Osc.{
  osc_prefix, OscEvent, State, normal, matching_prefix, in_payload, OscParser, initial, feed_normal,
  matched, mismatched, feed_prefix, feed_payload, feed_in, feed_byte, feed, after,
}

-- In the middle of a prefix the buffer is the part of the prefix that has come; a payload is never
-- longer than the limit.
abbrev pub Fits : State → List ℕ → ℕ → Type 0
Fits normal buf k = buf ≡ []
Fits matching_prefix buf k = (1 ≤ k) × (k < 7) × (buf ≡ take k osc_prefix)
Fits in_payload buf k = length buf ≤ 65536

abbrev pub IsValid : OscParser → Type 0
IsValid p = Fits p.state p.buf p.prefix_matched

-- There is a result, and the parser in it is valid.
abbrev pub Returns : Option (OscParser × List ℕ × List OscEvent) → Type 0
Returns none = ⊥
Returns (some (q, out, es)) = IsValid q

IsValid-initial : IsValid initial
IsValid-initial = refl

module _ (decode : Text → Option (List ℕ)) where
  feed_prefix-Returns :
      (k b : ℕ) (buf : List ℕ)
      → Fits matching_prefix buf k
      → Returns
          (feed_prefix decode (record { state = matching_prefix; buf = buf; prefix_matched = k }) b)
  unfolding feed_prefix matched mismatched
  feed_prefix-Returns zero b buf h = absurd (omega arith)
  feed_prefix-Returns (suc zero) b buf h = ground arith
  feed_prefix-Returns (suc (suc zero)) b buf h = ground arith
  feed_prefix-Returns (suc (suc (suc zero))) b buf h = ground arith
  feed_prefix-Returns (suc (suc (suc (suc zero)))) b buf h = ground arith
  feed_prefix-Returns (suc (suc (suc (suc (suc zero))))) b buf h = ground arith
  feed_prefix-Returns (suc (suc (suc (suc (suc (suc zero)))))) b buf h = ground arith
  feed_prefix-Returns (suc (suc (suc (suc (suc (suc (suc k))))))) b buf h = absurd (omega arith)

  feed_in-Returns :
      (s : State) (b k : ℕ) (buf : List ℕ)
      → Fits s buf k
      → Returns (feed_in decode s (record { state = s; buf = buf; prefix_matched = k }) b)
  unfolding feed_in feed_normal feed_payload
  feed_in-Returns normal b k buf h = ground arith
  feed_in-Returns matching_prefix b k buf h = feed_prefix-Returns k b buf h
  feed_in-Returns in_payload b k buf h = ground (arith, length-append buf (b ∷ []))

  feed_byte-Returns : (p : OscParser) (b : ℕ) → IsValid p → Returns (feed_byte decode p b)
  feed_byte-Returns p b h = feed_in-Returns p.state b p.prefix_matched p.buf h

  Returns-after :
      (out : List ℕ) (es : List OscEvent) (r : Option (OscParser × List ℕ × List OscEvent))
      → Returns r
      → Returns (after decode out es r)
  Returns-after out es none h = h
  Returns-after out es (some (q, out', es')) h = h

  pub feed-Returns : (p : OscParser) (bs : List ℕ) → IsValid p → Returns (feed decode p bs)
  unfolding feed
  feed-Returns p [] h = h
  feed-Returns p (b ∷ bs) h =
      go (feed_byte decode p b) (feed_byte-Returns p b h) (λ q. feed-Returns q bs)
    where
      go :
          (r : Option (OscParser × List ℕ × List OscEvent))
          → Returns r
          → ((q : OscParser) → IsValid q → Returns (feed decode q bs))
          → Returns
              (elim r [ none ↦ none | some (q, out, es) ↦ after decode out es (feed decode q bs) ])
      go none h ih = h
      go (some (q, out, es)) h ih = Returns-after out es (feed decode q bs) (ih q h)

  -- Feeding the rest of the output to the parser that a first part has left.
  abbrev pub feed_rest :
      Option (OscParser × List ℕ × List OscEvent)
      → List ℕ
      → Option (OscParser × List ℕ × List OscEvent)
  feed_rest none bs = none
  feed_rest (some (q, out, es)) bs = after decode out es (feed decode q bs)

  after-after :
      (o o' : List ℕ) (e e' : List OscEvent) (r : Option (OscParser × List ℕ × List OscEvent))
      → after decode o e (after decode o' e' r) ≡ after decode (o ++ o') (e ++ e') r
  after-after o o' e e' none = refl
  after-after o o' e e' (some (q, out, es)) = rw (append_assoc o o' out, append_assoc e e' es)

  -- A byte and what it leaves.
  pub feed-cons :
      (p q : OscParser) (b : ℕ) (bs out : List ℕ) (es : List OscEvent)
      → feed_byte decode p b ≡ some (q, out, es)
      → feed decode p (b ∷ bs) ≡ after decode out es (feed decode q bs)
  unfolding feed
  feed-cons p q b bs out es h = rw (h, feed)

  pub after-nil : (r : Option (OscParser × List ℕ × List OscEvent)) → after decode [] [] r ≡ r
  after-nil none = refl
  after-nil (some (q, out, es)) = refl

  after-rest :
      (o : List ℕ) (e : List OscEvent) (r : Option (OscParser × List ℕ × List OscEvent))
      (bs : List ℕ)
      → after decode o e (feed_rest r bs) ≡ feed_rest (after decode o e r) bs
  after-rest o e none bs = refl
  after-rest o e (some (q, out, es)) bs = after-after o out e es (feed decode q bs)

  -- The output of two chunks is that of their concatenation, wherever the cut is: the bytes passed
  -- through, the events and the parser's state.
  pub feed-append :
      (p : OscParser) (a b : List ℕ) → feed decode p (a ++ b) ≡ feed_rest (feed decode p a) b
  unfolding feed
  feed-append p [] b = sym (after-nil (feed decode p b))
  feed-append p (x ∷ a) b = go (feed_byte decode p x) (λ q. feed-append q a b)
    where
      go :
          (r : Option (OscParser × List ℕ × List OscEvent))
          → ((q : OscParser) → feed decode q (a ++ b) ≡ feed_rest (feed decode q a) b)
          → elim r [
            | none ↦ none
            | some (q, out, es) ↦ after decode out es (feed decode q (a ++ b))
          ]
            ≡ feed_rest
                (elim r [ none ↦ none | some (q, out, es) ↦ after decode out es (feed decode q a) ])
                b
      go none ih = refl
      go (some (q, out, es)) ih =
          ap (after decode out es) (ih q) ∙ after-rest out es (feed decode q a) b
