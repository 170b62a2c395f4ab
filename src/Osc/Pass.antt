-- ===== src/Osc/Pass.antt =====
-- Output in which the prefix does not occur passes through unchanged.
use tabra.Prelude.{
  ℕ, zero, suc, ◌≡◌, ◌≢◌, ◌≤◌, ◌<◌, refl, sym, ap, subst, ◌∙◌, List, [], ◌∷◌, ◌++◌, Option, none,
  some, Text, take, arith,
}
use mathlib.Core.List.{append_assoc, append-nil}
use tabra.Osc.{
  osc_prefix, OscEvent, State, normal, matching_prefix, in_payload, OscParser, initial, feed_normal,
  matched, mismatched, feed_prefix, feed_in, feed_byte, feed, after,
}
use tabra.Osc.Steps.{Fits, IsValid}

-- The prefix does not occur in the bytes.
abbrev pub NoPrefix : List ℕ → Type 0
NoPrefix s = (l r : List ℕ) → s ≢ l ++ (osc_prefix ++ r)

-- A byte moves to the output or to the held bytes, and no payload is begun.
abbrev Moves : List ℕ → ℕ → Option (OscParser × List ℕ × List OscEvent) → Type 0
Moves held b none = ⊥
Moves held b (some (q, out, es)) =
    (q.state ≢ in_payload) × IsValid q × (out ++ q.buf ≡ held ++ b ∷ []) × (es ≡ [])

module _ (decode : Text → Option (List ℕ)) where
  feed_prefix-Moves :
      (k b : ℕ) (rest : List ℕ)
      → 1 ≤ k
      → k < 7
      → NoPrefix (take k osc_prefix ++ b ∷ rest)
      → Moves (take k osc_prefix) b (
          feed_prefix decode
            (record { state = matching_prefix; buf = take k osc_prefix; prefix_matched = k })
            b)
  unfolding feed_prefix matched mismatched
  feed_prefix-Moves zero b rest l u h = absurd (omega arith)
  feed_prefix-Moves (suc zero) b rest l u h = ground arith
  feed_prefix-Moves (suc (suc zero)) b rest l u h = ground arith
  feed_prefix-Moves (suc (suc (suc zero))) b rest l u h = ground arith
  feed_prefix-Moves (suc (suc (suc (suc zero)))) b rest l u h = ground arith
  feed_prefix-Moves (suc (suc (suc (suc (suc zero))))) b rest l u h = ground arith
  feed_prefix-Moves (suc (suc (suc (suc (suc (suc zero)))))) b rest l u h =
      ground (arith, h [] rest)
  feed_prefix-Moves (suc (suc (suc (suc (suc (suc (suc k))))))) b rest l u h = absurd (omega arith)

  feed_in-Moves :
      (s : State) (k b : ℕ) (buf rest : List ℕ)
      → s ≢ in_payload
      → Fits s buf k
      → NoPrefix (buf ++ b ∷ rest)
      → Moves buf b (feed_in decode s (record { state = s; buf = buf; prefix_matched = k }) b)
  unfolding feed_in feed_normal
  feed_in-Moves normal k b buf rest n h f = ground arith
  feed_in-Moves in_payload k b buf rest n h f = absurd (n refl)
  feed_in-Moves matching_prefix k b buf rest n h f =
      let g : NoPrefix (take k osc_prefix ++ b ∷ rest) =
        subst (λ t. NoPrefix (t ++ b ∷ rest)) h.2 f in
      rw (h.2) (feed_prefix-Moves k b rest h.0 h.1 g)

  -- What the bytes that were not recognised have become: output, then the held bytes.
  pub record Passed (held bs : List ℕ) (r : Option (OscParser × List ℕ × List OscEvent))
      : Type 0 where
    pub parser : OscParser
    pub output : List ℕ
    pub result : r ≡ some (parser, output, [])
    pub kept : output ++ parser.buf ≡ held ++ bs
    pub valid : IsValid parser
    pub outside : parser.state ≢ in_payload

  Passed-after :
      (held : List ℕ) (b : ℕ) (bs out : List ℕ) (q : OscParser)
      (r : Option (OscParser × List ℕ × List OscEvent))
      → out ++ q.buf ≡ held ++ b ∷ []
      → Passed q.buf bs r
      → Passed held (b ∷ bs) (after decode out [] r)
  Passed-after held b bs out q r e c = record {
    parser = c.parser;
    output = out ++ c.output;
    result = rw (c.result);
    kept =
        append_assoc out c.output c.parser.buf
        ∙ ap (λ t. out ++ t) c.kept
        ∙ sym (append_assoc out q.buf bs)
        ∙ ap (λ t. t ++ bs) e
        ∙ append_assoc held (b ∷ []) bs;
    valid = c.valid;
    outside = c.outside;
  }

  NoPrefix-drop : (out s : List ℕ) → NoPrefix (out ++ s) → NoPrefix s
  NoPrefix-drop out s f l r e =
      f (out ++ l) r (ap (λ t. out ++ t) e ∙ sym (append_assoc out l (osc_prefix ++ r)))

  feed-Passed :
      (p : OscParser) (bs : List ℕ)
      → p.state ≢ in_payload
      → IsValid p
      → NoPrefix (p.buf ++ bs)
      → Passed p.buf bs (feed decode p bs)
  unfolding feed
  feed-Passed p [] n v f = record {
    parser = p;
    output = [];
    result = refl;
    kept = sym (append-nil p.buf);
    valid = v;
    outside = n;
  }
  feed-Passed p (b ∷ bs) n v f =
      go (feed_byte decode p b) (feed_in-Moves p.state p.prefix_matched b p.buf bs n v f)
        (λ q. feed-Passed q bs)
    where
      go :
          (r : Option (OscParser × List ℕ × List OscEvent))
          → Moves p.buf b r
          → ((q : OscParser)
              → q.state ≢ in_payload
              → IsValid q
              → NoPrefix (q.buf ++ bs)
              → Passed q.buf bs (feed decode q bs))
          → Passed p.buf
              (b ∷ bs)
              (elim r [ none ↦ none | some (q, out, es) ↦ after decode out es (feed decode q bs) ])
      go none m ih = absurd m
      go (some (q, out, es)) m ih =
          let e : p.buf ++ b ∷ bs ≡ out ++ (q.buf ++ bs) =
            sym (append_assoc p.buf (b ∷ []) bs)
            ∙ ap (λ t. t ++ bs) (sym m.2)
            ∙ append_assoc out q.buf bs in
          rw (m.3) (
            Passed-after p.buf b bs out q (feed decode q bs) m.2
              (ih q m.0 m.1 (NoPrefix-drop out (q.buf ++ bs) (subst NoPrefix e f))))

  -- Output of the shell in which Tabra's prefix does not occur passes through byte for byte and
  -- gives no event; at the end a proper part of the prefix may be held back.
  pub feed-initial-Passed : (bs : List ℕ) → NoPrefix bs → Passed [] bs (feed decode initial bs)
  feed-initial-Passed bs f = feed-Passed initial bs (λ e. cc) refl f
