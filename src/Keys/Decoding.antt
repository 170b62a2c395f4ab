-- ===== src/Keys/Decoding.antt =====
-- A character that is decoded is encoded by the bytes that it was read from.
use tabra.Prelude.{
  ℕ, zero, suc, ◌≡◌, ◌≤◌, refl, sym, ap, ◌∙◌, inl, inr, List, [], ◌∷◌, ◌++◌, Option, none, some,
  Text, length, take, drop, len_utf8, arith, Option-cases, length-append, length-take,
  take-append-drop,
}
use mathlib.Core.List.{append-nil}
use tabra.Utf8.{encode_utf8, from_utf8}
use tabra.Utf8.Laws.{from_utf8-first, length-encode_utf8}
use tabra.Keys.{try_len, try_lengths, decode_utf8_char}

length_zero : (s : List ℕ) → length s ≡ 0 → s ≡ []
length_zero [] h = refl
length_zero (x ∷ s) h = absurd (omega arith)

-- A character read at a length is encoded by that many first bytes.
try_len-encode :
    (bytes : List ℕ) (len c n : ℕ)
    → try_len bytes len ≡ some (c, n)
    → (n ≡ len) × (take len bytes ≡ encode_utf8 c)
unfolding try_len
try_len-encode bytes len c n h = go (from_utf8 len (take len bytes)) refl
  where
    go :
        (o : Option Text)
        → from_utf8 len (take len bytes) ≡ o
        → (n ≡ len) × (take len bytes ≡ encode_utf8 c)
    go none e = absurd (ground arith)
    go (some []) e = absurd (ground arith)
    go (some (x ∷ xs)) e =
        let (rest, q) = from_utf8-first len (take len bytes) x xs e in
        let e1 : x ≡ c = ground arith in
        let e2 : len_utf8 x ≡ len = ground arith in
        let e3 : rest ≡ [] = length_zero rest (
          omega (
            arith,
            ap length q,
            length-append (encode_utf8 x) rest,
            length-encode_utf8 x,
            length-take len bytes,
          )) in
        (
          ground arith,
          q ∙ ap (λ r. encode_utf8 x ++ r) e3 ∙ append-nil (encode_utf8 x) ∙ ap encode_utf8 e1,
        )

try_lengths-encode :
    (bytes : List ℕ) (k c n : ℕ)
    → try_lengths bytes k ≡ some (c, n)
    → (take n bytes ≡ encode_utf8 c) × (1 ≤ n)
unfolding try_lengths
try_lengths-encode bytes zero c n h = absurd (cc)
try_lengths-encode bytes (suc k) c n h = elim (Option-cases (try_len bytes (suc k))) [
  | inl e ↦ try_lengths-encode bytes k c n (ground arith)
  | inr ((x, m), e) ↦
      let (p, q) = try_len-encode bytes (suc k) x m e in
      let e1 : x ≡ c = ground arith in
      let e2 : n ≡ suc k = ground arith in (rw e2 (q ∙ ap encode_utf8 e1), omega arith)
]

pub decode_utf8_char-encode :
    (bytes : List ℕ) (c n : ℕ)
    → decode_utf8_char bytes ≡ some (c, n)
    → (bytes ≡ encode_utf8 c ++ drop n bytes) × (1 ≤ n)
unfolding decode_utf8_char
decode_utf8_char-encode bytes c n h =
    let (p, q) = try_lengths-encode bytes _ c n h in
    (sym (take-append-drop n bytes) ∙ ap (λ t. t ++ drop n bytes) p, q)
