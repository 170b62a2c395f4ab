-- ===== src/Keys/Rounds.antt =====
-- Each round of the loop accounts for the bytes that it takes.
use tabra.Prelude.{
  ℕ, ◌≡◌, ◌≤◌, refl, sym, ap, inl, inr, Bool, true, false, List, [], ◌∷◌, ◌++◌, Option, none, some,
  within, ◌==◌, if◌then◌else◌, length, arith, Bool-cases,
}
use tabra.Utf8.{encode_utf8}
use tabra.Keys.{
  KeyEvent, char, raw, raw_bytes, decode_utf8_char, csi_bytes, csi, after_escape, wide_char,
  take_one, unknown_csi,
}
use tabra.Keys.Bytes.{SameBytes, SameBytes-refl}
use tabra.Keys.Decoding.{decode_utf8_char-encode}

-- The event and the rest account for the bytes `s`, one at least.
pub record Covers (s : List ℕ) (p : KeyEvent × List ℕ) : Type 0 where
  pub taken : List ℕ
  pub split : s ≡ taken ++ p.1
  pub same : SameBytes taken (raw_bytes p.0)
  pub some_byte : 1 ≤ length taken

pub exact :
    (e : KeyEvent) (b : ℕ) (t rest : List ℕ)
    → raw_bytes e ≡ b ∷ t
    → Covers ((b ∷ t) ++ rest) (e, rest)
exact e b t rest h = record {
  taken = b ∷ t;
  split = refl;
  same = rw h (SameBytes-refl (b ∷ t));
  some_byte = omega arith;
}

csi_bytes_split : (bs : List ℕ) → (csi_bytes bs).0 ++ (csi_bytes bs).1 ≡ bs
unfolding csi_bytes
csi_bytes_split [] = refl
csi_bytes_split (b ∷ bs) = elim (Bool-cases (within 0x40 0x7e b)) [
  | inl e ↦ rw e
  | inr e ↦ rw e (ap (λ t. b ∷ t) (csi_bytes_split bs))
]

abbrev after_csi : List ℕ → List ℕ
after_csi bs = 0x1b ∷ b'[' ∷ bs

unknown_csi-Covers : (bs : List ℕ) → Covers (after_csi bs) (unknown_csi bs)
unfolding raw_bytes
unknown_csi-Covers bs = record {
  taken = after_csi (csi_bytes bs).0;
  split = ap after_csi (sym (csi_bytes_split bs));
  same = SameBytes-refl (after_csi (csi_bytes bs).0);
  some_byte = omega arith;
}

Covers-if :
    (s : List ℕ) (b : Bool) (p q : KeyEvent × List ℕ)
    → (b ≡ true → Covers s p)
    → (b ≡ false → Covers s q)
    → Covers s (if b then p else q)
Covers-if s true p q h k = h refl
Covers-if s false p q h k = k refl

arrow-Covers :
    (e : KeyEvent) (b c : ℕ) (bs : List ℕ)
    → raw_bytes e ≡ 0x1b ∷ b'[' ∷ c ∷ []
    → (b == c) ≡ true
    → Covers (after_csi (b ∷ bs)) (e, bs)
arrow-Covers e b c bs h k = let q : b ≡ c = ground arith in rw q (exact e 0x1b (b'[' ∷ c ∷ []) bs h)

pub csi-Covers : (bs : List ℕ) → Covers (after_csi bs) (csi bs)
unfolding csi raw_bytes
csi-Covers [] = exact _ 0x1b (b'[' ∷ []) [] refl
csi-Covers (b ∷ bs) = Covers-if _ _ _ _ (arrow-Covers _ b b'A' bs refl) λ _.
    Covers-if _ _ _ _ (arrow-Covers _ b b'B' bs refl) λ _.
      Covers-if _ _ _ _ (arrow-Covers _ b b'C' bs refl)
        λ _. Covers-if _ _ _ _ (arrow-Covers _ b b'D' bs refl) λ _. unknown_csi-Covers (b ∷ bs)

-- What a round accounts for: a lone ESC is kept for the next chunk.
abbrev pub Round : List ℕ → Option (KeyEvent × List ℕ) → Type 0
Round s none = s ≡ 0x1b ∷ []
Round s (some p) = Covers s p

pub bracket-Covers : (x : ℕ) (xs : List ℕ) → (x == b'[') ≡ true → Covers (0x1b ∷ x ∷ xs) (csi xs)
bracket-Covers x xs h = let q : x ≡ b'[' = ground arith in rw q (csi-Covers xs)

alt-Covers : (x : ℕ) (xs : List ℕ) → Covers (0x1b ∷ x ∷ xs) (raw (0x1b ∷ x ∷ []), xs)
unfolding raw_bytes
alt-Covers x xs = exact (raw (0x1b ∷ x ∷ [])) 0x1b (x ∷ []) xs refl

after_escape-Round : (bs : List ℕ) → Round (0x1b ∷ bs) (after_escape bs)
unfolding after_escape
after_escape-Round [] = refl
after_escape-Round (x ∷ xs) = Covers-if _ _ _ _ (bracket-Covers x xs) (λ _. alt-Covers x xs)

escape-Round : (b : ℕ) (bs : List ℕ) → (b == 0x1b) ≡ true → Round (b ∷ bs) (after_escape bs)
escape-Round b bs h = let q : b ≡ 0x1b = ground arith in rw q (after_escape-Round bs)

control-Covers :
    (e : KeyEvent) (b c : ℕ) (bs : List ℕ)
    → raw_bytes e ≡ c ∷ []
    → (b == c) ≡ true
    → Covers (b ∷ bs) (e, bs)
control-Covers e b c bs h k = let q : b ≡ c = ground arith in rw q (exact e c [] bs h)

ascii-Covers : (b : ℕ) (bs : List ℕ) → within 0x20 0x7e b ≡ true → Covers (b ∷ bs) (char b, bs)
ascii-Covers b bs h = exact (char b) b [] bs (unfold raw_bytes encode_utf8 in ground arith)

delete-Covers :
    (e : KeyEvent) (b : ℕ) (bs : List ℕ)
    → raw_bytes e ≡ 0x7f ∷ []
    → (b == 0x08) ≡ true
    → Covers (b ∷ bs) (e, bs)
delete-Covers e b bs h k = record {
  taken = b ∷ [];
  split = refl;
  same = rw h (inr (ground arith, refl), tt);
  some_byte = omega arith;
}

encode-pos : (c : ℕ) → 1 ≤ length (encode_utf8 c)
unfolding encode_utf8
encode-pos c = ground arith

wide-Covers :
    (b : ℕ) (bs : List ℕ) (o : Option (ℕ × ℕ))
    → decode_utf8_char (b ∷ bs) ≡ o
    → Covers (b ∷ bs) (wide_char b bs o)
unfolding raw_bytes
wide-Covers b bs none e = exact (raw (b ∷ [])) b [] bs refl
wide-Covers b bs (some (c, n)) e = record {
  taken = encode_utf8 c;
  split = (decode_utf8_char-encode (b ∷ bs) c n e).0;
  same = SameBytes-refl (encode_utf8 c);
  some_byte = encode-pos c;
}

Round-if :
    (s : List ℕ) (b : Bool) (p : Option (KeyEvent × List ℕ)) (q : KeyEvent × List ℕ)
    → (b ≡ true → Round s p)
    → Covers s q
    → Round s (if b then p else some q)
Round-if s true p q h k = h refl
Round-if s false p q h k = k

pub take_one-Round : (b : ℕ) (bs : List ℕ) → Round (b ∷ bs) (take_one b bs)
unfolding take_one raw_bytes
take_one-Round b bs = Round-if _ _ _ _ (escape-Round b bs) (
    Covers-if _ _ _ _ (control-Covers _ b 0x03 bs refl) λ _.
      Covers-if _ _ _ _ (control-Covers _ b 0x04 bs refl) λ _.
        Covers-if _ _ _ _ (control-Covers _ b 0x09 bs refl) λ _.
          Covers-if _ _ _ _ (control-Covers _ b 0x0c bs refl) λ _.
            Covers-if _ _ _ _ (control-Covers _ b 0x0d bs refl) λ _.
              Covers-if _ _ _ _ (control-Covers _ b 0x7f bs refl) λ _.
                Covers-if _ _ _ _ (delete-Covers _ b bs refl) λ _.
                  Covers-if _ _ _ _ (ascii-Covers b bs) λ _.
                    Covers-if _ _ _ _ (λ _. wide-Covers b bs _ refl)
                      λ _. exact (raw (b ∷ [])) b [] bs refl)
