-- ===== src/Utf8/Laws.antt =====
-- A decoded character is encoded by the bytes that it was read from.
use tabra.Prelude.{
  ℕ, zero, suc, ◌+◌, ◌*◌, ◌%◌, ◌≡◌, refl, Bool, true, false, ◌&&◌, List, [], ◌∷◌, ◌++◌, Option,
  none, some, Text, ltb, within, if◌then◌else◌, arith, length, len_utf8, Option-cases, inl, inr, ap,
  ◌∙◌,
}
use tabra.Utf8.{
  encode_utf8, is_cont, second_of_3, second_of_4, decode_wide, decode_first, from_utf8, cons?,
}

pub length-encode_utf8 : (c : ℕ) → length (encode_utf8 c) ≡ len_utf8 c
unfolding encode_utf8 len_utf8
length-encode_utf8 c = ground arith

encode_2 :
    (a b : ℕ)
    → (within 0xC2 0xDF a && is_cont b) ≡ true
    → encode_utf8 (a % 0x20 * 0x40 + b % 0x40) ≡ a ∷ b ∷ []
unfolding encode_utf8
encode_2 a b h = ground arith

encode_3 :
    (a b c : ℕ)
    → (second_of_3 a b && is_cont c) ≡ true
    → encode_utf8 (a % 0x10 * 0x1000 + b % 0x40 * 0x40 + c % 0x40) ≡ a ∷ b ∷ c ∷ []
unfolding encode_utf8
encode_3 a b c h = ground arith

encode_4 :
    (a b c d : ℕ)
    → (second_of_4 a b && (is_cont c && is_cont d)) ≡ true
    → encode_utf8 (a % 8 * 0x40000 + b % 0x40 * 0x1000 + c % 0x40 * 0x40 + d % 0x40)
      ≡ a ∷ b ∷ c ∷ d ∷ []
unfolding encode_utf8
encode_4 a b c d h = ground arith

-- What a successful decoder says of its result.
Reads : List ℕ → Option (ℕ × List ℕ) → Type 0
Reads s none = Unit
Reads s (some (c, rest)) = s ≡ encode_utf8 c ++ rest

Reads-if :
    (s : List ℕ) (b : Bool) (o p : Option (ℕ × List ℕ))
    → (b ≡ true → Reads s o)
    → Reads s p
    → Reads s (if b then o else p)
Reads-if s true o p h k = h refl
Reads-if s false o p h k = k

module _ (a b : ℕ) where
  Reads-2 :
      (r : List ℕ)
      → (within 0xC2 0xDF a && is_cont b) ≡ true
      → Reads (a ∷ b ∷ r) (some (a % 0x20 * 0x40 + b % 0x40, r))
  unfolding Reads
  Reads-2 r h = rw (encode_2 a b h)

  Reads-3 :
      (x : ℕ) (r : List ℕ)
      → (second_of_3 a b && is_cont x) ≡ true
      → Reads (a ∷ b ∷ x ∷ r) (some (a % 0x10 * 0x1000 + b % 0x40 * 0x40 + x % 0x40, r))
  unfolding Reads
  Reads-3 x r h = rw (encode_3 a b x h)

  Reads-4 :
      (x y : ℕ) (r : List ℕ)
      → (second_of_4 a b && (is_cont x && is_cont y)) ≡ true
      → Reads
          (a ∷ b ∷ x ∷ y ∷ r)
          (some (a % 8 * 0x40000 + b % 0x40 * 0x1000 + x % 0x40 * 0x40 + y % 0x40, r))
  unfolding Reads
  Reads-4 x y r h = rw (encode_4 a b x y h)

Reads-none : (s : List ℕ) → Reads s none
unfolding Reads
Reads-none s = tt

decode_wide-Reads : (s : List ℕ) → Reads s (decode_wide s)
unfolding decode_wide
decode_wide-Reads [] = Reads-none _
decode_wide-Reads (a ∷ []) = Reads-none _
decode_wide-Reads (a ∷ b ∷ []) = Reads-if _ _ _ _ (Reads-2 a b []) (Reads-none _)
decode_wide-Reads (a ∷ b ∷ x ∷ []) =
    Reads-if _ _ _ _ (Reads-2 a b _) (Reads-if _ _ _ _ (Reads-3 a b x []) (Reads-none _))
decode_wide-Reads (a ∷ b ∷ x ∷ y ∷ r) =
    Reads-if _ _ _ _ (Reads-2 a b _)
      (Reads-if _ _ _ _ (Reads-3 a b x _) (Reads-if _ _ _ _ (Reads-4 a b x y r) (Reads-none _)))

encode_1 : (a : ℕ) → ltb a 0x80 ≡ true → encode_utf8 a ≡ a ∷ []
unfolding encode_utf8
encode_1 a h = rw h

Reads-1 : (a : ℕ) (r : List ℕ) → ltb a 0x80 ≡ true → Reads (a ∷ r) (some (a, r))
unfolding Reads
Reads-1 a r h = rw (encode_1 a h)

decode_first-Reads : (s : List ℕ) → Reads s (decode_first s)
unfolding decode_first
decode_first-Reads [] = Reads-none _
decode_first-Reads (a ∷ r) =
    Reads-if (a ∷ r) (ltb a 0x80) (some (a, r)) (decode_wide (a ∷ r)) (λ h. Reads-1 a r h)
      (decode_wide-Reads (a ∷ r))

pub decode_first-encode :
    (s : List ℕ) (c : ℕ) (rest : List ℕ)
    → decode_first s ≡ some (c, rest)
    → s ≡ encode_utf8 c ++ rest
decode_first-encode s c rest h = unfold Reads in rw h at (decode_first-Reads s)

first_of-cons? : (x : ℕ) (o : Option Text) (c : ℕ) (cs : Text) → cons? x o ≡ some (c ∷ cs) → x ≡ c
first_of-cons? x none c cs h = absurd (cc)
first_of-cons? x (some s) c cs h = ground arith

-- A slice that is valid and begins with `c` begins with the bytes of `c`.
pub from_utf8-first :
    (f : ℕ) (s : List ℕ) (c : ℕ) (cs : Text)
    → from_utf8 f s ≡ some (c ∷ cs)
    → (rest : List ℕ) × (s ≡ encode_utf8 c ++ rest)
unfolding from_utf8
from_utf8-first f [] c cs h = absurd (cc)
from_utf8-first zero (b ∷ r) c cs h = absurd (cc)
from_utf8-first (suc f) (b ∷ r) c cs h = elim (Option-cases (decode_first (b ∷ r))) [
  | inl n ↦ absurd (ground arith)
  | inr ((x, rest), e) ↦
      let p : x ≡ c = first_of-cons? x (from_utf8 f rest) c cs (ground arith) in
      (rest, decode_first-encode (b ∷ r) x rest e ∙ ap (λ z. encode_utf8 z ++ rest) p)
]
