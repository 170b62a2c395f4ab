-- ===== src/Keys/Bytes.antt =====
-- Bytes that are equal but for the two codes of Backspace.
use tabra.Prelude.{ℕ, ◌≡◌, refl, ◌⊎◌, inl, List, [], ◌∷◌, ◌++◌}

-- Equal byte for byte, except that 0x08 may come back as 0x7f, the other code for Backspace.
abbrev pub SameBytes : List ℕ → List ℕ → Type 0
SameBytes [] [] = Unit
SameBytes (a ∷ as') (b ∷ bs) = ((a ≡ b) ⊎ ((a ≡ 0x08) × (b ≡ 0x7f))) × SameBytes as' bs
SameBytes _ _ = ⊥

pub SameBytes-refl : (s : List ℕ) → SameBytes s s
SameBytes-refl [] = tt
SameBytes-refl (a ∷ s) = (inl refl, SameBytes-refl s)

pub SameBytes-append :
    (a b c d : List ℕ) → SameBytes a b → SameBytes c d → SameBytes (a ++ c) (b ++ d)
SameBytes-append [] [] c d h k = k
SameBytes-append [] (y ∷ b) c d h k = absurd h
SameBytes-append (x ∷ a) [] c d h k = absurd h
SameBytes-append (x ∷ a) (y ∷ b) c d h k = (h.0, SameBytes-append a b c d h.1 k)
