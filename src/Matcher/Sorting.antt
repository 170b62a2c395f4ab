-- ===== src/Matcher/Sorting.antt =====
-- The stable sort of a list by a comparison.
use Prim.Native.Nat.{Ordering}
use tabra.Prelude.{◌≡◌, ◌≢◌, refl, ◌⊎◌, inl, inr, List, [], ◌∷◌}
use mathlib.Core.List.{Perm}
use mathlib.Core.List.Perm
use tabra.Matcher.{insert, sort_by}

-- Every element stands in the relation to the next one.
abbrev pub Chain {ℓ κ} : {A : Type ℓ} → (A → A → Type κ) → List A → Type κ
Chain R [] = Unit
Chain R (x ∷ []) = Unit
Chain R (x ∷ y ∷ ys) = R x y × Chain R (y ∷ ys)

pub Ordering-cases : (o : Ordering) → (o ≡ Ordering.lt) ⊎ ((o ≡ Ordering.eq) ⊎ (o ≡ Ordering.gt))
Ordering-cases Ordering.lt = inl refl
Ordering-cases Ordering.eq = inr (inl refl)
Ordering-cases Ordering.gt = inr (inr refl)

module _ {ℓ} {A : Type ℓ} (cmp : A → A → Ordering) where
  insert-cases :
      (x y : A) (ys : List A)
      → ((cmp x y ≡ Ordering.gt) × (insert cmp x (y ∷ ys) ≡ y ∷ insert cmp x ys))
        ⊎ ((cmp x y ≢ Ordering.gt) × (insert cmp x (y ∷ ys) ≡ x ∷ y ∷ ys))
  unfolding insert
  insert-cases x y ys = elim (Ordering-cases (cmp x y)) [
    | inl e ↦ inr (λ f. cc, rw (e, insert) refl)
    | inr (inl e) ↦ inr (λ f. cc, rw (e, insert) refl)
    | inr (inr e) ↦ inl (e, rw (e, insert) refl)
  ]

  insert-Perm : (x : A) (ys : List A) → Perm (insert cmp x ys) (x ∷ ys)
  insert-Perm x [] = unfold insert in Perm.refl (x ∷ [])
  insert-Perm x (y ∷ ys) = elim (insert-cases x y ys) [
    | inl (g, e) ↦ rw e (Perm.trans (Perm.cons y (insert-Perm x ys)) (Perm.swap x y ys))
    | inr (n, e) ↦ rw e (Perm.refl (x ∷ y ∷ ys))
  ]

  -- The sort keeps the elements.
  pub sort_by-Perm : (xs : List A) → Perm (sort_by cmp xs) xs
  unfolding sort_by
  sort_by-Perm [] = Perm.refl []
  sort_by-Perm (x ∷ xs) =
      Perm.trans (insert-Perm x (sort_by cmp xs)) (Perm.cons x (sort_by-Perm xs))

  module _ {κ} (R : A → A → Type κ) (below : (x y : A) → cmp x y ≢ Ordering.gt → R x y)
      (above : (x y : A) → cmp x y ≡ Ordering.gt → R y x) where
    insert-cons-Chain :
        (y x : A) (ys : List A) → R y x → Chain R (y ∷ ys) → Chain R (y ∷ insert cmp x ys)
    insert-cons-Chain y x [] r c = unfold insert in (r, tt)
    insert-cons-Chain y x (z ∷ zs) r c = elim (insert-cases x z zs) [
      | inl (g, e) ↦ rw e (c.0, insert-cons-Chain z x zs (above x z g) c.1)
      | inr (n, e) ↦ rw e (r, (below x z n, c.1))
    ]

    insert-Chain : (x : A) (ys : List A) → Chain R ys → Chain R (insert cmp x ys)
    insert-Chain x [] c = unfold insert in tt
    insert-Chain x (y ∷ ys) c = elim (insert-cases x y ys) [
      | inl (g, e) ↦ rw e (insert-cons-Chain y x ys (above x y g) c)
      | inr (n, e) ↦ rw e (below x y n, c)
    ]

    -- The sort puts every element before those that it is not above.
    pub sort_by-Chain : (xs : List A) → Chain R (sort_by cmp xs)
    unfolding sort_by
    sort_by-Chain [] = tt
    sort_by-Chain (x ∷ xs) = insert-Chain x (sort_by cmp xs) (sort_by-Chain xs)
