-- ===== src/Matcher.antt =====
-- src/engine/matcher.rs: suggestions matched against the query and ranked. The scores of nucleo are
-- a parameter.
pub mod Sorting
pub mod Ranking
use Prim.Native.Nat.{Ordering, compare}
use tabra.Prelude.{
  ℕ, Bool, true, false, List, [], ◌∷◌, Option, none, some, Text, map, is_empty, if◌then◌else◌,
}
use tabra.Spec.{FilterStrategy}
use tabra.Suggest.{ResolvedSuggestion}

pub record ScoredSuggestion : Type 0 where
  pub suggestion : ResolvedSuggestion
  pub score : Option ℕ
  pub match_indices : List ℕ

-- `AtomKind`, the kinds that are used.
pub data AtomKind : Type 0 where
  fuzzy prefix : AtomKind

abbrev pub atom_kind_of : FilterStrategy → AtomKind
atom_kind_of FilterStrategy.prefix = AtomKind.prefix
atom_kind_of FilterStrategy.fuzzy = AtomKind.fuzzy
atom_kind_of FilterStrategy.default = AtomKind.fuzzy

-- `Ordering::then_with`.
abbrev pub then_with : Ordering → Ordering → Ordering
then_with Ordering.lt o = Ordering.lt
then_with Ordering.eq o = o
then_with Ordering.gt o = Ordering.gt

-- `str::cmp`; the order of the bytes is that of the code points.
unfoldable pub compare_text : Text → Text → Ordering
compare_text [] [] = Ordering.eq
compare_text [] (d ∷ t) = Ordering.lt
compare_text (c ∷ s) [] = Ordering.gt
compare_text (c ∷ s) (d ∷ t) = then_with (compare c d) (compare_text s t)

-- `Option::cmp`: `None` is below every `Some`.
abbrev pub compare_score : Option ℕ → Option ℕ → Ordering
compare_score none none = Ordering.eq
compare_score none (some n) = Ordering.lt
compare_score (some m) none = Ordering.gt
compare_score (some m) (some n) = compare m n

-- The comparison without a query.
unfoldable pub compare_listed : ScoredSuggestion → ScoredSuggestion → Ordering
compare_listed a b =
    then_with (compare b.suggestion.priority a.suggestion.priority)
      (compare_text a.suggestion.match_text b.suggestion.match_text)

-- The comparison with one.
unfoldable pub compare_ranked : ScoredSuggestion → ScoredSuggestion → Ordering
compare_ranked a b = then_with (compare_score b.score a.score) (compare_listed a b)

-- `sort_by`, which is stable: an element goes before those that it is not above.
module _ {ℓ} {A : Type ℓ} (cmp : A → A → Ordering) where
  unfoldable pub insert : A → List A → List A
  insert x [] = x ∷ []
  insert x (y ∷ ys) =
      let rest = insert x ys in
      elim (cmp x y) [
        | Ordering.gt ↦ y ∷ rest
        | Ordering.lt ↦ x ∷ y ∷ ys
        | Ordering.eq ↦ x ∷ y ∷ ys
      ]

  unfoldable pub sort_by : List A → List A
  sort_by [] = []
  sort_by (x ∷ xs) = insert x (sort_by xs)

abbrev pub unscored : ResolvedSuggestion → ScoredSuggestion
unscored s = record { suggestion = s; score = none; match_indices = [] }

-- `Atom::new(…)` and `Atom::indices`: the score and the indices, by the kind, the query and the text.
module _ (indices : AtomKind → Text → Text → Option (ℕ × List ℕ)) where
  abbrev pub scored_one :
      ResolvedSuggestion → Option (ℕ × List ℕ) → List ScoredSuggestion → List ScoredSuggestion
  scored_one s none rest = rest
  scored_one s (some (score, is)) rest =
      record { suggestion = s; score = some score; match_indices = is } ∷ rest

  -- The `filter_map`.
  unfoldable pub scored : AtomKind → Text → List ResolvedSuggestion → List ScoredSuggestion
  scored kind query [] = []
  scored kind query (s ∷ ss) = scored_one s (indices kind query s.match_text) (scored kind query ss)

  unfoldable pub match_suggestions :
      Text → List ResolvedSuggestion → FilterStrategy → List ScoredSuggestion
  match_suggestions query suggestions strategy =
      if is_empty query
      then sort_by compare_listed (map unscored suggestions)
      else sort_by compare_ranked (scored (atom_kind_of strategy) query suggestions)
