-- ===== src/Matcher/Ranking.antt =====
-- What the ranking promises.
use Prim.Native.Nat.{Ordering, compare}
use tabra.Prelude.{
  ℕ, suc, ◌<◌, ◌≡◌, ◌≢◌, refl, sym, ap, ◌∙◌, ◌⊎◌, inl, inr, List, [], ◌∷◌, Option, none, some, Text,
  map, arith,
}
use mathlib.Core.List.{Perm}
use tabra.Spec.{FilterStrategy}
use tabra.Suggest.{ResolvedSuggestion}
use tabra.Matcher.{
  ScoredSuggestion, AtomKind, atom_kind_of, then_with, compare_text, compare_score, compare_listed,
  compare_ranked, unscored, scored, match_suggestions,
}
use tabra.Matcher.Sorting.{Chain, Ordering-cases, sort_by-Perm, sort_by-Chain}

-- Lexicographic order of texts.
pub data TextLe : Text → Text → Type 0 where
  nil : {t : Text} → TextLe [] t
  less : {c d : ℕ} {s t : Text} → c < d → TextLe (c ∷ s) (d ∷ t)
  same : {c d : ℕ} {s t : Text} → c ≡ d → TextLe s t → TextLe (c ∷ s) (d ∷ t)

compare-cases :
    (a b : ℕ)
    → ((a < b) × (compare a b ≡ Ordering.lt))
      ⊎ (((a ≡ b) × (compare a b ≡ Ordering.eq)) ⊎ ((b < a) × (compare a b ≡ Ordering.gt)))
compare-cases a b = elim (Ordering-cases (compare a b)) [
  | inl e ↦ inl (ground arith, e)
  | inr (inl e) ↦ inr (inl (ground arith, e))
  | inr (inr e) ↦ inr (inr (ground arith, e))
]

TextLe-below : (s t : Text) → compare_text s t ≢ Ordering.gt → TextLe s t
unfolding compare_text
TextLe-below [] t n = TextLe.nil
TextLe-below (c ∷ s) [] n = absurd (n refl)
TextLe-below (c ∷ s) (d ∷ t) n = elim (compare-cases c d) [
  | inl (l, e) ↦ TextLe.less l
  | inr (inl (q, e)) ↦
      TextLe.same q (TextLe-below s t (λ f. n (ap (λ o. then_with o (compare_text s t)) e ∙ f)))
  | inr (inr (g, e)) ↦ absurd (n (ap (λ o. then_with o (compare_text s t)) e))
]

TextLe-above : (s t : Text) → compare_text s t ≡ Ordering.gt → TextLe t s
unfolding compare_text
TextLe-above s [] n = TextLe.nil
TextLe-above [] (d ∷ t) n = absurd (cc)
TextLe-above (c ∷ s) (d ∷ t) n = elim (compare-cases c d) [
  | inl (l, e) ↦ absurd (cc (n, e))
  | inr (inl (q, e)) ↦
      TextLe.same (sym q) (TextLe-above s t (sym (ap (λ o. then_with o (compare_text s t)) e) ∙ n))
  | inr (inr (g, e)) ↦ TextLe.less g
]

-- A higher priority first, and names in alphabetical order.
abbrev pub ListedBefore : ScoredSuggestion → ScoredSuggestion → Type 0
ListedBefore a b =
    (b.suggestion.priority < a.suggestion.priority)
    ⊎ ((a.suggestion.priority ≡ b.suggestion.priority)
        × TextLe a.suggestion.match_text b.suggestion.match_text)

abbrev pub score_value : Option ℕ → ℕ
score_value none = 0
score_value (some n) = suc n

-- A higher score first, then as without scores.
abbrev pub RankedBefore : ScoredSuggestion → ScoredSuggestion → Type 0
RankedBefore a b =
    (score_value b.score < score_value a.score) ⊎ ((a.score ≡ b.score) × ListedBefore a b)

listed_below : (a b : ScoredSuggestion) → compare_listed a b ≢ Ordering.gt → ListedBefore a b
unfolding compare_listed
listed_below a b n =
    let t = compare_text a.suggestion.match_text b.suggestion.match_text in
    elim (compare-cases b.suggestion.priority a.suggestion.priority) [
      | inl (l, e) ↦ inl l
      | inr (inl (q, e)) ↦ inr (sym q, TextLe-below _ _ (λ f. n (ap (λ o. then_with o t) e ∙ f)))
      | inr (inr (g, e)) ↦ absurd (n (ap (λ o. then_with o t) e))
    ]

listed_above : (a b : ScoredSuggestion) → compare_listed a b ≡ Ordering.gt → ListedBefore b a
unfolding compare_listed
listed_above a b n =
    let t = compare_text a.suggestion.match_text b.suggestion.match_text in
    elim (compare-cases b.suggestion.priority a.suggestion.priority) [
      | inl (l, e) ↦ absurd (cc (n, e))
      | inr (inl (q, e)) ↦ inr (q, TextLe-above _ _ (sym (ap (λ o. then_with o t) e) ∙ n))
      | inr (inr (g, e)) ↦ inl g
    ]

score-cases :
    (a b : Option ℕ)
    → ((score_value a < score_value b) × (compare_score a b ≡ Ordering.lt))
      ⊎ (((a ≡ b) × (compare_score a b ≡ Ordering.eq))
          ⊎ ((score_value b < score_value a) × (compare_score a b ≡ Ordering.gt)))
score-cases none none = inr (inl (refl, refl))
score-cases none (some n) = inl (omega arith, refl)
score-cases (some m) none = inr (inr (omega arith, refl))
score-cases (some m) (some n) = elim (compare-cases m n) [
  | inl (l, e) ↦ inl (omega arith, e)
  | inr (inl (q, e)) ↦ inr (inl (ap some q, e))
  | inr (inr (g, e)) ↦ inr (inr (omega arith, e))
]

ranked_below : (a b : ScoredSuggestion) → compare_ranked a b ≢ Ordering.gt → RankedBefore a b
unfolding compare_ranked
ranked_below a b n = elim (score-cases b.score a.score) [
  | inl (l, e) ↦ inl l
  | inr (inl (q, e)) ↦
      inr (sym q, listed_below a b (λ f. n (ap (λ o. then_with o (compare_listed a b)) e ∙ f)))
  | inr (inr (g, e)) ↦ absurd (n (ap (λ o. then_with o (compare_listed a b)) e))
]

ranked_above : (a b : ScoredSuggestion) → compare_ranked a b ≡ Ordering.gt → RankedBefore b a
unfolding compare_ranked
ranked_above a b n = elim (score-cases b.score a.score) [
  | inl (l, e) ↦ absurd (cc (n, e))
  | inr (inl (q, e)) ↦
      inr (q, listed_above a b (sym (ap (λ o. then_with o (compare_listed a b)) e) ∙ n))
  | inr (inr (g, e)) ↦ inl g
]

-- The order that the results of a query are in.
abbrev pub Before : Text → ScoredSuggestion → ScoredSuggestion → Type 0
Before [] = ListedBefore
Before (c ∷ q) = RankedBefore

module _ (indices : AtomKind → Text → Text → Option (ℕ × List ℕ)) where
  -- The candidates that a query leaves.
  abbrev pub kept : Text → List ResolvedSuggestion → FilterStrategy → List ScoredSuggestion
  kept [] ss strategy = map unscored ss
  kept (c ∷ q) ss strategy = scored indices (atom_kind_of strategy) (c ∷ q) ss

  -- The results are a permutation of what the query leaves of the candidates, all of them if it is
  -- empty and else those that nucleo gives a score, and each comes before the next: by a higher
  -- score, at equal scores by a higher priority, at equal priorities by the order of the names.
  pub match_suggestions-Ranked :
      (query : Text) (ss : List ResolvedSuggestion) (strategy : FilterStrategy)
      → Perm (match_suggestions indices query ss strategy) (kept query ss strategy)
        × Chain (Before query) (match_suggestions indices query ss strategy)
  unfolding match_suggestions
  match_suggestions-Ranked [] ss strategy = (
    sort_by-Perm compare_listed (map unscored ss),
    sort_by-Chain compare_listed ListedBefore listed_below listed_above (map unscored ss),
  )
  match_suggestions-Ranked (c ∷ q) ss strategy =
      let found = scored indices (atom_kind_of strategy) (c ∷ q) ss in
      (
        sort_by-Perm compare_ranked found,
        sort_by-Chain compare_ranked RankedBefore ranked_below ranked_above found,
      )
