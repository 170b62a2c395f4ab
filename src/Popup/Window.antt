-- ===== src/Popup/Window.antt =====
-- The window of at most ten items around the selection.
use tabra.Prelude.{
  ℕ, zero, suc, ◌+◌, ◌-◌, min, ◌≡◌, ◌≤◌, ◌<◌, refl, ap, ◌∙◌, true, List, [], ◌∷◌, leb, length,
  get_elem?, take, drop, arith, length-take, length-drop, Bool-cases, inl, inr,
}
use tabra.Popup.{max_visible, window_start, window}

module _ {ℓ} {A : Type ℓ} where
  get_elem?-drop : (n i : ℕ) (xs : List A) → get_elem? (drop n xs) i ≡ get_elem? xs (n + i)
  get_elem?-drop zero i xs = ground arith
  get_elem?-drop (suc n) i [] = refl
  get_elem?-drop (suc n) i (x ∷ xs) = ground (arith, get_elem?-drop n i xs)

  get_elem?-take : (n i : ℕ) (xs : List A) → i < n → get_elem? (take n xs) i ≡ get_elem? xs i
  get_elem?-take zero i xs h = absurd (omega arith)
  get_elem?-take (suc n) i [] h = refl
  get_elem?-take (suc n) zero (x ∷ xs) h = refl
  get_elem?-take (suc n) (suc i) (x ∷ xs) h = get_elem?-take n i xs (omega arith)

-- The window's bounds are in range: no slice panics and no subtraction underflows.
pub window_start_bounds :
    (total selected : ℕ)
    → selected < total
    → (window_start total selected ≤ selected)
      × (selected - window_start total selected < 10)
      × (window_start total selected + min total 10 ≤ total)
unfolding window_start
window_start_bounds total selected h = ground arith

pub length-window {ℓ} :
    {A : Type ℓ} (items : List A) (selected : ℕ)
    → selected < length items
    → length (window items selected) ≡ min (length items) 10
unfolding window
length-window items selected h = elim (Bool-cases (leb (length items) max_visible)) [
  | inl e ↦ rw e (ground arith)
  | inr e ↦
      let start = window_start (length items) selected in
      let b = window_start_bounds (length items) selected h in
      rw e (omega (arith, length-take {A = _} 10 (drop start items), length-drop start items, b))
]

start_zero :
    (total selected : ℕ) → leb total 10 ≡ true → selected - window_start total selected ≡ selected
unfolding window_start
start_zero total selected h = ground arith

window_selected {ℓ} :
    {A : Type ℓ} (items : List A) (selected : ℕ)
    → selected < length items
    → get_elem? (window items selected) (selected - window_start (length items) selected)
      ≡ get_elem? items selected
unfolding window
window_selected {A} items selected h = elim (Bool-cases (leb (length items) max_visible)) [
  | inl e ↦ rw e (ap (get_elem? items) (start_zero (length items) selected e))
  | inr e ↦
      let start = window_start (length items) selected in
      let b = window_start_bounds (length items) selected h in
      let sum : start + (selected - start) ≡ selected = omega (arith, b) in
      rw e (
        get_elem?-take 10 (selected - start) (drop start items) (b.1)
        ∙ get_elem?-drop start (selected - start) items
        ∙ ap (get_elem? items) sum)
]

-- The window has ten items, or all of them if there are fewer, its start is such that no slice
-- or subtraction fails, and at the place that is highlighted in it stands the selected item.
pub window_lem {ℓ} :
    {A : Type ℓ} (items : List A) (selected : ℕ)
    → selected < length items
    → (length (window items selected) ≡ min (length items) 10)
      × (get_elem? (window items selected) (selected - window_start (length items) selected)
          ≡ get_elem? items selected)
      × (window_start (length items) selected ≤ selected)
      × (window_start (length items) selected + min (length items) 10 ≤ length items)
window_lem items selected h =
    let b = window_start_bounds (length items) selected h in
    (length-window items selected h, window_selected items selected h, b.0, b.2)
