-- ===== src/Setup/Quoting.antt =====
-- The quoting of the script's path for fish, and the waiting of a session.
use tabra.Prelude.{
  ℕ, zero, suc, ◌+◌, ◌≡◌, refl, ap, sym, subst, ◌∙◌, Bool, true, false, not, ◌||◌, [], ◌∷◌, ◌++◌,
  Option, none, some, Text, ◌==◌, if◌then◌else◌, inl, inr, Bool-cases, arith,
}
use tabra.Client.Reading.{Without}
use tabra.Setup.{escaped, wait_rounds, ensure_daemon}
use tabra.Hooks.Zsh
use tabra.Hooks.Zsh.Waiting.{Waited, wait-Waited}

-- fish's reading of one word: outside quotes, behind a backslash there, inside single quotes, and
-- behind a backslash there, which stands for itself before any character but a quote and a
-- backslash.
pub data Mode : Type 0 where
  plain slashed quoted quoted_slashed : Mode

abbrev pub with_character : ℕ → Option Text → Option Text
with_character c none = none
with_character c (some s) = some (c ∷ s)

-- `none` is an end inside quotes or behind a backslash.
unfoldable pub fish_word : Mode → Text → Option Text
fish_word plain [] = some []
fish_word _ [] = none
fish_word plain (c ∷ s) =
    let skipped = fish_word quoted s in
    let slash = fish_word slashed s in
    let kept = with_character c (fish_word plain s) in
    if c == 39 then skipped else if c == b'\\' then slash else kept
fish_word slashed (c ∷ s) = with_character c (fish_word plain s)
fish_word quoted (c ∷ s) =
    let closed = fish_word plain s in
    let slash = fish_word quoted_slashed s in
    let kept = with_character c (fish_word quoted s) in
    if c == 39 then closed else if c == b'\\' then slash else kept
fish_word quoted_slashed (c ∷ s) =
    let kept = with_character c (fish_word quoted s) in
    if (c == 39) || (c == b'\\') then kept else with_character b'\\' kept

fish_word-escaped :
    (path : Text) → Without b'\\' path → fish_word quoted (escaped path ++ 39 ∷ []) ≡ some path
unfolding fish_word escaped
fish_word-escaped [] w = refl
fish_word-escaped (c ∷ path) w = elim (Bool-cases (c == 39)) [
  | inl e ↦ rw e (
      ap (with_character 39) (fish_word-escaped path w.1)
      ∙ ap (λ k. some (k ∷ path)) (let q : 39 ≡ c = ground (arith, e) in q))
  | inr e ↦ rw e (rw (e, w.0) (ap (with_character c) (fish_word-escaped path w.1)))
]

-- fish reads the quoted path of the script as the path, quotes in it included, where it has no
-- backslash.
pub fish_word-source_command :
    (path : Text)
    → Without b'\\' path
    → fish_word plain (39 ∷ (escaped path ++ 39 ∷ [])) ≡ some path
unfolding fish_word
fish_word-source_command path w = fish_word-escaped path w

wait_rounds-zsh :
    (running : ℕ → Bool) (call rounds : ℕ)
    → wait_rounds running call rounds ≡ Zsh.wait_for_daemon running call rounds
unfolding wait_rounds Zsh.wait_for_daemon
wait_rounds-zsh running call zero = refl
wait_rounds-zsh running call (suc rounds) = rw (wait_rounds-zsh running (call + 1) rounds) refl

-- A session starts the daemon exactly where it does not answer, and then sleeps at most ten times:
-- it goes on at the first answer, and without one after the tenth.
pub session-Waited :
    (running : ℕ → Bool)
    → ((ensure_daemon running).0 ≡ not (running 0))
      × (running 0 ≡ true → (ensure_daemon running).1 ≡ 0)
      × (running 0 ≡ false → Waited running 1 10 (ensure_daemon running).1)
unfolding ensure_daemon
session-Waited running =
    let w =
      subst (Waited running 1 10) (sym (wait_rounds-zsh running 1 10)) (wait-Waited running 1 10) in
    elim (Bool-cases (running 0)) [
      | inl e ↦ rw e (refl, (λ _. refl), λ h. cc)
      | inr e ↦ rw e (refl, (λ h. cc), λ _. w)
    ]
