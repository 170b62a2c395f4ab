-- ===== src/Hooks/Zsh/Waiting.antt =====
-- The start of the daemon by a hook.
use tabra.Prelude.{
  ◌⊎◌, ℕ, zero, suc, ◌+◌, ◌≡◌, ◌≤◌, ◌<◌, refl, ap, ◌∙◌, Bool, true, false, arith, Bool-cases, inl,
  inr,
}
use tabra.Hooks.Zsh.{wait_for_daemon, ensure_daemon}

-- Where the waiting ends: in the rounds given, and before the last of them only by a success;
-- before the round where it ends there was none.
pub record Waited (status : ℕ → Bool) (call rounds naps : ℕ) : Type 0 where
  pub within_rounds : naps ≤ rounds
  pub answered : naps < rounds → (k : ℕ) × (suc k ≡ naps) × (status (call + k) ≡ true)
  pub unanswered : (k : ℕ) → suc k < naps → status (call + k) ≡ false

module _ (status : ℕ → Bool) (call rounds : ℕ) where
  at_once : status call ≡ true → Waited status call (suc rounds) 1
  at_once e = record {
    within_rounds = omega arith;
    answered = λ _. (0, refl, ap status (let z : call + 0 ≡ call = omega arith in z) ∙ e);
    unanswered = λ k h. absurd (omega (arith, h));
  }

  later :
      (naps : ℕ)
      → status call ≡ false
      → Waited status (call + 1) rounds naps
      → Waited status call (suc rounds) (naps + 1)
  later naps e w = record {
    within_rounds = omega (arith, w.within_rounds);
    answered = λ h.
        let (k, p, q) = w.answered (omega (arith, h)) in
        (
          suc k,
          omega (arith, p),
          ap status (let z : call + suc k ≡ call + 1 + k = omega arith in z) ∙ q,
        );
    unanswered = λ (k : ℕ) (h : suc k < naps + 1). missed k h;
  }
    where
      missed : (k : ℕ) → suc k < naps + 1 → status (call + k) ≡ false
      missed zero h = ap status (let z : call + 0 ≡ call = omega arith in z) ∙ e
      missed (suc k) h =
          ap status (let z : call + suc k ≡ call + 1 + k = omega arith in z)
          ∙ w.unanswered k (omega (arith, h))

pub wait-Waited :
    (status : ℕ → Bool) (call rounds : ℕ)
    → Waited status call rounds (wait_for_daemon status call rounds)
unfolding wait_for_daemon
wait-Waited status call zero = record {
  within_rounds = omega arith;
  answered = λ h. absurd (omega (arith, h));
  unanswered = λ k h. absurd (omega (arith, h));
}
wait-Waited status call (suc rounds) = elim (Bool-cases (status call)) [
  | inl e ↦ rw e (at_once status call rounds e)
  | inr e ↦ rw e (
      later status call rounds (wait_for_daemon status (call + 1) rounds) e
        (wait-Waited status (call + 1) rounds))
]

-- When a hook is loaded and the daemon answers, it is not started and the hook does not sleep. Where
-- it does not answer it is started, and the hook sleeps at most five times: it leaves at the first
-- answer, and only there before the fifth.
pub ensure_daemon-Waited :
    (status : ℕ → Bool)
    → ((status 0 ≡ true) × (ensure_daemon status ≡ (false, 0)))
      ⊎ ((status 0 ≡ false)
          × ((ensure_daemon status).0 ≡ true)
          × Waited status 1 5 (ensure_daemon status).1)
unfolding ensure_daemon
ensure_daemon-Waited status = elim (Bool-cases (status 0)) [
  | inl e ↦ inl (e, rw e refl)
  | inr e ↦ inr (e, rw e refl, rw e (wait-Waited status 1 5))
]
