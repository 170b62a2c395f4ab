-- ===== src/Session/Debounce.antt =====
-- The debounce task of src/session/event_loop.rs: which of the lines that are typed it asks for. A
-- message comes with the time, in milliseconds, at which it is put into the task's channel. While
-- the task waits for the popup and the daemon, messages pile up in the channel.
use tabra.Prelude.{
  ℕ, sym, subst, Bool, true, false, ◌++◌, zero, suc, ◌+◌, ◌≡◌, ◌≤◌, refl, ap, ◌∙◌, Option, none,
  some, List, [], ◌∷◌, map, Text, arith, ltb, if◌then◌else◌, length, Bool-cases, inl, inr,
}
use tabra.Session.{latest}

abbrev pub debounce_dur : ℕ
debounce_dur = 30

abbrev pub Message : Type 0
Message = ℕ × (Text × ℕ)

-- When a message is received that the task waits for from `now` on.
abbrev pub received : ℕ → ℕ → ℕ
received now time = if ltb now time then time else now

-- The draining from `now` on: when it ends, the messages that are drained, and those that are left.
unfoldable pub drain : ℕ → List Message → ℕ × (List (Text × ℕ) × List Message)
drain now [] = (now + debounce_dur, ([], []))
drain now ((time, m) ∷ ms) =
    let (end, (drained, rest)) = drain (received now time) ms in
    if ltb time (now + debounce_dur)
    then (end, (m ∷ drained, rest))
    else (now + debounce_dur, ([], (time, m) ∷ ms))

module _ (busy : ℕ → Text × ℕ → ℕ) where
  -- The rounds of the task, each with the message received and those drained behind it; `busy` is
  -- how long it waits for the popup and the answer. Each round takes one message at least, so their
  -- number is enough fuel.
  unfoldable pub rounds : ℕ → ℕ → List Message → List ((Text × ℕ) × List (Text × ℕ))
  rounds fuel now [] = []
  rounds zero now (m ∷ ms) = []
  rounds (suc fuel) now ((time, m) ∷ ms) =
      let (end, (drained, rest)) = drain (received now time) ms in
      (m, drained) ∷ rounds fuel (end + busy end (latest m drained)) rest

  unfoldable pub debounce_task : List Message → List ((Text × ℕ) × List (Text × ℕ))
  debounce_task ms = rounds (length ms) 0 ms

-- The line that a round asks for.
abbrev pub asked_line : (Text × ℕ) × List (Text × ℕ) → Text × ℕ
asked_line (first, drained) = latest first drained

-- The messages behind which no other comes for the time of the debouncing.
abbrev pub settled : List Message → List (Text × ℕ)
settled [] = []
settled ((time, m) ∷ []) = m ∷ []
settled ((time, m) ∷ (next, n) ∷ ms) =
    let rest = settled ((next, n) ∷ ms) in if ltb next (time + debounce_dur) then rest else m ∷ rest

-- Some of the elements, in their order.
pub data Sublist {ℓ} {A : Type ℓ} : List A → List A → Type ℓ where
  none_of : Sublist [] []
  skip : {x : A} {s t : List A} → Sublist s t → Sublist s (x ∷ t)
  keep : {x : A} {s t : List A} → Sublist s t → Sublist (x ∷ s) (x ∷ t)

abbrev behind_or {ℓ} : {A : Type ℓ} → A → Option A → Option A
behind_or a none = some a
behind_or a (some b) = some b

abbrev pub last_of {ℓ} : {A : Type ℓ} → List A → Option A
last_of [] = none
last_of (a ∷ s) = behind_or a (last_of s)

received-le : (now time : ℕ) → (time ≤ received now time) × (now ≤ received now time)
received-le now time = (ground arith, ground arith)

Sublist-if :
    {A : Type 0} (b : Bool) (x : A) (s t : List A)
    → Sublist s t
    → Sublist s (if b then t else x ∷ t)
Sublist-if true x s t k = k
Sublist-if false x s t k = skip k

Sublist-drain :
    (now time : ℕ) (m : Text × ℕ) (ms : List Message) (lines : List (Text × ℕ))
    → time ≤ now
    → Sublist lines (settled (drain now ms).1.1)
    → Sublist (latest m (drain now ms).1.0 ∷ lines) (settled ((time, m) ∷ ms))
unfolding drain
Sublist-drain now time m [] lines h k = keep k
Sublist-drain now time m ((next, n) ∷ ms) lines h k =
    go (ltb next (now + debounce_dur)) refl
      (Sublist-drain (received now next) next n ms lines (received-le now next).0) k
  where
    go :
        (b : Bool)
        → ltb next (now + debounce_dur) ≡ b
        → (Sublist lines (settled (drain (received now next) ms).1.1)
            → Sublist
                (latest n (drain (received now next) ms).1.0 ∷ lines)
                (settled ((next, n) ∷ ms)))
        → (let d = drain (received now next) ms in
            let r : ℕ × (List (Text × ℕ) × List Message) =
              if b then (d.0, (n ∷ d.1.0, d.1.1)) else (now + 30, ([], (next, n) ∷ ms)) in
            Sublist lines (settled r.1.1)
            → Sublist (latest m r.1.0 ∷ lines) (settled ((time, m) ∷ (next, n) ∷ ms)))
    go true e ih k = Sublist-if (ltb next (time + debounce_dur)) m _ _ (ih k)
    go false e ih k =
        let f : ltb next (time + debounce_dur) ≡ false = ground (arith, e, h) in rw f (keep k)

length-drain : (now : ℕ) (ms : List Message) → length (drain now ms).1.1 ≤ length ms
unfolding drain
length-drain now [] = omega arith
length-drain now ((time, m) ∷ ms) = elim (Bool-cases (ltb time (now + debounce_dur))) [
  | inl e ↦ rw e (omega (arith, length-drain (received now time) ms))
  | inr e ↦ rw e (omega arith)
]

lines_of : List Message → List (Text × ℕ)
lines_of ms = map (λ m. m.1) ms

-- No message is lost.
drain-append :
    (now : ℕ) (ms : List Message) → lines_of ms ≡ (drain now ms).1.0 ++ lines_of (drain now ms).1.1
unfolding drain lines_of
drain-append now [] = refl
drain-append now ((time, m) ∷ ms) = elim (Bool-cases (ltb time (now + debounce_dur))) [
  | inl e ↦ rw e (ap (λ l. m ∷ l) (drain-append (received now time) ms))
  | inr e ↦ rw e refl
]

behind_or_twice :
    {A : Type 0} (a b : A) (o : Option A) → behind_or a (behind_or b o) ≡ behind_or b o
behind_or_twice a b none = refl
behind_or_twice a b (some c) = refl

last_of-append :
    (m : Text × ℕ) (d r : List (Text × ℕ))
    → last_of (m ∷ (d ++ r)) ≡ behind_or (latest m d) (last_of r)
last_of-append m [] r = refl
last_of-append m (n ∷ d) r =
    ap (behind_or m) (last_of-append n d r) ∙ behind_or_twice m (latest n d) (last_of r)

module _ (busy : ℕ → Text × ℕ → ℕ) where
  rounds-Sublist :
      (fuel now : ℕ) (ms : List Message)
      → length ms ≤ fuel
      → Sublist (map asked_line (rounds busy fuel now ms)) (settled ms)
  unfolding rounds
  rounds-Sublist fuel now [] h = none_of
  rounds-Sublist zero now (m ∷ ms) h = absurd (omega arith)
  rounds-Sublist (suc fuel) now ((time, m) ∷ ms) h =
      let at = received now time in
      Sublist-drain at time m ms _ (received-le now time).0
        (rounds-Sublist fuel _ (drain at ms).1.1 (omega (arith, h, length-drain at ms)))

  rounds-last :
      (fuel now : ℕ) (ms : List Message)
      → length ms ≤ fuel
      → last_of (map asked_line (rounds busy fuel now ms)) ≡ last_of (lines_of ms)
  unfolding rounds lines_of
  rounds-last fuel now [] h = refl
  rounds-last zero now (m ∷ ms) h = absurd (omega arith)
  rounds-last (suc fuel) now ((time, m) ∷ ms) h =
      let at = received now time in
      let (end, (d, rest)) = drain at ms in
      ap (behind_or (latest m d)) (rounds-last fuel _ rest (omega (arith, h, length-drain at ms)))
      ∙ sym (last_of-append m d (lines_of rest))
      ∙ ap (λ l. last_of (m ∷ l)) (sym (drain-append at ms))

  -- Whenever the messages come and however long the task waits for the popup and the daemon: it asks
  -- only for lines behind which no message comes for 30 ms, in their order and each once, so a line
  -- that is overtaken sooner is never asked for; and the last line is asked for. (A line behind which
  -- more than 30 ms pass can be left out too, if the task is still waiting for an answer.)
  pub debounce_task-Sublist :
      (ms : List Message)
      → Sublist (map asked_line (debounce_task busy ms)) (settled ms)
        × (last_of (map asked_line (debounce_task busy ms)) ≡ last_of (map (λ m. m.1) ms))
  unfolding debounce_task lines_of
  debounce_task-Sublist ms =
      (rounds-Sublist (length ms) 0 ms (omega arith), rounds-last (length ms) 0 ms (omega arith))

-- The times do not go back.
abbrev pub From : ℕ → List Message → Type 0
From now [] = Unit
From now ((time, m) ∷ ms) = (now ≤ time) × From time ms

received-eq : (now time : ℕ) → now ≤ time → received now time ≡ time
received-eq now time h = ground arith

From-drain : (now : ℕ) (ms : List Message) → From now ms → From (drain now ms).0 (drain now ms).1.1
unfolding drain
From-drain now [] f = tt
From-drain now ((time, m) ∷ ms) f = elim (Bool-cases (ltb time (now + debounce_dur))) [
  | inl e ↦ rw (e, received-eq now time f.0) (From-drain time ms f.1)
  | inr e ↦ rw e (ground (arith, e), f.1)
]

settled-drain :
    (time : ℕ) (m : Text × ℕ) (ms : List Message)
    → From time ms
    → settled ((time, m) ∷ ms) ≡ latest m (drain time ms).1.0 ∷ settled (drain time ms).1.1
unfolding drain
settled-drain time m [] f = refl
settled-drain time m ((next, n) ∷ ms) f = elim (Bool-cases (ltb next (time + debounce_dur))) [
  | inl e ↦ rw (e, received-eq time next f.0) (settled-drain next n ms f.1)
  | inr e ↦ rw e refl
]

module _ (busy : ℕ → Text × ℕ → ℕ) (idle : (now : ℕ) (m : Text × ℕ) → busy now m ≡ 0) where
  rounds-settled :
      (fuel now : ℕ) (ms : List Message)
      → length ms ≤ fuel
      → From now ms
      → map asked_line (rounds busy fuel now ms) ≡ settled ms
  unfolding rounds
  rounds-settled fuel now [] h f = refl
  rounds-settled zero now (m ∷ ms) h f = absurd (omega arith)
  rounds-settled (suc fuel) now ((time, m) ∷ ms) h f =
      let (end, (d, rest)) = drain time ms in
      let q : end + busy end (latest m d) ≡ end = omega (arith, idle end (latest m d)) in
      subst
        (λ at.
          (latest m (drain at ms).1.0
            ∷ map asked_line (
                rounds busy fuel
                  ((drain at ms).0 + busy (drain at ms).0 (latest m (drain at ms).1.0))
                  (drain at ms).1.1))
          ≡ settled ((time, m) ∷ ms))
        (sym (received-eq now time f.0))
        (ap (λ l. latest m d ∷ l)
            (ap (λ k. map asked_line (rounds busy fuel k rest)) q
              ∙ rounds-settled fuel end rest (omega (arith, h, length-drain time ms))
                  (From-drain time ms f.1))
          ∙ sym (settled-drain time m ms f.1))

  -- Where the answers come at once and the messages in the order of their times, the lines that are
  -- asked for are exactly those behind which no message comes for 30 ms.
  pub debounce_task-settled :
      (ms : List Message) → From 0 ms → map asked_line (debounce_task busy ms) ≡ settled ms
  unfolding debounce_task
  debounce_task-settled ms f = rounds-settled (length ms) 0 ms (omega arith) f
