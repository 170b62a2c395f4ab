-- ===== src/Keys/Passthrough.antt =====
-- No input byte is lost: the events of a chunk, written back, are the chunk.
use tabra.Prelude.{
  ℕ, zero, suc, ◌≡◌, ◌≤◌, refl, sym, ap, subst, inl, inr, Bool, true, false, List, [], ◌∷◌, ◌++◌,
  Option, none, some, ◌==◌, if◌then◌else◌, length, arith, Bool-cases, length-append,
}
use mathlib.Core.List.{append_assoc}
use tabra.Keys.{
  KeyEvent, escape, raw_bytes, csi, take_one, parse_loop, after_pending, parse_bytes, add_event,
  resume,
}
use tabra.Keys.Bytes.{SameBytes, SameBytes-append}
use tabra.Keys.Rounds.{Covers, Round, take_one-Round, exact, bracket-Covers}

abbrev pub all_bytes : List KeyEvent → List ℕ
all_bytes [] = []
all_bytes (e ∷ es) = raw_bytes e ++ all_bytes es

-- The bytes that a result stands for, the pending ESC included.
abbrev pub escape_if : Bool → List ℕ
escape_if b = if b then 0x1b ∷ [] else []

abbrev pub written : List KeyEvent × Bool → List ℕ
written (es, pending) = all_bytes es ++ escape_if pending

written-add :
    (e : KeyEvent) (r : List KeyEvent × Bool) → written (add_event e r) ≡ raw_bytes e ++ written r
written-add e (es, b) = append_assoc (raw_bytes e) (all_bytes es) (escape_if b)

add-SameBytes :
    (s : List ℕ) (e : KeyEvent) (rest : List ℕ) (r : List KeyEvent × Bool)
    → Covers s (e, rest)
    → SameBytes rest (written r)
    → SameBytes s (written (add_event e r))
add-SameBytes s e rest r c h =
    rw (c.split, written-add e r) (SameBytes-append c.taken (raw_bytes e) rest (written r) c.same h)

parse_loop-SameBytes : (f : ℕ) (s : List ℕ) → length s ≤ f → SameBytes s (written (parse_loop f s))
unfolding parse_loop
parse_loop-SameBytes f [] h = tt
parse_loop-SameBytes zero (b ∷ bs) h = absurd (omega arith)
parse_loop-SameBytes (suc f) (b ∷ bs) h =
    go (take_one b bs) (take_one-Round b bs) (parse_loop-SameBytes f)
  where
    go :
        (o : Option (KeyEvent × List ℕ))
        → Round (b ∷ bs) o
        → ((s : List ℕ) → length s ≤ f → SameBytes s (written (parse_loop f s)))
        → SameBytes (b ∷ bs) (
            written
              (elim o [ none ↦ ([], true) | some (e, rest) ↦ add_event e (parse_loop f rest) ]))
    go none c ih = subst (λ s. SameBytes s (0x1b ∷ [])) (sym c) (inl refl, tt)
    go (some (e, rest)) c ih =
        add-SameBytes (b ∷ bs) e rest (parse_loop f rest) c
          (ih rest (omega (arith, h, ap length c.split, length-append c.taken rest, c.some_byte)))

parse_loop_all : (s : List ℕ) → SameBytes s (written (parse_loop (length s) s))
parse_loop_all s = parse_loop-SameBytes (length s) s (omega arith)

resume-SameBytes :
    (s : List ℕ) (p : KeyEvent × List ℕ) → Covers s p → SameBytes s (written (resume p))
resume-SameBytes s (e, rest) c = add-SameBytes s e rest _ c (parse_loop_all rest)

after_pending-SameBytes : (s : List ℕ) → SameBytes (0x1b ∷ s) (written (after_pending s))
unfolding after_pending raw_bytes
after_pending-SameBytes [] = (inl refl, tt)
after_pending-SameBytes (b ∷ bs) = elim (Bool-cases (b == b'[')) [
  | inl e ↦ rw e (resume-SameBytes (0x1b ∷ b ∷ bs) (csi bs) (bracket-Covers b bs e))
  | inr e ↦ rw e (
      add-SameBytes (0x1b ∷ b ∷ bs) escape (b ∷ bs) (parse_loop (length (b ∷ bs)) (b ∷ bs))
        (exact escape 0x1b [] (b ∷ bs) refl) (parse_loop_all (b ∷ bs)))
]

-- The events of a chunk, written back to the PTY in order, are the bytes of the chunk behind the
-- ESC that was pending before it, up to an ESC that is pending after it: nothing is lost, invented
-- or moved, and a byte changes only where 0x08 becomes 0x7f.
pub parse_bytes-SameBytes :
    (buf : List ℕ) (pending : Bool)
    → SameBytes (escape_if pending ++ buf) (written (parse_bytes buf pending))
unfolding parse_bytes
parse_bytes-SameBytes buf true = after_pending-SameBytes buf
parse_bytes-SameBytes buf false = parse_loop_all buf
