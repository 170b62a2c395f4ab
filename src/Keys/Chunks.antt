-- ===== src/Keys/Chunks.antt =====
-- An escape sequence cut behind its ESC by the end of a chunk.
use tabra.Prelude.{
  ℕ, zero, suc, ◌≡◌, ◌≤◌, refl, ap, Bool, true, false, List, [], ◌∷◌, Option, none, some, length,
  length-append, arith,
}
use tabra.Keys.Rounds.{Round, take_one-Round, csi-Covers}
use tabra.Keys.{
  KeyEvent, take_one, after_escape, csi, parse_loop, after_pending, parse_bytes, add_event,
}

-- Any two amounts of fuel that are enough give one result.
parse_loop_fuel :
    (f g : ℕ) (s : List ℕ) → length s ≤ f → length s ≤ g → parse_loop f s ≡ parse_loop g s
unfolding parse_loop
parse_loop_fuel f g [] h k = refl
parse_loop_fuel zero g (b ∷ bs) h k = absurd (omega arith)
parse_loop_fuel (suc f) zero (b ∷ bs) h k = absurd (omega arith)
parse_loop_fuel (suc f) (suc g) (b ∷ bs) h k =
    go (take_one b bs) (take_one-Round b bs) (parse_loop_fuel f g)
  where
    go :
        (o : Option (KeyEvent × List ℕ))
        → Round (b ∷ bs) o
        → ((s : List ℕ) → length s ≤ f → length s ≤ g → parse_loop f s ≡ parse_loop g s)
        → ◌≡◌ {A = List KeyEvent × Bool}
            (elim o [ none ↦ ([], true) | some (e, rest) ↦ add_event e (parse_loop f rest) ])
            (elim o [ none ↦ ([], true) | some (e, rest) ↦ add_event e (parse_loop g rest) ])
    go none c ih = refl
    go (some (e, rest)) c ih =
        let l : suc (length rest) ≤ length (b ∷ bs) =
          omega (arith, ap length c.split, length-append c.taken rest, c.some_byte) in
        ap (add_event e) (ih rest (omega arith) (omega arith))

csi_shrinks : (bs : List ℕ) → length (csi bs).1 ≤ suc (length bs)
csi_shrinks bs =
    let c = csi-Covers bs in
    omega (arith, ap length c.split, length-append c.taken (csi bs).1, c.some_byte)

-- A sequence that is cut behind its ESC by the end of a chunk is read as if it had come whole.
parse_bytes_cut :
    (rest : List ℕ) → parse_bytes (b'[' ∷ rest) true ≡ parse_bytes (0x1b ∷ b'[' ∷ rest) false
unfolding parse_bytes after_pending parse_loop take_one after_escape
parse_bytes_cut rest =
    ap (add_event (csi rest).0) (parse_loop_fuel _ _ (csi rest).1 (omega arith) (csi_shrinks rest))
