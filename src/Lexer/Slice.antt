-- ===== src/Lexer/Slice.antt =====
-- The slice that `tokenize` reads.
use tabra.Prelude.{ℕ, ◌≡◌, Text, take, some, split_at-byte_of_char}
use tabra.Lexer.{relevant}

-- The slice before the cursor is never a panic: it holds the characters before the cursor, or the
-- whole line where the cursor is past its end.
relevant-eq-take : (buffer : Text) (cursor : ℕ) → relevant buffer cursor ≡ some (take cursor buffer)
unfolding relevant
relevant-eq-take buffer cursor = rw (split_at-byte_of_char buffer cursor, relevant)
