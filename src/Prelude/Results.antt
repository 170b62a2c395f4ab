-- ===== src/Prelude/Results.antt =====
-- `anyhow::Result`: a value, or an error with the contexts that were put round it.
use mathlib.Core.List.{List, [], ◌∷◌}
use tabra.Prelude.Texts.{Text}

-- The contexts, the outermost first, and the error inside.
pub record Failure : Type 0 where
  pub contexts : List Text
  pub cause : Text

pub data Result {ℓ} (A : Type ℓ) : Type ℓ where
  ok : A → Result A
  err : Failure → Result A

infixl 5 ◌>>=◌ ◌>>◌
abbrev pub ◌>>=◌ {ℓ κ} : {A : Type ℓ} {B : Type κ} → Result A → (A → Result B) → Result B
ok a >>= f = f a
err e >>= f = err e

abbrev pub ◌>>◌ {ℓ κ} : {A : Type ℓ} {B : Type κ} → Result A → Result B → Result B
m >> k = m >>= λ _. k

-- `.context(text)`.
abbrev pub context {ℓ} : {A : Type ℓ} → Text → Result A → Result A
context text (ok a) = ok a
context text (err e) = err (record e { contexts = text ∷ e.contexts })

-- `.or_else(|_| other)`.
abbrev pub or_else {ℓ} : {A : Type ℓ} → Result A → Result A → Result A
or_else (ok a) other = ok a
or_else (err e) other = other

-- `e.to_string()`: the outermost context, or the error itself where there is none.
abbrev pub shown_first : List Text → Text → Text
shown_first [] cause = cause
shown_first (c ∷ cs) cause = c

abbrev pub to_string : Failure → Text
to_string e = shown_first e.contexts e.cause

-- `bail!(text)`.
abbrev pub bail {ℓ} : {A : Type ℓ} → Text → Result A
bail text = err (record { contexts = []; cause = text })
