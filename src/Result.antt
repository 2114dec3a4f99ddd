-- ===== src/Result.antt =====
-- Exceptions as values: `throw` is `err`, and a call that may throw returns a `Result`.
-- src/common/errors/index.ts: the classes of errors that the program throws.
use nest_quickfix.Text.{Text}

-- `Error` and `ParserError`, each with its `message`.
pub data Error : Type 0 where
  error parser_error : Text → Error

abbrev pub message_of : Error → Text
message_of (error t) = t
message_of (parser_error t) = t

pub data Result {ℓ} (A : Type ℓ) : Type ℓ where
  ok : A → Result A
  err : Error → Result A

infixl 5 ◌>>=◌ ◌>>◌
abbrev pub ◌>>=◌ {ℓ κ} : {A : Type ℓ} {B : Type κ} → Result A → (A → Result B) → Result B
ok a >>= f = f a
err e >>= f = err e

abbrev pub ◌>>◌ {ℓ κ} : {A : Type ℓ} {B : Type κ} → Result A → Result B → Result B
m >> k = m >>= λ _. k
