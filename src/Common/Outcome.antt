-- ===== src/Common/Outcome.antt =====
-- What a Go function that reads returns: a value, `io.EOF`, another error, or a panic.
pub data Outcome (A : Type 0) : Type 0 where
  ok : A → Outcome A
  eof failed panics : Outcome A

infixl 5 ◌>>=◌
abbrev pub ◌>>=◌ : {A B : Type 0} → Outcome A → (A → Outcome B) → Outcome B
ok a >>= f = f a
eof >>= f = eof
failed >>= f = failed
panics >>= f = panics
