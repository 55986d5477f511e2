-- ===== src/Storage/Io.antt =====
-- Writes that may fail: what std::fs of node/src/storage.rs answers, and the steps that stop at the
-- first error and leave on disk what was written.
use trilogicon_core.Prelude.{ℕ, Result, ok, err, ⊤}

-- `write_all`: either everything is written, or an error comes after so many of the bytes. `sync_all`
-- and `rename`: the number says nothing.
pub data Outcome : Type 0 where
  fine : Outcome
  fails : ℕ → Outcome

-- `io::Error`, by its origin. The texts are left out.
pub data IoError : Type 0 where
  fail_closed : IoError
  invalid_input : IoError
  invalid_file : IoError
  os : IoError
  panicked : IoError

abbrev pub IoAction : Type 0 → Type 0 → Type 0
IoAction S A = S → Result IoError A × S

infixl 5 ◌>>=◌ ◌>>◌
abbrev pub ◌>>=◌ : {S A B : Type 0} → IoAction S A → (A → IoAction S B) → IoAction S B
◌>>=◌ m f s = let (r, s') = m s in elim r [ ok a ↦ f a s' | err e ↦ (err e, s') ]

abbrev pub ◌>>◌ : {S B : Type 0} → IoAction S ⊤ → IoAction S B → IoAction S B
m >> k = m >>= λ _. k
