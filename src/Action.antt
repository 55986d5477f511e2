-- ===== src/Action.antt =====
-- Methods on `&mut self` that may return an error: the error comes back with the state as it is at
-- that point, so that an early return after a write would show.
use trilogicon_core.Prelude.{ok, err, ⊤}
use trilogicon_core.Errors.{Checked}

abbrev pub Action : Type 0 → Type 0 → Type 0
Action S A = S → Checked A × S

module _ {S : Type 0} where
  -- A step that reads and writes nothing of the state: `e?`.
  abbrev pub lift : {A : Type 0} → Checked A → Action S A
  lift r s = (r, s)

  abbrev pub gets : {A : Type 0} → (S → A) → Action S A
  gets f s = (ok (f s), s)

  abbrev pub modify : (S → S) → Action S ⊤
  modify f s = (ok tt, f s)

infixl 5 ◌>>=◌ ◌>>◌
abbrev pub ◌>>=◌ : {S A B : Type 0} → Action S A → (A → Action S B) → Action S B
◌>>=◌ m f s = let (r, s') = m s in elim r [ ok a ↦ f a s' | err e ↦ (err e, s') ]

abbrev pub ◌>>◌ : {S B : Type 0} → Action S ⊤ → Action S B → Action S B
m >> k = m >>= λ _. k
