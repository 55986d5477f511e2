-- ===== src/Prelude/Maps.antt =====
-- Rust's HashMap and BTreeMap as association lists. A new key goes to the end, so the list order
-- is one possible iteration order of the hash map.
use mathlib.Core.Path.{◌≡◌, refl, subst, sym}
use mathlib.Core.Logic.{◌≢◌, ite, if_pos, if_neg}
use Prim.Native.Nat.{◌+◌}
use mathlib.Core.Option.{Option, none, some, some-injective}
use mathlib.Core.Bool.{Bool}
use mathlib.Core.List.{List, [], ◌∷◌}
use trilogicon_core.Prelude.Lists.{All, length}
use native.Mathlib.Omega.{arith}
use trilogicon_core.Prelude.Tests.{Eq, ◌=?◌, is_some}

none_ne_some {ℓ} : {V : Type ℓ} {v : V} → none ≡ some v → ⊥
none_ne_some e = cc

abbrev pub Dict {ℓ} : Type ℓ → Type ℓ → Type ℓ
Dict K V = List (K × V)

module _ {ℓ} {K V : Type ℓ} ⦃e : Eq K⦄ where
  unfoldable pub get : K → Dict K V → Option V
  get k [] = none
  get k ((j, v) ∷ m) = ite (k =? j) (some v) (get k m)

  abbrev pub contains_key : K → Dict K V → Bool
  contains_key k m = is_some (get k m)

  unfoldable pub insert : K → V → Dict K V → Dict K V
  insert k v [] = (k, v) ∷ []
  insert k v ((j, w) ∷ m) = ite (k =? j) ((j, v) ∷ m) ((j, w) ∷ insert k v m)

  unfoldable pub remove : K → Dict K V → Dict K V
  remove k [] = []
  remove k ((j, w) ∷ m) = ite (k =? j) m ((j, w) ∷ remove k m)

  -- No key is stored twice.
  abbrev pub Unique : Dict K V → Type ℓ
  Unique [] = Unit
  Unique ((j, w) ∷ m) = (get j m ≡ none) × Unique m

  pub get-insert :
      (k j : K) (v : V) (m : Dict K V) → get j (insert k v m) ≡ ite (j =? k) (some v) (get j m)
  unfolding get insert
  get-insert k j v [] = refl
  get-insert k j v ((i, w) ∷ m) = ground (arith, get-insert k j v m)

  pub get-insert_self : (k : K) (v : V) (m : Dict K V) → get k (insert k v m) ≡ some v
  get-insert_self k v m = ground (arith, get-insert k k v m)

  pub get-insert_ne : (k j : K) (v : V) (m : Dict K V) → j ≢ k → get j (insert k v m) ≡ get j m
  get-insert_ne k j v m h = ground (arith, get-insert k j v m)

  pub insert-Unique : (k : K) (v : V) (m : Dict K V) → Unique m → Unique (insert k v m)
  unfolding get insert
  insert-Unique k v [] u = (refl, tt)
  insert-Unique k v ((j, w) ∷ m) u = ground (arith, insert-Unique k v m u.1, get-insert k j v m)

  pub get-remove_ne : (k j : K) (m : Dict K V) → j ≢ k → get j (remove k m) ≡ get j m
  unfolding get remove
  get-remove_ne k j [] h = refl
  get-remove_ne k j ((i, w) ∷ m) h = ground (arith, get-remove_ne k j m h)

  pub get-remove_self : (k : K) (m : Dict K V) → Unique m → get k (remove k m) ≡ none
  unfolding get remove
  get-remove_self k [] u = refl
  get-remove_self k ((i, w) ∷ m) u = ground (arith, get-remove_self k m u.1)

  pub All-insert {μ} :
      (P : K × V → Type μ) (k : K) (v : V) (m : Dict K V)
      → All P m
      → P (k, v)
      → All P (insert k v m)
  unfolding insert
  All-insert P k v [] h p = (p, tt)
  All-insert P k v ((j, w) ∷ m) h p =
      elim (k =? j) as (λ d. All P (ite d ((j, v) ∷ m) ((j, w) ∷ insert k v m))) [
        | yes q ↦ (subst (λ x. P (x, v)) q p, h.1)
        | no n ↦ (h.0, All-insert P k v m h.1 p)
      ]

  pub All-get {μ} :
      (P : K × V → Type μ) (k : K) {v : V} (m : Dict K V) → All P m → get k m ≡ some v → P (k, v)
  unfolding get
  All-get P k [] h e = absurd (none_ne_some e)
  All-get P k {v} ((j, w) ∷ m) h e =
      elim (k =? j) as (λ d. ite d (some w) (get k m) ≡ some v → P (k, v)) [
        | yes q ↦
            λ e'. subst (λ x. P (x, v)) (sym q) (subst (λ y. P (j, y)) (some-injective w v e') h.0)
        | no n ↦ λ e'. All-get P k m h.1 e'
      ]
        e

  pub get-remove-none : (k j : K) (m : Dict K V) → get j m ≡ none → get j (remove k m) ≡ none
  unfolding get remove
  get-remove-none k j [] e = refl
  get-remove-none k j ((i, w) ∷ m) e = ground (arith, get-remove-none k j m)

  pub remove-Unique : (k : K) (m : Dict K V) → Unique m → Unique (remove k m)
  unfolding remove
  remove-Unique k [] u = tt
  remove-Unique k ((j, w) ∷ m) u = elim (k =? j) as (λ d. Unique (ite d m ((j, w) ∷ remove k m))) [
    | yes q ↦ u.1
    | no n ↦ (get-remove-none k j m u.0, remove-Unique k m u.1)
  ]

  pub All-remove {μ} : (P : K × V → Type μ) (k : K) (m : Dict K V) → All P m → All P (remove k m)
  unfolding remove
  All-remove P k [] h = tt
  All-remove P k ((j, w) ∷ m) h = elim (k =? j) as (λ d. All P (ite d m ((j, w) ∷ remove k m))) [
    | yes q ↦ h.1
    | no n ↦ (h.0, All-remove P k m h.1)
  ]

  pub get-remove :
      (k j : K) (m : Dict K V) → Unique m → get j (remove k m) ≡ ite (j =? k) none (get j m)
  get-remove k j m u = elim (j =? k) [
    | yes q ↦ rw (if_pos _ q) (rw q (get-remove_self k m u))
    | no n ↦ rw (if_neg _ n) (get-remove_ne k j m n)
  ]

  -- A stored key is counted.
  pub length-remove :
      (k : K) (v : V) (m : Dict K V) → get k m ≡ some v → length (remove k m) + 1 ≡ length m
  unfolding get remove
  length-remove k v [] e = absurd (none_ne_some e)
  length-remove k v ((j, w) ∷ m) e = ground (arith, length-remove k v m)

  pub length-insert_new :
      (k : K) (v : V) (m : Dict K V) → get k m ≡ none → length (insert k v m) ≡ length m + 1
  unfolding get insert
  length-insert_new k v [] e = omega arith
  length-insert_new k v ((j, w) ∷ m) e = ground (arith, length-insert_new k v m)

  pub All-of_get {μ} :
      (P : K × V → Type μ) (m : Dict K V)
      → Unique m
      → ((k : K) (v : V) → get k m ≡ some v → P (k, v))
      → All P m
  unfolding get
  All-of_get P [] u f = tt
  All-of_get P ((j, w) ∷ m) u f =
      (f j w (ground arith), All-of_get P m u.1 (λ k v e. f k v (ground arith)))
