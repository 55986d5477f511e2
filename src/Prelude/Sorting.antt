-- ===== src/Prelude/Sorting.antt =====
-- Rust's `sort_by` on string keys, and what the order of the keys decides.
use Prim.Native.Nat.{◌+◌}
use mathlib.Core.Path.{◌≡◌, refl, ap, ap₂, ◌∙◌}
use mathlib.Core.Logic.{ite, inl, inr}
use mathlib.Core.Bool.{true, false}
use mathlib.Core.Option.{none, some}
use mathlib.Core.List.{List, [], ◌∷◌}
use native.Mathlib.Omega.{arith}
use trilogicon_core.Prelude.Tests.{if◌then◌else◌, ◌=?◌, Bool-cases}
use trilogicon_core.Prelude.Lists.{All, length}
use trilogicon_core.Prelude.Bytes.{Text, text_leb, text_eq}
use trilogicon_core.Prelude.Maps.{Dict, get, Unique}

-- The byte order of strings is linear.
pub text_leb_refl : (a : Text) → text_leb a a ≡ true
unfolding text_leb
text_leb_refl [] = refl
text_leb_refl (x ∷ a) = ground (arith, text_leb_refl a)

pub text_leb_total : (a b : Text) → text_leb a b ≡ false → text_leb b a ≡ true
unfolding text_leb
text_leb_total [] b e = cc
text_leb_total (x ∷ a) [] e = refl
text_leb_total (x ∷ a) (y ∷ b) e = ground (arith, text_leb_total a b)

pub text_leb_antisymm : (a b : Text) → text_leb a b ≡ true → text_leb b a ≡ true → a ≡ b
unfolding text_leb
text_leb_antisymm [] [] e f = refl
text_leb_antisymm [] (y ∷ b) e f = cc
text_leb_antisymm (x ∷ a) [] e f = cc
text_leb_antisymm (x ∷ a) (y ∷ b) e f = ground (arith, text_leb_antisymm a b)

pub text_leb_trans :
    (a b d : Text) → text_leb a b ≡ true → text_leb b d ≡ true → text_leb a d ≡ true
unfolding text_leb
text_leb_trans [] b d e f = refl
text_leb_trans (x ∷ a) [] d e f = cc
text_leb_trans (x ∷ a) (y ∷ b) [] e f = cc
text_leb_trans (x ∷ a) (y ∷ b) (z ∷ d) e f = ground (arith, text_leb_trans a b d)

-- `a < b`
abbrev pub Below : Text → Text → Type 0
Below a b = text_leb b a ≡ false

lower_trans : (a b d : Text) → Below a b → Below b d → Below a d
lower_trans a b d p q = elim (Bool-cases (text_leb d a)) [
  | inr less ↦ less
  | inl more ↦ absurd (ground (arith, text_leb_trans d a b more (text_leb_total b a p)))
]

module _ {V : Type 0} where
  -- `sort_by` on the keys: a stable sort.
  unfoldable pub insert_sorted : Text × V → List (Text × V) → List (Text × V)
  insert_sorted p [] = p ∷ []
  insert_sorted p (q ∷ rest) = if text_leb p.0 q.0 then p ∷ q ∷ rest else q ∷ insert_sorted p rest

  unfoldable pub sort_pairs : List (Text × V) → List (Text × V)
  sort_pairs [] = []
  sort_pairs (p ∷ rest) = insert_sorted p (sort_pairs rest)

  -- The keys ascend.
  abbrev pub Ascends : Dict Text V → Type 0
  Ascends [] = Unit
  Ascends (p ∷ rest) = All (λ q. Below p.0 q.0) rest × Ascends rest

  get-insert_sorted :
      (k j : Text) (v : V) (m : Dict Text V)
      → get j m ≡ none
      → get k (insert_sorted (j, v) m) ≡ ite (k =? j) (some v) (get k m)
  unfolding get insert_sorted
  get-insert_sorted k j v [] e = refl
  get-insert_sorted k j v ((i, w) ∷ m) e = ground (arith, get-insert_sorted k j v m)

  pub get-sort_pairs : (k : Text) (m : Dict Text V) → Unique m → get k (sort_pairs m) ≡ get k m
  unfolding get sort_pairs
  get-sort_pairs k [] u = refl
  get-sort_pairs k ((j, v) ∷ m) u =
      get-insert_sorted k j v (sort_pairs m) (get-sort_pairs j m u.1 ∙ u.0)
      ∙ ap (ite (k =? j) (some v)) (get-sort_pairs k m u.1)

  All-insert_sorted {μ} :
      (P : Text × V → Type μ) (p : Text × V) (m : Dict Text V)
      → P p
      → All P m
      → All P (insert_sorted p m)
  unfolding insert_sorted
  All-insert_sorted P p [] h a = (h, tt)
  All-insert_sorted P p (q ∷ m) h a = elim (Bool-cases (text_leb p.0 q.0)) [
    | inl e ↦ rw e (h, a)
    | inr e ↦ rw e (a.0, All-insert_sorted P p m h a.1)
  ]

  pub All-sort_pairs {μ} :
      (P : Text × V → Type μ) (m : Dict Text V) → All P m → All P (sort_pairs m)
  unfolding sort_pairs
  All-sort_pairs P [] a = tt
  All-sort_pairs P (p ∷ m) a = All-insert_sorted P p (sort_pairs m) a.0 (All-sort_pairs P m a.1)

  length-insert_sorted :
      (p : Text × V) (m : List (Text × V)) → length (insert_sorted p m) ≡ length m + 1
  unfolding insert_sorted
  length-insert_sorted p [] = omega arith
  length-insert_sorted p (q ∷ m) = ground (arith, length-insert_sorted p m)

  pub length-sort_pairs : (m : List (Text × V)) → length (sort_pairs m) ≡ length m
  unfolding sort_pairs
  length-sort_pairs [] = refl
  length-sort_pairs (p ∷ m) =
      omega (arith, length-insert_sorted p (sort_pairs m), length-sort_pairs m)

  above-Below :
      (a b : Text) (m : Dict Text V)
      → Below a b
      → All (λ q. Below b q.0) m
      → All (λ q. Below a q.0) m
  above-Below a b [] l h = tt
  above-Below a b (q ∷ m) l h = (lower_trans a b q.0 l h.0, above-Below a b m l h.1)

  insert_sorted-Ascends :
      (j : Text) (v : V) (m : Dict Text V)
      → get j m ≡ none
      → Ascends m
      → Ascends (insert_sorted (j, v) m)
  unfolding insert_sorted get
  insert_sorted-Ascends j v [] n a = (tt, tt)
  insert_sorted-Ascends j v ((i, w) ∷ m) n a = elim (Bool-cases (text_leb j i)) [
    | inr e ↦ rw e (
      All-insert_sorted (λ q. Below i q.0) (j, v) m e a.0,
      insert_sorted-Ascends j v m (ground arith) a.1,
    )
    | inl e ↦
        let l : Below j i = elim (Bool-cases (text_leb i j)) [
          | inr less ↦ less
          | inl more ↦ absurd (ground (arith, text_leb_antisymm j i e more))
        ] in
        rw e ((l, above-Below j i m l a.0), a)
  ]

  pub sort_pairs-Ascends : (m : Dict Text V) → Unique m → Ascends (sort_pairs m)
  unfolding sort_pairs
  sort_pairs-Ascends [] u = tt
  sort_pairs-Ascends ((j, v) ∷ m) u =
      insert_sorted-Ascends j v (sort_pairs m) (get-sort_pairs j m u.1 ∙ u.0)
        (sort_pairs-Ascends m u.1)

  -- A key below all others is not among them.
  get_smaller : (a : Text) (m : Dict Text V) → All (λ q. Below a q.0) m → get a m ≡ none
  unfolding get
  get_smaller a [] h = refl
  get_smaller a ((i, w) ∷ m) h = ground (arith, get_smaller a m h.1, text_leb_refl a)

  get-Below :
      (a b : Text) (v : V) (m : Dict Text V)
      → All (λ q. Below b q.0) m
      → get a m ≡ some v
      → Below b a
  unfolding get
  get-Below a b v [] h e = cc
  get-Below a b v ((i, w) ∷ m) h e = ground (arith, get-Below a b v m h.1)

  -- Ascending lists that agree as dictionaries are equal.
  pub ascending_ext :
      (m n : Dict Text V) → Ascends m → Ascends n → ((k : Text) → get k m ≡ get k n) → m ≡ n
  unfolding get
  ascending_ext [] [] a b f = refl
  ascending_ext [] ((j, w) ∷ n) a b f = absurd (ground (arith, f j))
  ascending_ext ((i, v) ∷ m) [] a b f = absurd (ground (arith, f i))
  ascending_ext ((i, v) ∷ m) ((j, w) ∷ n) a b f = elim (i =? j) [
    | yes e ↦ ap₂ ◌∷◌ (ground (arith, f i)) (
        ascending_ext m n a.1 b.1 λ k. elim (k =? i) [
          | yes s ↦ ground (arith, get_smaller i m a.0, get_smaller j n b.0)
          | no o ↦ ground (arith, f k)
        ])
    | no o ↦ absurd (
        ground (
          arith,
          f i,
          f j,
          get-Below i j v n b.0,
          get-Below j i w m a.0,
          text_leb_total i j,
          text_leb_total j i,
        ))
  ]
