-- ===== src/Reorg/Heights.antt =====
-- The heights along the two segments of a plan: no block is listed twice, and the fork in neither.
use trilogicon_core.Prelude.{
  ◌≡◌, ◌≤◌, ◌<◌, ◌=?◌, Text, ok, ⊤, false, List, [], ◌∷◌, arith, All, contains, refl, text_eq, ap,
  sym, subst,
}
use trilogicon_core.Reorg.BlockIndex.{BlockIndex}
use trilogicon_core.Reorg.Links.{height_in}
use trilogicon_core.Reorg.Paths.{parent_lower, above_new, lower}
use trilogicon_core.Reorg.Forks.{Segment}
use trilogicon_core.Reorg.Ancestry.{IsGrounded, child-IsGrounded, parent-IsGrounded}
use trilogicon_core.Reorg.Plan.{reverse_onto, ensure_unique_hashes, ensure_fork_outside}

pub fork-IsGrounded :
    (idx : BlockIndex) (h f : Text) (xs : List Text)
    → Segment idx h xs f
    → IsGrounded idx h
    → IsGrounded idx f
fork-IsGrounded idx h f [] s k = subst (IsGrounded idx) s k
fork-IsGrounded idx h f (x ∷ xs) (e, p, l, s) k =
    fork-IsGrounded idx p f xs s (parent-IsGrounded idx h p l k)

pub tip-IsGrounded :
    (idx : BlockIndex) (h f : Text) (xs : List Text)
    → Segment idx h xs f
    → IsGrounded idx f
    → IsGrounded idx h
tip-IsGrounded idx h f [] s k = subst (IsGrounded idx) (sym s) k
tip-IsGrounded idx h f (x ∷ xs) (e, p, l, s) k =
    child-IsGrounded idx h p l (tip-IsGrounded idx p f xs s k)

fork_lower :
    (idx : BlockIndex) (h f : Text) (xs : List Text)
    → Segment idx h xs f
    → height_in idx f ≤ height_in idx h
fork_lower idx h f [] s = omega (arith, ap (height_in idx) s)
fork_lower idx h f (x ∷ xs) (e, p, l, s) =
    omega (arith, fork_lower idx p f xs s, parent_lower idx h p l)

-- The heights rise along the list, from above that of `h`.
abbrev pub Rises : BlockIndex → Text → List Text → Type 0
Rises idx h [] = ⊤
Rises idx h (x ∷ xs) = (height_in idx h < height_in idx x) × Rises idx x xs

pub reverse-Rises :
    (idx : BlockIndex) (h f : Text) (xs tail : List Text)
    → Segment idx h xs f
    → Rises idx h tail
    → Rises idx f (reverse_onto xs tail)
unfolding reverse_onto
reverse-Rises idx h f [] tail s r = subst (λ z. Rises idx z tail) s r
reverse-Rises idx h f (x ∷ xs) tail (e, p, l, s) r =
    reverse-Rises idx p f xs (x ∷ tail) s (rw e (parent_lower idx h p l, r))

pub unique_falling :
    (idx : BlockIndex) (h f : Text) (xs seen : List Text) (side : Text)
    → Segment idx h xs f
    → All (λ v. height_in idx h < height_in idx v) seen
    → ensure_unique_hashes seen xs side ≡ ok tt
unfolding ensure_unique_hashes
unique_falling idx h f [] seen side s a = refl
unique_falling idx h f (x ∷ xs) seen side (e, p, l, s) a = ground (
  arith,
  above_new idx seen h a,
  unique_falling idx p f xs (h ∷ seen) side s
      (parent_lower idx h p l, lower idx seen h p (parent_lower idx h p l) a),
)

rest_below :
    (idx : BlockIndex) (h x : Text) (seen : List Text)
    → height_in idx h < height_in idx x
    → All (λ v. height_in idx v ≤ height_in idx h) seen
    → All (λ v. height_in idx v ≤ height_in idx x) seen
rest_below idx h x [] l a = tt
rest_below idx h x (v ∷ vs) l a = (omega (arith, a.0), rest_below idx h x vs l a.1)

fresh_above :
    (idx : BlockIndex) (h x : Text) (seen : List Text)
    → height_in idx h < height_in idx x
    → All (λ v. height_in idx v ≤ height_in idx h) seen
    → contains x seen ≡ false
unfolding contains
fresh_above idx h x [] l a = refl
fresh_above idx h x (v ∷ vs) l a = elim (x =? v) [
  | yes e ↦ absurd (omega (arith, a.0, ap (height_in idx) e))
  | no n ↦ ground (arith, fresh_above idx h x vs l a.1)
]

pub unique_rising :
    (idx : BlockIndex) (h : Text) (xs seen : List Text) (side : Text)
    → Rises idx h xs
    → All (λ v. height_in idx v ≤ height_in idx h) seen
    → ensure_unique_hashes seen xs side ≡ ok tt
unfolding ensure_unique_hashes
unique_rising idx h [] seen side r a = refl
unique_rising idx h (x ∷ xs) seen side r a = ground (
  arith,
  fresh_above idx h x seen r.0 a,
  unique_rising idx x xs (x ∷ seen) side r.1 (omega arith, rest_below idx h x seen r.0 a),
)

pub fork_outside_falling :
    (idx : BlockIndex) (h f : Text) (xs : List Text)
    → Segment idx h xs f
    → ensure_fork_outside f xs ≡ ok tt
unfolding ensure_fork_outside
fork_outside_falling idx h f [] s = refl
fork_outside_falling idx h f (x ∷ xs) (e, p, l, s) = elim (h =? f) [
  | yes q ↦
      absurd (omega (arith, ap (height_in idx) q, fork_lower idx p f xs s, parent_lower idx h p l))
  | no n ↦ ground (arith, fork_outside_falling idx p f xs s)
]

pub fork_outside_rising :
    (idx : BlockIndex) (h f : Text) (xs : List Text)
    → height_in idx f ≤ height_in idx h
    → Rises idx h xs
    → ensure_fork_outside f xs ≡ ok tt
unfolding ensure_fork_outside
fork_outside_rising idx h f [] l r = refl
fork_outside_rising idx h f (x ∷ xs) l r = elim (x =? f) [
  | yes q ↦ absurd (omega (arith, ap (height_in idx) q, r.0))
  | no n ↦ ground (arith, fork_outside_rising idx x f xs (omega (arith, r.0)) r.1)
]
