-- ===== src/Reorg/BranchSelect.antt =====
-- node/src/v3/branch_select.rs: the preferred tip is the highest, and among the highest the one with
-- the largest hash.
use Prim.Native.Nat.{compare, Ordering}
use mathlib.Core.Option.{some-injective}
use trilogicon_core.Prelude.{
  ℕ, ◌≡◌, ◌≢◌, ◌<◌, ◌⊎◌, inl, inr, Text, Option, none, some, List, [], ◌∷◌, arith, refl, ap, sym,
  subst, ◌∙◌, Option-cases, ◌↔◌,
}

pub record TipDescriptor : Type 0 where
  pub height : ℕ
  pub block_hash : Text

-- `Ord` of `String`: byte by byte.
unfoldable pub compare_text : Text → Text → Ordering
compare_text [] [] = Ordering.eq
compare_text [] (y ∷ b) = Ordering.lt
compare_text (x ∷ a) [] = Ordering.gt
compare_text (x ∷ a) (y ∷ b) = elim (compare x y) [
  | Ordering.lt ↦ Ordering.lt
  | Ordering.eq ↦ compare_text a b
  | Ordering.gt ↦ Ordering.gt
]

-- The order derived for `BranchScore`: the fields in turn.
unfoldable pub compare_tips_for_selection : TipDescriptor → TipDescriptor → Ordering
compare_tips_for_selection a b = elim (compare a.height b.height) [
  | Ordering.lt ↦ Ordering.lt
  | Ordering.eq ↦ compare_text a.block_hash b.block_hash
  | Ordering.gt ↦ Ordering.gt
]

-- One step of `max_by_key`, which keeps the later of two equal items.
unfoldable pub better : TipDescriptor → TipDescriptor → TipDescriptor
better best t = elim (compare_tips_for_selection best t) [ Ordering.gt ↦ best | _ ↦ t ]

fold_better : TipDescriptor → List TipDescriptor → TipDescriptor
fold_better best [] = best
fold_better best (t ∷ ts) = fold_better (better best t) ts

unfoldable pub select_preferred_tip : List TipDescriptor → Option TipDescriptor
unfolding fold_better
select_preferred_tip [] = none
select_preferred_tip (t ∷ ts) = some (fold_better t ts)

-- One text comes before the other in a dictionary, or they are the same: at the first byte in which
-- they differ the one has the smaller, or it ends first.
abbrev pub IsTextAtMost : Text → Text → Type 0
IsTextAtMost [] b = Unit {0}
IsTextAtMost (x ∷ a) [] = ⊥
IsTextAtMost (x ∷ a) (y ∷ b) = (x < y) ⊎ ((x ≡ y) × IsTextAtMost a b)

-- The one tip is lower than the other, or as high with a hash that does not come behind.
abbrev pub IsAtMost : TipDescriptor → TipDescriptor → Type 0
IsAtMost a b =
    (a.height < b.height) ⊎ ((a.height ≡ b.height) × IsTextAtMost a.block_hash b.block_hash)

-- The comparison does not put the one tip above the other.
abbrev NotAbove : TipDescriptor → TipDescriptor → Type 0
NotAbove a b = compare_tips_for_selection a b ≢ Ordering.gt

text_total : (a b : Text) → compare_text a b ≡ Ordering.gt → compare_text b a ≢ Ordering.gt
unfolding compare_text
text_total [] b e = ground arith
text_total (x ∷ a) [] e = ground arith
text_total (x ∷ a) (y ∷ b) e = ground (arith, text_total a b)

text_antisym :
    (a b : Text) → compare_text a b ≢ Ordering.gt → compare_text b a ≢ Ordering.gt → a ≡ b
unfolding compare_text
text_antisym [] [] e f = refl
text_antisym [] (y ∷ b) e f = absurd (f refl)
text_antisym (x ∷ a) [] e f = absurd (e refl)
text_antisym (x ∷ a) (y ∷ b) e f = ground (arith, text_antisym a b)

text_trans :
    (a b d : Text)
    → compare_text a b ≢ Ordering.gt
    → compare_text b d ≢ Ordering.gt
    → compare_text a d ≢ Ordering.gt
unfolding compare_text
text_trans [] b [] e f = ground arith
text_trans [] b (z ∷ d) e f = ground arith
text_trans (x ∷ a) [] d e f = absurd (e refl)
text_trans (x ∷ a) (y ∷ b) [] e f = absurd (f refl)
text_trans (x ∷ a) (y ∷ b) (z ∷ d) e f = ground (arith, text_trans a b d)

pub tips_total : (a b : TipDescriptor) → compare_tips_for_selection a b ≡ Ordering.gt → NotAbove b a
unfolding compare_tips_for_selection
tips_total a b e = ground (arith, text_total a.block_hash b.block_hash)

pub tips_trans : (a b d : TipDescriptor) → NotAbove a b → NotAbove b d → NotAbove a d
unfolding compare_tips_for_selection
tips_trans a b d e f = ground (arith, text_trans a.block_hash b.block_hash d.block_hash)

pub tips_antisym : (a b : TipDescriptor) → NotAbove a b → NotAbove b a → a ≡ b
unfolding compare_tips_for_selection
tips_antisym a b e f = ground (arith, text_antisym a.block_hash b.block_hash)

tips_refl : (a : TipDescriptor) → NotAbove a a
tips_refl a = λ e. tips_total a a e e

better_left : (a b : TipDescriptor) → NotAbove a (better a b)
unfolding better
better_left a b = ground (arith, tips_refl a)

better_right : (a b : TipDescriptor) → NotAbove b (better a b)
unfolding better
better_right a b = ground (arith, tips_total a b, tips_refl b)

-- A tip of the list.
abbrev pub Among : TipDescriptor → List TipDescriptor → Type 0
Among t [] = ⊥
Among t (x ∷ xs) = (t ≡ x) ⊎ Among t xs

better_either : (a b : TipDescriptor) → (better a b ≡ a) ⊎ (better a b ≡ b)
unfolding better
better_either a b = ground arith

fold_better-Among :
    (best : TipDescriptor) (ts : List TipDescriptor) → Among (fold_better best ts) (best ∷ ts)
unfolding fold_better
fold_better-Among best [] = inl refl
fold_better-Among best (t ∷ ts) =
    ground (arith, better_either best t, fold_better-Among (better best t) ts)

fold_better_above :
    (best : TipDescriptor) (ts : List TipDescriptor) (u : TipDescriptor)
    → Among u (best ∷ ts)
    → NotAbove u (fold_better best ts)
unfolding fold_better
fold_better_above best [] u (inl e) = rw e (tips_refl best)
fold_better_above best [] u (inr e) = absurd e
fold_better_above best (t ∷ ts) u (inl e) = rw e (
    tips_trans best (better best t) (fold_better (better best t) ts) (better_left best t)
      (fold_better_above (better best t) ts (better best t) (inl refl)))
fold_better_above best (t ∷ ts) u (inr (inl e)) = rw e (
    tips_trans t (better best t) (fold_better (better best t) ts) (better_right best t)
      (fold_better_above (better best t) ts (better best t) (inl refl)))
fold_better_above best (t ∷ ts) u (inr (inr m)) = fold_better_above (better best t) ts u (inr m)

compare_text-IsTextAtMost : (a b : Text) → (compare_text a b ≢ Ordering.gt) ↔ IsTextAtMost a b
unfolding compare_text
compare_text-IsTextAtMost [] [] = (λ h. tt, λ h e. ground arith)
compare_text-IsTextAtMost [] (y ∷ b) = (λ h. tt, λ h e. ground arith)
compare_text-IsTextAtMost (x ∷ a) [] = (λ h. absurd (h refl), λ h. absurd h)
compare_text-IsTextAtMost (x ∷ a) (y ∷ b) =
    let ih = compare_text-IsTextAtMost a b in
    (λ h. ground (arith, h, ih.0), λ h e. ground (arith, h, e, ih.1))

compare_tips-IsAtMost : (a b : TipDescriptor) → NotAbove a b ↔ IsAtMost a b
unfolding compare_tips_for_selection
compare_tips-IsAtMost a b =
    let texts = compare_text-IsTextAtMost a.block_hash b.block_hash in
    (λ h. ground (arith, h, texts.0), λ h e. ground (arith, h, e, texts.1))

-- A tip of the list such that every tip of the list is lower, or as high with a hash that does not
-- come behind.
abbrev pub IsGreatest : TipDescriptor → List TipDescriptor → Type 0
IsGreatest t ts = Among t ts × ((u : TipDescriptor) → Among u ts → IsAtMost u t)

-- The selected tip is the one tip of the list that is the greatest by height and, among the highest,
-- by hash, byte for byte.
pub select_preferred_tip_iff :
    (ts : List TipDescriptor) (t : TipDescriptor)
    → (select_preferred_tip ts ≡ some t) ↔ IsGreatest t ts
unfolding select_preferred_tip
select_preferred_tip_iff [] t = (λ e. ground arith, λ k. absurd k.0)
select_preferred_tip_iff (x ∷ ts) t = (
  λ e.
      subst (λ z. IsGreatest z (x ∷ ts)) (some-injective _ _ e)
        (
          fold_better-Among x ts,
          λ u m. (compare_tips-IsAtMost u (fold_better x ts)).0 (fold_better_above x ts u m),
        ),
  λ k. ap some (
      tips_antisym (fold_better x ts) t
        ((compare_tips-IsAtMost (fold_better x ts) t).1
          (k.1 (fold_better x ts) (fold_better-Among x ts)))
        (fold_better_above x ts t k.0)),
)

-- The order and the repetition of the candidates do not matter: two lists of the same tips select
-- the same tip.
pub select_preferred_tip_same :
    (ts us : List TipDescriptor)
    → ((t : TipDescriptor) → Among t ts ↔ Among t us)
    → select_preferred_tip ts ≡ select_preferred_tip us
select_preferred_tip_same ts us h = elim (Option-cases (select_preferred_tip ts)) [
  | inr (t, e) ↦
      let k = (select_preferred_tip_iff ts t).0 e in
      e ∙ sym ((select_preferred_tip_iff us t).1 ((h t).0 k.0, λ u m. k.1 u ((h u).1 m)))
  | inl e ↦ elim (Option-cases (select_preferred_tip us)) [
    | inl e' ↦ e ∙ sym e'
    | inr (t, e') ↦
        let k = (select_preferred_tip_iff us t).0 e' in
        (select_preferred_tip_iff ts t).1 ((h t).1 k.0, λ u m. k.1 u ((h u).0 m)) ∙ sym e'
  ]
]
