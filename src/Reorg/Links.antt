-- ===== src/Reorg/Links.antt =====
-- What a link of the index is, described without the code, and the count of distinct blocks.
use trilogicon_core.Prelude.{
  ℕ, ◌+◌, ◌≡◌, ◌≢◌, ◌≤◌, Text, ok, err, Option, none, some, false, List, [], ◌∷◌, arith, text_eq,
  length, contains, Distinct, All, u64_max, Option-cases, inl, inr,
}
use trilogicon_core.Prelude.Maps.{Dict, get, remove, length-remove, get-remove_ne}
use trilogicon_core.Reorg.BlockIndex.{BlockIndex, BlockIndexEntry, validated_parent_hash, cycle}

-- The height stored for a block, 0 for an unknown one.
abbrev height_or_zero : Option BlockIndexEntry → ℕ
height_or_zero none = 0
height_or_zero (some e) = e.height

abbrev pub height_in : BlockIndex → Text → ℕ
height_in idx h = height_or_zero (get h idx.by_hash)

-- A stored block of height 0.
abbrev pub IsRoot : BlockIndex → Text → Type 0
IsRoot idx h = (e : BlockIndexEntry) × (get h idx.by_hash ≡ some e) × (e.height ≡ 0)

-- `p` is the stored parent of the stored block `h`, one below it.
pub record IsParent (idx : BlockIndex) (h p : Text) : Type 0 where
  pub child : BlockIndexEntry
  pub parent : BlockIndexEntry
  pub child_stored : get h idx.by_hash ≡ some child
  pub parent_stored : get p idx.by_hash ≡ some parent
  pub named : child.parent_hash ≡ p
  pub not_empty : p ≢ []
  pub one_above : child.height ≡ parent.height + 1
  pub in_range : child.height ≤ u64_max

-- The list leads from `h` by parents to a root.
abbrev pub Descends : BlockIndex → Text → List Text → Type 0
Descends idx h [] = ⊥
Descends idx h (x ∷ []) = (x ≡ h) × IsRoot idx h
Descends idx h (x ∷ y ∷ ys) = (x ≡ h) × IsParent idx h y × Descends idx y (y ∷ ys)

pub validated_parent_hash_sound :
    (idx : BlockIndex) (h p : Text) (e : BlockIndexEntry)
    → get h idx.by_hash ≡ some e
    → validated_parent_hash idx h e ≡ ok p
    → IsParent idx h p
unfolding validated_parent_hash
validated_parent_hash_sound idx h p e there r =
    elim (Option-cases (get e.parent_hash idx.by_hash)) [
      | inl gone ↦ absurd (ground arith)
      | inr (pe, found) ↦ record {
        child = e;
        parent = pe;
        child_stored = there;
        parent_stored = ground arith;
        named = ground arith;
        not_empty = λ q. ground arith;
        one_above = ground arith;
        in_range = ground arith;
      }
    ]

pub validated_parent_hash_complete :
    (idx : BlockIndex) (h p : Text) (e : BlockIndexEntry)
    → get h idx.by_hash ≡ some e
    → IsParent idx h p
    → validated_parent_hash idx h e ≡ ok p
unfolding validated_parent_hash
validated_parent_hash_complete idx h p e there k = ground arith

pub validated_parent_hash_cycle :
    (idx : BlockIndex) (h b : Text) (e : BlockIndexEntry)
    → validated_parent_hash idx h e ≡ err (cycle b)
    → (b ≡ h) × (e.parent_hash ≡ h)
unfolding validated_parent_hash
validated_parent_hash_cycle idx h b e r = elim (Option-cases (get e.parent_hash idx.by_hash)) [
  | inl gone ↦ ground arith
  | inr (pe, found) ↦ ground arith
]

abbrev pub IsStored : BlockIndex → Text → Type 0
IsStored idx h = (e : BlockIndexEntry) × (get h idx.by_hash ≡ some e)

kept-remove :
    (x : Text) (m : Dict Text BlockIndexEntry) (xs : List Text)
    → contains x xs ≡ false
    → All (λ h. (e : BlockIndexEntry) × (get h m ≡ some e)) xs
    → All (λ h. (e : BlockIndexEntry) × (get h (remove x m) ≡ some e)) xs
unfolding contains
kept-remove x m [] n k = tt
kept-remove x m (y ∷ ys) n k =
    ((k.0.0, ground (arith, get-remove_ne x y m)), kept-remove x m ys (ground arith) k.1)

pub length-Distinct :
    (xs : List Text) (m : Dict Text BlockIndexEntry)
    → Distinct xs
    → All (λ h. (e : BlockIndexEntry) × (get h m ≡ some e)) xs
    → length xs ≤ length m
length-Distinct [] m d k = omega arith
length-Distinct (x ∷ xs) m d k = omega (
  arith,
  length-remove x k.0.0 m k.0.1,
  length-Distinct xs (remove x m) d.1 (kept-remove x m xs d.0 k.1),
)
