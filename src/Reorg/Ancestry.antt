-- ===== src/Reorg/Ancestry.antt =====
-- The blocks whose ancestry is valid: parents lead from them to a root that names no parent.
use trilogicon_core.Prelude.{
  ◌+◌, ◌≡◌, ◌≤◌, ◌↔◌, Text, ok, some, List, [], ◌∷◌, arith, length, u64_max, Result-cases, inl, inr,
  refl, get_last?, text_eq,
}
use trilogicon_core.Prelude.Maps.{get}
use trilogicon_core.Reorg.BlockIndex.{
  BlockIndex, BlockIndexEntry, path_from_tip_toward_genesis, validate_block_ancestry,
}
use trilogicon_core.Reorg.Links.{IsParent, Descends}
use trilogicon_core.Reorg.Paths.{path_from_tip_iff}

-- A stored block of height 0 that names no parent.
abbrev pub IsGenesis : BlockIndex → Text → Type 0
IsGenesis idx h =
    (e : BlockIndexEntry) × (get h idx.by_hash ≡ some e) × (e.height ≡ 0) × (e.parent_hash ≡ [])

-- The list leads from `h` by parents to such a block.
abbrev pub Ancestry : BlockIndex → Text → List Text → Type 0
Ancestry idx h [] = ⊥
Ancestry idx h (x ∷ []) = (x ≡ h) × IsGenesis idx h
Ancestry idx h (x ∷ y ∷ ys) = (x ≡ h) × IsParent idx h y × Ancestry idx y (y ∷ ys)

abbrev pub IsGrounded : BlockIndex → Text → Type 0
IsGrounded idx h = (path : List Text) × Ancestry idx h path

path-Descends :
    (idx : BlockIndex) (h : Text) (path : List Text) → Ancestry idx h path → Descends idx h path
path-Descends idx h [] k = k
path-Descends idx h (x ∷ []) (e, (b, there, zero_high, bare)) = (e, (b, there, zero_high))
path-Descends idx h (x ∷ y ∷ ys) (e, k, rest) = (e, k, path-Descends idx y (y ∷ ys) rest)

-- The end of an ancestry.
last-IsGenesis :
    (idx : BlockIndex) (h : Text) (path : List Text)
    → Ancestry idx h path
    → (r : Text) × (get_last? path ≡ some r) × IsGenesis idx r
last-IsGenesis idx h [] k = absurd k
last-IsGenesis idx h (x ∷ []) (e, root) = (h, rw e refl, root)
last-IsGenesis idx h (x ∷ y ∷ ys) (e, k, rest) = last-IsGenesis idx y (y ∷ ys) rest

path-Ancestry :
    (idx : BlockIndex) (h : Text) (path : List Text)
    → Descends idx h path
    → ((r : Text) (b : BlockIndexEntry)
        → get_last? path ≡ some r
        → get r idx.by_hash ≡ some b
        → b.parent_hash ≡ [])
    → Ancestry idx h path
path-Ancestry idx h [] k f = k
path-Ancestry idx h (x ∷ []) (e, (b, there, zero_high)) f =
    (e, (b, there, zero_high, f h b (rw e refl) there))
path-Ancestry idx h (x ∷ y ∷ ys) (e, k, rest) f = (e, k, path-Ancestry idx y (y ∷ ys) rest f)

-- The ancestry check accepts a block exactly when stored parents, each one below its child, lead
-- from it to a stored block of height 0 that names no parent. The index must have fewer than
-- u64_max - 1 blocks.
pub validate_block_ancestry_iff :
    (idx : BlockIndex) (h : Text)
    → length idx.by_hash + 2 ≤ u64_max
    → (validate_block_ancestry idx h ≡ ok tt) ↔ IsGrounded idx h
unfolding validate_block_ancestry
validate_block_ancestry_iff idx h n = (
  λ r. elim (Result-cases (path_from_tip_toward_genesis idx h)) [
    | inr (x, bad) ↦ absurd (ground arith)
    | inl (path, e) ↦ (
      path,
      path-Ancestry idx h path ((path_from_tip_iff idx h path n).0 e)
          (λ q b last there. ground arith),
    )
  ],
  λ (path, k).
      let (q, last, (b, there, zero_high, bare)) = last-IsGenesis idx h path k in
      ground (arith, (path_from_tip_iff idx h path n).1 (path-Descends idx h path k)),
)

pub child-IsGrounded :
    (idx : BlockIndex) (h p : Text) → IsParent idx h p → IsGrounded idx p → IsGrounded idx h
child-IsGrounded idx h p k ([], d) = absurd d
child-IsGrounded idx h p k (x ∷ [], (e, root)) = (h ∷ p ∷ [], (refl, k, (refl, root)))
child-IsGrounded idx h p k (x ∷ y ∷ ys, (e, k', d)) = (h ∷ p ∷ y ∷ ys, (refl, k, (refl, k', d)))

pub same_parent : (idx : BlockIndex) (h p q : Text) → IsParent idx h p → IsParent idx h q → p ≡ q
same_parent idx h p q k l = ground (arith, k.child_stored, l.child_stored, k.named, l.named)

pub parent-IsGrounded :
    (idx : BlockIndex) (h p : Text) → IsParent idx h p → IsGrounded idx h → IsGrounded idx p
parent-IsGrounded idx h p k ([], d) = absurd d
parent-IsGrounded idx h p k (x ∷ [], (e, (b, there, zero_high, bare))) =
    absurd (ground (arith, k.child_stored, k.one_above))
parent-IsGrounded idx h p k (x ∷ y ∷ ys, (e, k', d)) = rw (same_parent idx h p y k k') (y ∷ ys, d)
