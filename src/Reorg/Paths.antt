-- ===== src/Reorg/Paths.antt =====
-- The hardened walk: it returns the path to the root when there is one, and its bound on the number
-- of steps is never what ends it.
use trilogicon_core.Prelude.{
  Distinct, ℕ, zero, suc, ◌+◌, ◌≡◌, ◌≤◌, ◌<◌, Text, ok, err, some, false, List, [], ◌∷◌, ◌++◌, ◌↔◌,
  arith, text_eq, length, contains, All, u64_max, Option-cases, Result-cases, inl, inr, refl, ap,
  sym, ◌∙◌, ◌=?◌, nat_eq,
}
use trilogicon_core.Prelude.Maps.{get}
use trilogicon_core.Reorg.BlockIndex.{
  BlockIndex, BlockIndexEntry, validated_parent_hash, path_from, path_from_tip_toward_genesis,
  cycle, limit,
}
use trilogicon_core.Reorg.Links.{
  height_in, IsParent, validated_parent_hash_cycle, Descends, IsStored, length-Distinct,
  validated_parent_hash_sound, validated_parent_hash_complete,
}

-- What a walk that stands at `cur` has behind it: distinct stored blocks, all above `cur`.
pub record Walked (idx : BlockIndex) (visited : List Text) (cur : Text) : Type 0 where
  pub distinct : Distinct visited
  pub stored : All (IsStored idx) visited
  pub above : All (λ v. height_in idx cur < height_in idx v) visited

pub above_new :
    (idx : BlockIndex) (visited : List Text) (cur : Text)
    → All (λ v. height_in idx cur < height_in idx v) visited
    → contains cur visited ≡ false
unfolding contains
above_new idx [] cur h = refl
above_new idx (v ∷ vs) cur h = elim (cur =? v) [
  | yes e ↦ absurd (omega (arith, h.0, ap (height_in idx) e))
  | no n ↦ ground (arith, above_new idx vs cur h.1)
]

pub lower :
    (idx : BlockIndex) (visited : List Text) (cur p : Text)
    → height_in idx p < height_in idx cur
    → All (λ v. height_in idx cur < height_in idx v) visited
    → All (λ v. height_in idx p < height_in idx v) visited
lower idx [] cur p l h = tt
lower idx (v ∷ vs) cur p l h = (omega (arith, h.0), lower idx vs cur p l h.1)

pub parent_lower :
    (idx : BlockIndex) (h p : Text) → IsParent idx h p → height_in idx p < height_in idx h
parent_lower idx h p k = rw (k.child_stored, k.parent_stored) (omega (arith, k.one_above))

pub parent-Walked :
    (idx : BlockIndex) (visited : List Text) (cur p : Text)
    → IsParent idx cur p
    → Walked idx visited cur
    → Walked idx (cur ∷ visited) p
parent-Walked idx visited cur p k w = record {
  distinct = (above_new idx visited cur w.above, w.distinct);
  stored = ((k.child, k.child_stored), w.stored);
  above = (parent_lower idx cur p k, lower idx visited cur p (parent_lower idx cur p k) w.above);
}

pub not_visited :
    (idx : BlockIndex) (visited : List Text) (cur : Text)
    → Walked idx visited cur
    → contains cur visited ≡ false
not_visited idx visited cur w = above_new idx visited cur w.above

-- The steps left are enough.
abbrev pub IsEnough : ℕ → BlockIndex → List Text → Type 0
IsEnough fuel idx visited = length idx.by_hash + 2 ≤ fuel + length visited

pub IsEnough-positive :
    (idx : BlockIndex) (visited : List Text) (cur : Text)
    → Walked idx visited cur
    → ¬ IsEnough 0 idx visited
IsEnough-positive idx visited cur w e =
    omega (arith, e, length-Distinct visited idx.by_hash w.distinct w.stored)

pub append_last :
    (chain rest : List Text) (x : Text) → (chain ++ x ∷ []) ++ rest ≡ chain ++ x ∷ rest
append_last [] rest x = refl
append_last (c ∷ cs) rest x = ap (◌∷◌ c) (append_last cs rest x)

-- The list starts with `h` and goes on with what descends from a parent.
cons-Descends :
    (idx : BlockIndex) (h p : Text) (rest : List Text)
    → IsParent idx h p
    → Descends idx p rest
    → Descends idx h (h ∷ rest)
cons-Descends idx h p [] k d = absurd d
cons-Descends idx h p (x ∷ []) k d = rw d.0 (refl, k, (refl, d.1))
cons-Descends idx h p (x ∷ y ∷ ys) k d = rw d.0 (refl, k, (refl, d.1, d.2))

path_from_sound :
    (fuel : ℕ) (idx : BlockIndex) (visited chain : List Text) (cur : Text) (out : List Text)
    → path_from fuel idx visited chain cur ≡ ok out
    → (rest : List Text) × (out ≡ chain ++ rest) × Descends idx cur rest
unfolding path_from
path_from_sound zero idx visited chain cur out r = absurd (ground arith)
path_from_sound (suc fuel) idx visited chain cur out r = elim (Option-cases (get cur idx.by_hash)) [
  | inl gone ↦ absurd (ground arith)
  | inr (e, there) ↦ elim (e.height =? 0) [
    | yes q ↦ (cur ∷ [], ground arith, (refl, (e, there, q)))
    | no n ↦ elim (Result-cases (validated_parent_hash idx cur e)) [
      | inr (x, bad) ↦ absurd (ground arith)
      | inl (p, good) ↦
          let (rest, eq, d) =
            path_from_sound fuel idx (cur ∷ visited) (chain ++ cur ∷ []) p out (ground arith) in
          (
            cur ∷ rest,
            eq ∙ append_last chain rest cur,
            cons-Descends idx cur p rest (validated_parent_hash_sound idx cur p e there good) d,
          )
    ]
  ]
]

path_from_step :
    (fuel : ℕ) (idx : BlockIndex) (visited chain : List Text) (cur p : Text)
    → contains cur visited ≡ false
    → IsParent idx cur p
    → path_from (suc fuel) idx visited chain cur
      ≡ path_from fuel idx (cur ∷ visited) (chain ++ cur ∷ []) p
unfolding path_from
path_from_step fuel idx visited chain cur p fresh k =
    ground (arith, validated_parent_hash_complete idx cur p k.child k.child_stored k)

path_from_complete :
    (fuel : ℕ) (idx : BlockIndex) (visited chain : List Text) (cur : Text) (rest : List Text)
    → Walked idx visited cur
    → IsEnough fuel idx visited
    → Descends idx cur rest
    → path_from fuel idx visited chain cur ≡ ok (chain ++ rest)
unfolding path_from
path_from_complete fuel idx visited chain cur [] w n d = absurd d
path_from_complete zero idx visited chain cur (x ∷ xs) w n d =
    absurd (IsEnough-positive idx visited cur w n)
path_from_complete (suc fuel) idx visited chain cur (x ∷ []) w n (e, (root, there, q)) =
    rw (not_visited idx visited cur w, path_from) (rw there (ground arith))
path_from_complete (suc fuel) idx visited chain cur (x ∷ y ∷ ys) w n (e, k, d) =
    path_from_step fuel idx visited chain cur y (not_visited idx visited cur w) k
    ∙ path_from_complete fuel idx (cur ∷ visited) (chain ++ cur ∷ []) y (y ∷ ys)
        (parent-Walked idx visited cur y k w) (omega (arith, n)) d
    ∙ ap ok (append_last chain (y ∷ ys) cur ∙ ap (λ z. chain ++ z ∷ y ∷ ys) (sym e))

pub limit_eq :
    (idx : BlockIndex) → length idx.by_hash + 2 ≤ u64_max → limit idx ≡ length idx.by_hash + 2
limit_eq idx n = ground arith

-- Nothing is behind a walk that starts.
pub walk_starts : (idx : BlockIndex) (tip : Text) → Walked idx [] tip
walk_starts idx tip = record { distinct = tt; stored = tt; above = tt }

-- The walk to the root returns a list exactly when it leads from the tip, by stored parents one
-- height below, to a stored block of height 0; then it is that list. The index must have fewer than
-- u64_max - 1 blocks.
pub path_from_tip_iff :
    (idx : BlockIndex) (tip : Text) (path : List Text)
    → length idx.by_hash + 2 ≤ u64_max
    → (path_from_tip_toward_genesis idx tip ≡ ok path) ↔ Descends idx tip path
unfolding path_from_tip_toward_genesis
path_from_tip_iff idx tip path n = (
  λ r. let (rest, eq, d) = path_from_sound (limit idx) idx [] [] tip path r in rw eq d,
  λ d. rw (limit_eq idx n) (
      path_from_complete (length idx.by_hash + 2) idx [] [] tip path (walk_starts idx tip)
        (omega arith) d),
)

path_from_cycle :
    (fuel : ℕ) (idx : BlockIndex) (visited chain : List Text) (cur b : Text)
    → Walked idx visited cur
    → IsEnough fuel idx visited
    → path_from fuel idx visited chain cur ≡ err (cycle b)
    → (e : BlockIndexEntry) × (get b idx.by_hash ≡ some e) × (e.parent_hash ≡ b)
unfolding path_from
path_from_cycle zero idx visited chain cur b w n r = absurd (IsEnough-positive idx visited cur w n)
path_from_cycle (suc fuel) idx visited chain cur b w n r =
    elim (Option-cases (get cur idx.by_hash)) [
      | inl gone ↦ absurd (ground (arith, not_visited idx visited cur w))
      | inr (e, there) ↦ elim (e.height =? 0) [
        | yes q ↦ absurd (ground (arith, not_visited idx visited cur w))
        | no m ↦ elim (Result-cases (validated_parent_hash idx cur e)) [
          | inr (x, bad) ↦
              let (same, own) =
                validated_parent_hash_cycle idx cur b e
                  (bad ∙ ground (arith, not_visited idx visited cur w)) in
              (e, rw same there, own ∙ sym same)
          | inl (p, good) ↦
              path_from_cycle fuel idx (cur ∷ visited) (chain ++ cur ∷ []) p b
                (parent-Walked idx visited cur p
                  (validated_parent_hash_sound idx cur p e there good) w)
                (omega (arith, n)) (ground (arith, not_visited idx visited cur w))
        ]
      ]
    ]

-- The walk reports a cycle only for a stored block that names itself as its parent: neither the
-- bound on the steps nor the set of visited blocks ever stops it. The index must have fewer than
-- u64_max - 1 blocks.
pub path_from_tip_cycle :
    (idx : BlockIndex) (tip b : Text)
    → length idx.by_hash + 2 ≤ u64_max
    → path_from_tip_toward_genesis idx tip ≡ err (cycle b)
    → (e : BlockIndexEntry) × (get b idx.by_hash ≡ some e) × (e.parent_hash ≡ b)
unfolding path_from_tip_toward_genesis
path_from_tip_cycle idx tip b n r =
    path_from_cycle (length idx.by_hash + 2) idx [] [] tip b (walk_starts idx tip) (omega arith)
      (rw (← limit_eq idx n) r)
