-- ===== src/Reorg/Forks.antt =====
-- The slices between two tips: what they are when there are some, and when there are some.
use trilogicon_core.Prelude.{
  ℕ, zero, suc, ◌+◌, ◌≡◌, ◌≢◌, ◌=?◌, ◌≤◌, Text, ok, false, true, List, [], ◌∷◌, ◌++◌, append-nil,
  arith, text_eq, length, contains, decide_eq, All, u64_max, Option-cases, Bool-cases, Result-cases,
  inl, inr, refl, subst, ◌∙◌, nat_eq,
}
use trilogicon_core.Prelude.Maps.{get}
use trilogicon_core.Reorg.BlockIndex.{
  BlockIndex, ForkSlices, validated_parent_hash, seek_fork, walk_to_fork, fork_slices_between_tips,
  path_from_tip_toward_genesis, limit,
}
use trilogicon_core.Reorg.Links.{
  IsParent, Descends, validated_parent_hash_sound, validated_parent_hash_complete,
}
use trilogicon_core.Reorg.Paths.{
  Walked, IsEnough, parent-Walked, not_visited, IsEnough-positive, append_last, walk_starts,
  limit_eq, path_from_tip_iff,
}

-- The list leads from `h`, which it starts with, by parents to `f`, which it leaves out.
abbrev pub Segment : BlockIndex → Text → List Text → Text → Type 0
Segment idx h [] f = h ≡ f
Segment idx h (x ∷ xs) f = (x ≡ h) × (p : Text) × IsParent idx h p × Segment idx p xs f

seek_fork_sound :
    (fuel : ℕ) (idx : BlockIndex) (old visited suffix : List Text) (cur f : Text) (out : List Text)
    → seek_fork fuel idx old visited suffix cur ≡ ok (f, out)
    → (xs : List Text) × (out ≡ suffix ++ xs)
      × Segment idx cur xs f
      × All (λ x. contains x old ≡ false) xs
      × (contains f old ≡ true)
unfolding seek_fork
seek_fork_sound zero idx old visited suffix cur f out r = absurd (ground arith)
seek_fork_sound (suc fuel) idx old visited suffix cur f out r =
    elim (Bool-cases (contains cur old)) [
      | inl met ↦ ([], ground (arith, append-nil suffix), ground arith, tt, ground arith)
      | inr off ↦ elim (Option-cases (get cur idx.by_hash)) [
        | inl gone ↦ absurd (ground arith)
        | inr (e, there) ↦ elim (Result-cases (validated_parent_hash idx cur e)) [
          | inr (x, bad) ↦ absurd (ground arith)
          | inl (p, good) ↦
              let (xs, eq, seg, out_of, on) =
                seek_fork_sound fuel idx old (cur ∷ visited) (suffix ++ cur ∷ []) p f out
                  (ground arith) in
              (
                cur ∷ xs,
                eq ∙ append_last suffix xs cur,
                (refl, p, validated_parent_hash_sound idx cur p e there good, seg),
                (off, out_of),
                on,
              )
        ]
      ]
    ]

walk_to_fork_sound :
    (fuel : ℕ) (idx : BlockIndex) (fork : Text) (visited suffix : List Text) (cur f : Text)
    (out : List Text)
    → walk_to_fork fuel idx fork visited suffix cur ≡ ok (f, out)
    → (xs : List Text) × (out ≡ suffix ++ xs) × Segment idx cur xs f
unfolding walk_to_fork
walk_to_fork_sound zero idx fork visited suffix cur f out r =
    ([], ground (arith, append-nil suffix), ground arith)
walk_to_fork_sound (suc fuel) idx fork visited suffix cur f out r =
    elim (Bool-cases (decide_eq cur fork)) [
      | inl met ↦ ([], ground (arith, append-nil suffix), ground arith)
      | inr off ↦ elim (Option-cases (get cur idx.by_hash)) [
        | inl gone ↦ absurd (ground arith)
        | inr (e, there) ↦ elim (Result-cases (validated_parent_hash idx cur e)) [
          | inr (x, bad) ↦ absurd (ground arith)
          | inl (p, good) ↦
              let (xs, eq, seg) =
                walk_to_fork_sound fuel idx fork (cur ∷ visited) (suffix ++ cur ∷ []) p f out
                  (ground arith) in
              (
                cur ∷ xs,
                eq ∙ append_last suffix xs cur,
                (refl, p, validated_parent_hash_sound idx cur p e there good, seg),
              )
        ]
      ]
    ]

-- The slices describe two branches above one block: each suffix leads from its tip by parents to the
-- fork, which is on the path of the old tip to the root, while no block of the new suffix is.
pub record IsFork (idx : BlockIndex) (old_tip new_tip : Text) (s : ForkSlices) : Type 0 where
  pub old_segment : Segment idx old_tip s.old_suffix s.fork_hash
  pub new_segment : Segment idx new_tip s.new_suffix s.fork_hash
  pub path : List Text
  pub old_path : Descends idx old_tip path
  pub on_path : contains s.fork_hash path ≡ true
  pub off_path : All (λ x. contains x path ≡ false) s.new_suffix

slices_of :
    (idx : BlockIndex) (old_tip new_tip : Text) (s : ForkSlices) (path xs ys : List Text)
    (f g : Text)
    → fork_slices_between_tips idx old_tip new_tip ≡ ok s
    → path_from_tip_toward_genesis idx old_tip ≡ ok path
    → seek_fork (limit idx) idx path [] [] new_tip ≡ ok (f, xs)
    → walk_to_fork (limit idx) idx f [] [] old_tip ≡ ok (g, ys)
    → (g ≡ f) × (s ≡ record { fork_hash = f; old_suffix = ys; new_suffix = xs })
unfolding fork_slices_between_tips
slices_of idx old_tip new_tip s path xs ys f g r e e' e'' = ground arith

-- When slices are returned, each suffix leads from its tip by stored parents to the fork, the fork
-- is on the path of the old tip to the root, and no block of the new suffix is, so that it is the
-- highest such block. The index must have fewer than u64_max - 1 blocks.
pub fork_slices-IsFork :
    (idx : BlockIndex) (old_tip new_tip : Text) (s : ForkSlices)
    → length idx.by_hash + 2 ≤ u64_max
    → fork_slices_between_tips idx old_tip new_tip ≡ ok s
    → IsFork idx old_tip new_tip s
unfolding fork_slices_between_tips
fork_slices-IsFork idx old_tip new_tip s n r =
    elim (Result-cases (path_from_tip_toward_genesis idx old_tip)) [
      | inr (x, bad) ↦ absurd (ground arith)
      | inl (path, e) ↦ elim (Result-cases (seek_fork (limit idx) idx path [] [] new_tip)) [
        | inr (x, bad) ↦ absurd (ground arith)
        | inl ((f, new_out), e') ↦
            elim (Result-cases (walk_to_fork (limit idx) idx f [] [] old_tip)) [
              | inr (x, bad) ↦ absurd (ground arith)
              | inl ((g, old_out), e'') ↦
                  let (xs, eq, seg, off, on) =
                    seek_fork_sound (limit idx) idx path [] [] new_tip f new_out e' in
                  let (ys, eq', seg') =
                    walk_to_fork_sound (limit idx) idx f [] [] old_tip g old_out e'' in
                  let (met, same) =
                    slices_of idx old_tip new_tip s path xs ys f g r e (rw (← eq) e')
                      (rw (← eq') e'') in
                  rw same (record {
                    old_segment = subst (Segment idx old_tip ys) met seg';
                    new_segment = seg;
                    path = path;
                    old_path = (path_from_tip_iff idx old_tip path n).0 e;
                    on_path = on;
                    off_path = off;
                  })
            ]
      ]
    ]

-- Some block is in both lists.
abbrev pub Meet : List Text → List Text → Type 0
Meet old new = (z : Text) × (contains z old ≡ true) × (contains z new ≡ true)

tail-Meet :
    (old : List Text) (cur : Text) (rest : List Text)
    → contains cur old ≡ false
    → Meet old (cur ∷ rest)
    → Meet old rest
unfolding contains
tail-Meet old cur rest off (z, on, there) = (z, on, ground arith)

seek_fork_step :
    (fuel : ℕ) (idx : BlockIndex) (old visited suffix : List Text) (cur p : Text)
    → contains cur visited ≡ false
    → contains cur old ≡ false
    → IsParent idx cur p
    → seek_fork (suc fuel) idx old visited suffix cur
      ≡ seek_fork fuel idx old (cur ∷ visited) (suffix ++ cur ∷ []) p
unfolding seek_fork
seek_fork_step fuel idx old visited suffix cur p fresh off k =
    ground (arith, validated_parent_hash_complete idx cur p k.child k.child_stored k)

walk_to_fork_step :
    (fuel : ℕ) (idx : BlockIndex) (f : Text) (visited suffix : List Text) (cur p : Text)
    → contains cur visited ≡ false
    → cur ≢ f
    → IsParent idx cur p
    → walk_to_fork (suc fuel) idx f visited suffix cur
      ≡ walk_to_fork fuel idx f (cur ∷ visited) (suffix ++ cur ∷ []) p
unfolding walk_to_fork
walk_to_fork_step fuel idx f visited suffix cur p fresh off k =
    ground (arith, validated_parent_hash_complete idx cur p k.child k.child_stored k)

seek_fork_complete :
    (fuel : ℕ) (idx : BlockIndex) (old visited suffix : List Text) (cur : Text) (path : List Text)
    → Walked idx visited cur
    → IsEnough fuel idx visited
    → Descends idx cur path
    → Meet old path
    → (f : Text) × (xs : List Text) × (seek_fork fuel idx old visited suffix cur ≡ ok (f, xs))
      × (contains f old ≡ true)
unfolding seek_fork contains
seek_fork_complete fuel idx old visited suffix cur [] w n d m = absurd d
seek_fork_complete zero idx old visited suffix cur (x ∷ xs) w n d m =
    absurd (IsEnough-positive idx visited cur w n)
seek_fork_complete (suc fuel) idx old visited suffix cur (x ∷ []) w n d (z, on, there) =
    (cur, suffix, ground (arith, not_visited idx visited cur w), ground arith)
seek_fork_complete (suc fuel) idx old visited suffix cur (x ∷ y ∷ ys) w n (same, k, d) m =
    elim (Bool-cases (contains cur old)) [
      | inl met ↦ (cur, suffix, ground (arith, not_visited idx visited cur w), met)
      | inr off ↦
          let (f, xs, e, on) =
            seek_fork_complete fuel idx old (cur ∷ visited) (suffix ++ cur ∷ []) y (y ∷ ys)
              (parent-Walked idx visited cur y k w) (omega (arith, n)) d
              (tail-Meet old x (y ∷ ys) (rw same off) m) in
          (
            f,
            xs,
            seek_fork_step fuel idx old visited suffix cur y (not_visited idx visited cur w) off k
                ∙ e,
            on,
          )
    ]

walk_to_fork_complete :
    (fuel : ℕ) (idx : BlockIndex) (f : Text) (visited suffix : List Text) (cur : Text)
    (path : List Text)
    → Walked idx visited cur
    → IsEnough fuel idx visited
    → Descends idx cur path
    → contains f path ≡ true
    → (xs : List Text) × (walk_to_fork fuel idx f visited suffix cur ≡ ok (f, xs))
unfolding walk_to_fork contains
walk_to_fork_complete fuel idx f visited suffix cur [] w n d m = absurd d
walk_to_fork_complete zero idx f visited suffix cur (x ∷ xs) w n d m =
    absurd (IsEnough-positive idx visited cur w n)
walk_to_fork_complete (suc fuel) idx f visited suffix cur (x ∷ []) w n d m = (suffix, ground arith)
walk_to_fork_complete (suc fuel) idx f visited suffix cur (x ∷ y ∷ ys) w n (same, k, d) m =
    elim (cur =? f) [
      | yes met ↦ (suffix, ground arith)
      | no off ↦
          let (xs, e) =
            walk_to_fork_complete fuel idx f (cur ∷ visited) (suffix ++ cur ∷ []) y (y ∷ ys)
              (parent-Walked idx visited cur y k w) (omega (arith, n)) d (ground arith) in
          (
            xs,
            walk_to_fork_step fuel idx f visited suffix cur y (not_visited idx visited cur w) off k
                ∙ e,
          )
    ]

-- Two tips whose paths to a root have a block in common always have slices. The index must have
-- fewer than u64_max - 1 blocks.
fork_slices_total :
    (idx : BlockIndex) (old_tip new_tip : Text) (old new : List Text)
    → length idx.by_hash + 2 ≤ u64_max
    → Descends idx old_tip old
    → Descends idx new_tip new
    → Meet old new
    → (s : ForkSlices) × (fork_slices_between_tips idx old_tip new_tip ≡ ok s)
unfolding fork_slices_between_tips
fork_slices_total idx old_tip new_tip old new n d d' m =
    let (f, xs, e, on) =
      seek_fork_complete (length idx.by_hash + 2) idx old [] [] new_tip new
        (walk_starts idx new_tip) (omega arith) d' m in
    let (ys, e') =
      walk_to_fork_complete (length idx.by_hash + 2) idx f [] [] old_tip old
        (walk_starts idx old_tip) (omega arith) d on in
    (
      record { fork_hash = f; old_suffix = ys; new_suffix = xs },
      ground (arith, limit_eq idx n, (path_from_tip_iff idx old_tip old n).1 d),
    )
