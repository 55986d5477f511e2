-- ===== src/Reorg/Planned.antt =====
-- A plan built from two tips passes its own check.
use trilogicon_core.Prelude.{
  ◌+◌, ◌≡◌, ◌≤◌, ◌=?◌, Text, ok, true, false, List, [], ◌∷◌, arith, length, u64_max, All, contains,
  Result-cases, inl, inr, refl, text_eq, subst, sym,
}
use trilogicon_core.Reorg.BlockIndex.{
  BlockIndex, ForkSlices, validate_block_ancestry, fork_slices_between_tips,
}
use trilogicon_core.Reorg.Links.{IsParent, Descends}
use trilogicon_core.Reorg.Forks.{Segment, IsFork, fork_slices-IsFork}
use trilogicon_core.Reorg.Ancestry.{
  IsGrounded, validate_block_ancestry_iff, parent-IsGrounded, same_parent,
}
use trilogicon_core.Reorg.Heights.{
  fork-IsGrounded, tip-IsGrounded, reverse-Rises, unique_falling, unique_rising,
  fork_outside_falling, fork_outside_rising,
}
use trilogicon_core.Reorg.Plan.{
  ReorgPlan, ReorgPlanValidationError, reverse_onto, from_fork_slices, try_from_tips,
  ensure_no_duplicate_across_segments, check_block, next_or, check_rollback, check_apply,
  validate_against_index,
}

later-contains :
    (y : Text) (ys xs : List Text)
    → All (λ x. contains x ys ≡ true) xs
    → All (λ x. contains x (y ∷ ys) ≡ true) xs
unfolding contains
later-contains y ys [] a = tt
later-contains y ys (x ∷ xs) a = (ground arith, later-contains y ys xs a.1)

-- The blocks of a segment are on the path of its first block.
Segment-on_path :
    (idx : BlockIndex) (h f : Text) (xs path : List Text)
    → Segment idx h xs f
    → Descends idx h path
    → All (λ x. contains x path ≡ true) xs
unfolding contains
Segment-on_path idx h f [] path s d = tt
Segment-on_path idx h f (x ∷ xs) [] s d = absurd d
Segment-on_path idx h f (x ∷ xs) (y ∷ []) (e, p, l, s) (e', (b, there, low)) =
    absurd (ground (arith, l.child_stored, l.one_above))
Segment-on_path idx h f (x ∷ xs) (y ∷ z ∷ zs) (e, p, l, s) (e', l', d) = (
  ground arith,
  later-contains y (z ∷ zs) xs (
      Segment-on_path idx p f xs (z ∷ zs) s
        (subst (λ q. Descends idx q (z ∷ zs)) (same_parent idx h z p l' l) d)),
)

off_reverse :
    (h : Text) (path xs tail : List Text)
    → All (λ x. contains x path ≡ false) xs
    → contains h path ≡ true
    → contains h tail ≡ false
    → contains h (reverse_onto xs tail) ≡ false
unfolding reverse_onto contains
off_reverse h path [] tail a on off = off
off_reverse h path (x ∷ xs) tail a on off = elim (h =? x) [
  | yes e ↦ absurd (ground arith)
  | no n ↦ off_reverse h path xs (x ∷ tail) a.1 on (ground arith)
]

no_duplicate_across :
    (path old new : List Text)
    → All (λ x. contains x path ≡ true) old
    → All (λ x. contains x path ≡ false) new
    → ensure_no_duplicate_across_segments old (reverse_onto new []) ≡ ok tt
unfolding ensure_no_duplicate_across_segments contains
no_duplicate_across path [] new a b = refl
no_duplicate_across path (h ∷ old) new a b =
    ground (arith, off_reverse h path new [] b a.0 refl, no_duplicate_across path old new a.1 b)

module _ (idx : BlockIndex) (small : length idx.by_hash + 2 ≤ u64_max) where
  check_block_accepts :
      (h p : Text) (broken : ReorgPlanValidationError)
      → IsParent idx h p
      → IsGrounded idx h
      → check_block idx h p broken ≡ ok tt
  unfolding check_block
  check_block_accepts h p broken l k =
      ground (arith, (validate_block_ancestry_iff idx h small).1 k, l.child_stored, l.named)

  next-Segment : (h f : Text) (xs : List Text) → Segment idx h xs f → next_or f xs ≡ h
  next-Segment h f [] s = sym s
  next-Segment h f (x ∷ xs) s = s.0

  check_rollback_accepts :
      (h f : Text) (xs : List Text)
      → Segment idx h xs f
      → IsGrounded idx h
      → check_rollback idx f xs ≡ ok tt
  unfolding check_rollback
  check_rollback_accepts h f [] s k = refl
  check_rollback_accepts h f (x ∷ xs) (e, p, l, s) k =
      rw (e, check_rollback)
        (rw (next-Segment p f xs s) (
          rw (check_block_accepts h p _ l k)
            (check_rollback_accepts p f xs s (parent-IsGrounded idx h p l k))))

  check_apply_accepts :
      (h f : Text) (xs tail : List Text)
      → Segment idx h xs f
      → IsGrounded idx h
      → check_apply idx h tail ≡ ok tt
      → check_apply idx f (reverse_onto xs tail) ≡ ok tt
  unfolding check_apply reverse_onto
  check_apply_accepts h f [] tail s k c = subst (λ z. check_apply idx z tail ≡ ok tt) s c
  check_apply_accepts h f (x ∷ xs) tail (e, p, l, s) k c =
      check_apply_accepts p f xs (x ∷ tail) s (parent-IsGrounded idx h p l k)
        (rw (e, check_apply) (rw (check_block_accepts h p _ l k) c))

  planned :
      (old_tip new_tip : Text) (s : ForkSlices)
      → IsFork idx old_tip new_tip s
      → IsGrounded idx old_tip
      → validate_against_index (from_fork_slices s) idx ≡ ok tt
  unfolding validate_against_index from_fork_slices check_apply
  planned old_tip new_tip s f k =
      let root = fork-IsGrounded idx old_tip s.fork_hash s.old_suffix f.old_segment k in
      let tip = tip-IsGrounded idx new_tip s.fork_hash s.new_suffix f.new_segment root in
      let rises = reverse-Rises idx new_tip s.fork_hash s.new_suffix [] f.new_segment tt in
      rw ((validate_block_ancestry_iff idx s.fork_hash small).1 root) (
        rw (unique_falling idx old_tip s.fork_hash s.old_suffix [] _ f.old_segment tt) (
          rw (unique_rising idx s.fork_hash (reverse_onto s.new_suffix []) [] _ rises tt) (
            rw
              (no_duplicate_across f.path s.old_suffix s.new_suffix
                (Segment-on_path idx old_tip s.fork_hash s.old_suffix f.path f.old_segment
                  f.old_path)
                f.off_path)
              (rw (fork_outside_falling idx old_tip s.fork_hash s.old_suffix f.old_segment) (
                rw
                  (fork_outside_rising idx s.fork_hash s.fork_hash (reverse_onto s.new_suffix [])
                    (omega arith) rises)
                  (rw (check_rollback_accepts old_tip s.fork_hash s.old_suffix f.old_segment k) (
                    check_apply_accepts new_tip s.fork_hash s.new_suffix [] f.new_segment tip
                      refl)))))))

-- A plan built from two tips passes the structural check, when the old tip has a valid ancestry. The
-- index must have fewer than u64_max - 1 blocks.
pub try_from_tips_validates :
    (idx : BlockIndex) (old_tip new_tip : Text) (plan : ReorgPlan)
    → length idx.by_hash + 2 ≤ u64_max
    → validate_block_ancestry idx old_tip ≡ ok tt
    → try_from_tips idx old_tip new_tip ≡ ok plan
    → validate_against_index plan idx ≡ ok tt
unfolding try_from_tips
try_from_tips_validates idx old_tip new_tip plan small v r =
    elim (Result-cases (fork_slices_between_tips idx old_tip new_tip)) [
      | inr (x, bad) ↦ absurd (ground arith)
      | inl (s, e) ↦
          subst (λ z. validate_against_index z idx ≡ ok tt) (ground arith)
            (planned idx small old_tip new_tip s (fork_slices-IsFork idx old_tip new_tip s small e)
              ((validate_block_ancestry_iff idx old_tip small).0 v))
    ]
