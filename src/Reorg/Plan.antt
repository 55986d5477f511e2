-- ===== src/Reorg/Plan.antt =====
-- node/src/v3/reorg_plan.rs: what to roll back and what to apply, and the check of such a plan.
use trilogicon_core.Prelude.{
  Text, Result, ok, err, ⊤, Bool, true, false, fail_if, map_err, decide_eq, is_nil, contains, List,
  [], ◌∷◌, ◌>>=◌, ◌>>◌, str, not, ◌&&◌, text_eq,
}
use trilogicon_core.Reorg.BlockIndex.{
  BlockIndex, BlockPathError, ForkSlices, PathResult, find_entry, fork_slices_between_tips,
  validate_block_ancestry,
}

pub data ReorgPlanValidationError : Type 0 where
  block_path : BlockPathError → ReorgPlanValidationError
  broken_rollback_chain : Text → Text → ReorgPlanValidationError
  broken_apply_chain : Text → Text → ReorgPlanValidationError
  duplicate_block : Text → Text → ReorgPlanValidationError
  duplicate_across_segments : Text → ReorgPlanValidationError
  fork_inside_segments : Text → ReorgPlanValidationError

abbrev pub PlanResult : Type 0 → Type 0
PlanResult A = Result ReorgPlanValidationError A

pub record ReorgPlan : Type 0 where
  pub fork_hash : Text
  pub rollback_ordered : List Text
  pub apply_ordered : List Text

-- `into_iter().rev()`, in front of a list.
unfoldable pub reverse_onto : List Text → List Text → List Text
reverse_onto [] tail = tail
reverse_onto (x ∷ xs) tail = reverse_onto xs (x ∷ tail)

unfoldable pub from_fork_slices : ForkSlices → ReorgPlan
from_fork_slices s = record {
  fork_hash = s.fork_hash;
  rollback_ordered = s.old_suffix;
  apply_ordered = reverse_onto s.new_suffix [];
}

unfoldable pub try_from_tips : BlockIndex → Text → Text → PathResult ReorgPlan
try_from_tips index old_tip new_tip = do
  slices ← fork_slices_between_tips index old_tip new_tip
  ok (from_fork_slices slices)

unfoldable pub is_noop : ReorgPlan → Bool
is_noop p = is_nil p.rollback_ordered && is_nil p.apply_ordered

-- `ensure_unique_hashes`, with the set of the hashes seen so far.
unfoldable pub ensure_unique_hashes : List Text → List Text → Text → PlanResult ⊤
ensure_unique_hashes seen [] side = ok tt
ensure_unique_hashes seen (h ∷ rest) side = elim (contains h seen) [
  | true ↦ err (duplicate_block h side)
  | false ↦ ensure_unique_hashes (h ∷ seen) rest side
]

unfoldable pub ensure_no_duplicate_across_segments : List Text → List Text → PlanResult ⊤
ensure_no_duplicate_across_segments [] apply = ok tt
ensure_no_duplicate_across_segments (h ∷ rest) apply = elim (contains h apply) [
  | true ↦ err (duplicate_across_segments h)
  | false ↦ ensure_no_duplicate_across_segments rest apply
]

-- The loops that look for the fork inside a segment.
unfoldable pub ensure_fork_outside : Text → List Text → PlanResult ⊤
ensure_fork_outside fork [] = ok tt
ensure_fork_outside fork (h ∷ rest) = elim (decide_eq h fork) [
  | true ↦ err (fork_inside_segments h)
  | false ↦ ensure_fork_outside fork rest
]

-- One round of the last two loops: the block has a valid ancestry and names the wanted parent.
unfoldable pub check_block : BlockIndex → Text → Text → ReorgPlanValidationError → PlanResult ⊤
check_block index h want_parent broken = do
  map_err block_path (validate_block_ancestry index h)
  e ← map_err block_path (find_entry index h)
  fail_if (not (decide_eq e.parent_hash want_parent)) broken

-- `rollback_ordered[i + 1]`, or the fork behind the last.
abbrev pub next_or : Text → List Text → Text
next_or fork [] = fork
next_or fork (h ∷ rest) = h

unfoldable pub check_rollback : BlockIndex → Text → List Text → PlanResult ⊤
check_rollback index fork [] = ok tt
check_rollback index fork (h ∷ rest) = do
  check_block index h (next_or fork rest)
      (broken_rollback_chain h (str "parent must equal next rollback entry or fork_hash"))
  check_rollback index fork rest

-- The block before is the fork or `apply_ordered[i - 1]`.
unfoldable pub check_apply : BlockIndex → Text → List Text → PlanResult ⊤
check_apply index before [] = ok tt
check_apply index before (h ∷ rest) = do
  check_block index h before
      (broken_apply_chain h (str "parent must equal fork_hash or previous apply entry"))
  check_apply index h rest

unfoldable pub validate_against_index : ReorgPlan → BlockIndex → PlanResult ⊤
validate_against_index p index = do
  map_err block_path (validate_block_ancestry index p.fork_hash)
  ensure_unique_hashes [] p.rollback_ordered (str "rollback")
  ensure_unique_hashes [] p.apply_ordered (str "apply")
  ensure_no_duplicate_across_segments p.rollback_ordered p.apply_ordered
  ensure_fork_outside p.fork_hash p.rollback_ordered
  ensure_fork_outside p.fork_hash p.apply_ordered
  check_rollback index p.fork_hash p.rollback_ordered
  check_apply index p.fork_hash p.apply_ordered
