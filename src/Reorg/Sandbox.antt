-- ===== src/Reorg/Sandbox.antt =====
-- node/src/v3/replay_sandbox.rs: the replay of a plan on copies of the ledger. A run that reaches
-- an `expect` without a value is the failure `panics`.
pub mod Mirror
pub mod Promise
pub mod Panics
use trilogicon_core.Prelude.{
  ℕ, Text, Option, none, some, Result, ok, err, ⊤, Bool, fail_if, ok_or, map_err, is_nil, not, ne,
  is_some, ◌&&◌, List, [], ◌∷◌, ◌++◌, ◌>>=◌, ◌>>◌, text_eq, if◌then◌else◌, length, ◌==◌,
}
use trilogicon_core.Prelude.Maps.{Dict, get, contains_key}
use trilogicon_core.Errors.{ProtocolError}
use trilogicon_core.Crypto.{Primitives}
use trilogicon_core.State.{State, total_balance_sum}
use trilogicon_core.Block
use trilogicon_core.Block.{Block, is_genesis}
use trilogicon_core.Consensus.{ConsensusParams, validate_block_timestamps_vs_parent}
use trilogicon_core.Blockchain.{apply_all, on_clone}
use trilogicon_core.Reorg.BlockIndex.{BlockIndex}
use trilogicon_core.Reorg.Plan.{ReorgPlan, PlanResult, reverse_onto, validate_against_index}
use trilogicon_core.Reorg.Preflight.{
  ReorgPreflightPolicy, ReorgPreflightReport, ReorgPreflightVerdict, rejected, no_op, acceptable,
  evaluate,
}
use trilogicon_core.Reorg.Fingerprint.{sandbox_state_fingerprint}

pub record ReplaySandboxMaterial : Type 0 where
  pub state_at_fork : State
  pub blocks_by_hash : Dict Text Block
  pub expected_state_at_old_tip : Option State
  pub consensus : ConsensusParams
  pub parent_blocks_by_hash : Dict Text Block

pub data IndexLinkMismatch : Type 0 where
  block_hash_key : Text → Text → IndexLinkMismatch
  missing_index_entry : Text → IndexLinkMismatch
  height : Text → ℕ → ℕ → IndexLinkMismatch
  parent_hash : Text → Text → Text → IndexLinkMismatch
  parent_block_hash : Text → Text → IndexLinkMismatch

pub data ReplaySandboxReplayError : Type 0 where
  missing_expected_old_tip_state : ReplaySandboxReplayError
  missing_block_body : Text → ReplaySandboxReplayError
  index_link_mismatch : IndexLinkMismatch → ReplaySandboxReplayError
  old_tip_state_mismatch : Text → Text → ReplaySandboxReplayError
  basic_validation : Text → ProtocolError → ReplaySandboxReplayError
  state_transition : Text → ProtocolError → ReplaySandboxReplayError
  supply_audit : ProtocolError → ReplaySandboxReplayError
  missing_parent_block : Text → ReplaySandboxReplayError
  timestamp_policy : Text → ProtocolError → ReplaySandboxReplayError

-- How a replay fails: it returns an error, or an `expect` panics.
pub data ReplayFailure : Type 0 where
  returns : ReplaySandboxReplayError → ReplayFailure
  panics : ReplayFailure

abbrev pub Replaying : Type 0 → Type 0
Replaying A = Result ReplayFailure A

-- `Err(IndexLinkMismatch(m))`
abbrev pub mismatch : IndexLinkMismatch → ReplayFailure
mismatch m = returns (index_link_mismatch m)

pub record ReplaySandboxReplayOk : Type 0 where
  pub rollback_blocks_verified : ℕ
  pub apply_blocks_simulated : ℕ
  pub final_state_fingerprint : Text
  pub final_supply_total : ℕ

pub data ReplaySandboxReplayPhase : Type 0 where
  skipped_due_to_structural_invalid : ReplaySandboxReplayPhase
  skipped_due_to_policy : ReplaySandboxReplayPhase
  completed : Replaying ReplaySandboxReplayOk → ReplaySandboxReplayPhase

pub record ReplaySandboxReport : Type 0 where
  pub structural : PlanResult ⊤
  pub preflight : ReorgPreflightReport
  pub replay : ReplaySandboxReplayPhase

unfoldable pub validate_block_against_index : Block → BlockIndex → Text → Replaying ⊤
validate_block_against_index block index expected_hash = do
  fail_if (ne block.block_hash expected_hash)
      (mismatch (block_hash_key expected_hash block.block_hash))
  entry ← ok_or (get expected_hash index.by_hash) (mismatch (missing_index_entry expected_hash))
  fail_if (not (block.height == entry.height))
      (mismatch (height expected_hash entry.height block.height))
  fail_if (ne block.previous_hash entry.parent_hash)
      (mismatch (parent_hash expected_hash entry.parent_hash block.previous_hash))

-- `self.parent_blocks_by_hash.get(k).or_else(|| self.blocks_by_hash.get(k))`
abbrev pub or_else : Option Block → Option Block → Option Block
or_else none o = o
or_else (some b) o = some b

unfoldable pub resolve_parent_block : ReplaySandboxMaterial → Text → Replaying Block
resolve_parent_block material parent_key = do
  parent ←
      ok_or
        (or_else (get parent_key material.parent_blocks_by_hash)
          (get parent_key material.blocks_by_hash))
        (returns (missing_parent_block parent_key))
  fail_if (ne parent.block_hash parent_key)
      (mismatch (parent_block_hash parent_key parent.block_hash))
  ok parent

unfoldable pub validate_timestamp_vs_parent : ReplaySandboxMaterial → Block → Text → Replaying ⊤
validate_timestamp_vs_parent material child child_hash = if is_genesis child then ok tt else do
  parent ← resolve_parent_block material child.previous_hash
  map_err (λ e. returns (timestamp_policy child_hash e))
      (validate_block_timestamps_vs_parent parent child material.consensus)

-- `blocks_by_hash.get(h).expect(..)`
abbrev pub expect {ℓ} : {A : Type ℓ} → Option A → Result ReplayFailure A
expect o = ok_or o panics

-- The loop that looks for a body for every block of the plan.
unfoldable pub require_bodies : Dict Text Block → List Text → Replaying ⊤
require_bodies bodies [] = ok tt
require_bodies bodies (h ∷ rest) = do
  fail_if (not (contains_key h bodies)) (returns (missing_block_body h))
  require_bodies bodies rest

module _ ⦃c : Primitives⦄ where
  -- The copy of the ledger that is worked on is given up on an error.
  unfoldable pub apply_block_to_state :
      ReplaySandboxMaterial → BlockIndex → Block → Text → State → Replaying State
  apply_block_to_state material index block block_hash s = do
    validate_block_against_index block index block_hash
    validate_timestamp_vs_parent material block block_hash
    map_err (λ e. returns (basic_validation block_hash e)) (Block.basic_validate block)
    map_err (λ e. returns (state_transition block_hash e))
        (on_clone (apply_all block.transactions) s)

  -- The loop over the hashes of a branch, from the fork up.
  unfoldable pub replay_branch :
      ReplaySandboxMaterial → BlockIndex → List Text → State → Replaying State
  replay_branch material index [] s = ok s
  replay_branch material index (h ∷ rest) s = do
    block ← expect (get h material.blocks_by_hash)
    s' ← apply_block_to_state material index block h s
    replay_branch material index rest s'

  -- The walk along the old branch and the comparison with the expected ledger.
  unfoldable pub verify_old_branch : ReorgPlan → BlockIndex → ReplaySandboxMaterial → Replaying ⊤
  verify_old_branch plan index material = if is_nil plan.rollback_ordered then ok tt else do
    walk ←
        replay_branch material index (reverse_onto plan.rollback_ordered []) material.state_at_fork
    expected ← expect material.expected_state_at_old_tip
    fail_if (ne (sandbox_state_fingerprint walk) (sandbox_state_fingerprint expected)) (
        returns (
          old_tip_state_mismatch (sandbox_state_fingerprint expected)
            (sandbox_state_fingerprint walk)))

  unfoldable pub run_replay_on_clones :
      ReorgPlan → BlockIndex → ReplaySandboxMaterial → Replaying ReplaySandboxReplayOk
  run_replay_on_clones plan index material = do
    fail_if (not (is_nil plan.rollback_ordered) && not (is_some material.expected_state_at_old_tip))
        (returns missing_expected_old_tip_state)
    require_bodies material.blocks_by_hash (plan.rollback_ordered ++ plan.apply_ordered)
    verify_old_branch plan index material
    sandbox ← replay_branch material index plan.apply_ordered material.state_at_fork
    total ← map_err (λ e. returns (supply_audit e)) (total_balance_sum sandbox)
    ok (record {
      rollback_blocks_verified = length plan.rollback_ordered;
      apply_blocks_simulated = length plan.apply_ordered;
      final_state_fingerprint = sandbox_state_fingerprint sandbox;
      final_supply_total = total;
    })

  -- The match on the structural result and the verdict.
  unfoldable pub replay_phase :
      PlanResult ⊤
      → ReorgPreflightVerdict
      → Replaying ReplaySandboxReplayOk
      → ReplaySandboxReplayPhase
  replay_phase (err _) verdict r = skipped_due_to_structural_invalid
  replay_phase (ok _) rejected r = skipped_due_to_policy
  replay_phase (ok _) no_op r = completed r
  replay_phase (ok _) acceptable r = completed r

  unfoldable pub run_report :
      ReorgPlan → BlockIndex → ReorgPreflightPolicy → ReplaySandboxMaterial → ReplaySandboxReport
  run_report plan index policy material =
      let structural = validate_against_index plan index in
      let preflight = evaluate plan index policy in
      record {
        structural = structural;
        preflight = preflight;
        replay =
            replay_phase structural preflight.verdict (run_replay_on_clones plan index material);
      }
