-- ===== src/Tests/SandboxWitnesses.antt =====
-- The theorems about the replay sandbox at concrete inputs.
use trilogicon_core.Prelude.{
  ℕ, ◌≡◌, ◌↔◌, refl, ok, err, none, Text, [], ◌∷◌, arith, str, text_discrete, text_eq,
}
use trilogicon_core.Prelude.Maps.{get}
use trilogicon_core.Types.{Account}
use trilogicon_core.Errors.{invalid_block}
use trilogicon_core.State.{State, total_balance_sum}
use trilogicon_core.Block.{Block, genesis}
use trilogicon_core.Blockchain.{append_block}
use trilogicon_core.Consensus.{default_params}
use trilogicon_core.Reorg.BlockIndex.{
  BlockIndex, path_from_tip_toward_genesis, path_from, validated_parent_hash,
  validate_block_ancestry,
}
use trilogicon_core.Reorg.Plan.{
  ReorgPlan, validate_against_index, is_noop, ensure_unique_hashes,
  ensure_no_duplicate_across_segments, ensure_fork_outside, check_apply, check_block,
  check_rollback,
}
use trilogicon_core.Reorg.Preflight.{default_policy, evaluate, check_policy, judge}
use trilogicon_core.Reorg.Fingerprint.{
  sandbox_state_fingerprint, sandbox_state_fingerprint_preimage, IsBounded, SameLedger,
  preimage_iff,
}
use trilogicon_core.Reorg.Sandbox.{
  ReplaySandboxMaterial, ReplaySandboxReplayPhase, ReplaySandboxReplayOk, completed, run_report,
  replay_phase, run_replay_on_clones, require_bodies, verify_old_branch, replay_branch,
  apply_block_to_state, validate_block_against_index, validate_timestamp_vs_parent,
  resolve_parent_block,
}
use trilogicon_core.Reorg.Sandbox.Mirror.{Mirrors, Agrees}
use trilogicon_core.Reorg.Sandbox.Promise.{Appended, run_report_promise}
use trilogicon_core.Tests.{toy, code, start, root, first, sealed, grown, alice, bob}

abbrev account_of : Text → ℕ → Account
account_of a n = record { address = a; balance = n; nonce = 0 }

abbrev one_way : State
one_way = record { accounts = (alice, account_of alice 5) ∷ (bob, account_of bob 6) ∷ [] }

abbrev other_way : State
other_way = record { accounts = (bob, account_of bob 6) ∷ (alice, account_of alice 5) ∷ [] }

one_way-IsBounded : IsBounded one_way
unfolding get text_discrete
one_way-IsBounded = (
  (refl, (refl, tt)),
  ((omega arith, omega arith, omega arith), ((omega arith, omega arith, omega arith), tt)),
  omega arith,
)

other_way-IsBounded : IsBounded other_way
unfolding get text_discrete
other_way-IsBounded = (
  (refl, (refl, tt)),
  ((omega arith, omega arith, omega arith), ((omega arith, omega arith, omega arith), tt)),
  omega arith,
)

preimage_example :
    (sandbox_state_fingerprint_preimage one_way ≡ sandbox_state_fingerprint_preimage other_way)
    ↔ SameLedger one_way other_way
preimage_example = preimage_iff one_way other_way one_way-IsBounded other_way-IsBounded

abbrev index : BlockIndex
index = record {
  by_hash =
      (str "GENESIS_HASH", record { parent_hash = []; height = 0 })
      ∷ (first.block_hash, record { parent_hash = str "GENESIS_HASH"; height = 1 })
      ∷ [];
}

-- The first block on the genesis block, with nothing to take back.
abbrev plan : ReorgPlan
plan = record {
  fork_hash = str "GENESIS_HASH";
  rollback_ordered = [];
  apply_ordered = first.block_hash ∷ [];
}

abbrev material : ReplaySandboxMaterial
material = record {
  state_at_fork = start;
  blocks_by_hash = (first.block_hash, first) ∷ [];
  expected_state_at_old_tip = none;
  consensus = default_params;
  parent_blocks_by_hash = (str "GENESIS_HASH", genesis) ∷ [];
}

abbrev result_of : ReplaySandboxReplayPhase → ReplaySandboxReplayOk
result_of (completed (ok r)) = r
result_of phase = record {
  rollback_blocks_verified = 0;
  apply_blocks_simulated = 0;
  final_state_fingerprint = [];
  final_supply_total = 0;
}

abbrev result : ReplaySandboxReplayOk
result = result_of (run_report plan index default_policy material).replay

report_run : (run_report plan index default_policy material).replay ≡ completed (ok result)
unfolding code run_report replay_phase run_replay_on_clones require_bodies verify_old_branch
    replay_branch apply_block_to_state validate_block_against_index validate_timestamp_vs_parent
    resolve_parent_block evaluate check_policy is_noop validate_against_index check_apply
    check_block check_rollback validate_block_ancestry path_from_tip_toward_genesis path_from
    validated_parent_hash ensure_unique_hashes ensure_no_duplicate_across_segments
    ensure_fork_outside judge
report_run = refl

root-Mirrors : Mirrors index material root start genesis
unfolding code
root-Mirrors = record {
  tip_last = refl;
  same_state = refl;
  same_policy = refl;
  parent_found = refl;
  named = λ e. ground (arith, e);
  entry = record { parent_hash = []; height = 0 };
  indexed = refl;
  same_height = refl;
}

rooted : genesis.block_hash ≡ plan.fork_hash
unfolding code
rooted = refl

same_bodies : Agrees material plan.apply_ordered
unfolding code
same_bodies = (refl, tt)

promise_example :
    (a : Appended material root plan.apply_ordered) × (sandbox_state_fingerprint a.chain.state
      ≡ result.final_state_fingerprint)
    × (total_balance_sum a.chain.state ≡ ok result.final_supply_total)
promise_example =
    run_report_promise index (omega arith) plan default_policy material root genesis result
      root-Mirrors rooted same_bodies report_run

-- A second block before the time of the first, and the first with an earlier time under its hash.
abbrev second : Block
second = sealed (record {
  height = 2;
  previous_hash = first.block_hash;
  timestamp_unix = 8;
  transactions = [];
  block_hash = [];
})

abbrev forged : ReplaySandboxMaterial
forged = record material {
  blocks_by_hash = (first.block_hash, first) ∷ (second.block_hash, second) ∷ [];
  parent_blocks_by_hash =
      (str "GENESIS_HASH", genesis) ∷ (first.block_hash, record first { timestamp_unix = 0 }) ∷ [];
}

abbrev longer : BlockIndex
longer = record {
  by_hash =
      (str "GENESIS_HASH", record { parent_hash = []; height = 0 })
      ∷ (first.block_hash, record { parent_hash = str "GENESIS_HASH"; height = 1 })
      ∷ (second.block_hash, record { parent_hash = first.block_hash; height = 2 })
      ∷ [];
}

abbrev two_blocks : ReorgPlan
two_blocks = record plan { apply_ordered = first.block_hash ∷ second.block_hash ∷ [] }

abbrev forged_result : ReplaySandboxReplayOk
forged_result = result_of (run_report two_blocks longer default_policy forged).replay

-- The sandbox reports success, and the chain refuses the second block.
forged_succeeds :
    (run_report two_blocks longer default_policy forged).replay ≡ completed (ok forged_result)
unfolding code run_report replay_phase run_replay_on_clones require_bodies verify_old_branch
    replay_branch apply_block_to_state validate_block_against_index validate_timestamp_vs_parent
    resolve_parent_block evaluate check_policy is_noop validate_against_index check_apply
    check_block check_rollback validate_block_ancestry path_from_tip_toward_genesis path_from
    validated_parent_hash ensure_unique_hashes ensure_no_duplicate_across_segments
    ensure_fork_outside judge
forged_succeeds = refl

second_refused :
    (append_block second grown).0
    ≡ err (invalid_block (str "block timestamp violates minimum interval after parent"))
unfolding code
second_refused = refl
