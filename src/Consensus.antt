-- ===== src/Consensus.antt =====
-- node/src/consensus.rs: the time policy.
use trilogicon_core.Prelude.{
  ℕ, ⊤, fail_if, str, ltb, checked_add, saturating_add, u64_max, ◌>>=◌, ok_or,
}
use trilogicon_core.Errors.{Checked, invalid_block}
use trilogicon_core.Block.{Block}

pub record ConsensusParams : Type 0 where
  pub min_block_interval_secs : ℕ
  pub max_future_drift_secs : ℕ

-- `ConsensusParams::default`
unfoldable pub default_params : ConsensusParams
default_params = record { min_block_interval_secs = 0; max_future_drift_secs = u64_max }

unfoldable pub validate_block_timestamps_vs_parent : Block → Block → ConsensusParams → Checked ⊤
validate_block_timestamps_vs_parent parent candidate params = do
  min_ts ←
      ok_or (checked_add parent.timestamp_unix params.min_block_interval_secs)
        (invalid_block (str "block timestamp arithmetic overflow"))
  fail_if (ltb candidate.timestamp_unix min_ts)
      (invalid_block (str "block timestamp violates minimum interval after parent"))

unfoldable pub validate_block_vs_local_time : ℕ → ℕ → ℕ → Checked ⊤
validate_block_vs_local_time block_ts now_unix max_future_drift_secs =
    fail_if (ltb (saturating_add now_unix max_future_drift_secs) block_ts)
      (invalid_block (str "block timestamp too far in the future"))
