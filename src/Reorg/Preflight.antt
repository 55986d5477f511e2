-- ===== src/Reorg/Preflight.antt =====
-- node/src/v3/reorg_preflight.rs: the verdict on a plan from its structure and the local policy.
use trilogicon_core.Prelude.{
  ℕ, ◌≡◌, ◌≤◌, Result, ok, err, ⊤, false, ltb, length, ◌↔◌, arith, if◌then◌else◌, u64_max, fail_if,
}
use trilogicon_core.Reorg.BlockIndex.{BlockIndex}
use trilogicon_core.Reorg.Plan.{ReorgPlan, validate_against_index, is_noop, PlanResult}

pub record ReorgPreflightPolicy : Type 0 where
  pub max_reorg_depth : ℕ

-- `ReorgPreflightPolicy::default`
abbrev pub default_policy : ReorgPreflightPolicy
default_policy = record { max_reorg_depth = u64_max }

pub data ReorgPreflightPolicyError : Type 0 where
  max_reorg_depth_exceeded : ℕ → ℕ → ReorgPreflightPolicyError

pub data ReorgPreflightVerdict : Type 0 where
  no_op : ReorgPreflightVerdict
  acceptable : ReorgPreflightVerdict
  rejected : ReorgPreflightVerdict

pub data ReorgPreflightPolicyPhase : Type 0 where
  not_evaluated : ReorgPreflightPolicyPhase
  policy_ok : ReorgPreflightPolicyPhase
  failed : ReorgPreflightPolicyError → ReorgPreflightPolicyPhase

pub record ReorgPreflightReport : Type 0 where
  pub rollback_depth : ℕ
  pub apply_depth : ℕ
  pub structural : PlanResult ⊤
  pub policy : ReorgPreflightPolicyPhase
  pub verdict : ReorgPreflightVerdict

unfoldable pub check_policy : ℕ → ReorgPreflightPolicy → Result ReorgPreflightPolicyError ⊤
check_policy rollback_depth policy =
    fail_if (ltb policy.max_reorg_depth rollback_depth)
      (max_reorg_depth_exceeded rollback_depth policy.max_reorg_depth)

-- The match on the structural result.
unfoldable pub judge :
    ReorgPlan
    → ReorgPreflightPolicy
    → PlanResult ⊤
    → ReorgPreflightPolicyPhase × ReorgPreflightVerdict
judge plan policy (err _) = (not_evaluated, rejected)
judge plan policy (ok _) =
    if is_noop plan
    then (policy_ok, no_op)
    else elim (check_policy (length plan.rollback_ordered) policy) [
      | ok _ ↦ (policy_ok, acceptable)
      | err e ↦ (failed e, rejected)
    ]

unfoldable pub evaluate : ReorgPlan → BlockIndex → ReorgPreflightPolicy → ReorgPreflightReport
evaluate plan index policy =
    let structural = validate_against_index plan index in
    let (phase, verdict) = judge plan policy structural in
    record {
      rollback_depth = length plan.rollback_ordered;
      apply_depth = length plan.apply_ordered;
      structural = structural;
      policy = phase;
      verdict = verdict;
    }

-- The preflight accepts a plan exactly when its structure is valid, it has something to do, and it
-- rolls back no more blocks than the policy allows.
evaluate_acceptable_iff :
    (plan : ReorgPlan) (index : BlockIndex) (policy : ReorgPreflightPolicy)
    → ((evaluate plan index policy).verdict ≡ acceptable) ↔ (
        (validate_against_index plan index ≡ ok tt)
        × (is_noop plan ≡ false)
        × (length plan.rollback_ordered ≤ policy.max_reorg_depth))
unfolding evaluate judge check_policy
evaluate_acceptable_iff plan index policy = ground arith
