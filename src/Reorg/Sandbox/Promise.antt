-- ===== src/Reorg/Sandbox/Promise.antt =====
-- node/src/v3/replay_sandbox.rs: a successful replay, and the chain to which the plan is applied.
use trilogicon_core.Prelude.{
  ◌+◌, ◌≡◌, ◌≤◌, Text, ok, some, Option-cases, Result-cases, inl, inr, arith, List, [], ◌∷◌, map,
  is_nil, text_eq, length, u64_max, refl, false,
}
use trilogicon_core.Prelude.Maps.{get}
use trilogicon_core.Crypto.{Primitives}
use trilogicon_core.State.{State, total_balance_sum}
use trilogicon_core.Block.{Block}
use trilogicon_core.Blockchain.{Blockchain}
use trilogicon_core.Reorg.BlockIndex.{BlockIndex}
use trilogicon_core.Reorg.Plan.{
  ReorgPlan, reverse_onto, check_apply, check_rollback, validate_against_index,
}
use trilogicon_core.Reorg.Preflight.{ReorgPreflightPolicy}
use trilogicon_core.Reorg.Fingerprint.{sandbox_state_fingerprint}
use trilogicon_core.Reorg.Sandbox.{
  ReplaySandboxMaterial, ReplaySandboxReplayOk, completed, apply_block_to_state, replay_branch,
  verify_old_branch, run_replay_on_clones, replay_phase, run_report,
}
use trilogicon_core.Reorg.Sandbox.Mirror.{
  Mirrors, Agrees, append_each, extended, block_appended, extended-Mirrors, check_apply-Rises,
  check_rollback-check_apply,
}

module _ ⦃c : Primitives⦄ where
  -- The chain accepts the bodies of the named blocks, one after the other.
  pub record Appended (m : ReplaySandboxMaterial) (k : Blockchain) (hs : List Text) : Type 0 where
    pub bodies : List Block
    pub found : map (λ h. get h m.blocks_by_hash) hs ≡ map some bodies
    pub chain : Blockchain
    pub appended : append_each bodies k ≡ (ok tt, chain)

  completed_run :
      (plan : ReorgPlan) (index : BlockIndex) (policy : ReorgPreflightPolicy)
      (m : ReplaySandboxMaterial) (r : ReplaySandboxReplayOk)
      → (run_report plan index policy m).replay ≡ completed (ok r)
      → (run_replay_on_clones plan index m ≡ ok r) × (validate_against_index plan index ≡ ok tt)
  unfolding run_report replay_phase
  completed_run plan index policy m r e = ground arith

  plan_apply :
      (plan : ReorgPlan) (index : BlockIndex)
      → validate_against_index plan index ≡ ok tt
      → check_apply index plan.fork_hash plan.apply_ordered ≡ ok tt
  unfolding validate_against_index
  plan_apply plan index e = ground arith

  plan_rollback :
      (plan : ReorgPlan) (index : BlockIndex)
      → validate_against_index plan index ≡ ok tt
      → check_rollback index plan.fork_hash plan.rollback_ordered ≡ ok tt
  unfolding validate_against_index
  plan_rollback plan index e = ground arith

  -- What a successful run has computed.
  run_final :
      (plan : ReorgPlan) (index : BlockIndex) (m : ReplaySandboxMaterial)
      (r : ReplaySandboxReplayOk)
      → run_replay_on_clones plan index m ≡ ok r
      → (t : State) × (replay_branch m index plan.apply_ordered m.state_at_fork ≡ ok t)
        × (sandbox_state_fingerprint t ≡ r.final_state_fingerprint)
        × (total_balance_sum t ≡ ok r.final_supply_total)
  unfolding run_replay_on_clones
  run_final plan index m r e =
      elim (Result-cases (replay_branch m index plan.apply_ordered m.state_at_fork)) [
        | inr (x, bad) ↦ absurd (ground arith)
        | inl (t, done) ↦ (t, done, ground arith, ground arith)
      ]

  run_old :
      (plan : ReorgPlan) (index : BlockIndex) (m : ReplaySandboxMaterial)
      (r : ReplaySandboxReplayOk)
      → is_nil plan.rollback_ordered ≡ false
      → run_replay_on_clones plan index m ≡ ok r
      → (t : State) × (expected : State) × (replay_branch m index
            (reverse_onto plan.rollback_ordered [])
            m.state_at_fork
          ≡ ok t)
        × (m.expected_state_at_old_tip ≡ some expected)
        × (sandbox_state_fingerprint t ≡ sandbox_state_fingerprint expected)
  unfolding run_replay_on_clones verify_old_branch
  run_old plan index m r n e =
      elim (Result-cases
        (replay_branch m index (reverse_onto plan.rollback_ordered []) m.state_at_fork)) [
          | inr (x, bad) ↦ absurd (ground arith)
          | inl (t, done) ↦ elim (Option-cases m.expected_state_at_old_tip) [
            | inl gone ↦ absurd (ground arith)
            | inr (s, there) ↦ (t, s, done, there, ground arith)
          ]
        ]

  module _ (index : BlockIndex) (small : length index.by_hash + 2 ≤ u64_max) where
    branch-Appended :
        (m : ReplaySandboxMaterial) (k : Blockchain) (s t : State) (p : Block) (hs : List Text)
        → Mirrors index m k s p
        → check_apply index p.block_hash hs ≡ ok tt
        → Agrees m hs
        → replay_branch m index hs s ≡ ok t
        → (a : Appended m k hs) × (a.chain.state ≡ t)
    unfolding replay_branch append_each check_apply
    branch-Appended m k s t p [] mir v same e = (
      record { bodies = []; found = refl; chain = k; appended = refl },
      ground (arith, mir.same_state),
    )
    branch-Appended m k s t p (h ∷ hs) mir v same e = elim (Option-cases (get h m.blocks_by_hash)) [
      | inl gone ↦ absurd (ground arith)
      | inr (b, body) ↦ elim (Result-cases (apply_block_to_state m index b h s)) [
        | inr (x, bad) ↦ absurd (ground arith)
        | inl (u, good) ↦
            let (up, v') = check_apply-Rises index h p.block_hash hs small mir.named v in
            let (mir', called) = extended-Mirrors index m k s u p b h mir up body same.0 good in
            let (a, ends) =
              branch-Appended m (extended k b u) u t b hs mir' (rw called v') same.1
                (ground (arith, body, good)) in
            (
              record {
                bodies = b ∷ a.bodies;
                found = ground (arith, a.found);
                chain = a.chain;
                appended =
                    ground (arith, block_appended index m k s u p b h mir up good, a.appended);
              },
              ends,
            )
      ]
    ]

    -- When the sandbox reports success, a chain whose tip is the fork block, with the ledger and the
    -- time policy that the sandbox was given, accepts the blocks of the plan one after the other, and
    -- its ledger ends with the fingerprint and the supply that the sandbox reports. The header that the
    -- sandbox finds under the hash of the fork block must be that block, which is in the index at its
    -- height, and the one that it finds under the hash of a block of the plan must be the body of that
    -- block. The index has fewer than u64_max - 1 blocks.
    pub run_report_promise :
        (plan : ReorgPlan) (policy : ReorgPreflightPolicy) (m : ReplaySandboxMaterial)
        (k : Blockchain) (fork : Block) (r : ReplaySandboxReplayOk)
        → Mirrors index m k m.state_at_fork fork
        → fork.block_hash ≡ plan.fork_hash
        → Agrees m plan.apply_ordered
        → (run_report plan index policy m).replay ≡ completed (ok r)
        → (a : Appended m k plan.apply_ordered) × (sandbox_state_fingerprint a.chain.state
            ≡ r.final_state_fingerprint)
          × (total_balance_sum a.chain.state ≡ ok r.final_supply_total)
    run_report_promise plan policy m k fork r mir rooted same e =
        let (run, checked) = completed_run plan index policy m r e in
        let (t, done, print, total) = run_final plan index m r run in
        let (a, ends) =
          branch-Appended m k m.state_at_fork t fork plan.apply_ordered mir
            (rw rooted (plan_apply plan index checked)) same done in
        (a, rw ends print, rw ends total)

    -- When the sandbox reports success on a plan that takes blocks back, such a chain also accepts
    -- the blocks of the old branch, and ends with a ledger of the fingerprint of the expected one.
    run_report_old_promise :
        (plan : ReorgPlan) (policy : ReorgPreflightPolicy) (m : ReplaySandboxMaterial)
        (k : Blockchain) (fork : Block) (r : ReplaySandboxReplayOk)
        → Mirrors index m k m.state_at_fork fork
        → fork.block_hash ≡ plan.fork_hash
        → Agrees m (reverse_onto plan.rollback_ordered [])
        → is_nil plan.rollback_ordered ≡ false
        → (run_report plan index policy m).replay ≡ completed (ok r)
        → (a : Appended m k (reverse_onto plan.rollback_ordered [])) × (expected : State)
          × (m.expected_state_at_old_tip ≡ some expected)
          × (sandbox_state_fingerprint a.chain.state ≡ sandbox_state_fingerprint expected)
    unfolding check_apply
    run_report_old_promise plan policy m k fork r mir rooted same some_old e =
        let (run, checked) = completed_run plan index policy m r e in
        let (t, expected, done, there, print) = run_old plan index m r some_old run in
        let (a, ends) =
          branch-Appended m k m.state_at_fork t fork (reverse_onto plan.rollback_ordered []) mir
            (rw rooted (
              check_rollback-check_apply index plan.fork_hash plan.rollback_ordered []
                (plan_rollback plan index checked) refl))
            same done in
        (a, expected, there, rw ends print)
