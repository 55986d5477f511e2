-- ===== src/Reorg/Sandbox/Panics.antt =====
-- node/src/v3/replay_sandbox.rs: the `expect`s of the replay.
use trilogicon_core.Prelude.{
  Text, ◌≡◌, ◌≢◌, ok, err, some, Result-cases, Option-cases, inl, inr, arith, All, List, [], ◌∷◌,
  ◌++◌, text_eq,
}
use trilogicon_core.Prelude.Maps.{Dict, get}
use trilogicon_core.Crypto.{Primitives}
use trilogicon_core.State.{State}
use trilogicon_core.Block.{Block}
use trilogicon_core.Reorg.BlockIndex.{BlockIndex}
use trilogicon_core.Reorg.Plan.{ReorgPlan, reverse_onto}
use trilogicon_core.Reorg.Preflight.{ReorgPreflightPolicy}
use trilogicon_core.Reorg.Sandbox.{
  ReplaySandboxMaterial, Replaying, panics, completed, validate_block_against_index,
  resolve_parent_block, validate_timestamp_vs_parent, require_bodies, apply_block_to_state,
  replay_branch, verify_old_branch, run_replay_on_clones, replay_phase, run_report,
}

-- A body for every hash.
abbrev pub HasBodies : Dict Text Block → List Text → Type 0
HasBodies bodies = All (λ h. (b : Block) × (get h bodies ≡ some b))

abbrev IsCalm : {A : Type 0} → Replaying A → Type 0
IsCalm r = r ≢ err panics

require_bodies-HasBodies :
    (bodies : Dict Text Block) (hs : List Text)
    → require_bodies bodies hs ≡ ok tt
    → HasBodies bodies hs
unfolding require_bodies
require_bodies-HasBodies bodies [] e = tt
require_bodies-HasBodies bodies (h ∷ hs) e = elim (Option-cases (get h bodies)) [
  | inl gone ↦ absurd (ground arith)
  | inr (b, found) ↦ ((b, found), require_bodies-HasBodies bodies hs (ground arith))
]

require_bodies-IsCalm :
    (bodies : Dict Text Block) (hs : List Text) → IsCalm (require_bodies bodies hs)
unfolding require_bodies
require_bodies-IsCalm bodies [] = λ e. cc
require_bodies-IsCalm bodies (h ∷ hs) = λ e. ground (arith, require_bodies-IsCalm bodies hs)

HasBodies-split :
    (bodies : Dict Text Block) (xs ys : List Text)
    → HasBodies bodies (xs ++ ys)
    → HasBodies bodies xs × HasBodies bodies ys
HasBodies-split bodies [] ys h = (tt, h)
HasBodies-split bodies (x ∷ xs) ys h = let r = HasBodies-split bodies xs ys h.1 in ((h.0, r.0), r.1)

HasBodies-reverse :
    (bodies : Dict Text Block) (xs ys : List Text)
    → HasBodies bodies xs
    → HasBodies bodies ys
    → HasBodies bodies (reverse_onto xs ys)
unfolding reverse_onto
HasBodies-reverse bodies [] ys h g = g
HasBodies-reverse bodies (x ∷ xs) ys h g = HasBodies-reverse bodies xs (x ∷ ys) h.1 (h.0, g)

validate_block_against_index-IsCalm :
    (b : Block) (index : BlockIndex) (h : Text) → IsCalm (validate_block_against_index b index h)
unfolding validate_block_against_index
validate_block_against_index-IsCalm b index h = λ e. ground arith

validate_timestamp_vs_parent-IsCalm :
    (m : ReplaySandboxMaterial) (b : Block) (h : Text) → IsCalm (validate_timestamp_vs_parent m b h)
unfolding validate_timestamp_vs_parent resolve_parent_block
validate_timestamp_vs_parent-IsCalm m b h = λ e. ground arith

module _ ⦃c : Primitives⦄ where
  apply_block_to_state-IsCalm :
      (m : ReplaySandboxMaterial) (index : BlockIndex) (b : Block) (h : Text) (s : State)
      → IsCalm (apply_block_to_state m index b h s)
  unfolding apply_block_to_state
  apply_block_to_state-IsCalm m index b h s = λ e. ground (
    arith,
    validate_block_against_index-IsCalm b index h,
    validate_timestamp_vs_parent-IsCalm m b h,
  )

  replay_branch-IsCalm :
      (m : ReplaySandboxMaterial) (index : BlockIndex) (hs : List Text) (s : State)
      → HasBodies m.blocks_by_hash hs
      → IsCalm (replay_branch m index hs s)
  unfolding replay_branch
  replay_branch-IsCalm m index [] s k = λ e. cc
  replay_branch-IsCalm m index (h ∷ hs) s k =
      elim (Result-cases (apply_block_to_state m index k.0.0 h s)) [
        | inl (t, e) ↦ rw (k.0.1, replay_branch) (rw e (replay_branch-IsCalm m index hs t k.1))
        | inr (x, e) ↦ λ bad. ground (arith, k.0.1, apply_block_to_state-IsCalm m index k.0.0 h s)
      ]

  run_replay-IsCalm :
      (plan : ReorgPlan) (index : BlockIndex) (m : ReplaySandboxMaterial)
      → IsCalm (run_replay_on_clones plan index m)
  unfolding run_replay_on_clones verify_old_branch
  run_replay-IsCalm plan index m = λ bad.
      elim (Result-cases
        (require_bodies m.blocks_by_hash (plan.rollback_ordered ++ plan.apply_ordered))) [
          | inr (x, e) ↦ ground (
            arith,
            require_bodies-IsCalm m.blocks_by_hash (plan.rollback_ordered ++ plan.apply_ordered),
          )
          | inl (_, e) ↦
              let (old, new) =
                HasBodies-split m.blocks_by_hash plan.rollback_ordered plan.apply_ordered
                  (require_bodies-HasBodies m.blocks_by_hash _ e) in
              ground (
                arith,
                replay_branch-IsCalm m index plan.apply_ordered m.state_at_fork new,
                replay_branch-IsCalm m index (reverse_onto plan.rollback_ordered []) m.state_at_fork
                    (HasBodies-reverse m.blocks_by_hash plan.rollback_ordered [] old tt),
              )
        ]

  -- The sandbox never panics: whatever the plan, the index and the material, each body and each
  -- expected state that the replay takes for granted is there.
  run_report-ne-panics :
      (plan : ReorgPlan) (index : BlockIndex) (policy : ReorgPreflightPolicy)
      (m : ReplaySandboxMaterial)
      → (run_report plan index policy m).replay ≢ completed (err panics)
  unfolding run_report replay_phase
  run_report-ne-panics plan index policy m = λ bad. ground (arith, run_replay-IsCalm plan index m)
