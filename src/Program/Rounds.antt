-- ===== src/Program/Rounds.antt =====
-- node/src/main.rs: what a round of the program does to the node.
use trilogicon_core.Prelude.{
  ◌≡◌, ◌≢◌, ◌⊎◌, inl, inr, Text, Result, ok, some, Option, true, false, List, [], ◌∷◌, arith, sym,
  subst, Bool-cases, Result-cases, Option-cases, is_nil, not, ◌&&◌,
}
use trilogicon_core.Crypto.{Primitives}
use trilogicon_core.Block.{Block}
use trilogicon_core.Network.Node.{NodeInner}
use trilogicon_core.Network.Restart.{IsConsistent}
use trilogicon_core.Network.Sync.{SyncWorkBudget, Pull, sync_from_peer}
use trilogicon_core.PeerBook.{record_ok, record_fail, filter_available, sync_candidates}
use trilogicon_core.Pending.{DrainIo}
use trilogicon_core.Program.{
  RunState, RunStop, RoundIo, Answers, drain_step, catch_up_all, allow_sealing, hygiene, seal_step,
  sync_each, sync_step, run_round, is_success, stop_of, seal_and_sync,
}
use trilogicon_core.Program.Catching.{
  AreWritten, sync_from_peer-IsConsistent, catch_up_all-IsConsistent,
}
use trilogicon_core.Program.Sealing.{Sealable, IsSealed, seal_step-IsSealed}

module _ ⦃c : Primitives⦄ where
  drain_step-IsConsistent :
      (io : DrainIo) (s : RunState) → IsConsistent s.node → IsConsistent (drain_step io s).1.node
  unfolding drain_step
  drain_step-IsConsistent io s h = h

  allow_sealing-IsConsistent :
      (budget : SyncWorkBudget) (peers : List Text) (answers : Text → List Pull) (s : RunState)
      → IsConsistent s.node
      → ((p : Text) → AreWritten (answers p))
      → IsConsistent (allow_sealing budget peers answers s).1.node
  unfolding allow_sealing
  allow_sealing-IsConsistent budget peers answers s h k =
      elim (Bool-cases (not s.sealing_allowed && not (is_nil peers))) [
        | inl waits ↦
            let kept = catch_up_all-IsConsistent budget answers peers true s.node h k in
            elim (Result-cases (catch_up_all budget answers peers true s.node).0) [
              | inl (all_ok, good) ↦ rw waits (rw good kept)
              | inr (x, bad) ↦ rw waits (rw bad kept)
            ]
        | inr ready ↦ rw ready h
      ]

  sync_each-IsConsistent :
      (budget : SyncWorkBudget) (answers : Text → Answers) (peers : List Text) (s : RunState)
      → IsConsistent s.node
      → ((p : Text) → AreWritten (answers p).pulls)
      → IsConsistent (sync_each budget answers peers s).1.node
  unfolding sync_each
  sync_each-IsConsistent budget answers [] s h k = h
  sync_each-IsConsistent budget answers (p ∷ rest) s h k =
      let call = sync_from_peer budget (answers p).pulls s.node in
      let kept = sync_from_peer-IsConsistent budget (answers p).pulls s.node h (k p) in
      elim (Bool-cases (is_success call.0)) [
        | inl good ↦ rw good (
            sync_each-IsConsistent budget answers rest
              (record s { node = call.1.node; book = record_ok p (answers p).now_unix s.book }) kept
              k)
        | inr bad ↦ elim (Option-cases (stop_of call.0)) [
          | inr (x, fatal) ↦ rw bad (rw fatal kept)
          | inl plain ↦ rw bad (
              rw plain (
                sync_each-IsConsistent budget answers rest
                  (record s {
                    node = call.1.node;
                    book = record_fail p (answers p).now_unix s.book;
                  })
                  kept k))
        ]
      ]

  sync_step_node :
      (budget : SyncWorkBudget) (peers : List Text) (io : RoundIo) (s : RunState)
      → ((sync_step budget peers io s).1 ≡ s)
        ⊎ ((sync_step budget peers io s).1
            ≡ (sync_each budget io.sync
                (filter_available (sync_candidates peers s.book) io.now_sync s.book)
                s).1)
  unfolding sync_step
  sync_step_node budget peers io s = ground arith

  sync_step-IsConsistent :
      (budget : SyncWorkBudget) (peers : List Text) (io : RoundIo) (s : RunState)
      → IsConsistent s.node
      → ((p : Text) → AreWritten (io.sync p).pulls)
      → IsConsistent (sync_step budget peers io s).1.node
  sync_step-IsConsistent budget peers io s h k = elim (sync_step_node budget peers io s) [
    | inl same ↦ subst (λ t. IsConsistent t.node) (sym same) h
    | inr went ↦
        subst (λ t. IsConsistent t.node) (sym went) (sync_each-IsConsistent budget io.sync _ s h k)
  ]

  -- What a round has behind the drain, behind the catch-up, and behind the sealing.
  abbrev pub drained : RoundIo → RunState → RunState
  drained io s = (drain_step io.drain s).1

  abbrev pub readied : SyncWorkBudget → List Text → RoundIo → RunState → RunState
  readied budget peers io s = (allow_sealing budget peers io.catch_up (drained io s)).1

  abbrev after_seal : RoundIo → RunState → RunState
  after_seal io ready = record ready {
    node = (seal_step ready.sealing_allowed io.faults io.now_unix ready.node).1;
  }

  seal_and_sync-cases :
      (budget : SyncWorkBudget) (peers : List Text) (io : RoundIo) (ready : RunState)
      → ((seal_and_sync budget peers io ready).1 ≡ after_seal io ready)
        ⊎ ((seal_and_sync budget peers io ready).1
            ≡ (sync_step budget peers io (after_seal io ready)).1)
  unfolding seal_and_sync
  seal_and_sync-cases budget peers io ready = ground arith

  round_cases :
      (budget : SyncWorkBudget) (peers : List Text) (io : RoundIo) (s : RunState)
      → ((run_round budget peers io s).1 ≡ s)
        ⊎ ((run_round budget peers io s).1 ≡ drained io s)
        ⊎ ((run_round budget peers io s).1 ≡ readied budget peers io s)
        ⊎ ((run_round budget peers io s).1
            ≡ (seal_and_sync budget peers io (readied budget peers io s)).1)
  unfolding run_round
  round_cases budget peers io s = ground arith

  IsSealed-IsConsistent :
      (r : Result RunStop (Option Block) × NodeInner) (n : NodeInner)
      → IsSealed r n
      → IsConsistent r.1
  IsSealed-IsConsistent r n (inl h) = h.3
  IsSealed-IsConsistent r n (inr (inl h)) = h.4
  IsSealed-IsConsistent r n (inr (inr h)) = h.3

  seal_and_sync-IsConsistent :
      (budget : SyncWorkBudget) (peers : List Text) (io : RoundIo) (ready : RunState)
      → IsConsistent ready.node
      → ((p : Text) → AreWritten (io.sync p).pulls)
      → Sealable (hygiene ready.node) io.now_unix
      → IsConsistent (seal_and_sync budget peers io ready).1.node
  seal_and_sync-IsConsistent budget peers io ready h l w =
      let sealed =
        IsSealed-IsConsistent (seal_step ready.sealing_allowed io.faults io.now_unix ready.node)
          ready.node
          (seal_step-IsSealed ready.sealing_allowed io.faults io.now_unix ready.node h w) in
      elim (seal_and_sync-cases budget peers io ready) [
        | inl stopped ↦ subst (λ t. IsConsistent t.node) (sym stopped) sealed
        | inr went ↦
            subst (λ t. IsConsistent t.node) (sym went)
              (sync_step-IsConsistent budget peers io (after_seal io ready) sealed l)
      ]

  -- A round leaves a consistent node consistent, whether it ends well or stops, whatever the queue
  -- file holds, the peers answer and the disk does. Every block that the peers send or that the node
  -- may seal in it must have an encoding.
  pub run_round-IsConsistent :
      (budget : SyncWorkBudget) (peers : List Text) (io : RoundIo) (s : RunState)
      → IsConsistent s.node
      → ((p : Text) → AreWritten (io.catch_up p))
      → ((p : Text) → AreWritten (io.sync p).pulls)
      → Sealable (hygiene (readied budget peers io s).node) io.now_unix
      → IsConsistent (run_round budget peers io s).1.node
  run_round-IsConsistent budget peers io s h k l w =
      let d = drain_step-IsConsistent io.drain s h in
      let r = allow_sealing-IsConsistent budget peers io.catch_up (drained io s) d k in
      elim (round_cases budget peers io s) [
        | inl same ↦ subst (λ t. IsConsistent t.node) (sym same) h
        | inr (inl stopped) ↦ subst (λ t. IsConsistent t.node) (sym stopped) d
        | inr (inr (inl stopped)) ↦ subst (λ t. IsConsistent t.node) (sym stopped) r
        | inr (inr (inr went)) ↦
            subst (λ t. IsConsistent t.node) (sym went)
              (seal_and_sync-IsConsistent budget peers io (readied budget peers io s) r l w)
      ]

  -- A node with peers that was not allowed to seal seals no block in a round in which one of the peers
  -- could not be caught up with.
  run_round_waits :
      (budget : SyncWorkBudget) (peers : List Text) (io : RoundIo) (s : RunState) (b : Block)
      → is_nil peers ≡ false
      → s.sealing_allowed ≡ false
      → (catch_up_all budget io.catch_up peers true (drained io s).node).0 ≡ ok false
      → (run_round budget peers io s).0 ≢ ok (some b)
  unfolding run_round seal_and_sync allow_sealing seal_step drain_step
  run_round_waits budget peers io s b some_peer held behind = λ e. ground arith
