-- ===== src/Program.antt =====
-- node/src/main.rs: one round of the loop of `cmd_run`, under the lock of the node. What the disk, the
-- clock and the peers answer is a parameter; the messages are left out.
pub mod Catching
pub mod Sealing
pub mod Rounds
use trilogicon_core.Prelude.{
  ℕ, Text, Result, ok, err, ⊤, Option, none, some, Bool, true, false, not, ◌&&◌, List, [], ◌∷◌,
  is_nil, get_last?, if◌then◌else◌,
}
use trilogicon_core.Errors.{ProtocolError}
use trilogicon_core.Crypto.{Primitives}
use trilogicon_core.Block.{Block}
use trilogicon_core.Blockchain.{rollback_last_block}
use trilogicon_core.Blockchain.Sealing.{append_block_from_mempool_pending_removal}
use trilogicon_core.Mempool.{remove_by_tx_hashes}
use trilogicon_core.Mempool.Hygiene.{hygiene_vs_committed_ledger}
use trilogicon_core.Storage.Io.{IoError, panicked}
use trilogicon_core.Storage.Store.{Faults}
use trilogicon_core.Storage.Store as Store
use trilogicon_core.Network.Node.{
  NodeInner, NetworkBlockPersistFailure, rollback_failed, encoder_panicked,
}
use trilogicon_core.Network.Sync.{
  SyncWorkBudget, Pull, SyncEnd, caught_up, stopped_due_to_budget, append_failed, sync_from_peer,
}
use trilogicon_core.PeerBook.{PeerBook, sync_candidates, filter_available, record_ok, record_fail}
use trilogicon_core.Pending.{
  PendingDisk, DrainIo, DrainError, from_io, Draining, drain_pending_file,
}

-- Why `cmd_run` returns an error, or panics.
pub data RunStop : Type 0 where
  poisoned : RunStop
  rollback_stop : RunStop
  write_failure : IoError → RunStop
  fatal_sync : RunStop
  book_not_saved : RunStop
  run_panicked : RunStop

-- What `cmd_run` keeps between rounds, with the queue file.
pub record RunState : Type 0 where
  pub node : NodeInner
  pub queue : PendingDisk
  pub book : PeerBook
  pub sealing_allowed : Bool

-- What a peer answers in one call of `sync_from_peer`, and the clock when the call is over.
pub record Answers : Type 0 where
  pub pulls : List Pull
  pub now_unix : ℕ

-- The clock and the answers of one round: to the drain, to the catch-up that sealing waits for, to
-- the write of the sealed block, and to the catch-up behind it.
pub record RoundIo : Type 0 where
  pub drain : DrainIo
  pub catch_up : Text → List Pull
  pub now_unix : ℕ
  pub faults : Faults
  pub now_sync : ℕ
  pub sync : Text → Answers
  pub saved : Bool

-- `Ok(_)` of `sync_from_peer`
unfoldable pub is_success : SyncEnd → Bool
is_success caught_up = true
is_success stopped_due_to_budget = true
is_success e = false

-- A call that panics in the encoder.
unfoldable pub has_panicked : SyncEnd → Bool
has_panicked (append_failed encoder_panicked) = true
has_panicked e = false

-- What stops the program behind a call of `sync_from_peer`: an error that begins with
-- `FATAL_SYNC_PREFIX`, or a panic.
unfoldable pub stop_of : SyncEnd → Option RunStop
stop_of (append_failed (rollback_failed e x)) = some fatal_sync
stop_of (append_failed encoder_panicked) = some run_panicked
stop_of e = none

-- The error of a drain is only reported.
unfoldable pub drain_outcome : Result DrainError ⊤ → Result RunStop ⊤
drain_outcome (err (from_io panicked)) = err run_panicked
drain_outcome r = ok tt

module _ ⦃c : Primitives⦄ where
  unfoldable pub drain_step : DrainIo → RunState → Result RunStop ⊤ × RunState
  drain_step io s =
      let (r, d) = drain_pending_file io (record { disk = s.queue; pool = s.node.pool }) in
      (drain_outcome r, record s { queue = d.disk; node = record s.node { pool = d.pool } })

  -- The loop over the configured peers: whether all of them answered, and the node.
  unfoldable pub catch_up_all :
      SyncWorkBudget
      → (Text → List Pull)
      → List Text
      → Bool
      → NodeInner
      → Result RunStop Bool × NodeInner
  catch_up_all budget answers [] all_ok n = (ok all_ok, n)
  catch_up_all budget answers (p ∷ rest) all_ok n =
      let (e, after) = sync_from_peer budget (answers p) n in
      let later = catch_up_all budget answers rest (all_ok && is_success e) after.node in
      if has_panicked e then (err run_panicked, after.node) else later

  -- The catch-up that is tried again as long as sealing is not allowed.
  unfoldable pub allow_sealing :
      SyncWorkBudget → List Text → (Text → List Pull) → RunState → Result RunStop ⊤ × RunState
  allow_sealing budget peers answers s =
      let (r, node) = catch_up_all budget answers peers true s.node in
      if not s.sealing_allowed && not (is_nil peers)
      then elim r [
        | err x ↦ (err x, record s { node = node })
        | ok all_ok ↦ (ok tt, record s { node = node; sealing_allowed = all_ok })
      ]
      else (ok tt, s)

  -- `hygiene_vs_committed_ledger`, for its effect.
  unfoldable pub hygiene : NodeInner → NodeInner
  hygiene n = record n { pool = (hygiene_vs_committed_ledger n.chain.state n.pool).1 }

  -- The rollback behind a write that failed.
  unfoldable pub undo_sealed : IoError → NodeInner → Result RunStop (Option Block) × NodeInner
  undo_sealed panicked n = (err run_panicked, n)
  undo_sealed e n =
      let (r, chain) = rollback_last_block n.genesis n.chain in
      elim r [
        | ok _ ↦ (err (write_failure e), record n { chain = chain })
        | err x ↦ (err rollback_stop, record n { chain = chain })
      ]

  -- The write of the block that was sealed, and what follows it.
  unfoldable pub persist_sealed :
      Faults → List Text → Block → NodeInner → Result RunStop (Option Block) × NodeInner
  persist_sealed f hashes tip n =
      let (r, store) = Store.append_block f tip n.store in
      elim r [
        | ok _ ↦
            (ok (some tip), record n { store = store; pool = remove_by_tx_hashes hashes n.pool })
        | err e ↦ undo_sealed e (record n { store = store })
      ]

  -- `chain.blocks().last().expect(..)`
  unfoldable pub persist_sealed_tip :
      Faults → List Text → NodeInner → Result RunStop (Option Block) × NodeInner
  persist_sealed_tip f hashes n = elim (get_last? n.chain.blocks) [
    | none ↦ (err run_panicked, n)
    | some tip ↦ persist_sealed f hashes tip n
  ]

  -- The sealing of at most 64 transactions. An attempt that fails is followed by a second hygiene run.
  unfoldable pub seal_now : Faults → ℕ → NodeInner → Result RunStop (Option Block) × NodeInner
  seal_now f now n =
      let (r, chain) = append_block_from_mempool_pending_removal n.pool 64 now n.chain in
      elim r [
        | ok none ↦ (ok none, record n { chain = chain })
        | ok (some hashes) ↦ persist_sealed_tip f hashes (record n { chain = chain })
        | err x ↦ (ok none, hygiene (record n { chain = chain }))
      ]

  unfoldable pub seal_step :
      Bool → Faults → ℕ → NodeInner → Result RunStop (Option Block) × NodeInner
  seal_step allowed f now n = if allowed then seal_now f now (hygiene n) else (ok none, hygiene n)

  -- The loop over the peers that are not in cooldown.
  unfoldable pub sync_each :
      SyncWorkBudget → (Text → Answers) → List Text → RunState → Result RunStop ⊤ × RunState
  sync_each budget answers [] s = (ok tt, s)
  sync_each budget answers (p ∷ rest) s =
      let (e, after) = sync_from_peer budget (answers p).pulls s.node in
      let good =
        sync_each budget answers rest
          (record s { node = after.node; book = record_ok p (answers p).now_unix s.book }) in
      let bad =
        sync_each budget answers rest
          (record s { node = after.node; book = record_fail p (answers p).now_unix s.book }) in
      if is_success e
      then good
      else elim (stop_of e) [ some x ↦ (err x, record s { node = after.node }) | none ↦ bad ]

  unfoldable pub sync_step :
      SyncWorkBudget → List Text → RoundIo → RunState → Result RunStop ⊤ × RunState
  sync_step budget peers io s =
      if is_nil peers
      then (ok tt, s)
      else let (r, after) =
          sync_each budget io.sync
            (filter_available (sync_candidates peers s.book) io.now_sync s.book) s in
        elim r [
          | err x ↦ (err x, after)
          | ok _ ↦ if io.saved then (ok tt, after) else (err book_not_saved, after)
        ]

  -- The sealing and the catch-up behind it.
  unfoldable pub seal_and_sync :
      SyncWorkBudget → List Text → RoundIo → RunState → Result RunStop (Option Block) × RunState
  seal_and_sync budget peers io ready =
      let (r, node) = seal_step ready.sealing_allowed io.faults io.now_unix ready.node in
      let (q, after) = sync_step budget peers io (record ready { node = node }) in
      elim r [
        | err x ↦ (err x, record ready { node = node })
        | ok sealed ↦ elim q [ err x ↦ (err x, after) | ok _ ↦ (ok sealed, after) ]
      ]

  -- One round up to the release of the lock: the block that it has sealed, or why it stops.
  unfoldable pub run_round :
      SyncWorkBudget → List Text → RoundIo → RunState → Result RunStop (Option Block) × RunState
  run_round budget peers io s =
      let (a, drained) = drain_step io.drain s in
      let (b, ready) = allow_sealing budget peers io.catch_up drained in
      let rest = seal_and_sync budget peers io ready in
      if s.node.store.poisoned then (err poisoned, s) else elim a [
        | err x ↦ (err x, drained)
        | ok _ ↦ elim b [ err x ↦ (err x, ready) | ok _ ↦ rest ]
      ]
