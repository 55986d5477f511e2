-- ===== src/Network/Sync.antt =====
-- node/src/network.rs: `sync_from_peer`, the client that catches up with a peer, under a budget.
use trilogicon_core.Prelude.{
  ℕ, ◌+◌, ◌-◌, Text, Result, ok, err, ⊤, Bool, true, false, List, [], ◌∷◌, length, take, ltb, leb,
  is_nil, ◌==◌, not, fail_if, map_err, get_last?, Option, none, some, ne, saturating_add,
  if◌then◌else◌, ◌>>◌,
}
use trilogicon_core.Errors.{ProtocolError}
use trilogicon_core.Crypto.{Primitives}
use trilogicon_core.Block
use trilogicon_core.Block.{Block}
use trilogicon_core.Blockchain.{Blockchain}
use trilogicon_core.Storage.Store.{Faults}
use trilogicon_core.Network.Wire.{WireError}
use trilogicon_core.Network.Node.{
  NodeInner, NetworkBlockPersistFailure, append_network_block_persist,
}
use trilogicon_core.Network.Session.{mempool_hygiene_after_ledger_advance, count_up}

-- `SyncWorkBudget`
pub record SyncWorkBudget : Type 0 where
  pub max_rounds_per_call : ℕ
  pub max_blocks_per_call : ℕ
  pub max_wire_bytes_per_call : ℕ

-- `SyncWorkBudget::default`
abbrev pub default_budget : SyncWorkBudget
default_budget = record {
  max_rounds_per_call = 8192;
  max_blocks_per_call = 500000;
  max_wire_bytes_per_call = 536870912;
}

-- `validate_sync_work_budget`, for whether it accepts.
unfoldable pub validate_sync_work_budget : SyncWorkBudget → Bool
validate_sync_work_budget b =
    if b.max_rounds_per_call == 0
    then false
    else if b.max_blocks_per_call == 0
    then false
    else if b.max_wire_bytes_per_call == 0
    then false
    else true

-- Why a batch is refused.
pub data BatchError : Type 0 where
  no_tip : BatchError
  invalid : ℕ → ProtocolError → BatchError
  not_linear : ℕ → BatchError
  broken_link : ℕ → BatchError

-- Why a call ends: the peer has no more, the budget, or an error. The first is that the next answer of
-- the peer is not there yet.
pub data SyncEnd : Type 0 where
  pulling : SyncEnd
  caught_up : SyncEnd
  stopped_due_to_budget : SyncEnd
  store_unusable : SyncEnd
  invalid_budget : SyncEnd
  pull_failed : WireError → SyncEnd
  batch_refused : BatchError → SyncEnd
  append_failed : NetworkBlockPersistFailure → SyncEnd

-- An answer of the peer with its size, and the clock and the disk for each of its blocks.
pub record Pull : Type 0 where
  pub answer : Result WireError (List Block × ℕ)
  pub now_unix : ℕ → ℕ
  pub faults : ℕ → Faults

-- The node and the counters of one call.
pub record Progress : Type 0 where
  pub node : NodeInner
  pub total : ℕ
  pub rounds : ℕ
  pub wire_bytes : ℕ

abbrev pub nothing_yet : NodeInner → Progress
nothing_yet n = record { node = n; total = 0; rounds = 0; wire_bytes = 0 }

-- The tests of the budget in front of a round.
abbrev pub stops : SyncWorkBudget → Progress → Bool
stops budget p =
    if leb budget.max_blocks_per_call p.total
    then true
    else if leb budget.max_rounds_per_call p.rounds
    then true
    else leb budget.max_wire_bytes_per_call p.wire_bytes

abbrev pub is_pulling : SyncEnd → Bool
is_pulling pulling = true
is_pulling _ = false

module _ ⦃c : Primitives⦄ where
  -- The loop of `validate_linear_sync_batch`.
  unfoldable pub check_linear : ℕ → ℕ → Text → List Block → Result BatchError ⊤
  check_linear i expect_height prev_hash [] = ok tt
  check_linear i expect_height prev_hash (b ∷ bs) = do
    map_err (invalid i) (Block.basic_validate b)
    fail_if (not (b.height == expect_height)) (not_linear i)
    fail_if (ne b.previous_hash prev_hash) (broken_link i)
    check_linear (i + 1) (saturating_add expect_height 1) b.block_hash bs

  unfoldable pub validate_linear_sync_batch : Blockchain → List Block → Result BatchError ⊤
  unfolding check_linear
  validate_linear_sync_batch chain [] = ok tt
  validate_linear_sync_batch chain (b ∷ bs) = elim (get_last? chain.blocks) [
    | none ↦ err no_tip
    | some tip ↦ check_linear 0 (saturating_add tip.height 1) tip.block_hash (b ∷ bs)
  ]

  -- The loop over the blocks of a batch, with the index of the next one. It ends by itself where the budget
  -- for blocks is used up.
  unfoldable pub append_batch :
      SyncWorkBudget → Pull → ℕ → List Block → Progress → Option SyncEnd × Progress
  append_batch budget pull i [] p = (none, p)
  append_batch budget pull i (b ∷ bs) p =
      let (r, node) = append_network_block_persist (pull.faults i) b (pull.now_unix i) p.node in
      let after = record p { node = node; total = p.total + 1 } in
      let rest = append_batch budget pull (i + 1) bs after in
      elim r [
        | err e ↦ (some (append_failed e), record p { node = node })
        | ok _ ↦
            if leb budget.max_blocks_per_call (p.total + 1)
            then (some stopped_due_to_budget, after)
            else rest
      ]

  -- What is done with the blocks of an answer, which are not none.
  unfoldable pub take_batch :
      SyncWorkBudget → Pull → List Block → Progress → Option SyncEnd × Progress
  unfolding append_batch
  take_batch budget pull blocks p =
      let room = budget.max_blocks_per_call - p.total in
      let (e, after) = append_batch budget pull 0 (take room blocks) p in
      elim (validate_linear_sync_batch p.node.chain blocks) [
        | err x ↦ (some (batch_refused x), p)
        | ok _ ↦ if room == 0 then (some stopped_due_to_budget, p) else elim e [
          | some x ↦ (some x, after)
          | none ↦
              if ltb room (length blocks)
              then (some stopped_due_to_budget, after)
              else if ltb budget.max_wire_bytes_per_call after.wire_bytes
              then (some stopped_due_to_budget, after)
              else (none, after)
        ]
      ]

  -- One round of the loop behind the tests of the budget.
  unfoldable pub pull_once : SyncWorkBudget → Pull → Progress → Option SyncEnd × Progress
  unfolding take_batch
  pull_once budget pull p = elim pull.answer [
    | err e ↦ (some (pull_failed e), p)
    | ok answer ↦
        let pulled = record p {
          rounds = count_up p.rounds;
          wire_bytes = saturating_add p.wire_bytes answer.1;
        } in
        if is_nil answer.0 then (some caught_up, pulled) else take_batch budget pull answer.0 pulled
  ]

  -- The loop, on the answers of the peer.
  unfoldable pub pull_all : SyncWorkBudget → List Pull → Progress → SyncEnd × Progress
  unfolding pull_once
  pull_all budget [] p = if stops budget p then (stopped_due_to_budget, p) else (pulling, p)
  pull_all budget (pull ∷ later) p =
      let (e, after) = pull_once budget pull p in
      let rest = pull_all budget later after in
      if stops budget p
      then (stopped_due_to_budget, p)
      else elim e [ some x ↦ (x, after) | none ↦ rest ]

  -- The cleaning of the pool at the end of a call without an error.
  unfoldable pub finish_sync : SyncEnd → Progress → Progress
  finish_sync caught_up p =
      if ltb 0 p.total then record p { node = mempool_hygiene_after_ledger_advance p.node } else p
  finish_sync stopped_due_to_budget p =
      if ltb 0 p.total then record p { node = mempool_hygiene_after_ledger_advance p.node } else p
  finish_sync e p = p

  -- `sync_from_peer_with_clock`
  unfoldable pub sync_from_peer : SyncWorkBudget → List Pull → NodeInner → SyncEnd × Progress
  unfolding pull_all finish_sync
  sync_from_peer budget pulls n =
      let start = nothing_yet n in
      let (e, p) = pull_all budget pulls start in
      if n.store.poisoned
      then (store_unusable, start)
      else if validate_sync_work_budget budget
      then (e, finish_sync e p)
      else (invalid_budget, start)
