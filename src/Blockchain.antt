-- ===== src/Blockchain.antt =====
-- node/src/blockchain.rs: the chain of blocks with the ledger that they lead to.
pub mod Append
pub mod Replay
pub mod Linked
pub mod Rollback
pub mod Sealing
use trilogicon_core.Prelude.{
  ℕ, zero, suc, ◌+◌, ◌%◌, Text, Result, ok, err, ⊤, fail_if, ok_or, ite, ◌=?◌, text_eq, str, not,
  ◌==◌, ltb, leb, is_nil, List, [], ◌∷◌, ◌++◌, Option, none, some, get_last?, take, drop, length,
  if◌then◌else◌, ne, show_u64, u64_max, wrapping_add, map_err,
}
use trilogicon_core.Action.{Action, lift, gets, modify, ◌>>=◌, ◌>>◌}
use trilogicon_core.Errors.{Checked, ProtocolError, invalid_block, state_error}
use trilogicon_core.Crypto.{Primitives}
use trilogicon_core.Transaction.{Transaction}
use trilogicon_core.State.{State, apply_transaction}
use trilogicon_core.Block
use trilogicon_core.Block.{Block}
use trilogicon_core.Consensus.{
  ConsensusParams, default_params, validate_block_timestamps_vs_parent,
  validate_block_vs_local_time,
}
use trilogicon_core.Genesis.{Genesis, from_genesis}

pub record Blockchain : Type 0 where
  pub blocks : List Block
  pub state : State
  pub consensus : ConsensusParams

-- `Blockchain::height`
abbrev pub height_of : Option Block → ℕ
height_of none = 0
height_of (some b) = b.height

unfoldable pub height : Blockchain → ℕ
height c = height_of (get_last? c.blocks)

-- `Blockchain::from_genesis`
unfoldable pub new_chain : Genesis → Checked Blockchain
new_chain g = elim (from_genesis g) [
  | ok s ↦ ok (record { blocks = Block.genesis ∷ []; state = s; consensus = default_params })
  | err e ↦ err e
]

-- `Blockchain::from_genesis_with_consensus`
unfoldable pub new_chain_with : Genesis → ConsensusParams → Checked Blockchain
unfolding new_chain
new_chain_with g p = elim (new_chain g) [ ok c ↦ ok (record c { consensus = p }) | err e ↦ err e ]

-- `filter(|b| b.height >= start).take(limit)`
unfoldable pub from_height : ℕ → ℕ → List Block → List Block
from_height zero start bs = []
from_height (suc limit) start [] = []
from_height (suc limit) start (b ∷ bs) =
    let keep = b ∷ from_height limit start bs in
    let skip = from_height (suc limit) start bs in if leb start b.height then keep else skip

unfoldable pub blocks_from_height_limited : ℕ → ℕ → Blockchain → List Block
unfolding from_height
blocks_from_height_limited start limit c = from_height limit start c.blocks

-- `blocks.pop()`
unfoldable pub pop : List Block → List Block
pop [] = []
pop (b ∷ []) = []
pop (a ∷ b ∷ rest) = a ∷ pop (b ∷ rest)

-- `while self.height() > target { self.blocks.pop(); }`, a round for each block at most.
unfoldable pub pop_above : ℕ → ℕ → List Block → List Block
pop_above zero target bs = bs
pop_above (suc fuel) target bs =
    let rest = pop_above fuel target (pop bs) in
    if ltb target (height_of (get_last? bs)) then rest else bs

-- `blocks.last().ok_or_else(..)?`
pub last_block : Blockchain → Checked Block
last_block c = ok_or (get_last? c.blocks) (state_error (str "chain tip missing"))

-- The checks of `append_block` against the tip, in order. `tip.height + 1` wraps, as it does in a
-- release build.
unfoldable pub validate_successor : Block → Block → ConsensusParams → Checked ⊤
validate_successor tip block params =
    if not (block.height == wrapping_add tip.height 1)
    then err (invalid_block (str "invalid block height"))
    else if ne block.previous_hash tip.block_hash
    then err (invalid_block (str "invalid previous hash"))
    else validate_block_timestamps_vs_parent tip block params

module _ ⦃c : Primitives⦄ where
  -- `for tx in txs { state.apply_transaction(tx)?; }`
  unfoldable pub apply_all : List Transaction → Action State ⊤
  apply_all [] = lift (ok tt)
  apply_all (tx ∷ rest) = do apply_transaction tx; apply_all rest

  -- The same loop over the transactions of every block.
  unfoldable pub apply_blocks : List Block → Action State ⊤
  apply_blocks [] = lift (ok tt)
  apply_blocks (b ∷ rest) = do apply_all b.transactions; apply_blocks rest

  -- A computation on a local copy of the state, of which only the result is kept.
  abbrev pub on_clone : Action State ⊤ → State → Checked State
  on_clone m s = let (r, s') = m s in elim r [ ok _ ↦ ok s' | err e ↦ err e ]

  unfoldable pub recompute_state_from_blocks : List Block → Genesis → Checked State
  recompute_state_from_blocks blocks g = elim (from_genesis g) [
    | ok s ↦ on_clone (apply_blocks (drop 1 blocks)) s
    | err e ↦ err e
  ]

  unfoldable pub append_block : Block → Action Blockchain ⊤
  unfolding last_block validate_successor
  append_block block = do
    lift (Block.basic_validate block)
    chain ← gets (λ k. k)
    tip ← lift (last_block chain)
    lift (validate_successor tip block chain.consensus)
    next_state ← lift (on_clone (apply_all block.transactions) chain.state)
    modify (λ k. record k { state = next_state })
    modify (λ k. record k { blocks = k.blocks ++ block ∷ [] })

  unfoldable pub try_append_network_block : Block → ℕ → Action Blockchain ⊤
  try_append_network_block block now_unix = do
    params ← gets (λ k. k.consensus)
    lift (validate_block_vs_local_time block.timestamp_unix now_unix params.max_future_drift_secs)
    append_block block

  unfoldable pub rebuild_state_from_genesis : Genesis → Action Blockchain ⊤
  rebuild_state_from_genesis g = do
    blocks ← gets (λ k. k.blocks)
    st ← lift (recompute_state_from_blocks blocks g)
    modify (λ k. record k { state = st })

  unfoldable pub rollback_last_block : Genesis → Action Blockchain ⊤
  unfolding rebuild_state_from_genesis
  rollback_last_block g = do
    n ← gets (λ k. length k.blocks)
    lift (fail_if (leb n 1) (state_error (str "cannot rollback genesis tip")))
    modify (λ k. record k { blocks = pop k.blocks })
    rebuild_state_from_genesis g

  unfoldable pub rollback_to_height : ℕ → Genesis → Action Blockchain ⊤
  unfolding rebuild_state_from_genesis height
  rollback_to_height target g = do
    current ← gets height
    lift (
        fail_if (ltb current target) (
          state_error (
            str "rollback target height "
            ++ show_u64 target
            ++ str " above current tip "
            ++ show_u64 current)))
    modify (λ k. record k { blocks = pop_above (length k.blocks) target k.blocks })
    rebuild_state_from_genesis g
