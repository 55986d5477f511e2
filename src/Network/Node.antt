-- ===== src/Network/Node.antt =====
-- node/src/network.rs: `NodeInner`, and how it keeps a block of a peer in memory and on disk.
use trilogicon_core.Prelude.{
  ℕ, Result, ok, err, ⊤, none, some, Bool, true, false, get_last?, if◌then◌else◌,
}
use trilogicon_core.Errors.{ProtocolError}
use trilogicon_core.Crypto.{Primitives}
use trilogicon_core.Genesis.{Genesis}
use trilogicon_core.Block.{Block}
use trilogicon_core.Blockchain.{Blockchain, try_append_network_block, rollback_last_block}
use trilogicon_core.Mempool.{Mempool}
use trilogicon_core.Seen.{SeenCache, new_cache}
use trilogicon_core.Storage.Io.{IoError, panicked}
use trilogicon_core.Storage.Store.{BlockStore, Faults}
use trilogicon_core.Storage.Store as Store

-- `struct NodeInner`, without the peer book, which no function here reads.
pub record NodeInner : Type 0 where
  pub genesis : Genesis
  pub chain : Blockchain
  pub pool : Mempool
  pub store : BlockStore
  pub seen_tx : SeenCache
  pub seen_block : SeenCache

-- `NodeInner::for_tests`
unfoldable pub for_tests : Genesis → Blockchain → Mempool → BlockStore → NodeInner
for_tests g chain pool store = record {
  genesis = g;
  chain = chain;
  pool = pool;
  store = store;
  seen_tx = new_cache 50000;
  seen_block = new_cache 50000;
}

-- `NetworkBlockPersistFailure`, with the errors themselves for their texts. The last one is the panic
-- of the encoder, which no block from the wire meets.
pub data NetworkBlockPersistFailure : Type 0 where
  store_poisoned : NetworkBlockPersistFailure
  peer_rejected_block : ProtocolError → NetworkBlockPersistFailure
  missing_tip_after_apply : NetworkBlockPersistFailure
  persist_after_apply : IoError → NetworkBlockPersistFailure
  rollback_failed : IoError → ProtocolError → NetworkBlockPersistFailure
  encoder_panicked : NetworkBlockPersistFailure

unfoldable pub counts_toward_invalid_block_budget : NetworkBlockPersistFailure → Bool
counts_toward_invalid_block_budget (peer_rejected_block e) = true
counts_toward_invalid_block_budget _ = false

abbrev pub NodeAction : Type 0 → Type 0
NodeAction A = NodeInner → Result NetworkBlockPersistFailure A × NodeInner

module _ ⦃c : Primitives⦄ where
  -- The tip is taken back after a failed write.
  unfoldable pub take_back : IoError → NodeAction ⊤
  take_back panicked n = (err encoder_panicked, n)
  take_back e n =
      let (r, chain) = rollback_last_block n.genesis n.chain in
      elim r [
        | ok _ ↦ (err (persist_after_apply e), record n { chain = chain })
        | err x ↦ (err (rollback_failed e x), record n { chain = chain })
      ]

  unfoldable pub persist : Faults → Block → NodeAction ⊤
  unfolding take_back
  persist f tip n =
      let (r, store) = Store.append_block f tip n.store in
      elim r [
        | ok _ ↦ (ok tt, record n { store = store })
        | err e ↦ take_back e (record n { store = store })
      ]

  -- `self.chain.blocks().last().ok_or(..)?`, and what is done with it.
  unfoldable pub persist_tip : Faults → NodeAction ⊤
  unfolding persist
  persist_tip f n = elim (get_last? n.chain.blocks) [
    | none ↦ (err missing_tip_after_apply, n)
    | some tip ↦ persist f tip n
  ]

  unfoldable pub append_network_block_persist : Faults → Block → ℕ → NodeAction ⊤
  unfolding persist_tip
  append_network_block_persist f block now_unix n =
      if n.store.poisoned
      then (err store_poisoned, n)
      else let (r, chain) = try_append_network_block block now_unix n.chain in
        elim r [
          | ok _ ↦ persist_tip f (record n { chain = chain })
          | err e ↦ (err (peer_rejected_block e), record n { chain = chain })
        ]
