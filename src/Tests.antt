-- ===== src/Tests.antt =====
-- Concrete inputs: a stand-in for the cryptographic crates, a key, a few transactions and a chain.
-- The children run the code on them and apply the theorems to them.
mod Ledger
mod Witnesses
mod ChainWitnesses
mod PoolWitnesses
mod ForkWitnesses
mod EncodingWitnesses
mod StorageWitnesses
mod NetworkWitnesses
mod PeerWitnesses
mod QueueWitnesses
mod WalletWitnesses
mod SandboxWitnesses
mod ProgramWitnesses
use trilogicon_core.Prelude.{
  ℕ, zero, suc, Text, true, List, [], ◌∷◌, ok, err, ⊤, text_discrete, show_u64, join, str, is_blank,
  contains, text_leb, none, Result,
}
use trilogicon_core.Prelude.Sorting.{sort_pairs, insert_sorted}
use trilogicon_core.Prelude.Maps.{get, insert, remove}
use trilogicon_core.Types.{Address, is_valid}
use trilogicon_core.Errors.{Checked}
use trilogicon_core.Crypto.{Primitives, hash_bytes, address_from_public_key, verify_signature}
use trilogicon_core.Transaction
use trilogicon_core.Transaction.{
  Transaction, unsigned_payload_bytes, compute_tx_hash, validate_hash, validate_signature,
  validate_sender_binding,
}
use trilogicon_core.State.{State, apply_transaction, get_account, total_balance_sum}
use trilogicon_core.Block
use trilogicon_core.Block.{
  Block, genesis, check_unique, validate_all, validate_block_hash, compute_block_hash,
  block_header_preimage_bytes,
}
use trilogicon_core.Consensus.{
  default_params, validate_block_timestamps_vs_parent, validate_block_vs_local_time,
}
use trilogicon_core.Genesis.{
  Genesis, GenesisAllocation, from_genesis, sorted_pairs, reject_duplicates, validate_decl,
}
use trilogicon_core.Blockchain.{
  Blockchain, new_chain, append_block, apply_all, apply_blocks, recompute_state_from_blocks, pop,
  height,
}
use trilogicon_core.Mempool.{
  Mempool, new, try_submit, try_submit_pending_drain, make_room, evict_oldest, store, has_conflict,
  remove_tx_hash,
}
use trilogicon_core.Mempool.Index.{slot, index_insert, index_remove}
use trilogicon_core.Mempool.{seal_from, pick, ordered_candidates_for_seal, remove_by_tx_hashes}
use trilogicon_core.Mempool.Hygiene.{
  purge_nonviable_under_committed_state, drop_stale_nonces_vs_committed, purge_from, drops_head,
  is_stale, stale_hashes,
}
use trilogicon_core.Blockchain.Sealing.{
  append_block_from_mempool_pending_removal, append_block_from_mempool, Node,
}

-- Opens all the code that the tests run.
unfoldable pub code : ⊤
unfolding text_discrete show_u64 join str is_blank contains text_leb get insert remove is_valid
    hash_bytes address_from_public_key verify_signature unsigned_payload_bytes compute_tx_hash
    validate_hash validate_signature validate_sender_binding Transaction.basic_validate
    apply_transaction get_account total_balance_sum genesis check_unique validate_all
    validate_block_hash compute_block_hash block_header_preimage_bytes Block.basic_validate
    default_params validate_block_timestamps_vs_parent validate_block_vs_local_time from_genesis
    sorted_pairs sort_pairs insert_sorted reject_duplicates validate_decl new_chain append_block
    apply_all apply_blocks recompute_state_from_blocks pop height new try_submit
    try_submit_pending_drain make_room evict_oldest store has_conflict remove_tx_hash slot
    index_insert index_remove seal_from pick ordered_candidates_for_seal remove_by_tx_hashes
    drops_head is_stale stale_hashes purge_nonviable_under_committed_state
    drop_stale_nonces_vs_committed purge_from append_block_from_mempool_pending_removal
    append_block_from_mempool
code = tt

-- Digests and hexadecimal texts are the bytes themselves, and every signature is accepted.
instance abbrev pub toy : Primitives
toy = record { sha256 = λ t. t; hex_encode = λ t. t; is_key = λ _. true; verify = λ _ _ _. true }

abbrev pub repeat : ℕ → ℕ → Text
repeat zero b = []
repeat (suc n) b = b ∷ repeat n b

-- The key of 32 letters `a`, which is the sender's address as well.
abbrev pub alice : Text
alice = repeat 32 97

abbrev pub bob : Text
bob = 98 ∷ 111 ∷ 98 ∷ []

abbrev pub draft : Address → ℕ → ℕ → ℕ → Transaction
draft receiver amount fee nonce = record {
  sender = alice;
  receiver = receiver;
  amount = amount;
  fee = fee;
  nonce = nonce;
  timestamp_unix = 7;
  public_key = alice;
  signature = repeat 64 115;
  tx_hash = [];
}

abbrev pub signed : Transaction → Transaction
signed tx = record tx { tx_hash = unsigned_payload_bytes tx }

-- Ten coins to bob, for a fee of one.
abbrev pub payment : Transaction
payment = signed (draft bob 10 1 0)

abbrev pub start : State
start = record { accounts = (alice, record { address = alice; balance = 100; nonce = 0 }) ∷ [] }

abbrev pub paid : State
paid = (apply_transaction payment start).1

abbrev pub sealed : Block → Block
sealed b = record b { block_hash = compute_block_hash b }

abbrev pub document : Genesis
document = record { allocations = record { address = alice; balance = 100 } ∷ [] }

-- The chain of the genesis block alone.
abbrev pub root : Blockchain
root = record { blocks = genesis ∷ []; state = start; consensus = default_params }

-- The first block, with the payment.
abbrev pub first : Block
first = sealed (record {
  height = 1;
  previous_hash = str "GENESIS_HASH";
  timestamp_unix = 9;
  transactions = payment ∷ [];
  block_hash = [];
})

abbrev pub grown : Blockchain
grown = (append_block first root).1

abbrev pub pool : Mempool
pool = (try_submit payment (new 2)).1
