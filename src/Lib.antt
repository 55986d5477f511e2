-- ===== src/Lib.antt =====
-- Trilogicon core: the ledger, the blocks, the chain, the mempool, the block file and the peer sessions
-- of the node, as functions and theorems about them.
--
-- The program. A node keeps an account ledger (`State`), a chain of blocks that leads to it
-- (`Blockchain`) and a pool of pending transfers (`Mempool`). A transaction is validated on its own
-- (hash, signature, binding of the sender to the key), applied to the ledger (nonce, balance, fee),
-- queued in the pool, selected for a block, and committed with the block. Blocks are validated on
-- their own, against the tip and against the time policy, and their transactions are applied to a
-- copy of the ledger which replaces it only if all succeed. A rollback drops blocks and recomputes
-- the ledger from the genesis allocations. A node writes each block of its chain to an append-only
-- file (`BlockStore`), from which a restart replays the chain, and takes blocks and transactions from
-- peers in sessions of framed messages (`peer_connection_loop`), under limits of a local policy. The
-- command `send` queues a signed transfer in a file (`append_pending_transaction`), and each round of
-- the running program (`cmd_run`) drains that file into the pool, catches up with its peers, seals a
-- block and records the health of the peers in a book (`PeerBook`). A plan to switch to another branch
-- can be tried out on copies of the ledger (`ReplaySandbox`).
--
-- Files, and the code that they model:
--   Types.antt             node/src/types.rs: Address, Account
--   Errors.antt            node/src/errors.rs: ProtocolError
--   Crypto.antt            node/src/crypto.rs: Crypto::hash_bytes and so on
--   Transaction.antt       node/src/transaction.rs: Transaction and its checks
--   State.antt             node/src/state.rs: State::apply_transaction, total_balance_sum
--   Block.antt             node/src/block.rs: Block::basic_validate and its parts
--   Consensus.antt         node/src/consensus.rs: the timestamp checks
--   Genesis.antt           node/src/genesis.rs and State::from_genesis: the initial ledger
--   Mempool.antt           node/src/mempool.rs: submission, eviction, candidate selection, removal
--   Mempool/Index.antt     the field `by_sender` of the pool
--   Mempool/Hygiene.antt   the cleaning of the pool against the committed ledger
--   Blockchain.antt        node/src/blockchain.rs: append, replay, rollback
--   Blockchain/Sealing.antt  append_block_from_mempool and its variant
--   Encoding.antt          node/src/encoding.rs: the encoders and decoders
--   Encoding/Cursor.antt   node/src/encoding.rs: Cursor and the push_ functions
--   Storage.antt           node/src/storage.rs: the readers and the replay of the block file
--   Storage/Io.antt        the answers of the disk, and the monad of steps that write
--   Storage/Frames.antt    node/src/storage.rs: the frames and crc32_ieee
--   Storage/Store.antt     node/src/storage.rs: BlockStore, the writer
--   Network/Node.antt      node/src/network.rs: NodeInner and append_network_block_persist
--   Network/Wire.antt      node/src/network.rs: frames, handshake and batches of blocks
--   Network/Session.antt   node/src/network.rs: predecode_inbound_app_payload, apply_predecoded
--   Network/Connection.antt  node/src/network.rs: peer_connection_loop
--   Network/Sync.antt      node/src/network.rs: sync_from_peer_with_clock and its checks
--   Network/Slots.antt     node/src/network.rs: InboundSlotPool and InboundPermit
--   Pending.antt           node/src/pending_tx_file.rs: the queue file
--   PeerBook.antt          node/src/peer_book.rs: PeerBook
--   Wallet.antt            node/src/wallet.rs: Wallet::sign_transfer
--   Program.antt           node/src/main.rs: a round of the loop of cmd_run
--   Seen.antt              node/src/seen.rs: SeenCache
--   Reorg/BlockIndex.antt  node/src/v3/block_index.rs: the walks of BlockIndex
--   Reorg/Plan.antt        node/src/v3/reorg_plan.rs: ReorgPlan and its check
--   Reorg/Preflight.antt   node/src/v3/reorg_preflight.rs: ReorgPreflight::evaluate
--   Reorg/BranchSelect.antt  node/src/v3/branch_select.rs: the order and the choice of tips
--   Reorg/Fingerprint.antt  node/src/v3/replay_sandbox.rs: sandbox_state_fingerprint
--   Reorg/Sandbox.antt     node/src/v3/replay_sandbox.rs: ReplaySandbox::run_report
-- The other children prove: their names say what. Prelude has the shared types and lemmas, Action
-- the monad of methods that return an error, Tests concrete runs.
--
-- How the model corresponds to the code. A struct is a record with the same fields, a method on
-- `&mut self` a function to the result and the new state, which comes back on the error path too.
-- `?` is the bind of a do block. A String is the list of its UTF-8 bytes, and so is a byte vector.
-- A HashMap is an association list in which a new key goes to the end: where the code iterates over
-- a map, that is one of the possible orders. u64 is ℕ with the checked, saturating and wrapping
-- operations written out; the range of stored values is part of the invariants. `tip.height + 1`
-- wraps, as it does in a release build; a debug build panics there.
--
-- Files and sockets. The block file is the list of its bytes. What the disk answers to each write and
-- sync is an argument of the operation: success, or an error after so many of the bytes. A session is a
-- function of the list of what arrives, with the time and the disk of each arrival; what other sessions
-- do to the node in between is not part of it. In a handshake the other side is a function from the bytes
-- sent to those that come back before the stream ends. An error has its origin and no text. The queue file is
-- handled in the same way: each call is one step, since a lock excludes the others, and what the
-- operating system answers to the lock, the read, the writes, the syncs and the rename is an argument. A
-- round of the program is a function of the answers of the disk, the clock and the peers. The counter of
-- session slots, which threads share without a lock, is a relation of steps, one for each atomic
-- access, in any interleaving.
--
-- Bounds and fuel. The eviction loop of `try_submit` runs on fuel of one more than the number of
-- transactions, the loop of `rollback_to_height` on the number of blocks: in both each round drops
-- one, so the loop ends by its own test first. The walks of the block index have the bound of the
-- source, except `ancestors_to_height_zero`, which runs forever on a cycle and has fuel: on a path to
-- a root the length of the path is enough. The readers of the block file have fuel of one more than the
-- bytes of the file, of which each round reads four at least; so has the reader of the queue file, with
-- fuel of the number of its bytes. Decimal numbers have at most 20 digits.
--
-- Not modelled. SHA-256, hexadecimal text and Ed25519 come from crates and are parameters. Nothing is
-- assumed of them, except where a theorem says so: the one about the wallet takes the length of digests,
-- keys and signatures and that a signature verifies. The sockets, threads and deadlines themselves, the
-- command line, keys on disk, locks, the TOML files and the messages to the operator are input and
-- output. Of node/src/main.rs only the round under the lock of the node is modelled, not the start of the
-- program nor the push of a sealed block to the peers. The development tool dev-test-ui and the wording
-- of the UTF-8 error are left out.
pub mod Prelude
pub mod Types
pub mod Errors
pub mod Action
pub mod Crypto
pub mod Transaction
pub mod State
pub mod Block
pub mod Consensus
pub mod Genesis
pub mod Mempool
pub mod Blockchain
pub mod Encoding
pub mod Storage
pub mod Network
pub mod Pending
pub mod PeerBook
pub mod Wallet
pub mod Program
pub mod Reorg
pub mod Seen
pub mod Tests
