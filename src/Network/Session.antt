-- ===== src/Network/Session.antt =====
-- node/src/network.rs: one session of a peer that connected, frame by frame.
use trilogicon_core.Prelude.{
  ℕ, ◌+◌, Text, Result, ok, err, Option, none, some, [], ◌∷◌, length, take, ltb, leb, ◌==◌, map_err,
  if◌then◌else◌, ◌>>=◌,
}
use trilogicon_core.Crypto.{Primitives}
use trilogicon_core.Transaction.{Transaction}
use trilogicon_core.Block.{Block}
use trilogicon_core.Blockchain.{height, blocks_from_height_limited}
use trilogicon_core.Mempool.{try_submit}
use trilogicon_core.Mempool.Hygiene.{hygiene_vs_committed_ledger}
use trilogicon_core.Encoding.{decode_block, decode_transaction}
use trilogicon_core.Encoding.Cursor.{from_be, u32_max}
use trilogicon_core.Storage.Store.{Faults}
use trilogicon_core.Network.Wire.{
  WireError, undecodable, empty_payload, unexpected_opcode, too_short, max_blocks_per_batch, op_tx,
  op_block, op_get_blocks, wire_encode_blocks_response,
}
use trilogicon_core.Network.Node.{
  NodeInner, NetworkBlockPersistFailure, append_network_block_persist,
  counts_toward_invalid_block_budget,
}

-- `InboundPeerPolicy`, without the deadlines of the socket.
pub record InboundPeerPolicy : Type 0 where
  pub max_concurrent_sessions : ℕ
  pub max_protocol_errors_per_session : ℕ
  pub max_app_frames_per_session : ℕ
  pub max_invalid_network_blocks_per_session : ℕ
  pub max_stale_decoded_blocks_per_session : ℕ
  pub max_inbound_tx_per_session : ℕ

-- `InboundPeerPolicy::default`
abbrev pub default_policy : InboundPeerPolicy
default_policy = record {
  max_concurrent_sessions = 128;
  max_protocol_errors_per_session = 32;
  max_app_frames_per_session = 100000;
  max_invalid_network_blocks_per_session = 24;
  max_stale_decoded_blocks_per_session = 8192;
  max_inbound_tx_per_session = 100000;
}

-- `MAX_FRAMES_PER_INBOUND_SESSION`
abbrev pub max_frames_per_inbound_session : ℕ
max_frames_per_inbound_session = 8192

-- `PeerFrameError`
pub data PeerFrameError : Type 0 where
  invalid_block_budget_exhausted : ℕ → PeerFrameError
  stale_block_ingress_quota_exhausted : ℕ → PeerFrameError
  inbound_tx_ingress_quota_exhausted : ℕ → PeerFrameError
  local_fatal : Option NetworkBlockPersistFailure → PeerFrameError
  protocol : WireError → PeerFrameError

-- `PredecodedInbound`
pub data PredecodedInbound : Type 0 where
  tx : Transaction → PredecodedInbound
  block : Block → PredecodedInbound
  get_blocks : ℕ → PredecodedInbound

-- `predecode_inbound_app_payload`. The opcodes of the handshake are refused as unknown ones are.
unfoldable pub predecode_inbound_app_payload : Text → Result WireError PredecodedInbound
predecode_inbound_app_payload [] = err empty_payload
predecode_inbound_app_payload (op ∷ body) =
    let as_tx = map_err undecodable (decode_transaction body) in
    let as_block = map_err undecodable (decode_block body) in
    if op == op_tx
    then (do t ← as_tx; ok (tx t))
    else if op == op_block
    then (do b ← as_block; ok (block b))
    else if op == op_get_blocks
    then (if length body == 8 then ok (get_blocks (from_be 0 (take 8 body))) else err too_short)
    else err (unexpected_opcode op)

-- `u32::saturating_add(1)`
abbrev pub count_up : ℕ → ℕ
count_up n = if ltb n u32_max then n + 1 else u32_max

-- The counters of one session.
pub record Counters : Type 0 where
  pub protocol_errors : ℕ
  pub app_frames : ℕ
  pub invalid_block_strikes : ℕ
  pub stale_decoded_blocks : ℕ
  pub inbound_tx_decoded : ℕ
  pub frames_seen : ℕ

abbrev pub no_counts : Counters
no_counts = record {
  protocol_errors = 0;
  app_frames = 0;
  invalid_block_strikes = 0;
  stale_decoded_blocks = 0;
  inbound_tx_decoded = 0;
  frames_seen = 0;
}

-- What a frame works on: the node, behind its lock, and the counters of the session.
pub record Peer : Type 0 where
  pub node : NodeInner
  pub counters : Counters

module _ ⦃c : Primitives⦄ where
  -- `NodeInner::mempool_hygiene_after_ledger_advance`, for its effect.
  unfoldable pub mempool_hygiene_after_ledger_advance : NodeInner → NodeInner
  mempool_hygiene_after_ledger_advance n = record n {
    pool = (hygiene_vs_committed_ledger n.chain.state n.pool).1;
  }

  -- The part of `apply_predecoded` for a block that is not stale.
  unfoldable pub apply_block :
      InboundPeerPolicy → Faults → ℕ → Block → Peer → Result PeerFrameError (Option Text) × Peer
  unfolding mempool_hygiene_after_ledger_advance
  apply_block policy f now_unix b p =
      let (r, node) = append_network_block_persist f b now_unix p.node in
      let strikes = count_up p.counters.invalid_block_strikes in
      let struck = record p {
        node = node;
        counters = record p.counters { invalid_block_strikes = strikes };
      } in
      let limit = policy.max_invalid_network_blocks_per_session in
      elim r [
        | ok _ ↦ (ok none, record p { node = mempool_hygiene_after_ledger_advance node })
        | err e ↦
            if counts_toward_invalid_block_budget e
            then (if leb limit strikes
                then (err (invalid_block_budget_exhausted limit), struck)
                else (ok none, struck))
            else (err (local_fatal (some e)), record p { node = node })
      ]

  -- `apply_predecoded`
  unfoldable pub apply_predecoded :
      InboundPeerPolicy
      → Faults
      → ℕ
      → PredecodedInbound
      → Peer
      → Result PeerFrameError (Option Text) × Peer
  unfolding apply_block
  apply_predecoded policy f now_unix decoded p =
      if p.node.store.poisoned then (err (local_fatal none), p) else elim decoded [
        | tx t ↦
            (ok none, record p { node = record p.node { pool = (try_submit t p.node.pool).1 } })
        | block b ↦
            let stale = count_up p.counters.stale_decoded_blocks in
            let counted = record p {
              counters = record p.counters { stale_decoded_blocks = stale };
            } in
            let limit = policy.max_stale_decoded_blocks_per_session in
            let fresh = apply_block policy f now_unix b p in
            if leb b.height (height p.node.chain)
            then (if ltb limit stale
                then (err (stale_block_ingress_quota_exhausted limit), counted)
                else (ok none, counted))
            else fresh
        | get_blocks start ↦
            let slice = blocks_from_height_limited start max_blocks_per_batch p.node.chain in
            (
              elim (wire_encode_blocks_response slice) [
                | ok bytes ↦ ok (some bytes)
                | err e ↦ err (protocol e)
              ],
              p,
            )
      ]
