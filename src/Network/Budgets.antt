-- ===== src/Network/Budgets.antt =====
-- The counters of a session and their limits.
use trilogicon_core.Prelude.{◌+◌, ◌-◌, ◌≤◌, Text, Result, ok, err, Option, Bool, true, false}
use trilogicon_core.Crypto.{Primitives}
use trilogicon_core.Block.{Block}
use trilogicon_core.Network.Session.{InboundPeerPolicy, PeerFrameError, protocol, Counters, Peer}

-- A session that goes on has not used up any of its limits. A limit of zero is used up by the first
-- error or strike.
abbrev pub Within : InboundPeerPolicy → Counters → Type 0
Within policy k =
    (k.protocol_errors ≤ policy.max_protocol_errors_per_session - 1)
    × (k.invalid_block_strikes ≤ policy.max_invalid_network_blocks_per_session - 1)
    × (k.stale_decoded_blocks ≤ policy.max_stale_decoded_blocks_per_session)
    × (k.inbound_tx_decoded ≤ policy.max_inbound_tx_per_session)
    × (k.app_frames ≤ policy.max_app_frames_per_session)

-- The outcomes of a frame that do not end the session by themselves.
abbrev goes_on : Result PeerFrameError (Option Text) → Bool
goes_on (ok reply) = true
goes_on (err (protocol e)) = true
goes_on (err _) = false

module _ ⦃c : Primitives⦄ (policy : InboundPeerPolicy) where
  counted_frame : Peer → Peer
  counted_frame p = record p {
    counters = record p.counters { app_frames = p.counters.app_frames + 1 };
  }
