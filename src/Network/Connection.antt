-- ===== src/Network/Connection.antt =====
-- node/src/network.rs: `peer_connection_loop`, on what arrives from the socket and what the disk and
-- the clock answer.
use trilogicon_core.Prelude.{
  ℕ, ◌+◌, Text, Result, ok, err, Option, none, some, Bool, true, false, List, [], ◌∷◌, ltb, leb,
  if◌then◌else◌, ⊤,
}
use trilogicon_core.Crypto.{Primitives}
use trilogicon_core.Blockchain.{height}
use trilogicon_core.Encoding.Cursor.{u32_max}
use trilogicon_core.Storage.Store.{Faults}
use trilogicon_core.Network.Wire.{write_framed, handshake_responder}
use trilogicon_core.Network.Node.{NodeInner}
use trilogicon_core.Network.Session.{
  InboundPeerPolicy, max_frames_per_inbound_session, PeerFrameError, protocol,
  inbound_tx_ingress_quota_exhausted, local_fatal, PredecodedInbound, tx,
  predecode_inbound_app_payload, count_up, no_counts, Peer, apply_predecoded,
}

-- What `read_framed` comes back with: a frame, the end of the stream, the deadline, a frame that is
-- refused, or another error.
pub data Read : Type 0 where
  frame : Text → Read
  eof : Read
  idle : Read
  refused : Read
  failed : Read

-- One round of the loop, with the time and the disk that the frame meets, and whether the reply, if
-- there is one, can be sent.
pub record Arrival : Type 0 where
  pub read : Read
  pub now_unix : ℕ
  pub faults : Faults
  pub sends : Bool

-- How the loop stands: it waits for the next frame, or it returned.
pub data Session : Type 0 where
  waiting : Session
  closed : Session
  idle_timeout : Session
  too_many_frames : Session
  read_refused : Session
  read_failed : Session
  app_frame_limit : Session
  reply_failed : Session
  disconnected : PeerFrameError → Session

abbrev pub is_waiting : Session → Bool
is_waiting waiting = true
is_waiting _ = false

module _ ⦃c : Primitives⦄ where
  -- The quota for transactions, and the rest under the lock.
  unfoldable pub admit :
      InboundPeerPolicy
      → Arrival
      → PredecodedInbound
      → Peer
      → Result PeerFrameError (Option Text) × Peer
  admit policy a (tx t) p =
      let n = count_up p.counters.inbound_tx_decoded in
      let counted = record p { counters = record p.counters { inbound_tx_decoded = n } } in
      let applied = apply_predecoded policy a.faults a.now_unix (tx t) counted in
      if leb n policy.max_inbound_tx_per_session
      then applied
      else (err (inbound_tx_ingress_quota_exhausted policy.max_inbound_tx_per_session), counted)
  admit policy a decoded p = apply_predecoded policy a.faults a.now_unix decoded p

  unfoldable pub handle :
      InboundPeerPolicy → Arrival → Text → Peer → Result PeerFrameError (Option Text) × Peer
  unfolding admit
  handle policy a payload p = elim (predecode_inbound_app_payload payload) [
    | ok decoded ↦ admit policy a decoded p
    | err e ↦ (err (protocol e), p)
  ]

  -- What the loop does with the outcome of a frame.
  unfoldable pub settle :
      InboundPeerPolicy → Arrival → Result PeerFrameError (Option Text) → Peer → Session × Peer
  settle policy a (ok none) p = (waiting, p)
  settle policy a (ok (some reply)) p = elim (write_framed reply) [
    | ok bytes ↦ if a.sends then (waiting, p) else (reply_failed, p)
    | err e ↦ (reply_failed, p)
  ]
  settle policy a (err (protocol e)) p =
      let n = count_up p.counters.protocol_errors in
      let counted = record p { counters = record p.counters { protocol_errors = n } } in
      if leb policy.max_protocol_errors_per_session n
      then (disconnected (protocol e), counted)
      else (waiting, counted)
  settle policy a (err e) p = (disconnected e, p)

  -- A frame that was read. The counter of frames cannot overflow, since the one before it is bounded.
  unfoldable pub take_frame : InboundPeerPolicy → Arrival → Text → Peer → Session × Peer
  unfolding handle settle
  take_frame policy a payload p =
      let counted = record p {
        counters = record p.counters { app_frames = p.counters.app_frames + 1 };
      } in
      let (outcome, after) = handle policy a payload counted in
      let settled = settle policy a outcome after in
      if leb u32_max p.counters.app_frames
      then (app_frame_limit, p)
      else if ltb policy.max_app_frames_per_session (p.counters.app_frames + 1)
      then (app_frame_limit, counted)
      else settled

  unfoldable pub take_read : InboundPeerPolicy → Arrival → Read → Peer → Session × Peer
  unfolding take_frame
  take_read policy a (frame payload) p = take_frame policy a payload p
  take_read policy a eof p = (closed, p)
  take_read policy a idle p = (idle_timeout, p)
  take_read policy a refused p = (read_refused, p)
  take_read policy a failed p = (read_failed, p)

  -- One round of the loop.
  unfoldable pub round : InboundPeerPolicy → Arrival → Peer → Session × Peer
  unfolding take_read
  round policy a p =
      let n = count_up p.counters.frames_seen in
      let seen = record p { counters = record p.counters { frames_seen = n } } in
      let read = take_read policy a a.read seen in
      if ltb max_frames_per_inbound_session n then (too_many_frames, seen) else read

  -- The loop, on all that arrives.
  unfoldable pub rounds : InboundPeerPolicy → List Arrival → Peer → Session × Peer
  unfolding round
  rounds policy [] p = (waiting, p)
  rounds policy (a ∷ later) p =
      let (s, p') = round policy a p in
      let rest = rounds policy later p' in if is_waiting s then rest else (s, p')

  -- `peer_session_setup`, on the bytes of the first frame.
  unfoldable pub peer_session_setup : NodeInner → Text → Result PeerFrameError ⊤
  peer_session_setup n hello =
      if n.store.poisoned
      then err (local_fatal none)
      else elim (handshake_responder n.genesis (height n.chain) hello).0 [
        | ok _ ↦ ok tt
        | err e ↦ err (protocol e)
      ]

  -- `peer_connection_loop`, from the first frame on.
  unfoldable pub peer_connection_loop :
      InboundPeerPolicy → NodeInner → Text → List Arrival → Session × NodeInner
  unfolding peer_session_setup rounds
  peer_connection_loop policy n hello arrivals =
      let (s, p) = rounds policy arrivals (record { node = n; counters = no_counts }) in
      elim (peer_session_setup n hello) [ ok _ ↦ (s, p.node) | err e ↦ (disconnected e, n) ]
