-- ===== src/Network/Sessions.antt =====
-- A session keeps the chain in memory and the file together, whatever the peer sends.
use trilogicon_core.Prelude.{
  ℕ, ◌≡◌, ◌⊎◌, inl, inr, Text, Result, ok, ⊤, Option, List, [], ◌∷◌, arith, All, sym, subst,
  Result-cases, Bool-cases, leb, ltb, ◌+◌, if◌then◌else◌,
}
use trilogicon_core.Crypto.{Primitives}
use trilogicon_core.Block.{Block}
use trilogicon_core.Blockchain.{height}
use trilogicon_core.Encoding.Cursor.{u32_max}
use trilogicon_core.Encoding.Blocks.{CanEncodeBlock}
use trilogicon_core.Encoding.Consumption.{IsByte}
use trilogicon_core.Encoding.Decoded.{decode_block-CanEncodeBlock}
use trilogicon_core.Storage.Store.{Faults}
use trilogicon_core.Network.Node.{NodeInner, append_network_block_persist}
use trilogicon_core.Network.Restart.{IsConsistent, append_network_block_persist-IsConsistent}
use trilogicon_core.Network.Session.{
  InboundPeerPolicy, PredecodedInbound, tx, block, get_blocks, predecode_inbound_app_payload, Peer,
  mempool_hygiene_after_ledger_advance, apply_block, apply_predecoded, count_up, PeerFrameError,
  no_counts, max_frames_per_inbound_session,
}
use trilogicon_core.Network.Connection.{
  Read, frame, eof, idle, refused, failed, Arrival, is_waiting, admit, handle, settle, take_frame,
  take_read, round, rounds, peer_session_setup, peer_connection_loop,
}

-- The fields that a restart depends on.
abbrev pub Same : NodeInner → NodeInner → Type 0
Same m n = (m.genesis ≡ n.genesis) × (m.chain ≡ n.chain) × (m.store ≡ n.store)

-- What a decoded frame holds, if it is a block, can be encoded.
abbrev IsWritten : PredecodedInbound → Type 0
IsWritten (tx t) = ⊤
IsWritten (block b) = CanEncodeBlock b
IsWritten (get_blocks start) = ⊤

-- The frames that arrive are bytes.
abbrev pub AreBytes : Read → Type 0
AreBytes (frame payload) = All IsByte payload
AreBytes eof = ⊤
AreBytes idle = ⊤
AreBytes refused = ⊤
AreBytes failed = ⊤

predecode-IsWritten :
    (payload : Text) (d : PredecodedInbound)
    → All IsByte payload
    → predecode_inbound_app_payload payload ≡ ok d
    → IsWritten d
unfolding predecode_inbound_app_payload
predecode-IsWritten payload (tx t) k e = tt
predecode-IsWritten payload (get_blocks start) k e = tt
predecode-IsWritten [] (block b) k e = absurd (ground arith)
predecode-IsWritten (op ∷ body) (block b) k e =
    (decode_block-CanEncodeBlock body b k.1 (ground arith)).0

module _ ⦃c : Primitives⦄ where
  pub Same-IsConsistent : (m n : NodeInner) → Same m n → IsConsistent n → IsConsistent m
  Same-IsConsistent m n (g, k, s) h = rw (g, k, s) h

  apply_block-Same :
      (policy : InboundPeerPolicy) (f : Faults) (now : ℕ) (b : Block) (p : Peer)
      → Same (apply_block policy f now b p).1.node (append_network_block_persist f b now p.node).1
  unfolding apply_block mempool_hygiene_after_ledger_advance
  apply_block-Same policy f now b p = (ground arith, ground arith, ground arith)

  apply_predecoded-IsConsistent :
      (policy : InboundPeerPolicy) (f : Faults) (now : ℕ) (d : PredecodedInbound) (p : Peer)
      → IsConsistent p.node
      → IsWritten d
      → IsConsistent (apply_predecoded policy f now d p).1.node
  unfolding apply_predecoded
  apply_predecoded-IsConsistent policy f now (tx t) p h w =
      Same-IsConsistent (apply_predecoded policy f now (tx t) p).1.node p.node
        (ground arith, ground arith, ground arith) h
  apply_predecoded-IsConsistent policy f now (get_blocks start) p h w =
      Same-IsConsistent (apply_predecoded policy f now (get_blocks start) p).1.node p.node
        (ground arith, ground arith, ground arith) h
  apply_predecoded-IsConsistent policy f now (block b) p h w =
      elim (Bool-cases p.node.store.poisoned) [
        | inl sick ↦
            Same-IsConsistent (apply_predecoded policy f now (block b) p).1.node p.node
              (ground arith, ground arith, ground arith) h
        | inr well ↦ elim (Bool-cases (leb b.height (height p.node.chain))) [
          | inl stale ↦
              Same-IsConsistent (apply_predecoded policy f now (block b) p).1.node p.node
                (ground arith, ground arith, ground arith) h
          | inr fresh ↦
              Same-IsConsistent (apply_predecoded policy f now (block b) p).1.node
                (apply_block policy f now b p).1.node (ground arith, ground arith, ground arith)
                (Same-IsConsistent (apply_block policy f now b p).1.node
                  (append_network_block_persist f b now p.node).1
                  (apply_block-Same policy f now b p)
                  (append_network_block_persist-IsConsistent f b now p.node h w))
        ]
      ]

  admit-IsConsistent :
      (policy : InboundPeerPolicy) (a : Arrival) (d : PredecodedInbound) (p : Peer)
      → IsConsistent p.node
      → IsWritten d
      → IsConsistent (admit policy a d p).1.node
  unfolding admit
  admit-IsConsistent policy a (block b) p h w =
      apply_predecoded-IsConsistent policy a.faults a.now_unix (block b) p h w
  admit-IsConsistent policy a (get_blocks start) p h w =
      apply_predecoded-IsConsistent policy a.faults a.now_unix (get_blocks start) p h w
  admit-IsConsistent policy a (tx t) p h w =
      elim (Bool-cases
        (leb (count_up p.counters.inbound_tx_decoded) policy.max_inbound_tx_per_session)) [
          | inl within ↦
              Same-IsConsistent (admit policy a (tx t) p).1.node
                (apply_predecoded policy a.faults a.now_unix (tx t) (counted p)).1.node
                (ground arith, ground arith, ground arith)
                (apply_predecoded-IsConsistent policy a.faults a.now_unix (tx t) (counted p) h tt)
          | inr beyond ↦
              Same-IsConsistent (admit policy a (tx t) p).1.node p.node
                (ground arith, ground arith, ground arith) h
        ]
    where
      counted : Peer → Peer
      counted p = record p {
        counters = record p.counters {
          inbound_tx_decoded = count_up p.counters.inbound_tx_decoded;
        };
      }

  handle-IsConsistent :
      (policy : InboundPeerPolicy) (a : Arrival) (payload : Text) (p : Peer)
      → IsConsistent p.node
      → All IsByte payload
      → IsConsistent (handle policy a payload p).1.node
  unfolding handle
  handle-IsConsistent policy a payload p h k =
      elim (Result-cases (predecode_inbound_app_payload payload)) [
        | inl (d, went) ↦
            rw (handle, went)
              (admit-IsConsistent policy a d p h (predecode-IsWritten payload d k went))
        | inr (x, undecoded) ↦ rw (handle, undecoded) h
      ]

  settle_node :
      (policy : InboundPeerPolicy) (a : Arrival) (r : Result PeerFrameError (Option Text))
      (p : Peer)
      → (settle policy a r p).1.node ≡ p.node
  unfolding settle
  settle_node policy a r p = ground arith

  counted_frame : Peer → Peer
  counted_frame p = record p {
    counters = record p.counters { app_frames = p.counters.app_frames + 1 };
  }

  take_frame_node :
      (policy : InboundPeerPolicy) (a : Arrival) (payload : Text) (p : Peer)
      → ((take_frame policy a payload p).1.node ≡ p.node)
        ⊎ ((take_frame policy a payload p).1.node
            ≡ (handle policy a payload (counted_frame p)).1.node)
  unfolding take_frame counted_frame
  take_frame_node policy a payload p = elim (Bool-cases (leb u32_max p.counters.app_frames)) [
    | inl full ↦ inl (ground arith)
    | inr room ↦
        elim (Bool-cases (ltb policy.max_app_frames_per_session (p.counters.app_frames + 1))) [
          | inl over ↦ inl (ground arith)
          | inr under ↦ inr (
              rw (room, under, if◌then◌else◌)
                (settle_node policy a (handle policy a payload (counted_frame p)).0
                  (handle policy a payload (counted_frame p)).1))
        ]
  ]

  take_frame-IsConsistent :
      (policy : InboundPeerPolicy) (a : Arrival) (payload : Text) (p : Peer)
      → IsConsistent p.node
      → All IsByte payload
      → IsConsistent (take_frame policy a payload p).1.node
  unfolding counted_frame
  take_frame-IsConsistent policy a payload p h k = elim (take_frame_node policy a payload p) [
    | inl e ↦ subst IsConsistent (sym e) h
    | inr e ↦
        subst IsConsistent (sym e) (handle-IsConsistent policy a payload (counted_frame p) h k)
  ]

  take_read-IsConsistent :
      (policy : InboundPeerPolicy) (a : Arrival) (r : Read) (p : Peer)
      → IsConsistent p.node
      → AreBytes r
      → IsConsistent (take_read policy a r p).1.node
  unfolding take_read
  take_read-IsConsistent policy a (frame payload) p h k =
      take_frame-IsConsistent policy a payload p h k
  take_read-IsConsistent policy a eof p h k = h
  take_read-IsConsistent policy a idle p h k = h
  take_read-IsConsistent policy a refused p h k = h
  take_read-IsConsistent policy a failed p h k = h

  seen : Peer → Peer
  seen p = record p {
    counters = record p.counters { frames_seen = count_up p.counters.frames_seen };
  }

  round-IsConsistent :
      (policy : InboundPeerPolicy) (a : Arrival) (p : Peer)
      → IsConsistent p.node
      → AreBytes a.read
      → IsConsistent (round policy a p).1.node
  unfolding round seen
  round-IsConsistent policy a p h k =
      elim (Bool-cases (ltb max_frames_per_inbound_session (count_up p.counters.frames_seen))) [
        | inl over ↦ rw (over, if◌then◌else◌) h
        | inr under ↦
            rw (under, if◌then◌else◌) (take_read-IsConsistent policy a a.read (seen p) h k)
      ]

  rounds-IsConsistent :
      (policy : InboundPeerPolicy) (arrivals : List Arrival) (p : Peer)
      → IsConsistent p.node
      → All (λ a. AreBytes a.read) arrivals
      → IsConsistent (rounds policy arrivals p).1.node
  unfolding rounds
  rounds-IsConsistent policy [] p h k = h
  rounds-IsConsistent policy (a ∷ later) p h k =
      let step = round-IsConsistent policy a p h k.0 in
      elim (Bool-cases (is_waiting (round policy a p).0)) [
        | inl goes_on ↦
            rw (goes_on, if◌then◌else◌)
              (rounds-IsConsistent policy later (round policy a p).1 step k.1)
        | inr ends ↦ rw (ends, if◌then◌else◌) step
      ]

  -- Whatever a peer sends, in frames of bytes, and whatever the disk answers at each of them: a session
  -- that starts on a consistent node leaves it consistent.
  pub peer_connection_loop-IsConsistent :
      (policy : InboundPeerPolicy) (n : NodeInner) (hello : Text) (arrivals : List Arrival)
      → IsConsistent n
      → All (λ a. AreBytes a.read) arrivals
      → IsConsistent (peer_connection_loop policy n hello arrivals).1
  unfolding peer_connection_loop
  peer_connection_loop-IsConsistent policy n hello arrivals h k =
      elim (Result-cases (peer_session_setup n hello)) [
        | inl (answer, went) ↦
            rw (peer_connection_loop, went)
              (rounds-IsConsistent policy arrivals (record { node = n; counters = no_counts }) h k)
        | inr (x, no_session) ↦ rw (peer_connection_loop, no_session) h
      ]
