-- ===== src/Network/Handshake.antt =====
-- node/src/network.rs: both sides of the handshake, on one stream.
use trilogicon_core.Prelude.{
  ℕ, ◌≡◌, ◌≤◌, ◌<◌, ◌>>=◌, ◌>>◌, Result, ⊤, Text, ok, err, [], true, arith, length, IsU64, ite,
  ◌=?◌, text_eq, nat_eq, refl, ◌∙◌,
}
use trilogicon_core.Crypto.{Primitives}
use trilogicon_core.Genesis.{Genesis, state_commitment_hex}
use trilogicon_core.Encoding.Cursor.{is_utf8}
use trilogicon_core.Network.Wire.{
  genesis_mismatch, unexpected_eof, unexpected_opcode, wrong_version, WireError,
  wire_protocol_version, write_framed, max_session_commitment_bytes, max_wire_frame_bytes,
  op_session_hello, op_session_hello_ack, session_bytes, encode_session_payload, read_framed,
  acknowledge, handshake_responder, handshake_initiator,
}
use trilogicon_core.Network.Framing.{
  framed, write_framed-framed, read_framed-framed, session_of, session_of-session_bytes,
  length-session_of, decode_session_payload-session_of,
}

module _ ⦃c : Primitives⦄ where
  -- A genesis whose commitment is this text, which a session frame can carry.
  abbrev pub Commits : Genesis → Text → Type 0
  Commits g hex =
      (state_commitment_hex g ≡ ok hex)
      × (length hex ≤ max_session_commitment_bytes)
      × (is_utf8 hex ≡ true)

  encodes :
      (op : ℕ) (g : Genesis) (hex : Text) (height : ℕ)
      → Commits g hex
      → encode_session_payload op g height ≡ ok (session_bytes op hex height)
  unfolding encode_session_payload
  encodes op g hex height (e, l, u) = ground (arith, e, l)

  -- The bytes of a session frame on the stream.
  abbrev pub session_frame : ℕ → ℕ → Text → ℕ → Text
  session_frame op version hex height = framed (session_of op version hex height)

  fits :
      (op version : ℕ) (hex : Text) (height : ℕ)
      → length hex ≤ max_session_commitment_bytes
      → length (session_of op version hex height) ≤ max_wire_frame_bytes
  fits op version hex height l = omega (arith, l, length-session_of op version hex height)

  -- A frame of the node itself on the stream.
  writes :
      (op : ℕ) (g : Genesis) (x : Text) (i : ℕ)
      → Commits g x
      → (encode_session_payload op g i >>= write_framed)
        ≡ ok (session_frame op wire_protocol_version x i)
  writes op g x i cg =
      rw (encodes op g x i cg, session_of-session_bytes op x i)
        (write_framed-framed (session_of op wire_protocol_version x i)
          (fits op wire_protocol_version x i cg.1))

  -- What a node with this commitment makes of a session frame where it expects this opcode.
  abbrev pub verdict : ℕ → Text → ℕ → ℕ → Text → Result WireError ⊤
  verdict expected own op version z =
      ite (op =? expected)
        (ite (version =? wire_protocol_version) (ite (z =? own) (ok tt) (err genesis_mismatch))
          (err (wrong_version version)))
        (err (unexpected_opcode op))

  module _ (op version : ℕ) (z : Text) (k : ℕ) (small : version < 65536)
      (l : length z ≤ max_session_commitment_bytes) (u : is_utf8 z ≡ true) (uk : IsU64 k) where
    acknowledges :
        (h : Genesis) (y : Text) (j : ℕ)
        → Commits h y
        → acknowledge h j (session_frame op version z k) ≡ (
            verdict op_session_hello y op version z
            >> ok (session_frame op_session_hello_ack wire_protocol_version y j))
    unfolding acknowledge
    acknowledges h y j ch = ground (
      arith,
      read_framed-framed (session_of op version z k) (fits op version z k l),
      decode_session_payload-session_of op version z k small l u uk,
      ch.0,
      writes op_session_hello_ack h y j ch,
    )

    responds :
        (h : Genesis) (y : Text) (j : ℕ)
        → Commits h y
        → (handshake_responder h j (session_frame op version z k)).0
          ≡ verdict op_session_hello y op version z
    unfolding handshake_responder
    responds h y j ch = ground (arith, acknowledges h y j ch)

    -- What the initiator makes of an answer.
    judges :
        (g : Genesis) (x : Text) (i : ℕ) (peer : Text → Text)
        → Commits g x
        → peer (session_frame op_session_hello wire_protocol_version x i)
          ≡ session_frame op version z k
        → handshake_initiator g i peer ≡ verdict op_session_hello_ack x op version z
    unfolding handshake_initiator
    judges g x i peer cg e = ground (
      arith,
      writes op_session_hello g x i cg,
      e,
      read_framed-framed (session_of op version z k) (fits op version z k l),
      decode_session_payload-session_of op version z k small l u uk,
      cg.0,
    )

  no_frame : read_framed [] ≡ err unexpected_eof
  unfolding read_framed
  no_frame = refl

  -- What the initiator makes of a stream that ends at once.
  gives_up :
      (g : Genesis) (x : Text) (i : ℕ) (peer : Text → Text)
      → Commits g x
      → peer (session_frame op_session_hello wire_protocol_version x i) ≡ []
      → handshake_initiator g i peer ≡ err unexpected_eof
  unfolding handshake_initiator
  gives_up g x i peer cg e = ground (arith, writes op_session_hello g x i cg, e, no_frame)

  -- A node that answers a connection, at the other end of the stream.
  abbrev pub answering : Genesis → ℕ → Text → Text
  answering h j stream = (handshake_responder h j stream).1

  answered :
      (h : Genesis) (x y : Text) (i j : ℕ)
      → Commits h y
      → length x ≤ max_session_commitment_bytes
      → is_utf8 x ≡ true
      → IsU64 i
      → answering h j (session_frame op_session_hello wire_protocol_version x i)
        ≡ ite (x =? y) (session_frame op_session_hello_ack wire_protocol_version y j) []
  unfolding handshake_responder
  answered h x y i j ch l u ui =
      ground (
        arith,
        acknowledges op_session_hello wire_protocol_version x i (omega arith) l u ui h y j ch,
      )

  -- A node connects to another. If their genesis commitments are the same, the handshake succeeds for the
  -- one that connects; otherwise it finds the end of the stream. Whatever session frame a peer sends,
  -- the one that answers accepts a hello, and the one that connects an acknowledgement, of the protocol
  -- version with the own commitment, and each refuses another opcode, another version and another
  -- commitment, in this order. The commitments fit a session frame, and the heights a u64.
  pub handshake_initiator-handshake_responder :
      (g h : Genesis) (x y z : Text) (i j op version k : ℕ)
      → Commits g x
      → Commits h y
      → version < 65536
      → length z ≤ max_session_commitment_bytes
      → is_utf8 z ≡ true
      → IsU64 i
      → IsU64 j
      → IsU64 k
      → (handshake_initiator g i (answering h j) ≡ ite (x =? y) (ok tt) (err unexpected_eof))
        × ((handshake_responder h j (session_frame op version z k)).0
            ≡ verdict op_session_hello y op version z)
        × (handshake_initiator g i (λ sent. session_frame op version z k)
            ≡ verdict op_session_hello_ack x op version z)
  handshake_initiator-handshake_responder g h x y z i j op version k cg ch small l u ui uj uk =
      let a = answered h x y i j ch cg.1 cg.2 ui in
      (
        elim (x =? y) [
          | yes same ↦
              judges op_session_hello_ack wire_protocol_version y j (omega arith) ch.1 ch.2 uj g x i
                (answering h j) cg (ground (arith, a, same))
              ∙ ground (arith, same)
          | no other ↦
              gives_up g x i (answering h j) cg (ground (arith, a, other)) ∙ ground (arith, other)
        ],
        responds op version z k small l u uk h y j ch,
        judges op version z k small l u uk g x i (λ sent. session_frame op version z k) cg refl,
      )
