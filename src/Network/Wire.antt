-- ===== src/Network/Wire.antt =====
-- node/src/network.rs: the frames of the peer protocol, on the bytes that a peer sends.
use trilogicon_core.Prelude.{
  ℕ, zero, suc, ◌+◌, Text, Result, ok, err, List, [], ◌∷◌, ◌++◌, length, take, drop, ltb, ◌==◌, not,
  is_nil, map_err, if◌then◌else◌, ◌>>=◌, ◌>>◌, fail_if, ok_or, ⊤, ne,
}
use trilogicon_core.Errors.{ProtocolError}
use trilogicon_core.Crypto.{Primitives}
use trilogicon_core.Genesis.{Genesis, state_commitment_hex}
use trilogicon_core.Block.{Block}
use trilogicon_core.Encoding.{encode_block, decode_block}
use trilogicon_core.Encoding.Cursor.{be_bytes, from_be, is_utf8, u32_max}

-- The errors of the protocol, by their origin. The texts are left out.
pub data WireError : Type 0 where
  unexpected_eof : WireError
  frame_too_large : WireError
  bad_genesis : ProtocolError → WireError
  commitment_too_long : WireError
  too_short : WireError
  truncated : WireError
  not_utf8 : WireError
  trailing_bytes : WireError
  unexpected_opcode : ℕ → WireError
  wrong_version : ℕ → WireError
  genesis_mismatch : WireError
  batch_too_large : WireError
  encoder_panicked : WireError
  undecodable : Text → WireError
  empty_payload : WireError

-- `MAX_WIRE_FRAME_BYTES`
abbrev pub max_wire_frame_bytes : ℕ
max_wire_frame_bytes = 67108864

-- `MAX_BLOCKS_PER_BATCH`
abbrev pub max_blocks_per_batch : ℕ
max_blocks_per_batch = 64

-- `TRIL_WIRE_PROTOCOL_VERSION`
abbrev pub wire_protocol_version : ℕ
wire_protocol_version = 2

-- `MAX_SESSION_COMMITMENT_BYTES`
abbrev pub max_session_commitment_bytes : ℕ
max_session_commitment_bytes = 512

abbrev pub op_tx : ℕ
op_tx = 1

abbrev pub op_block : ℕ
op_block = 2

abbrev pub op_get_blocks : ℕ
op_get_blocks = 3

abbrev pub op_blocks : ℕ
op_blocks = 4

abbrev pub op_session_hello : ℕ
op_session_hello = 5

abbrev pub op_session_hello_ack : ℕ
op_session_hello_ack = 6

-- `read_framed`, on all bytes that come before the end of the stream, with those behind the frame.
unfoldable pub read_framed : Text → Result WireError (Text × Text)
read_framed bs =
    let len = from_be 0 (take 4 bs) in
    if ltb (length bs) 4
    then err unexpected_eof
    else if ltb max_wire_frame_bytes len
    then err frame_too_large
    else if ltb (length (drop 4 bs)) len
    then err unexpected_eof
    else ok (take len (drop 4 bs), drop len (drop 4 bs))

-- `validate_outbound_framed_payload_len`. The maximum fits a u32.
unfoldable pub validate_outbound_framed_payload_len : ℕ → Result WireError ℕ
validate_outbound_framed_payload_len n =
    if ltb max_wire_frame_bytes n then err frame_too_large else ok n

-- `write_framed`: the bytes for the socket.
unfoldable pub write_framed : Text → Result WireError Text
unfolding validate_outbound_framed_payload_len
write_framed payload = do
  len ← validate_outbound_framed_payload_len (length payload)
  ok (be_bytes 4 len ++ payload)

-- What a session frame says.
pub record SessionPayload : Type 0 where
  pub opcode : ℕ
  pub version : ℕ
  pub commitment : Text
  pub advisory_height : ℕ

unfoldable pub session_bytes : ℕ → Text → ℕ → Text
session_bytes opcode hex advisory_height =
    opcode ∷ be_bytes 2 wire_protocol_version
    ++ (be_bytes 2 (length hex) ++ (hex ++ be_bytes 8 advisory_height))

-- `decode_session_payload`
unfoldable pub decode_session_payload : Text → Result WireError SessionPayload
decode_session_payload bytes =
    let hlen = from_be 0 (take 2 (drop 3 bytes)) in
    let hex = take hlen (drop 5 bytes) in
    if ltb (length bytes) 13
    then err too_short
    else if ltb max_session_commitment_bytes hlen
    then err commitment_too_long
    else if ltb (length bytes) (5 + (hlen + 8))
    then err truncated
    else if not (is_utf8 hex)
    then err not_utf8
    else if not (length bytes == 5 + (hlen + 8))
    then err trailing_bytes
    else ok (record {
      opcode = from_be 0 (take 1 bytes);
      version = from_be 0 (take 2 (drop 1 bytes));
      commitment = hex;
      advisory_height = from_be 0 (take 8 (drop hlen (drop 5 bytes)));
    })

module _ ⦃c : Primitives⦄ where
  -- `encode_session_payload`
  unfoldable pub encode_session_payload : ℕ → Genesis → ℕ → Result WireError Text
  unfolding session_bytes
  encode_session_payload opcode g advisory_height = do
    hex ← map_err bad_genesis (state_commitment_hex g)
    fail_if (ltb max_session_commitment_bytes (length hex)) commitment_too_long
    ok (session_bytes opcode hex advisory_height)

  -- `handshake_initiator`, with the other side as a function from the bytes sent to the bytes that come
  -- back before the end of the stream.
  unfoldable pub handshake_initiator : Genesis → ℕ → (Text → Text) → Result WireError ⊤
  handshake_initiator g advisory_height peer = do
    hello ← encode_session_payload op_session_hello g advisory_height
    sent ← write_framed hello
    resp ← read_framed (peer sent)
    ack ← decode_session_payload resp.0
    fail_if (not (ack.opcode == op_session_hello_ack)) (unexpected_opcode ack.opcode)
    fail_if (not (ack.version == wire_protocol_version)) (wrong_version ack.version)
    local ← map_err bad_genesis (state_commitment_hex g)
    fail_if (ne ack.commitment local) genesis_mismatch

  -- The bytes that `handshake_responder` sends when it goes well.
  unfoldable pub acknowledge : Genesis → ℕ → Text → Result WireError Text
  acknowledge g advisory_height stream = do
    frame ← read_framed stream
    hello ← decode_session_payload frame.0
    fail_if (not (hello.opcode == op_session_hello)) (unexpected_opcode hello.opcode)
    fail_if (not (hello.version == wire_protocol_version)) (wrong_version hello.version)
    local ← map_err bad_genesis (state_commitment_hex g)
    fail_if (ne hello.commitment local) genesis_mismatch
    ack ← encode_session_payload op_session_hello_ack g advisory_height
    write_framed ack

  -- `handshake_responder`, on the bytes that arrive: its result, and the bytes that it sends. On an error
  -- it sends none, and the caller closes the stream.
  unfoldable pub handshake_responder : Genesis → ℕ → Text → Result WireError ⊤ × Text
  unfolding acknowledge
  handshake_responder g advisory_height stream = elim (acknowledge g advisory_height stream) [
    | ok sent ↦ (ok tt, sent)
    | err e ↦ (err e, [])
  ]

-- `wire_encode_get_blocks`
unfoldable pub wire_encode_get_blocks : ℕ → Text
wire_encode_get_blocks start_height = op_get_blocks ∷ be_bytes 8 start_height

-- The loop of `wire_encode_blocks_response`, behind the bytes written so far.
unfoldable pub encode_entries : List Block → Text → Result WireError Text
encode_entries [] out = ok out
encode_entries (b ∷ bs) out = do
  enc ← ok_or (encode_block b) encoder_panicked
  fail_if (ltb u32_max (length enc)) batch_too_large
  fail_if (ltb max_wire_frame_bytes (length (out ++ (be_bytes 4 (length enc) ++ enc))))
      batch_too_large
  encode_entries bs (out ++ (be_bytes 4 (length enc) ++ enc))

-- `wire_encode_blocks_response`
unfoldable pub wire_encode_blocks_response : List Block → Result WireError Text
unfolding encode_entries
wire_encode_blocks_response blocks =
    let batch = take max_blocks_per_batch blocks in
    encode_entries batch (op_blocks ∷ be_bytes 4 (length batch))

-- The loop of `parse_op_blocks_body`, with the blocks left, and the check behind it.
unfoldable pub parse_entries : ℕ → Text → List Block → Result WireError (List Block)
parse_entries zero bytes out = if is_nil bytes then ok out else err trailing_bytes
parse_entries (suc n) bytes out = do
  fail_if (ltb (length bytes) 4) truncated
  let len = from_be 0 (take 4 bytes)
  let body = drop 4 bytes
  fail_if (ltb max_wire_frame_bytes len) frame_too_large
  fail_if (ltb (length body) len) truncated
  block ← map_err undecodable (decode_block (take len body))
  parse_entries n (drop len body) (out ++ block ∷ [])

-- `parse_op_blocks_body`
unfoldable pub parse_op_blocks_body : Text → ℕ → Result WireError (List Block)
unfolding parse_entries
parse_op_blocks_body bytes max_blocks = do
  fail_if (ltb (length bytes) 4) too_short
  let n = from_be 0 (take 4 bytes)
  fail_if (ltb max_blocks n) batch_too_large
  parse_entries n (drop 4 bytes) []

-- `wire_decode_blocks_response`
unfoldable pub wire_decode_blocks_response : Text → Result WireError (List Block)
wire_decode_blocks_response [] = err empty_payload
wire_decode_blocks_response (op ∷ bytes) =
    let blocks = parse_op_blocks_body bytes max_blocks_per_batch in
    if op == op_blocks then blocks else err (unexpected_opcode op)
