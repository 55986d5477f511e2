-- ===== src/Errors.antt =====
-- node/src/errors.rs: `ProtocolError`, with the messages as byte strings.
use trilogicon_core.Prelude.{Text, Result}

pub data ProtocolError : Type 0 where
  invalid_address : ProtocolError
  invalid_amount : ProtocolError
  invalid_fee : ProtocolError
  invalid_nonce : ProtocolError
  insufficient_balance : ProtocolError
  signature_invalid : ProtocolError
  invalid_block : Text → ProtocolError
  state_error : Text → ProtocolError
  duplicate_transaction : ProtocolError
  mempool_full : ProtocolError
  mempool_nonce_conflict : ProtocolError
  genesis_error : Text → ProtocolError

-- `Result<A, ProtocolError>`
abbrev pub Checked : Type 0 → Type 0
Checked A = Result ProtocolError A
