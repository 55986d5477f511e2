-- ===== src/Transaction.antt =====
-- node/src/transaction.rs: signed transfers and their stateless validation.
pub mod Validity
use trilogicon_core.Prelude.{
  ℕ, Text, Result, ok, err, ⊤, ◌>>=◌, ◌>>◌, fail_if, ite, ◌=?◌, text_eq, str, is_blank, is_nil,
  join, show_u64, Bool, ◌||◌, not, ◌==◌, [], ◌∷◌,
}
use trilogicon_core.Types.{Address, is_valid}
use trilogicon_core.Errors.{
  ProtocolError, Checked, invalid_address, invalid_amount, signature_invalid, state_error,
}
use trilogicon_core.Crypto.{Primitives, hash_bytes, address_from_public_key, verify_signature}

pub record Transaction : Type 0 where
  pub sender : Address
  pub receiver : Address
  pub amount : ℕ
  pub fee : ℕ
  pub nonce : ℕ
  pub timestamp_unix : ℕ
  pub public_key : Text
  pub signature : Text
  pub tx_hash : Text

-- `unsigned_payload_bytes`
unfoldable pub unsigned_payload_bytes : Transaction → Text
unsigned_payload_bytes tx = join (str "|") (
    tx.sender
    ∷ tx.receiver
    ∷ show_u64 tx.amount
    ∷ show_u64 tx.fee
    ∷ show_u64 tx.nonce
    ∷ show_u64 tx.timestamp_unix
    ∷ [])

module _ ⦃c : Primitives⦄ where
  unfoldable pub compute_tx_hash : Transaction → Text
  compute_tx_hash tx = hash_bytes (unsigned_payload_bytes tx)

  unfoldable pub validate_sender_binding : Transaction → Checked ⊤
  validate_sender_binding tx =
      ite (tx.sender =? address_from_public_key tx.public_key) (ok tt) (err invalid_address)

  unfoldable pub validate_signature : Transaction → Checked ⊤
  validate_signature tx =
      fail_if (not (verify_signature (unsigned_payload_bytes tx) tx.signature tx.public_key))
        signature_invalid

  unfoldable pub validate_hash : Transaction → Checked ⊤
  validate_hash tx =
      ite (tx.tx_hash =? compute_tx_hash tx) (ok tt)
        (err (state_error (str "transaction hash mismatch")))

  unfoldable pub basic_validate : Transaction → Checked ⊤
  basic_validate tx = do
    fail_if (not (is_valid tx.sender) || not (is_valid tx.receiver)) invalid_address
    fail_if (tx.amount == 0) invalid_amount
    fail_if (is_nil tx.public_key || is_nil tx.signature) signature_invalid
    fail_if (is_blank tx.tx_hash) (state_error (str "missing tx hash"))
    validate_hash tx
    validate_signature tx
    validate_sender_binding tx
