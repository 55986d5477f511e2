-- ===== src/Transaction/Validity.antt =====
-- What `Transaction::basic_validate` accepts, written out independently of the order of its checks.
use trilogicon_core.Prelude.{
  ◌≡◌, ◌<◌, ◌↔◌, true, false, ok, arith, is_blank, length, is_nil, text_eq, Text, [], ◌∷◌, refl,
}
use trilogicon_core.Types.{is_valid}
use trilogicon_core.Crypto.{Primitives, hash_bytes, address_from_public_key, verify_signature}
use trilogicon_core.Transaction.{
  Transaction, basic_validate, unsigned_payload_bytes, validate_hash, validate_signature,
  validate_sender_binding, compute_tx_hash,
}

module _ ⦃c : Primitives⦄ where
  -- A transfer of a positive amount between well-formed addresses that is named by the hash of its
  -- payload, and signed by a key of 32 bytes whose hash is the sender's address.
  pub record IsAuthentic (tx : Transaction) : Type 0 where
    pub sender_valid : is_valid tx.sender ≡ true
    pub receiver_valid : is_valid tx.receiver ≡ true
    pub positive : 0 < tx.amount
    pub named : is_blank tx.tx_hash ≡ false
    pub hash_matches : tx.tx_hash ≡ hash_bytes (unsigned_payload_bytes tx)
    pub key_length : length tx.public_key ≡ 32
    pub signature_length : length tx.signature ≡ 64
    pub key_valid : c.is_key tx.public_key ≡ true
    pub signed : c.verify tx.public_key (unsigned_payload_bytes tx) tx.signature ≡ true
    pub bound : tx.sender ≡ hash_bytes tx.public_key

  accepted-IsAuthentic : (tx : Transaction) → basic_validate tx ≡ ok tt → IsAuthentic tx
  unfolding basic_validate validate_hash validate_signature validate_sender_binding compute_tx_hash
      verify_signature address_from_public_key
  accepted-IsAuthentic tx e = record {
    sender_valid = ground arith;
    receiver_valid = ground arith;
    positive = ground arith;
    named = ground arith;
    hash_matches = ground arith;
    key_length = ground arith;
    signature_length = ground arith;
    key_valid = ground arith;
    signed = ground arith;
    bound = ground arith;
  }

  nonempty : (n : Text) → 0 < length n → is_nil n ≡ false
  nonempty [] h = absurd (omega arith)
  nonempty (x ∷ n) h = refl

  IsAuthentic-accepted : (tx : Transaction) → IsAuthentic tx → basic_validate tx ≡ ok tt
  unfolding basic_validate validate_hash validate_signature validate_sender_binding compute_tx_hash
      verify_signature address_from_public_key
  IsAuthentic-accepted tx h =
      ground (arith, nonempty tx.public_key (omega arith), nonempty tx.signature (omega arith))

  -- Validation accepts exactly the authentic transactions.
  pub basic_validate_iff : (tx : Transaction) → (basic_validate tx ≡ ok tt) ↔ IsAuthentic tx
  basic_validate_iff tx = (accepted-IsAuthentic tx, IsAuthentic-accepted tx)
