-- ===== src/Wallet/Sending.antt =====
-- From the wallet to the queue file: what `cmd_send` of node/src/main.rs relies on.
use trilogicon_core.Prelude.{
  ℕ, ◌*◌, ◌≡◌, ◌≤◌, ◌<◌, Text, ok, true, false, [], List, ◌∷◌, ◌++◌, length, is_blank, arith, refl,
  IsU64, text_eq, subst,
}
use trilogicon_core.Types.{Address, is_valid}
use trilogicon_core.Crypto.{Primitives, hash_bytes, address_from_public_key}
use trilogicon_core.Transaction.{Transaction, basic_validate, unsigned_payload_bytes}
use trilogicon_core.Transaction.Validity.{basic_validate_iff}
use trilogicon_core.Encoding.Cursor.{is_utf8}
use trilogicon_core.Encoding.Decoded.{length-transaction_bytes}
use trilogicon_core.Pending.{
  AppendIo, PendingDisk, content, append_pending_transaction, parse_pending_file_bytes,
}
use trilogicon_core.Pending.Queue.{IsQueueable}
use trilogicon_core.Pending.Safety.{parse-append_pending_transaction}
use trilogicon_core.Wallet.{SigningKey, Wallet, unsigned, signed, sign_transfer}

module _ ⦃c : Primitives⦄ where
  -- What the crates promise: digests of 32 bytes, two ASCII characters for each byte in hexadecimal,
  -- none of them white space.
  pub record HexDigests : Type 0 where
    pub digest_length : (m : Text) → length (c.sha256 m) ≡ 32
    pub hex_length : (b : Text) → length (c.hex_encode b) ≡ 2 * length b
    pub hex_utf8 : (b : Text) → is_utf8 (c.hex_encode b) ≡ true
    pub hex_visible : (b : Text) → 0 < length b → is_blank (c.hex_encode b) ≡ false

  -- The key of the wallet: its public half is a key of 32 bytes, under which its signatures, of 64
  -- bytes, verify.
  pub record IsKeyPair (k : SigningKey) : Type 0 where
    pub key_length : length k.verifying_key ≡ 32
    pub key_valid : c.is_key k.verifying_key ≡ true
    pub signature_length : (m : Text) → length (k.sign m) ≡ 64
    pub verifies : (m : Text) → c.verify k.verifying_key m (k.sign m) ≡ true

  module _ (hex : HexDigests) where
    hash_length : (m : Text) → length (hash_bytes m) ≡ 64
    unfolding hash_bytes
    hash_length m = omega (arith, hex.hex_length (c.sha256 m), hex.digest_length m)

    hash_visible : (m : Text) → is_blank (hash_bytes m) ≡ false
    unfolding hash_bytes
    hash_visible m = hex.hex_visible (c.sha256 m) (omega (arith, hex.digest_length m))

    hash_valid : (m : Text) → is_valid (hash_bytes m) ≡ true
    unfolding is_valid
    hash_valid m = ground (arith, hash_visible m, hash_length m)

    hash_utf8 : (m : Text) → is_utf8 (hash_bytes m) ≡ true
    unfolding hash_bytes
    hash_utf8 m = hex.hex_utf8 (c.sha256 m)

    module _ (w : Wallet) (pair : IsKeyPair w.signing_key) where
      sign_transfer-basic_validate :
          (receiver : Address) (amount fee nonce timestamp_unix : ℕ) (tx : Transaction)
          → sign_transfer w receiver amount fee nonce timestamp_unix ≡ ok tx
          → basic_validate tx ≡ ok tt
      unfolding sign_transfer signed unsigned address_from_public_key unsigned_payload_bytes
      sign_transfer-basic_validate receiver amount fee nonce timestamp_unix tx e =
          let made : signed w (unsigned w receiver amount fee nonce timestamp_unix) ≡ tx =
            ground arith in
          subst (λ t. basic_validate t ≡ ok tt) made
            ((basic_validate_iff _).1 (record {
              sender_valid = hash_valid w.signing_key.verifying_key;
              receiver_valid = ground arith;
              positive = ground arith;
              named = hash_visible _;
              hash_matches = refl;
              key_length = pair.key_length;
              signature_length = pair.signature_length _;
              key_valid = pair.key_valid;
              signed = pair.verifies _;
              bound = refl;
            }))

      -- Its frame is one that the queue file takes.
      sign_transfer-IsQueueable :
          (receiver : Address) (amount fee nonce timestamp_unix : ℕ) (tx : Transaction)
          → is_utf8 receiver ≡ true
          → IsU64 amount
          → IsU64 fee
          → IsU64 nonce
          → IsU64 timestamp_unix
          → sign_transfer w receiver amount fee nonce timestamp_unix ≡ ok tx
          → IsQueueable tx
      unfolding sign_transfer signed unsigned address_from_public_key is_valid
      sign_transfer-IsQueueable receiver amount fee nonce timestamp_unix tx utf a f n t e =
          let made : signed w (unsigned w receiver amount fee nonce timestamp_unix) ≡ tx =
            ground arith in
          let short : length receiver ≤ 128 = ground arith in
          let raw = signed w (unsigned w receiver amount fee nonce timestamp_unix) in
          subst IsQueueable made (
            record {
              sender = (
                omega (arith, hash_length w.signing_key.verifying_key),
                hash_utf8 w.signing_key.verifying_key,
              );
              receiver = (omega arith, utf);
              tx_hash = (
                omega (
                  arith,
                  hash_length (
                      unsigned_payload_bytes (unsigned w receiver amount fee nonce timestamp_unix)),
                ),
                hash_utf8 _,
              );
              public_key = omega (arith, pair.key_length);
              signature = omega (
                arith,
                pair.signature_length
                    (unsigned_payload_bytes (unsigned w receiver amount fee nonce timestamp_unix)),
              );
              amount = a;
              fee = f;
              nonce = n;
              timestamp_unix = t;
            },
            omega (
              arith,
              length-transaction_bytes raw,
              hash_length w.signing_key.verifying_key,
              hash_length
                  (unsigned_payload_bytes (unsigned w receiver amount fee nonce timestamp_unix)),
              pair.key_length,
              pair.signature_length
                  (unsigned_payload_bytes (unsigned w receiver amount fee nonce timestamp_unix)),
            ),
          )

      -- A transfer that the wallet has signed passes the validation of the node, and when it has been
      -- appended to a queue file that parses, the file parses as the old queue with the transfer behind
      -- it. The numbers fit a u64 and the receiver is UTF-8, as their types say; digests, hexadecimal
      -- text and signatures are as the crates promise.
      pub sign_transfer_queues :
          (receiver : Address) (amount fee nonce timestamp_unix : ℕ) (tx : Transaction)
          (io : AppendIo) (d e : PendingDisk) (txs : List Transaction)
          → is_utf8 receiver ≡ true
          → IsU64 amount
          → IsU64 fee
          → IsU64 nonce
          → IsU64 timestamp_unix
          → sign_transfer w receiver amount fee nonce timestamp_unix ≡ ok tx
          → parse_pending_file_bytes (content d.pending) ≡ ok txs
          → append_pending_transaction io tx d ≡ (ok tt, e)
          → (basic_validate tx ≡ ok tt)
            × (parse_pending_file_bytes (content e.pending) ≡ ok (txs ++ tx ∷ []))
      sign_transfer_queues receiver amount fee nonce timestamp_unix tx io d e txs utf a f n t made
            old went =
          (
            sign_transfer-basic_validate receiver amount fee nonce timestamp_unix tx made,
            parse-append_pending_transaction io tx txs d e
                (sign_transfer-IsQueueable receiver amount fee nonce timestamp_unix tx utf a f n t
                  made)
                old went,
          )
