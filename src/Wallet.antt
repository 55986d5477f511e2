-- ===== src/Wallet.antt =====
-- node/src/wallet.rs: the wallet that signs transfers. The key is one of the crate ed25519_dalek: a
-- parameter, as the bytes of its public half and the function that signs.
pub mod Sending
use trilogicon_core.Prelude.{
  ℕ, ◌*◌, ◌≡◌, ◌≤◌, ◌<◌, Text, ok, err, true, false, Bool, not, fail_if, ◌>>=◌, ◌>>◌, ◌==◌, [],
  length, is_blank, leb, arith, refl, IsU64, if◌then◌else◌, text_eq, ◌&&◌, subst,
}
use trilogicon_core.Types.{Address, is_valid}
use trilogicon_core.Errors.{Checked, invalid_amount, invalid_address}
use trilogicon_core.Crypto.{Primitives, hash_bytes, address_from_public_key}
use trilogicon_core.Transaction.{Transaction, basic_validate, unsigned_payload_bytes}
use trilogicon_core.Transaction.Validity.{IsAuthentic, basic_validate_iff}
use trilogicon_core.Encoding.Cursor.{is_utf8, u32_max}
use trilogicon_core.Encoding.RoundTrip.{CanEncode, transaction_bytes}
use trilogicon_core.Encoding.Decoded.{length-transaction_bytes}
use trilogicon_core.Pending.{max_pending_tx_frame}
use trilogicon_core.Pending.Queue.{IsQueueable}

-- `SigningKey`
pub record SigningKey : Type 0 where
  -- `verifying_key().to_bytes()`
  pub verifying_key : Text
  -- `sign(message).to_bytes()`
  pub sign : Text → Text

pub record Wallet : Type 0 where
  pub signing_key : SigningKey

module _ ⦃c : Primitives⦄ where
  -- `Wallet::address`
  unfoldable pub address : Wallet → Address
  address w = address_from_public_key w.signing_key.verifying_key

  -- The transaction before it is signed and named.
  unfoldable pub unsigned : Wallet → Address → ℕ → ℕ → ℕ → ℕ → Transaction
  unsigned w receiver amount fee nonce timestamp_unix = record {
    sender = address_from_public_key w.signing_key.verifying_key;
    receiver = receiver;
    amount = amount;
    fee = fee;
    nonce = nonce;
    timestamp_unix = timestamp_unix;
    public_key = w.signing_key.verifying_key;
    signature = [];
    tx_hash = [];
  }

  -- The signature over the payload, and its hash as the name.
  unfoldable pub signed : Wallet → Transaction → Transaction
  signed w tx =
      let payload = unsigned_payload_bytes tx in
      record tx { signature = w.signing_key.sign payload; tx_hash = hash_bytes payload }

  unfoldable pub sign_transfer : Wallet → Address → ℕ → ℕ → ℕ → ℕ → Checked Transaction
  sign_transfer w receiver amount fee nonce timestamp_unix = do
    fail_if (amount == 0) invalid_amount
    fail_if (not (is_valid receiver)) invalid_address
    ok (signed w (unsigned w receiver amount fee nonce timestamp_unix))
