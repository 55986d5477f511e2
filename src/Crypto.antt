-- ===== src/Crypto.antt =====
-- node/src/crypto.rs. SHA-256, hexadecimal text and Ed25519 come from the crates sha2, hex and
-- ed25519_dalek: they are parameters, of which nothing is assumed.
use trilogicon_core.Prelude.{Bool, false, Text, length, ◌==◌, if◌then◌else◌}

pub record Primitives : Type 0 where
  -- `Sha256::digest`
  pub sha256 : Text → Text
  -- `hex::encode`
  pub hex_encode : Text → Text
  -- `VerifyingKey::from_bytes(&pk).is_ok()`
  pub is_key : Text → Bool
  -- `verifying_key.verify(message, &sig).is_ok()`, with the key first
  pub verify : Text → Text → Text → Bool

module _ ⦃c : Primitives⦄ where
  -- `Crypto::hash_bytes`
  unfoldable pub hash_bytes : Text → Text
  hash_bytes payload = c.hex_encode (c.sha256 payload)

  -- `Crypto::sha256_raw32`
  unfoldable pub sha256_raw32 : Text → Text
  sha256_raw32 payload = c.sha256 payload

  -- `Crypto::address_from_public_key`
  unfoldable pub address_from_public_key : Text → Text
  unfolding hash_bytes
  address_from_public_key public_key = hash_bytes public_key

  -- `Crypto::verify_signature`
  unfoldable pub verify_signature : Text → Text → Text → Bool
  verify_signature message signature public_key =
      if length public_key == 32
      then if length signature == 64
        then if c.is_key public_key then c.verify public_key message signature else false
        else false
      else false
