-- ===== src/Block.antt =====
-- node/src/block.rs: blocks, their identity and their stateless validation.
pub mod Validity
use trilogicon_core.Prelude.{
  ℕ, Text, ok, err, ⊤, ◌>>=◌, ◌>>◌, fail_if, ite, ◌=?◌, text_eq, str, is_blank, is_nil, join,
  show_u64, Bool, ◌||◌, not, ◌==◌, List, [], ◌∷◌, map, if◌then◌else◌, contains, ne,
}
use trilogicon_core.Errors.{Checked, ProtocolError, invalid_block, duplicate_transaction}
use trilogicon_core.Crypto.{Primitives, hash_bytes}
use trilogicon_core.Transaction
use trilogicon_core.Transaction.{Transaction}

pub record Block : Type 0 where
  pub height : ℕ
  pub previous_hash : Text
  pub timestamp_unix : ℕ
  pub transactions : List Transaction
  pub block_hash : Text

-- `Block::genesis`
unfoldable pub genesis : Block
genesis = record {
  height = 0;
  previous_hash = str "GENESIS";
  timestamp_unix = 0;
  transactions = [];
  block_hash = str "GENESIS_HASH";
}

abbrev pub is_genesis : Block → Bool
is_genesis b = b.height == 0

abbrev pub tx_hashes : List Transaction → List Text
tx_hashes = map (λ t. t.tx_hash)

unfoldable pub block_header_preimage_bytes : Block → Text
block_header_preimage_bytes b = join (str "|") (
    show_u64 b.height
    ∷ b.previous_hash
    ∷ show_u64 b.timestamp_unix
    ∷ join (str "|") (tx_hashes b.transactions)
    ∷ [])

-- The loop over `seen_tx_hashes`.
unfoldable pub check_unique : List Text → List Transaction → Checked ⊤
check_unique seen [] = ok tt
check_unique seen (tx ∷ rest) =
    if contains tx.tx_hash seen
    then err duplicate_transaction
    else check_unique (tx.tx_hash ∷ seen) rest

module _ ⦃c : Primitives⦄ where
  unfoldable pub compute_block_hash : Block → Text
  compute_block_hash b = hash_bytes (block_header_preimage_bytes b)

  unfoldable pub validate_block_hash : Block → Checked ⊤
  validate_block_hash b = do
    fail_if (is_blank b.block_hash) (invalid_block (str "missing block hash"))
    fail_if (ne b.block_hash (compute_block_hash b)) (invalid_block (str "block hash mismatch"))

  unfoldable pub validate_all : List Transaction → Checked ⊤
  validate_all [] = ok tt
  validate_all (tx ∷ rest) = do Transaction.basic_validate tx; validate_all rest

  validate_genesis : Block → Checked ⊤
  validate_genesis b = do
    fail_if (ne b.previous_hash (str "GENESIS") || ne b.block_hash (str "GENESIS_HASH"))
        (invalid_block (str "invalid genesis constants"))
    fail_if (not (is_nil b.transactions))
        (invalid_block (str "genesis must not contain transactions"))

  unfoldable pub basic_validate : Block → Checked ⊤
  unfolding validate_genesis
  basic_validate b = if is_genesis b then validate_genesis b else do
    fail_if (is_blank b.previous_hash) (invalid_block (str "missing previous hash"))
    check_unique [] b.transactions
    validate_all b.transactions
    validate_block_hash b
