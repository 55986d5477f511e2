-- ===== src/Tests/EncodingWitnesses.antt =====
-- The round trips of the binary form at concrete inputs.
use trilogicon_core.Prelude.{◌≡◌, refl, Text, ok, some, str, [], ◌∷◌, arith}
use trilogicon_core.Transaction.{Transaction}
use trilogicon_core.Block.{Block}
use trilogicon_core.Encoding.Cursor.{is_utf8, be_bytes}
use trilogicon_core.Encoding.{encode_block, decode_block}
use trilogicon_core.Encoding.RoundTrip.{CanEncode, join_all}
use trilogicon_core.Encoding.Blocks.{CanEncodeBlock, decode_block-encode_block}

abbrev tx : Transaction
tx = record {
  sender = 97 ∷ [];
  receiver = 195 ∷ 169 ∷ [];
  amount = 300;
  fee = 1;
  nonce = 0;
  timestamp_unix = 5;
  public_key = 255 ∷ 0 ∷ [];
  signature = [];
  tx_hash = 98 ∷ [];
}

tx-CanEncode : CanEncode tx
unfolding is_utf8
tx-CanEncode = record {
  sender = (omega arith, refl);
  receiver = (omega arith, refl);
  tx_hash = (omega arith, refl);
  public_key = omega arith;
  signature = omega arith;
  amount = omega arith;
  fee = omega arith;
  nonce = omega arith;
  timestamp_unix = omega arith;
}

abbrev pub block : Block
block = record {
  height = 258;
  previous_hash = 97 ∷ [];
  timestamp_unix = 7;
  transactions = tx ∷ [];
  block_hash = 98 ∷ [];
}

pub block-CanEncodeBlock : CanEncodeBlock block
unfolding is_utf8 join_all be_bytes str
block-CanEncodeBlock = record {
  height = omega arith;
  timestamp_unix = omega arith;
  previous_hash = (omega arith, refl);
  block_hash = (omega arith, refl);
  count = omega arith;
  each = ((tx-CanEncode, omega arith), tt);
}

block_example : (bytes : Text) × (encode_block block ≡ some bytes) × (decode_block bytes ≡ ok block)
block_example = decode_block-encode_block block block-CanEncodeBlock
