-- ===== src/Encoding.antt =====
-- node/src/encoding.rs: the binary form of transactions and blocks.
pub mod Cursor
pub mod RoundTrip
pub mod Blocks
pub mod Consumption
pub mod Decoded
use trilogicon_core.Prelude.{
  ℕ, zero, suc, ◌+◌, Text, Result, ok, err, ⊤, Option, none, some, List, [], ◌∷◌, ◌++◌, str,
  show_u64, length, leb, ◌=?◌, text_eq, nat_eq, ◌==◌, not, fail_if, if◌then◌else◌, map_err,
}
use trilogicon_core.Transaction.{Transaction}
use trilogicon_core.Block.{Block}
use Cursor.{
  EncodeError, Parser, stop, check, ◌>>=◌, ◌>>◌, take_exact, take_u8, take_u32_be, take_u64_be,
  take_bytes, take_string, finish, run, be_bytes, push_bytes, push_string, u32_max,
}

-- One buffer of the pieces, or none where a piece panics.
unfoldable pub concat_all : List (Option Text) → Option Text
concat_all [] = some []
concat_all (none ∷ rest) = none
concat_all (some x ∷ rest) = elim (concat_all rest) [ none ↦ none | some y ↦ some (x ++ y) ]

unfoldable pub encode_transaction : Transaction → Option Text
unfolding concat_all
encode_transaction tx = concat_all (
    some (str "TRT1")
    ∷ some (1 ∷ [])
    ∷ push_string tx.sender
    ∷ push_string tx.receiver
    ∷ some (be_bytes 8 tx.amount)
    ∷ some (be_bytes 8 tx.fee)
    ∷ some (be_bytes 8 tx.nonce)
    ∷ some (be_bytes 8 tx.timestamp_unix)
    ∷ push_bytes tx.public_key
    ∷ push_bytes tx.signature
    ∷ push_string tx.tx_hash
    ∷ [])

unfoldable pub parse_transaction : Parser Transaction
parse_transaction = do
  magic ← take_exact 4
  check (magic =? str "TRT1") (str "bad transaction magic")
  ver ← take_u8
  check (ver =? 1) (str "unsupported tx format version " ++ show_u64 ver)
  sender ← take_string
  receiver ← take_string
  amount ← take_u64_be
  fee ← take_u64_be
  nonce ← take_u64_be
  timestamp_unix ← take_u64_be
  public_key ← take_bytes
  signature ← take_bytes
  tx_hash ← take_string
  stop (record {
    sender = sender;
    receiver = receiver;
    amount = amount;
    fee = fee;
    nonce = nonce;
    timestamp_unix = timestamp_unix;
    public_key = public_key;
    signature = signature;
    tx_hash = tx_hash;
  })

-- The fields, and then nothing may be left.
unfoldable pub decode_transaction : Text → Result EncodeError Transaction
decode_transaction = run parse_transaction

-- The pieces that the loop of `encode_block` adds for one transaction.
unfoldable pub nested : Option Text → Option Text
nested none = none
nested (some t) = push_bytes t

unfoldable pub encode_each : List Transaction → Option Text
encode_each [] = some []
encode_each (tx ∷ rest) = concat_all (nested (encode_transaction tx) ∷ encode_each rest ∷ [])

unfoldable pub push_count : ℕ → Option Text
push_count n = if leb n u32_max then some (be_bytes 4 n) else none

unfoldable pub encode_block : Block → Option Text
encode_block b = concat_all (
    some (str "TRB1")
    ∷ some (1 ∷ [])
    ∷ some (be_bytes 8 b.height)
    ∷ push_string b.previous_hash
    ∷ some (be_bytes 8 b.timestamp_unix)
    ∷ push_count (length b.transactions)
    ∷ encode_each b.transactions
    ∷ push_string b.block_hash
    ∷ [])

-- `decode_transaction(chunk).map_err(..)?`
unfoldable pub decode_chunk : ℕ → Text → Parser Transaction
decode_chunk i chunk rest = elim (decode_transaction chunk) [
  | ok tx ↦ ok (tx, rest)
  | err e ↦ err (str "tx " ++ show_u64 i ++ str ": " ++ e)
]

-- `for i in 0..n`, with the number of rounds left and the index.
unfoldable pub parse_each : ℕ → ℕ → Parser (List Transaction)
parse_each zero i = stop []
parse_each (suc n) i = do
  chunk ← take_bytes
  tx ← decode_chunk i chunk
  rest ← parse_each n (i + 1)
  stop (tx ∷ rest)

unfoldable pub parse_block : Parser Block
parse_block = do
  magic ← take_exact 4
  check (magic =? str "TRB1") (str "bad block magic")
  ver ← take_u8
  check (ver =? 1) (str "unsupported block format version " ++ show_u64 ver)
  height ← take_u64_be
  previous_hash ← take_string
  timestamp_unix ← take_u64_be
  n ← take_u32_be
  transactions ← parse_each n 0
  block_hash ← take_string
  stop (record {
    height = height;
    previous_hash = previous_hash;
    timestamp_unix = timestamp_unix;
    transactions = transactions;
    block_hash = block_hash;
  })

unfoldable pub decode_block : Text → Result EncodeError Block
decode_block = run parse_block
