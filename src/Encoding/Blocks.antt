-- ===== src/Encoding/Blocks.antt =====
-- Decoding an encoded block.
use trilogicon_core.Prelude.{
  ℕ, ◌+◌, ◌≡◌, ◌≤◌, Text, ok, some, List, [], ◌∷◌, ◌++◌, append-nil, append_assoc, arith, length,
  All, refl, text_discrete, ℕ_discrete, text_eq, nat_eq, str, IsU64,
}
use trilogicon_core.Transaction.{Transaction}
use trilogicon_core.Block.{Block}
use trilogicon_core.Encoding.Cursor.{
  ◌>>=◌, ◌>>◌, take_exact, be_bytes, u32_max, run, finish, take_u32_be,
}
use trilogicon_core.Encoding.{
  encode_each, encode_block, parse_each, parse_block, decode_block, decode_chunk, nested,
  push_count, concat_all,
}
use trilogicon_core.Encoding.RoundTrip.{
  Reads, join_all, concat_all-some, framed, push_bytes_fits, take_exact-Reads, take_number-Reads,
  take_bytes-Reads, take_string-Reads, take_u64-Reads, version-Reads, IsWritable, CanEncode,
  transaction_bytes, encode_transaction_bytes, decode_transaction_bytes,
}

-- A transaction that can be nested in a block.
abbrev pub CanNest : Transaction → Type 0
CanNest tx = CanEncode tx × (length (transaction_bytes tx) ≤ u32_max)

unfoldable pub each_bytes : List Transaction → Text
each_bytes [] = []
each_bytes (tx ∷ rest) = framed (transaction_bytes tx) ++ (each_bytes rest ++ [])

encode_each_bytes :
    (txs : List Transaction) → All CanNest txs → encode_each txs ≡ some (each_bytes txs)
unfolding encode_each each_bytes concat_all nested
encode_each_bytes [] k = refl
encode_each_bytes (tx ∷ rest) k =
    rw (encode_transaction_bytes tx k.0.0)
      (rw (push_bytes_fits (transaction_bytes tx) k.0.1) (rw (encode_each_bytes rest k.1) refl))

parse_each-Reads :
    (txs : List Transaction) (i : ℕ)
    → All CanNest txs
    → Reads (parse_each (length txs) i) (each_bytes txs) txs
unfolding parse_each each_bytes decode_chunk
parse_each-Reads [] i k rest = refl
parse_each-Reads (tx ∷ txs) i k rest =
    rw
      (
        append-nil (each_bytes txs),
        append_assoc (framed (transaction_bytes tx)) (each_bytes txs) rest,
      )
      (rw (take_bytes-Reads (transaction_bytes tx) k.0.1 _, parse_each, ◌>>=◌)
        (rw (decode_transaction_bytes tx k.0.0, ◌>>=◌)
          (rw (parse_each-Reads txs (i + 1) k.1 rest, ◌>>=◌) refl)))

-- The fields are as their types say, and the lengths fit a u32.
pub record CanEncodeBlock (b : Block) : Type 0 where
  pub height : IsU64 b.height
  pub timestamp_unix : IsU64 b.timestamp_unix
  pub previous_hash : IsWritable b.previous_hash
  pub block_hash : IsWritable b.block_hash
  pub count : length b.transactions ≤ u32_max
  pub each : All CanNest b.transactions

abbrev pub block_pieces : Block → List Text
block_pieces b =
    str "TRB1"
    ∷ (1 ∷ [])
    ∷ be_bytes 8 b.height
    ∷ framed b.previous_hash
    ∷ be_bytes 8 b.timestamp_unix
    ∷ be_bytes 4 (length b.transactions)
    ∷ each_bytes b.transactions
    ∷ framed b.block_hash
    ∷ []

-- The bytes of a block.
abbrev pub block_bytes : Block → Text
block_bytes b = join_all (block_pieces b)

push_count_fits : (n : ℕ) → n ≤ u32_max → push_count n ≡ some (be_bytes 4 n)
unfolding push_count
push_count_fits n l = ground arith

pub encode_block_bytes : (b : Block) → CanEncodeBlock b → encode_block b ≡ some (block_bytes b)
unfolding encode_block
encode_block_bytes b k = rw (push_bytes_fits b.previous_hash k.previous_hash.0) (
    rw (push_count_fits (length b.transactions) k.count) (
      rw (encode_each_bytes b.transactions k.each)
        (rw (push_bytes_fits b.block_hash k.block_hash.0) (concat_all-some (block_pieces b)))))

block_magic-Reads : (rest : Text) → take_exact 4 (str "TRB1" ++ rest) ≡ ok (str "TRB1", rest)
unfolding str
block_magic-Reads rest = take_exact-Reads (str "TRB1") rest

count-Reads :
    (n : ℕ) (rest : Text) → n ≤ u32_max → take_u32_be (be_bytes 4 n ++ rest) ≡ ok (n, rest)
count-Reads n rest l = take_number-Reads 4 n (omega arith) rest

parse_block_bytes :
    (b : Block) → CanEncodeBlock b → parse_block (join_all (block_pieces b)) ≡ ok (b, [])
unfolding parse_block join_all text_discrete ℕ_discrete str
parse_block_bytes b k =
    rw (block_magic-Reads _, parse_block, ◌>>=◌, ◌>>◌)
      (rw (version-Reads _, ◌>>=◌, ◌>>◌)
        (rw (take_u64-Reads b.height k.height _, ◌>>=◌, ◌>>◌)
          (rw (take_string-Reads b.previous_hash k.previous_hash _, ◌>>=◌, ◌>>◌)
            (rw (take_u64-Reads b.timestamp_unix k.timestamp_unix _, ◌>>=◌, ◌>>◌)
              (rw (count-Reads (length b.transactions) _ k.count, ◌>>=◌, ◌>>◌)
                (rw (parse_each-Reads b.transactions 0 k.each _, ◌>>=◌, ◌>>◌)
                  (rw (take_string-Reads b.block_hash k.block_hash _, ◌>>=◌) refl)))))))

pub decode_block_bytes : (b : Block) → CanEncodeBlock b → decode_block (block_bytes b) ≡ ok b
unfolding decode_block run finish
decode_block_bytes b k = rw (parse_block_bytes b k, run, ◌>>=◌) refl

-- A block whose fields are u64 and UTF-8 strings, with transactions that can be encoded and lengths
-- that fit a u32, has an encoding, and decoding it returns the block.
pub decode_block-encode_block :
    (b : Block)
    → CanEncodeBlock b
    → (bytes : Text) × (encode_block b ≡ some bytes) × (decode_block bytes ≡ ok b)
decode_block-encode_block b k = (block_bytes b, encode_block_bytes b k, decode_block_bytes b k)
