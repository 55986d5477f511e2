-- ===== src/Encoding/Decoded.antt =====
-- What was decoded can be encoded again, in as many bytes.
use trilogicon_core.Prelude.{
  ℕ, zero, suc, ◌+◌, ◌≡◌, ◌≤◌, Text, ok, List, [], ◌∷◌, ◌++◌, arith, length, All, refl, sym,
  append-nil, ap, ◌∙◌, length-append, str, text_eq, nat_eq, ◌=?◌, show_u64, inl, inr, Result-cases,
}
use trilogicon_core.Transaction.{Transaction}
use trilogicon_core.Block.{Block}
use trilogicon_core.Encoding.Cursor.{Parser, ◌>>=◌, u32_max, run, finish, be_bytes}
use trilogicon_core.Encoding.{
  parse_transaction, decode_transaction, decode_chunk, parse_each, parse_block, decode_block,
}
use trilogicon_core.Encoding.RoundTrip.{
  CanEncode, transaction_pieces, transaction_bytes, framed, join_all, length-be_bytes,
}
use trilogicon_core.Encoding.Blocks.{CanNest, CanEncodeBlock, each_bytes, block_pieces, block_bytes}
use trilogicon_core.Encoding.Consumption.{
  IsByte, value_or, returned, Takes, bind-Takes, stop-Takes, check_then, take_exact-Takes,
  take_number-Takes, take_bytes-Takes, take_string-Takes, Chunk, Number, Framed, FramedText,
}

length-framed : (t : Text) → length (framed t) ≡ 4 + length t
length-framed t =
    omega (arith, length-append (be_bytes 4 (length t)) t, length-be_bytes 4 (length t))

abbrev total : List Text → ℕ
total [] = 0
total (x ∷ xs) = length x + total xs

length-join_all : (xs : List Text) → length (join_all xs) ≡ total xs
unfolding join_all
length-join_all [] = refl
length-join_all (x ∷ xs) = omega (arith, length-append x (join_all xs), length-join_all xs)

pub length-transaction_bytes :
    (tx : Transaction)
    → length (transaction_bytes tx)
      ≡ 57
        + (length tx.sender
            + (length tx.receiver
                + (length tx.public_key + (length tx.signature + length tx.tx_hash))))
unfolding str
length-transaction_bytes tx =
    length-join_all (transaction_pieces tx)
    ∙ omega (
      arith,
      length-framed tx.sender,
      length-framed tx.receiver,
      length-framed tx.public_key,
      length-framed tx.signature,
      length-framed tx.tx_hash,
      length-be_bytes 8 tx.amount,
      length-be_bytes 8 tx.fee,
      length-be_bytes 8 tx.nonce,
      length-be_bytes 8 tx.timestamp_unix,
    )

abbrev TakesTransaction : Transaction → ℕ → Type 0
TakesTransaction tx n = CanEncode tx × (n ≡ length (transaction_bytes tx))

abbrev transaction : Text → Text → ℕ → ℕ → ℕ → ℕ → Text → Text → Text → Transaction
transaction sender receiver amount fee nonce timestamp_unix public_key signature tx_hash = record {
  sender = sender;
  receiver = receiver;
  amount = amount;
  fee = fee;
  nonce = nonce;
  timestamp_unix = timestamp_unix;
  public_key = public_key;
  signature = signature;
  tx_hash = tx_hash;
}

parse_transaction-Takes : Takes parse_transaction TakesTransaction
unfolding parse_transaction
parse_transaction-Takes = bind-Takes _ _ (Chunk 4) _ (take_exact-Takes 4) (λ magic n₁ x₁.
    check_then (magic =? str "TRT1") (str "bad transaction magic") _ _ (
      bind-Takes _ _ (Number 1) _ (take_number-Takes 1) (λ ver n₂ x₂.
        check_then (ver =? 1) (str "unsupported tx format version " ++ show_u64 ver) _ _ (
          bind-Takes _ _ FramedText _ take_string-Takes (λ sender n₃ x₃.
            bind-Takes _ _ FramedText _ take_string-Takes (λ receiver n₄ x₄.
              bind-Takes _ _ (Number 8) _ (take_number-Takes 8) (λ amount n₅ x₅.
                bind-Takes _ _ (Number 8) _ (take_number-Takes 8) (λ fee n₆ x₆.
                  bind-Takes _ _ (Number 8) _ (take_number-Takes 8) (λ nonce n₇ x₇.
                    bind-Takes _ _ (Number 8) _ (take_number-Takes 8) (λ timestamp n₈ x₈.
                      bind-Takes _ _ Framed _ take_bytes-Takes (λ key n₉ x₉.
                        bind-Takes _ _ Framed _ take_bytes-Takes (λ signature n₁₀ x₁₀.
                          bind-Takes _ _ FramedText _ take_string-Takes (λ hash n₁₁ x₁₁.
                            stop-Takes _
                              (transaction sender receiver amount fee nonce timestamp key signature
                                hash)
                              (
                                record {
                                  sender = x₃.1;
                                  receiver = x₄.1;
                                  tx_hash = x₁₁.1;
                                  public_key = x₉.1;
                                  signature = x₁₀.1;
                                  amount = omega (arith, x₅.1);
                                  fee = omega (arith, x₆.1);
                                  nonce = omega (arith, x₇.1);
                                  timestamp_unix = omega (arith, x₈.1);
                                },
                                omega (
                                  arith,
                                  x₁.0,
                                  x₂.0,
                                  x₃.0,
                                  x₄.0,
                                  x₅.0,
                                  x₆.0,
                                  x₇.0,
                                  x₈.0,
                                  x₉.0,
                                  x₁₀.0,
                                  x₁₁.0,
                                  length-transaction_bytes (
                                      transaction sender receiver amount fee nonce timestamp key
                                        signature hash),
                                ),
                              ))))))))))))))

run_inv : {A : Type 0} (p : Parser A) (bs : Text) (a : A) → run p bs ≡ ok a → p bs ≡ ok (a, [])
unfolding run finish
run_inv p bs a e = elim (Result-cases (p bs)) [
  | inl ((b, []), went) ↦ went ∙ ap (λ z. ok (z, [])) (ap (value_or b) (rw (run, ◌>>=◌, went) at e))
  | inl ((b, x ∷ rest), went) ↦ absurd (ground (arith, rw (run, ◌>>=◌, went) at e))
  | inr (x, failed) ↦ absurd (ground (arith, rw (run, ◌>>=◌, failed) at e))
]

pub decode_transaction-CanEncode :
    (bytes : Text) (tx : Transaction)
    → All IsByte bytes
    → decode_transaction bytes ≡ ok tx
    → CanEncode tx × (length (transaction_bytes tx) ≡ length bytes)
unfolding decode_transaction
decode_transaction-CanEncode bytes tx k e =
    let x = parse_transaction-Takes bytes tx [] k (run_inv parse_transaction bytes tx e) in
    (x.holds.0, omega (arith, x.holds.1, x.split))

-- A nested transaction with the length in front.
abbrev TakesEach : ℕ → List Transaction → ℕ → Type 0
TakesEach count txs n = (length txs ≡ count) × All CanNest txs × (n ≡ length (each_bytes txs))

decode_chunk-Takes :
    (i : ℕ) (chunk : Text)
    → All IsByte chunk
    → length chunk ≤ u32_max
    → Takes
        (decode_chunk i chunk)
        (λ tx n. (n ≡ 0) × CanNest tx × (length (transaction_bytes tx) ≡ length chunk))
unfolding decode_chunk
decode_chunk-Takes i chunk k l bs tx rest bytes e = elim (Result-cases (decode_transaction chunk)) [
  | inl (t, went) ↦
      let x = decode_transaction-CanEncode chunk t k went in
      returned (λ tx n. (n ≡ 0) × CanNest tx × (length (transaction_bytes tx) ≡ length chunk)) bs
        rest tx 0 (t, bs) (sym (ground arith) ∙ e) bytes (omega arith)
        (refl, (x.0, omega (arith, x.1, l)), x.1)
  | inr (x, failed) ↦ absurd (ground (arith, rw (decode_chunk, failed) at e))
]

parse_each-Takes : (count i : ℕ) → Takes (parse_each count i) (TakesEach count)
unfolding parse_each each_bytes
parse_each-Takes zero i = stop-Takes (TakesEach 0) [] (refl, tt, refl)
parse_each-Takes (suc count) i = bind-Takes _ _ Framed _ take_bytes-Takes (λ chunk n₁ x₁.
    bind-Takes _ _ _ _ (decode_chunk-Takes i chunk x₁.2 x₁.1) (λ tx n₂ x₂.
      bind-Takes _ _ (TakesEach count) _ (parse_each-Takes count (i + 1)) (λ txs n₃ x₃.
        stop-Takes _ (tx ∷ txs) (
          omega (arith, x₃.0),
          (x₂.1, x₃.1),
          omega (
            arith,
            x₁.0,
            x₂.0,
            x₂.2,
            x₃.2,
            length-append (framed (transaction_bytes tx)) (each_bytes txs ++ []),
            ap length (append-nil (each_bytes txs)),
            length-framed (transaction_bytes tx),
          ),
        ))))

length-block_bytes :
    (b : Block)
    → length (block_bytes b)
      ≡ 33 + (length b.previous_hash + (length (each_bytes b.transactions) + length b.block_hash))
unfolding str
length-block_bytes b =
    length-join_all (block_pieces b)
    ∙ omega (
      arith,
      length-framed b.previous_hash,
      length-framed b.block_hash,
      length-be_bytes 8 b.height,
      length-be_bytes 8 b.timestamp_unix,
      length-be_bytes 4 (length b.transactions),
    )

abbrev TakesBlock : Block → ℕ → Type 0
TakesBlock b n = CanEncodeBlock b × (n ≡ length (block_bytes b))

abbrev block : ℕ → Text → ℕ → List Transaction → Text → Block
block height previous_hash timestamp_unix transactions block_hash = record {
  height = height;
  previous_hash = previous_hash;
  timestamp_unix = timestamp_unix;
  transactions = transactions;
  block_hash = block_hash;
}

parse_block-Takes : Takes parse_block TakesBlock
unfolding parse_block
parse_block-Takes = bind-Takes _ _ (Chunk 4) _ (take_exact-Takes 4) (λ magic n₁ x₁.
    check_then (magic =? str "TRB1") (str "bad block magic") _ _ (
      bind-Takes _ _ (Number 1) _ (take_number-Takes 1) (λ ver n₂ x₂.
        check_then (ver =? 1) (str "unsupported block format version " ++ show_u64 ver) _ _ (
          bind-Takes _ _ (Number 8) _ (take_number-Takes 8) (λ height n₃ x₃.
            bind-Takes _ _ FramedText _ take_string-Takes (λ previous n₄ x₄.
              bind-Takes _ _ (Number 8) _ (take_number-Takes 8) (λ timestamp n₅ x₅.
                bind-Takes _ _ (Number 4) _ (take_number-Takes 4) (λ count n₆ x₆.
                  bind-Takes _ _ (TakesEach count) _ (parse_each-Takes count 0) (λ txs n₇ x₇.
                    bind-Takes _ _ FramedText _ take_string-Takes (λ hash n₈ x₈.
                      stop-Takes _ (block height previous timestamp txs hash) (
                        record {
                          height = omega (arith, x₃.1);
                          timestamp_unix = omega (arith, x₅.1);
                          previous_hash = x₄.1;
                          block_hash = x₈.1;
                          count = omega (arith, x₇.0, x₆.1);
                          each = x₇.1;
                        },
                        omega (
                          arith,
                          x₁.0,
                          x₂.0,
                          x₃.0,
                          x₄.0,
                          x₅.0,
                          x₆.0,
                          x₇.2,
                          x₈.0,
                          length-block_bytes (block height previous timestamp txs hash),
                        ),
                      )))))))))))

-- A block that was decoded from bytes can be encoded, and has as many bytes again.
pub decode_block-CanEncodeBlock :
    (bytes : Text) (b : Block)
    → All IsByte bytes
    → decode_block bytes ≡ ok b
    → CanEncodeBlock b × (length (block_bytes b) ≡ length bytes)
unfolding decode_block
decode_block-CanEncodeBlock bytes b k e =
    let x = parse_block-Takes bytes b [] k (run_inv parse_block bytes b e) in
    (x.holds.0, omega (arith, x.holds.1, x.split))
