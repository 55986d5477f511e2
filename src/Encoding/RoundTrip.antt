-- ===== src/Encoding/RoundTrip.antt =====
-- Decoding what was encoded.
use trilogicon_core.Prelude.{
  ℕ, zero, suc, ◌+◌, ◌*◌, ◌/◌, ◌%◌, ◌≡◌, ◌≤◌, ◌<◌, Text, ok, true, some, List, [], ◌∷◌, ◌++◌, arith,
  length, length-append, take-append, drop-append, refl, ap, map, append_assoc, nat_eq,
  text_discrete, ℕ_discrete, ◌∙◌, str, IsU64, text_eq,
}
use trilogicon_core.Transaction.{Transaction}
use trilogicon_core.Encoding.Cursor.{
  Parser, ◌>>=◌, ◌>>◌, take_exact, take_number, take_bytes, take_string, from_be, be_bytes,
  push_bytes, is_utf8, utf8, u32_max, finish, run, take_u8, take_u32_be, take_u64_be,
}
use trilogicon_core.Encoding.{encode_transaction, parse_transaction, decode_transaction, concat_all}

-- The parser takes the piece off any input that starts with it, and returns the value.
abbrev pub Reads : {A : Type 0} → Parser A → Text → A → Type 0
Reads p piece a = (rest : Text) → p (piece ++ rest) ≡ ok (a, rest)

bind_ok :
    {A B : Type 0} (p : Parser A) (f : A → Parser B) (bs : Text) (a : A) (rest : Text)
    → p bs ≡ ok (a, rest)
    → (p >>= f) bs ≡ f a rest
bind_ok p f bs a rest e = rw (e, ◌>>=◌) refl

unfoldable pub join_all : List Text → Text
join_all [] = []
join_all (x ∷ xs) = x ++ join_all xs

pub concat_all-some : (xs : List Text) → concat_all (map some xs) ≡ some (join_all xs)
unfolding concat_all join_all
concat_all-some [] = refl
concat_all-some (x ∷ xs) = ground (arith, concat_all-some xs)

pub take_exact-Reads : (xs : Text) → Reads (take_exact (length xs)) xs xs
unfolding take_exact
take_exact-Reads xs rest =
    ground (arith, length-append xs rest, take-append xs rest, drop-append xs rest)

-- The numbers below the bound have so many bytes.
abbrev pub byte_bound : ℕ → ℕ
byte_bound zero = 1
byte_bound (suc width) = 256 * byte_bound width

from_be-append : (acc b : ℕ) (xs : Text) → from_be acc (xs ++ b ∷ []) ≡ from_be acc xs * 256 + b
unfolding from_be
from_be-append acc b [] = refl
from_be-append acc b (x ∷ xs) = from_be-append (acc * 256 + x) b xs

pub length-be_bytes : (width v : ℕ) → length (be_bytes width v) ≡ width
unfolding be_bytes
length-be_bytes zero v = refl
length-be_bytes (suc width) v = omega (
  arith,
  length-append (be_bytes width (v / 256)) (v % 256 ∷ []),
  length-be_bytes width (v / 256),
)

pub from_be-be_bytes : (width v : ℕ) → v < byte_bound width → from_be 0 (be_bytes width v) ≡ v
unfolding be_bytes from_be
from_be-be_bytes zero v l = omega arith
from_be-be_bytes (suc width) v l = omega (
  arith,
  from_be-append 0 (v % 256) (be_bytes width (v / 256)),
  from_be-be_bytes width (v / 256) (omega arith),
)

pub take_number-Reads :
    (width v : ℕ) → v < byte_bound width → Reads (take_number width) (be_bytes width v) v
unfolding take_number
take_number-Reads width v l rest = ground (
  arith,
  take_exact-Reads (be_bytes width v) rest,
  length-be_bytes width v,
  from_be-be_bytes width v l,
)

-- A length prefix with what follows it.
abbrev pub framed : Text → Text
framed b = be_bytes 4 (length b) ++ b

pub push_bytes_fits : (b : Text) → length b ≤ u32_max → push_bytes b ≡ some (framed b)
unfolding push_bytes
push_bytes_fits b l = ground arith

pub take_bytes-Reads : (b : Text) → length b ≤ u32_max → Reads take_bytes (framed b) b
unfolding take_bytes
take_bytes-Reads b l rest =
    ap take_bytes (append_assoc (be_bytes 4 (length b)) b rest)
    ∙ bind_ok take_u32_be take_exact (be_bytes 4 (length b) ++ (b ++ rest)) (length b) (b ++ rest)
        (take_number-Reads 4 (length b) (omega arith) (b ++ rest))
    ∙ take_exact-Reads b rest

-- A string whose length fits a u32.
abbrev pub IsWritable : Text → Type 0
IsWritable s = (length s ≤ u32_max) × (is_utf8 s ≡ true)

pub take_string-Reads : (s : Text) → IsWritable s → Reads take_string (framed s) s
unfolding take_string utf8
take_string-Reads s w rest = rw (take_bytes-Reads s w.0 rest, take_string, ◌>>=◌) (rw w.1 refl)

pub take_u64-Reads : (v : ℕ) → IsU64 v → Reads take_u64_be (be_bytes 8 v) v
take_u64-Reads v l = take_number-Reads 8 v (omega arith)

-- The fields are as their types say, and the lengths fit a u32.
pub record CanEncode (tx : Transaction) : Type 0 where
  pub sender : IsWritable tx.sender
  pub receiver : IsWritable tx.receiver
  pub tx_hash : IsWritable tx.tx_hash
  pub public_key : length tx.public_key ≤ u32_max
  pub signature : length tx.signature ≤ u32_max
  pub amount : IsU64 tx.amount
  pub fee : IsU64 tx.fee
  pub nonce : IsU64 tx.nonce
  pub timestamp_unix : IsU64 tx.timestamp_unix

-- The pieces of the encoding of a transaction.
abbrev pub transaction_pieces : Transaction → List Text
transaction_pieces tx =
    str "TRT1"
    ∷ (1 ∷ [])
    ∷ framed tx.sender
    ∷ framed tx.receiver
    ∷ be_bytes 8 tx.amount
    ∷ be_bytes 8 tx.fee
    ∷ be_bytes 8 tx.nonce
    ∷ be_bytes 8 tx.timestamp_unix
    ∷ framed tx.public_key
    ∷ framed tx.signature
    ∷ framed tx.tx_hash
    ∷ []

abbrev pub transaction_bytes : Transaction → Text
transaction_bytes tx = join_all (transaction_pieces tx)

pub encode_transaction_bytes :
    (tx : Transaction) → CanEncode tx → encode_transaction tx ≡ some (transaction_bytes tx)
unfolding encode_transaction
encode_transaction_bytes tx k = rw (push_bytes_fits tx.sender k.sender.0) (
    rw (push_bytes_fits tx.receiver k.receiver.0) (
      rw (push_bytes_fits tx.public_key k.public_key) (
        rw (push_bytes_fits tx.signature k.signature)
          (rw (push_bytes_fits tx.tx_hash k.tx_hash.0) (concat_all-some (transaction_pieces tx))))))

transaction_magic-Reads : (rest : Text) → take_exact 4 (str "TRT1" ++ rest) ≡ ok (str "TRT1", rest)
unfolding str
transaction_magic-Reads rest = take_exact-Reads (str "TRT1") rest

pub version-Reads : (rest : Text) → take_u8 ((1 ∷ []) ++ rest) ≡ ok (1, rest)
unfolding be_bytes
version-Reads rest = take_number-Reads 1 1 (omega arith) rest

pub parse_transaction_bytes :
    (tx : Transaction) → CanEncode tx → parse_transaction (transaction_bytes tx) ≡ ok (tx, [])
unfolding parse_transaction join_all text_discrete ℕ_discrete str
parse_transaction_bytes tx k =
    rw (transaction_magic-Reads _, parse_transaction, ◌>>=◌, ◌>>◌)
      (rw (version-Reads _, ◌>>=◌, ◌>>◌)
        (rw (take_string-Reads tx.sender k.sender _, ◌>>=◌, ◌>>◌)
          (rw (take_string-Reads tx.receiver k.receiver _, ◌>>=◌, ◌>>◌)
            (rw (take_u64-Reads tx.amount k.amount _, ◌>>=◌, ◌>>◌)
              (rw (take_u64-Reads tx.fee k.fee _, ◌>>=◌, ◌>>◌)
                (rw (take_u64-Reads tx.nonce k.nonce _, ◌>>=◌, ◌>>◌)
                  (rw (take_u64-Reads tx.timestamp_unix k.timestamp_unix _, ◌>>=◌, ◌>>◌)
                    (rw (take_bytes-Reads tx.public_key k.public_key _, ◌>>=◌, ◌>>◌)
                      (rw (take_bytes-Reads tx.signature k.signature _, ◌>>=◌, ◌>>◌)
                        (rw (take_string-Reads tx.tx_hash k.tx_hash _, ◌>>=◌) refl))))))))))

pub decode_transaction_bytes :
    (tx : Transaction) → CanEncode tx → decode_transaction (transaction_bytes tx) ≡ ok tx
unfolding decode_transaction run finish
decode_transaction_bytes tx k = rw (parse_transaction_bytes tx k, run, ◌>>=◌) refl

-- A transaction whose fields are u64 and UTF-8 strings, with lengths that fit a u32, has an
-- encoding, and decoding it returns the transaction.
pub decode_transaction-encode_transaction :
    (tx : Transaction)
    → CanEncode tx
    → (bytes : Text) × (encode_transaction tx ≡ some bytes) × (decode_transaction bytes ≡ ok tx)
decode_transaction-encode_transaction tx k =
    (transaction_bytes tx, encode_transaction_bytes tx k, decode_transaction_bytes tx k)
