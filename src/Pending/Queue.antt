-- ===== src/Pending/Queue.antt =====
-- Queues one behind the other, and the encoding of a queue.
use trilogicon_core.Prelude.{
  ◌≡◌, ◌≤◌, Text, ok, List, [], ◌∷◌, ◌++◌, arith, length, All, append_assoc, refl, sym, ap, subst,
  ◌∙◌,
}
use trilogicon_core.Transaction.{Transaction}
use trilogicon_core.Encoding.Cursor.{be_bytes}
use trilogicon_core.Encoding.RoundTrip.{
  CanEncode, transaction_bytes, encode_transaction_bytes, decode_transaction_bytes, length-be_bytes,
  from_be-be_bytes,
}
use trilogicon_core.Encoding.Consumption.{IsByte}
use trilogicon_core.Encoding.Decoded.{decode_transaction-CanEncode}
use trilogicon_core.Pending.{max_pending_tx_frame, encode_pending_payload}
use trilogicon_core.Pending.Parsing.{IsFrame, IsQueue}

All-split : (xs ys : Text) → All IsByte (xs ++ ys) → All IsByte xs × All IsByte ys
All-split [] ys k = (tt, k)
All-split (x ∷ xs) ys k = let r = All-split xs ys k.1 in ((k.0, r.0), r.1)

-- A transaction whose frame the reader takes.
abbrev pub IsQueueable : Transaction → Type 0
IsQueueable tx = CanEncode tx × (length (transaction_bytes tx) ≤ max_pending_tx_frame)

abbrev pub frame_bytes : Transaction → Text
frame_bytes tx = be_bytes 4 (length (transaction_bytes tx)) ++ transaction_bytes tx

pub frame_bytes-IsFrame :
    (tx : Transaction) (rest : Text) → IsQueueable tx → IsFrame (frame_bytes tx ++ rest) tx rest
frame_bytes-IsFrame tx rest (k, fits) = record {
  prefix = be_bytes 4 (length (transaction_bytes tx));
  payload = transaction_bytes tx;
  split = append_assoc (be_bytes 4 (length (transaction_bytes tx))) (transaction_bytes tx) rest;
  four = length-be_bytes 4 (length (transaction_bytes tx));
  counts = from_be-be_bytes 4 (length (transaction_bytes tx)) (omega arith);
  fits = fits;
  decodes = decode_transaction_bytes tx k;
}

IsFrame-append :
    (bytes rest more : Text) (tx : Transaction)
    → IsFrame bytes tx rest
    → IsFrame (bytes ++ more) tx (rest ++ more)
IsFrame-append bytes rest more tx f = record {
  prefix = f.prefix;
  payload = f.payload;
  split =
      ap (λ z. z ++ more) f.split
      ∙ append_assoc f.prefix (f.payload ++ rest) more
      ∙ ap (λ z. f.prefix ++ z) (append_assoc f.payload rest more);
  four = f.four;
  counts = f.counts;
  fits = f.fits;
  decodes = f.decodes;
}

-- Two queues one behind the other are a queue.
pub IsQueue-append :
    (xs ys : List Transaction) (bytes more : Text)
    → IsQueue bytes xs
    → IsQueue more ys
    → IsQueue (bytes ++ more) (xs ++ ys)
IsQueue-append [] ys bytes more q r = subst (λ z. IsQueue (z ++ more) ys) (sym q) r
IsQueue-append (x ∷ xs) ys bytes more (rest, f, q) r =
    (rest ++ more, IsFrame-append bytes rest more x f, IsQueue-append xs ys rest more q r)

-- The tail of a queue, behind some of its transactions.
pub IsQueue-tail :
    (xs ys : List Transaction) (bytes : Text)
    → All IsByte bytes
    → IsQueue bytes (xs ++ ys)
    → All IsQueueable ys
IsQueue-tail [] [] bytes k q = tt
IsQueue-tail [] (y ∷ ys) bytes k (rest, f, q) =
    let parts = subst (All IsByte) f.split k in
    let (kp, kr) = All-split f.payload rest (All-split f.prefix (f.payload ++ rest) parts).1 in
    let (can, same) = decode_transaction-CanEncode f.payload y kp f.decodes in
    ((can, omega (arith, same, f.fits)), IsQueue-tail [] ys rest kr q)
IsQueue-tail (x ∷ xs) ys bytes k (rest, f, q) =
    let parts = subst (All IsByte) f.split k in
    IsQueue-tail xs ys rest
      (All-split f.payload rest (All-split f.prefix (f.payload ++ rest) parts).1).1 q

-- The bytes of a queue.
pub encode_pending_payload-IsQueue :
    (txs : List Transaction)
    → All IsQueueable txs
    → (bytes : Text) × (encode_pending_payload txs ≡ ok bytes) × IsQueue bytes txs
unfolding encode_pending_payload
encode_pending_payload-IsQueue [] k = ([], refl, refl)
encode_pending_payload-IsQueue (tx ∷ txs) k =
    let (bytes, e, q) = encode_pending_payload-IsQueue txs k.1 in
    (
      frame_bytes tx ++ bytes,
      ground (
        arith,
        encode_transaction_bytes tx k.0.0,
        k.0.1,
        e,
        append_assoc (be_bytes 4 (length (transaction_bytes tx))) (transaction_bytes tx) bytes,
      ),
      (bytes, frame_bytes-IsFrame tx bytes k.0, q),
    )
