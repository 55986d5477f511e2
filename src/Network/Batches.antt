-- ===== src/Network/Batches.antt =====
-- A batch of blocks is read back as it was written.
use trilogicon_core.Prelude.{
  ℕ, zero, suc, ◌≡◌, ◌≤◌, Text, ok, some, List, [], ◌∷◌, ◌++◌, arith, length, take, All, refl, ap,
  sym, ◌∙◌, length-append, take-append, drop-append, append_assoc, append-nil,
}
use trilogicon_core.Block.{Block}
use trilogicon_core.Encoding.{encode_block, decode_block}
use trilogicon_core.Encoding.Cursor.{be_bytes}
use trilogicon_core.Encoding.RoundTrip.{length-be_bytes, from_be-be_bytes}
use trilogicon_core.Encoding.Blocks.{
  CanEncodeBlock, block_bytes, encode_block_bytes, decode_block_bytes,
}
use trilogicon_core.Storage.Reading.{take-be_bytes, drop-be_bytes}
use trilogicon_core.Network.Wire.{
  max_wire_frame_bytes, max_blocks_per_batch, op_blocks, encode_entries,
  wire_encode_blocks_response, parse_entries, parse_op_blocks_body, wire_decode_blocks_response,
}

abbrev entry : Block → Text
entry b = be_bytes 4 (length (block_bytes b)) ++ block_bytes b

encodes_entry :
    (b : Block) (p : Text) (bs : List Block) (out bytes : Text)
    → encode_block b ≡ some p
    → encode_entries (b ∷ bs) out ≡ ok bytes
    → (length p ≤ max_wire_frame_bytes)
      × (encode_entries bs (out ++ (be_bytes 4 (length p) ++ p)) ≡ ok bytes)
unfolding encode_entries
encodes_entry b p bs out bytes k e = (
  ground (
    arith,
    k,
    e,
    length-append out (be_bytes 4 (length p) ++ p),
    length-append (be_bytes 4 (length p)) p,
  ),
  ground (arith, k, e),
)

parses_entry :
    (b : Block) (p : Text) (n : ℕ) (rest : Text) (out : List Block)
    → decode_block p ≡ ok b
    → length p ≤ max_wire_frame_bytes
    → parse_entries (suc n) (be_bytes 4 (length p) ++ (p ++ rest)) out
      ≡ parse_entries n rest (out ++ b ∷ [])
unfolding parse_entries
parses_entry b p n rest out d fits =
    rw
      (
        parse_entries,
        take-be_bytes 4 (length p) (p ++ rest),
        drop-be_bytes 4 (length p) (p ++ rest),
        from_be-be_bytes 4 (length p) (omega (arith, fits)),
        take-append p rest,
        drop-append p rest,
        d,
      )
      (ground (
        arith,
        fits,
        length-append (be_bytes 4 (length p)) (p ++ rest),
        length-append p rest,
        length-be_bytes 4 (length p),
      ))

-- What the encoder appends is read back, with as many rounds as there are blocks.
entries_read :
    (bs : List Block) (out bytes : Text)
    → All CanEncodeBlock bs
    → encode_entries bs out ≡ ok bytes
    → (body : Text) × (bytes ≡ out ++ body)
      × ((found : List Block) → parse_entries (length bs) body found ≡ ok (found ++ bs))
unfolding encode_entries parse_entries
entries_read [] out bytes k e =
    ([], sym same ∙ sym (append-nil out), λ found. rw (append-nil found) refl)
  where
    same : out ≡ bytes
    same = ground arith
entries_read (b ∷ bs) out bytes k e =
    let (fits, next) = encodes_entry b (block_bytes b) bs out bytes (encode_block_bytes b k.0) e in
    let (body, whole, reads) = entries_read bs (out ++ entry b) bytes k.1 next in
    (
      entry b ++ body,
      whole ∙ append_assoc out (entry b) body,
      λ found.
          ap (λ z. parse_entries (suc (length bs)) z found)
            (append_assoc (be_bytes 4 (length (block_bytes b))) (block_bytes b) body)
          ∙ parses_entry b (block_bytes b) (length bs) body found (decode_block_bytes b k.0) fits
          ∙ reads (found ++ b ∷ [])
          ∙ ap ok (append_assoc found (b ∷ []) bs),
    )

All-take : (n : ℕ) (bs : List Block) → All CanEncodeBlock bs → All CanEncodeBlock (take n bs)
All-take zero bs k = tt
All-take (suc n) [] k = tt
All-take (suc n) (b ∷ bs) k = (k.0, All-take n bs k.1)

length-take_max : (n : ℕ) (bs : List Block) → length (take n bs) ≤ n
length-take_max zero bs = omega arith
length-take_max (suc n) [] = omega arith
length-take_max (suc n) (b ∷ bs) = omega (arith, length-take_max n bs)

body_read :
    (n : ℕ) (body : Text) (bs : List Block)
    → n ≤ max_blocks_per_batch
    → parse_entries n body [] ≡ ok bs
    → parse_op_blocks_body (be_bytes 4 n ++ body) max_blocks_per_batch ≡ ok bs
unfolding parse_op_blocks_body
body_read n body bs few e =
    rw
      (
        parse_op_blocks_body,
        take-be_bytes 4 n body,
        drop-be_bytes 4 n body,
        from_be-be_bytes 4 n (omega (arith, few)),
      )
      (ground (arith, few, e, length-append (be_bytes 4 n) body, length-be_bytes 4 n))

-- Whatever the server could encode of its blocks, the client decodes to the first 64 of them, in order.
pub wire_decode_blocks_response-wire_encode_blocks_response :
    (bs : List Block) (bytes : Text)
    → All CanEncodeBlock bs
    → wire_encode_blocks_response bs ≡ ok bytes
    → wire_decode_blocks_response bytes ≡ ok (take max_blocks_per_batch bs)
unfolding wire_encode_blocks_response wire_decode_blocks_response
wire_decode_blocks_response-wire_encode_blocks_response bs bytes k e =
    let batch = take max_blocks_per_batch bs in
    let (body, whole, reads) =
      entries_read batch (op_blocks ∷ be_bytes 4 (length batch)) bytes
        (All-take max_blocks_per_batch bs k) e in
    ap wire_decode_blocks_response whole
    ∙ body_read (length batch) body batch (length-take_max max_blocks_per_batch bs) (reads [])
