-- ===== src/Storage/Files.antt =====
-- Files of blocks, and what the parser finds in them.
use trilogicon_core.Prelude.{
  ℕ, suc, ◌+◌, ◌≡◌, ◌≢◌, ◌≤◌, Text, ok, ⊤, false, some, List, [], ◌∷◌, ◌++◌, append-nil,
  append_assoc, arith, length, take, drop, All, length-append, take-append, drop-append, refl, ap,
  sym, ◌∙◌, is_nil, str, text_discrete, ℕ_discrete, text_eq, nat_eq, if_neg,
}
use trilogicon_core.Block.{Block}
use trilogicon_core.Encoding.Cursor.{be_bytes, from_be}
use trilogicon_core.Encoding.RoundTrip.{from_be-be_bytes}
use trilogicon_core.Encoding.Blocks.{block_bytes}
use trilogicon_core.Storage.Io.{Outcome}
use trilogicon_core.Storage.Frames.{
  ChainFileFormat, legacy, v2, max_frame_bytes, next_frame, frame, chain_file_magic, trailer_bytes,
}
use trilogicon_core.Storage.Reading.{
  IsTorn, CanStore, log, log_longer, parse_prefix-log, take-be_bytes,
}
use trilogicon_core.Storage.{
  detect, repair, read_all_blocks_repairing_tail, read_repairing, parse_prefix,
}

-- The header of a file.
unfoldable pub header : ChainFileFormat → Text
header legacy = []
header v2 = chain_file_magic

-- A file with these blocks, and the bytes behind them. The format of a file without a header shows
-- only in its first frame.
abbrev pub HasFormat : ChainFileFormat → List Block → Type 0
HasFormat legacy bs = 1 ≤ length bs
HasFormat v2 bs = ⊤

abbrev pub file_of : ChainFileFormat → List Block → Text → Text
file_of fmt bs tail = header fmt ++ (log fmt bs ++ tail)

nonempty : (xs : Text) → 1 ≤ length xs → is_nil xs ≡ false
nonempty [] h = absurd (omega (arith, h))
nonempty (x ∷ xs) h = refl

-- The bytes behind a first frame without a header.
first_frame :
    (b : Block) (bs : List Block) (tail : Text)
    → log legacy (b ∷ bs) ++ tail ≡ frame legacy (block_bytes b) ++ (log legacy bs ++ tail)
unfolding log
first_frame b bs tail = append_assoc (frame legacy (block_bytes b)) (log legacy bs) tail

-- Four bytes that would be a length above the maximum.
magic_length : from_be 0 (take 4 chain_file_magic) ≡ 0x5452494C
unfolding chain_file_magic str from_be
magic_length = refl

take-take : (xs : Text) → take 4 (take 8 xs) ≡ take 4 xs
take-take [] = refl
take-take (a ∷ []) = refl
take-take (a ∷ b ∷ []) = refl
take-take (a ∷ b ∷ c ∷ []) = refl
take-take (a ∷ b ∷ c ∷ d ∷ xs) = refl

frame_not_magic :
    (p rest : Text)
    → length p ≤ max_frame_bytes
    → take 8 (frame legacy p ++ rest) ≢ chain_file_magic
unfolding frame trailer_bytes
frame_not_magic p rest fits e = omega (
  arith,
  sym (from_be-be_bytes 4 (length p) (omega (arith, fits)))
      ∙ ap (from_be 0) (
          sym (take-be_bytes 4 (length p) (p ++ [] ++ rest))
          ∙ ap (take 4) (sym (append_assoc (be_bytes 4 (length p)) (p ++ []) rest))
          ∙ sym (take-take (be_bytes 4 (length p) ++ (p ++ []) ++ rest))
          ∙ ap (take 4) e)
      ∙ magic_length,
)

pub file_of_nonempty :
    (fmt : ChainFileFormat) (bs : List Block) (tail : Text)
    → HasFormat fmt bs
    → is_nil (file_of fmt bs tail) ≡ false
unfolding header chain_file_magic str log
file_of_nonempty legacy [] tail h = absurd (omega (arith, h))
file_of_nonempty legacy (b ∷ bs) tail h =
    nonempty (log legacy (b ∷ bs) ++ tail)
      (omega (arith, length-append (log legacy (b ∷ bs)) tail, log_longer legacy (b ∷ bs)))
file_of_nonempty v2 bs tail h = refl

detect_magic : (rest : Text) → detect (chain_file_magic ++ rest) ≡ (v2, length chain_file_magic)
unfolding detect chain_file_magic str text_discrete ℕ_discrete
detect_magic rest = refl

pub detect-file_of :
    (fmt : ChainFileFormat) (bs : List Block) (tail : Text)
    → HasFormat fmt bs
    → All CanStore bs
    → detect (file_of fmt bs tail) ≡ (fmt, length (header fmt))
unfolding detect header
detect-file_of legacy [] tail h k = absurd (omega (arith, h))
detect-file_of legacy (b ∷ bs) tail h k =
    if_neg _
      (λ e.
        frame_not_magic (block_bytes b) (log legacy bs ++ tail) k.0.1
          (ap (take 8) (sym (first_frame b bs tail)) ∙ e))
      (v2, 8) (legacy, 0)
detect-file_of v2 bs tail h k = detect_magic (log v2 bs ++ tail)

read_not_empty :
    (o : Outcome) (contents : Text)
    → is_nil contents ≡ false
    → read_all_blocks_repairing_tail o (some contents) ≡ read_repairing contents (detect contents) o
unfolding read_all_blocks_repairing_tail
read_not_empty o contents n = ground arith

read_parsed :
    (o : Outcome) (contents : Text) (fmt : ChainFileFormat) (offset : ℕ) (found : List Block × ℕ)
    → parse_prefix (suc (length contents)) fmt (drop offset contents) 0 [] ≡ ok found
    → read_repairing contents (fmt, offset) o ≡ repair contents offset found o
unfolding read_repairing
read_parsed o contents fmt offset found p = rw (read_repairing, p) refl

read_at :
    (o : Outcome) (contents : Text) (fmt : ChainFileFormat) (offset : ℕ) (found : List Block × ℕ)
    → detect contents ≡ (fmt, offset)
    → is_nil contents ≡ false
    → parse_prefix (suc (length contents)) fmt (drop offset contents) 0 [] ≡ ok found
    → read_all_blocks_repairing_tail o (some contents) ≡ repair contents offset found o
read_at o contents fmt offset found d n p =
    read_not_empty o contents n
    ∙ ap (λ z. read_repairing contents z o) d
    ∙ read_parsed o contents fmt offset found p

-- The parser finds the blocks and stops at the tail.
pub read_file :
    (o : Outcome) (fmt : ChainFileFormat) (bs : List Block) (tail : Text)
    → HasFormat fmt bs
    → All CanStore bs
    → IsTorn (next_frame fmt tail)
    → read_all_blocks_repairing_tail o (some (file_of fmt bs tail))
      ≡ repair (file_of fmt bs tail) (length (header fmt)) (bs, length (log fmt bs)) o
read_file o fmt bs tail h k t =
    read_at o (file_of fmt bs tail) fmt (length (header fmt)) (bs, length (log fmt bs))
      (detect-file_of fmt bs tail h k) (file_of_nonempty fmt bs tail h)
      (ap (λ z. parse_prefix (suc (length (file_of fmt bs tail))) fmt z 0 [])
          (drop-append (header fmt) (log fmt bs ++ tail))
        ∙ parse_prefix-log bs (suc (length (file_of fmt bs tail))) fmt tail 0 [] k
            (omega (arith, longer)) t
        ∙ ap (λ n. ok (bs, n)) (omega arith))
  where
    longer : length bs ≤ length (file_of fmt bs tail)
    longer = omega (
      arith,
      log_longer fmt bs,
      length-append (header fmt) (log fmt bs ++ tail),
      length-append (log fmt bs) tail,
    )

pub length-file_of :
    (fmt : ChainFileFormat) (bs : List Block) (tail : Text)
    → length (file_of fmt bs tail) ≡ length (header fmt) + length (log fmt bs) + length tail
length-file_of fmt bs tail =
    omega (arith, length-append (header fmt) (log fmt bs ++ tail), length-append (log fmt bs) tail)

file_of_pieces :
    (fmt : ChainFileFormat) (bs : List Block) (tail : Text)
    → file_of fmt bs tail ≡ (header fmt ++ log fmt bs) ++ tail
file_of_pieces fmt bs tail = sym (append_assoc (header fmt) (log fmt bs) tail)

pub take-file_of :
    (fmt : ChainFileFormat) (bs : List Block) (tail : Text)
    → take (length (header fmt) + length (log fmt bs)) (file_of fmt bs tail) ≡ file_of fmt bs []
take-file_of fmt bs tail =
    ap (take (length (header fmt) + length (log fmt bs))) (file_of_pieces fmt bs tail)
    ∙ ap (λ n. take n ((header fmt ++ log fmt bs) ++ tail))
        (sym (length-append (header fmt) (log fmt bs)))
    ∙ take-append (header fmt ++ log fmt bs) tail
    ∙ sym (append-nil (header fmt ++ log fmt bs))
    ∙ sym (file_of_pieces fmt bs [])

pub drop-file_of :
    (fmt : ChainFileFormat) (bs : List Block) (tail : Text)
    → drop (length (header fmt) + length (log fmt bs)) (file_of fmt bs tail) ≡ tail
drop-file_of fmt bs tail =
    ap (drop (length (header fmt) + length (log fmt bs))) (file_of_pieces fmt bs tail)
    ∙ ap (λ n. drop n ((header fmt ++ log fmt bs) ++ tail))
        (sym (length-append (header fmt) (log fmt bs)))
    ∙ drop-append (header fmt ++ log fmt bs) tail
