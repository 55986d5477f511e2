-- ===== src/Storage/Reading.antt =====
-- Reading back what was written, torn tails included.
use trilogicon_core.Prelude.{
  ℕ, zero, suc, ◌+◌, ◌≡◌, ◌≤◌, ◌<◌, ◌⊎◌, Text, ok, List, [], ◌∷◌, ◌++◌, arith, length, take, drop,
  All, length-append, take-append, drop-append, append-nil, append_assoc, refl, ap, sym, subst, ◌∙◌,
}
use trilogicon_core.Block.{Block}
use trilogicon_core.Encoding.Cursor.{be_bytes, from_be, u32_max}
use trilogicon_core.Encoding.RoundTrip.{length-be_bytes, from_be-be_bytes}
use trilogicon_core.Encoding.Blocks.{CanEncodeBlock, block_bytes, decode_block_bytes}
use trilogicon_core.Storage.{parse_prefix, parse_all}
use trilogicon_core.Storage.Frames.{
  ChainFileFormat, legacy, v2, max_frame_bytes, Frame, ended, cut_prefix, cut_body, whole,
  next_frame, frame_body, check_crc, trailer, trailer_bytes, frame, crc32_ieee,
}

pub length-trailer_bytes :
    (fmt : ChainFileFormat) (p : Text) → length (trailer_bytes fmt p) ≡ trailer fmt
unfolding trailer_bytes
length-trailer_bytes legacy p = refl
length-trailer_bytes v2 p = length-be_bytes 4 (crc32_ieee p)

crc32_fits : (p : Text) → crc32_ieee p ≤ u32_max
unfolding crc32_ieee
crc32_fits p = omega arith

pub take-be_bytes :
    (width v : ℕ) (rest : Text) → take width (be_bytes width v ++ rest) ≡ be_bytes width v
take-be_bytes width v rest =
    subst (λ n. take n (be_bytes width v ++ rest) ≡ be_bytes width v) (length-be_bytes width v)
      (take-append (be_bytes width v) rest)

pub drop-be_bytes : (width v : ℕ) (rest : Text) → drop width (be_bytes width v ++ rest) ≡ rest
drop-be_bytes width v rest =
    subst (λ n. drop n (be_bytes width v ++ rest) ≡ rest) (length-be_bytes width v)
      (drop-append (be_bytes width v) rest)

check_crc_accepts :
    (fmt : ChainFileFormat) (p rest : Text)
    → check_crc fmt p (trailer_bytes fmt p ++ rest) ≡ whole p rest
unfolding check_crc trailer_bytes
check_crc_accepts legacy p rest = refl
check_crc_accepts v2 p rest = ground (
  arith,
  take-be_bytes 4 (crc32_ieee p) rest,
  drop-be_bytes 4 (crc32_ieee p) rest,
  from_be-be_bytes 4 (crc32_ieee p) (omega (arith, crc32_fits p)),
)

pub length-frame :
    (fmt : ChainFileFormat) (p : Text) → length (frame fmt p) ≡ 4 + (length p + trailer fmt)
unfolding frame
length-frame fmt p = omega (
  arith,
  length-append (be_bytes 4 (length p)) (p ++ trailer_bytes fmt p),
  length-append p (trailer_bytes fmt p),
  length-be_bytes 4 (length p),
  length-trailer_bytes fmt p,
)

frame_body_reads :
    (fmt : ChainFileFormat) (p rest : Text)
    → length p ≤ max_frame_bytes
    → frame_body fmt (length p) (p ++ (trailer_bytes fmt p ++ rest)) ≡ whole p rest
unfolding frame_body
frame_body_reads fmt p rest fits = ground (
  arith,
  length-append p (trailer_bytes fmt p ++ rest),
  length-append (trailer_bytes fmt p) rest,
  length-trailer_bytes fmt p,
  take-append p (trailer_bytes fmt p ++ rest),
  drop-append p (trailer_bytes fmt p ++ rest),
  check_crc_accepts fmt p rest,
)

next_frame_long :
    (fmt : ChainFileFormat) (bs : Text)
    → 4 ≤ length bs
    → next_frame fmt bs ≡ frame_body fmt (from_be 0 (take 4 bs)) (drop 4 bs)
unfolding next_frame
next_frame_long fmt [] h = absurd (omega arith)
next_frame_long fmt (b ∷ bs) h = ground arith

-- The length in front is read back.
pub next_frame_prefix :
    (fmt : ChainFileFormat) (n : ℕ) (bs : Text)
    → n ≤ max_frame_bytes
    → next_frame fmt (be_bytes 4 n ++ bs) ≡ frame_body fmt n bs
next_frame_prefix fmt n bs h =
    next_frame_long fmt (be_bytes 4 n ++ bs)
      (omega (arith, length-append (be_bytes 4 n) bs, length-be_bytes 4 n))
    ∙ rw (take-be_bytes 4 n bs)
        (rw (drop-be_bytes 4 n bs) (rw (from_be-be_bytes 4 n (omega arith)) refl))

pub next_frame-frame :
    (fmt : ChainFileFormat) (p rest : Text)
    → length p ≤ max_frame_bytes
    → next_frame fmt (frame fmt p ++ rest) ≡ whole p rest
unfolding frame
next_frame-frame fmt p rest fits =
    ap (next_frame fmt) (
      append_assoc (be_bytes 4 (length p)) (p ++ trailer_bytes fmt p) rest
      ∙ ap (λ z. be_bytes 4 (length p) ++ z) (append_assoc p (trailer_bytes fmt p) rest))
    ∙ next_frame_prefix fmt (length p) (p ++ (trailer_bytes fmt p ++ rest)) fits
    ∙ frame_body_reads fmt p rest fits

-- A block that a frame can hold.
abbrev pub CanStore : Block → Type 0
CanStore b = CanEncodeBlock b × (length (block_bytes b) ≤ max_frame_bytes)

-- The frames of the blocks, one behind the other.
unfoldable pub log : ChainFileFormat → List Block → Text
log fmt [] = []
log fmt (b ∷ bs) = frame fmt (block_bytes b) ++ log fmt bs

pub log-append :
    (fmt : ChainFileFormat) (bs cs : List Block) → log fmt (bs ++ cs) ≡ log fmt bs ++ log fmt cs
unfolding log
log-append fmt [] cs = refl
log-append fmt (b ∷ bs) cs =
    rw (log-append fmt bs cs)
      (sym (append_assoc (frame fmt (block_bytes b)) (log fmt bs) (log fmt cs)))

-- Each block takes more than a byte.
pub log_longer : (fmt : ChainFileFormat) (bs : List Block) → length bs ≤ length (log fmt bs)
unfolding log
log_longer fmt [] = omega arith
log_longer fmt (b ∷ bs) = omega (
  arith,
  length-append (frame fmt (block_bytes b)) (log fmt bs),
  length-frame fmt (block_bytes b),
  log_longer fmt bs,
)

-- What may stand behind the last complete frame without being one.
abbrev pub IsTorn : Frame → Type 0
IsTorn f = (f ≡ ended) ⊎ (f ≡ cut_prefix) ⊎ (f ≡ cut_body)

torn_stops :
    (fuel : ℕ) (fmt : ChainFileFormat) (tail : Text) (pos : ℕ) (out : List Block)
    → IsTorn (next_frame fmt tail)
    → parse_prefix fuel fmt tail pos out ≡ ok (out, pos)
unfolding parse_prefix
torn_stops zero fmt tail pos out t = refl
torn_stops (suc fuel) fmt tail pos out t = ground arith

one_more :
    (fuel : ℕ) (fmt : ChainFileFormat) (b : Block) (rest : Text) (pos : ℕ) (out : List Block)
    → CanStore b
    → parse_prefix (suc fuel) fmt (frame fmt (block_bytes b) ++ rest) pos out
      ≡ parse_prefix fuel fmt rest (pos + length (frame fmt (block_bytes b))) (out ++ b ∷ [])
unfolding parse_prefix
one_more fuel fmt b rest pos out k =
    rw (length-frame fmt (block_bytes b))
      (ground (arith, next_frame-frame fmt (block_bytes b) rest k.1, decode_block_bytes b k.0))

pub parse_prefix-log :
    (bs : List Block) (fuel : ℕ) (fmt : ChainFileFormat) (tail : Text) (pos : ℕ) (out : List Block)
    → All CanStore bs
    → length bs ≤ fuel
    → IsTorn (next_frame fmt tail)
    → parse_prefix fuel fmt (log fmt bs ++ tail) pos out ≡ ok (out ++ bs, pos + length (log fmt bs))
unfolding log
parse_prefix-log [] fuel fmt tail pos out k n t =
    torn_stops fuel fmt tail pos out t ∙ rw (append-nil out) (ap (λ z. ok (out, z)) (omega arith))
parse_prefix-log (b ∷ bs) zero fmt tail pos out k n t = absurd (omega (arith, n))
parse_prefix-log (b ∷ bs) (suc fuel) fmt tail pos out k n t =
    ap (λ z. parse_prefix (suc fuel) fmt z pos out)
      (append_assoc (frame fmt (block_bytes b)) (log fmt bs) tail)
    ∙ one_more fuel fmt b (log fmt bs ++ tail) pos out k.0
    ∙ parse_prefix-log bs fuel fmt tail (pos + length (frame fmt (block_bytes b))) (out ++ b ∷ [])
        k.1 (omega (arith, n)) t
    ∙ ap ok (λ i. (append_assoc out (b ∷ []) bs i, ends i))
  where
    ends :
        pos + length (frame fmt (block_bytes b)) + length (log fmt bs)
        ≡ pos + length (frame fmt (block_bytes b) ++ log fmt bs)
    ends = omega (arith, length-append (frame fmt (block_bytes b)) (log fmt bs))

pub parse_all-log :
    (bs : List Block) (fuel : ℕ) (fmt : ChainFileFormat) (out : List Block)
    → All CanStore bs
    → length bs < fuel
    → parse_all fuel fmt (log fmt bs) out ≡ ok (out ++ bs)
unfolding log parse_all next_frame
parse_all-log bs zero fmt out k n = absurd (omega (arith, n))
parse_all-log [] (suc fuel) fmt out k n = rw (append-nil out) refl
parse_all-log (b ∷ bs) (suc fuel) fmt out k n = ground (
  arith,
  next_frame-frame fmt (block_bytes b) (log fmt bs) k.0.1,
  decode_block_bytes b k.0.0,
  parse_all-log bs fuel fmt (out ++ b ∷ []) k.1 (omega (arith, n)),
  append_assoc out (b ∷ []) bs,
)
