-- ===== src/Storage/Frames.antt =====
-- node/src/storage.rs: the frames of the block file and their checksum.
use Prim.Native.Nat.{bit_xor}
use trilogicon_core.Prelude.{
  ℕ, zero, suc, ◌+◌, ◌-◌, ◌/◌, ◌%◌, Text, [], ◌∷◌, ◌++◌, str, length, take, drop, ltb, ◌==◌,
  if◌then◌else◌,
}
use trilogicon_core.Encoding.Cursor.{be_bytes, from_be, u32_max}

pub data ChainFileFormat : Type 0 where
  legacy : ChainFileFormat
  v2 : ChainFileFormat

-- `MAX_FRAME_BYTES`
abbrev pub max_frame_bytes : ℕ
max_frame_bytes = 67108864

-- `CHAIN_FILE_MAGIC_V2`
unfoldable pub chain_file_magic : Text
chain_file_magic = str "TRILBC01"

-- The inner loop of `crc32_ieee`, with the rounds left.
crc_bits : ℕ → ℕ → ℕ
crc_bits zero c = c
crc_bits (suc rounds) c = crc_bits rounds (if c % 2 == 1 then bit_xor (c / 2) 0xEDB88320 else c / 2)

crc_bytes : Text → ℕ → ℕ
unfolding crc_bits
crc_bytes [] c = c
crc_bytes (b ∷ bs) c = crc_bytes bs (crc_bits 8 (bit_xor c b))

-- `crc32_ieee`. On a u32 the complement is the difference to the maximum.
unfoldable pub crc32_ieee : Text → ℕ
unfolding crc_bytes
crc32_ieee payload = u32_max - crc_bytes payload u32_max

-- What stands at the front of the bytes: nothing, less than a length, a length with less than the
-- frame behind it, a frame that is refused, or a payload with the bytes behind its frame.
pub data Frame : Type 0 where
  ended : Frame
  cut_prefix : Frame
  cut_body : Frame
  refused : Text → Frame
  whole : Text → Text → Frame

-- The bytes of the checksum.
abbrev pub trailer : ChainFileFormat → ℕ
trailer legacy = 0
trailer v2 = 4

abbrev too_large_text : ChainFileFormat → Text
too_large_text legacy = str "frame exceeds max size"
too_large_text v2 = str "frame exceeds max size (v2)"

-- The comparison of the stored checksum. The message has no numbers.
unfoldable pub check_crc : ChainFileFormat → Text → Text → Frame
check_crc legacy payload rest = whole payload rest
check_crc v2 payload rest =
    if from_be 0 (take 4 rest) == crc32_ieee payload
    then whole payload (drop 4 rest)
    else refused (str "v2 frame crc mismatch")

unfoldable pub frame_body : ChainFileFormat → ℕ → Text → Frame
frame_body fmt len bs =
    if ltb max_frame_bytes len
    then refused (too_large_text fmt)
    else if ltb (length bs) (len + trailer fmt)
    then cut_body
    else check_crc fmt (take len bs) (drop len bs)

-- One round of the loops that read frames, up to the decoding of the payload. The sums of positions
-- stay below 2^64, since the bytes are in memory.
unfoldable pub next_frame : ChainFileFormat → Text → Frame
unfolding frame_body check_crc
next_frame fmt [] = ended
next_frame fmt (b ∷ bs) =
    if ltb (length (b ∷ bs)) 4
    then cut_prefix
    else frame_body fmt (from_be 0 (take 4 (b ∷ bs))) (drop 4 (b ∷ bs))

unfoldable pub trailer_bytes : ChainFileFormat → Text → Text
trailer_bytes legacy payload = []
trailer_bytes v2 payload = be_bytes 4 (crc32_ieee payload)

-- The buffer that `append_payload` writes.
unfoldable pub frame : ChainFileFormat → Text → Text
frame fmt payload = be_bytes 4 (length payload) ++ (payload ++ trailer_bytes fmt payload)
