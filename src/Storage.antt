-- ===== src/Storage.antt =====
-- node/src/storage.rs: the append-only file of blocks. The file is the list of its bytes, and each
-- write takes what the disk answers as an argument.
pub mod Io
pub mod Frames
pub mod Store
pub mod Reading
pub mod Torn
pub mod Files
pub mod Recovery
pub mod Writes
pub mod Holds
pub mod Recovered
pub mod Restart
use trilogicon_core.Prelude.{
  ℕ, zero, suc, ◌+◌, Text, Result, ok, err, Option, none, some, Bool, true, false, List, [], ◌∷◌,
  ◌++◌, str, length, take, drop, ltb, leb, is_nil, ite, ◌=?◌, text_eq, nat_eq, map_err,
  if◌then◌else◌, ◌>>=◌, ◌>>◌, fail_if, ⊤,
}
use trilogicon_core.Action.{Action}
use trilogicon_core.Errors.{ProtocolError, genesis_error}
use trilogicon_core.Crypto.{Primitives}
use trilogicon_core.Genesis.{Genesis}
use trilogicon_core.Block.{Block}
use trilogicon_core.Blockchain.{Blockchain, new_chain, append_block}
use trilogicon_core.Encoding.{decode_block}
use Io.{Outcome, fine, fails}
use Frames.{
  ChainFileFormat, legacy, v2, Frame, ended, cut_prefix, cut_body, refused, whole, next_frame,
  trailer, chain_file_magic,
}

pub data StorageError : Type 0 where
  io : StorageError
  decode : Text → StorageError
  replay : ProtocolError → StorageError
  genesis : Text → StorageError

-- `parse_legacy_block_frames_prefix` and `parse_v2_block_frames_prefix`: the complete frames and
-- where they end. Each round reads four bytes at least, which the fuel counts.
unfoldable pub parse_prefix :
    ℕ → ChainFileFormat → Text → ℕ → List Block → Result StorageError (List Block × ℕ)
parse_prefix zero fmt bs pos out = ok (out, pos)
parse_prefix (suc fuel) fmt bs pos out = elim (next_frame fmt bs) [
  | ended ↦ ok (out, pos)
  | cut_prefix ↦ ok (out, pos)
  | cut_body ↦ ok (out, pos)
  | refused e ↦ err (decode e)
  | whole payload rest ↦ do
    block ← map_err decode (decode_block payload)
    parse_prefix fuel fmt rest (pos + (4 + (length payload + trailer fmt))) (out ++ block ∷ [])
]

abbrev cut_prefix_text : ChainFileFormat → Text
cut_prefix_text legacy = str "truncated frame length"
cut_prefix_text v2 = str "truncated frame length (v2)"

abbrev cut_body_text : ChainFileFormat → Text
cut_body_text legacy = str "truncated frame body"
cut_body_text v2 = str "truncated v2 frame (crc or body)"

-- `parse_legacy_block_frames` and `parse_v2_block_frames`: nothing but complete frames.
unfoldable pub parse_all :
    ℕ → ChainFileFormat → Text → List Block → Result StorageError (List Block)
parse_all zero fmt bs out = ok out
parse_all (suc fuel) fmt bs out = elim (next_frame fmt bs) [
  | ended ↦ ok out
  | cut_prefix ↦ err (decode (cut_prefix_text fmt))
  | cut_body ↦ err (decode (cut_body_text fmt))
  | refused e ↦ err (decode e)
  | whole payload rest ↦ do
    block ← map_err decode (decode_block payload)
    parse_all fuel fmt rest (out ++ block ∷ [])
]

-- The format of a file that is not empty, by its first eight bytes, and how many of them are header.
unfoldable pub detect : Text → ChainFileFormat × ℕ
detect contents = ite (take 8 contents =? chain_file_magic) (v2, 8) (legacy, 0)

-- `BlockStore::read_all_blocks`. A missing file is none.
unfoldable pub read_all_blocks : Option Text → Result StorageError (List Block)
read_all_blocks none = ok []
read_all_blocks (some contents) =
    let (fmt, offset) = detect contents in
    if is_nil contents
    then ok []
    else parse_all (suc (length contents)) fmt (drop offset contents) []

-- What `read_all_blocks_repairing_tail` does once the complete frames are known: the blocks, and the
-- file that it leaves. The last argument is how the write goes.
unfoldable pub repair_tail :
    Text → ℕ → List Block → Outcome → Result StorageError (List Block × Bool) × Option Text
repair_tail contents valid_end blocks o =
    if leb (length contents) valid_end
    then (ok (blocks, false), some contents)
    else if leb 4 (length (drop valid_end contents))
    then (
      err (decode (str "chain.blocks truncated after last complete block frame")),
      some contents,
    )
    else elim o [
      | fine ↦ (ok (blocks, true), some (take valid_end contents))
      | fails n ↦ (err io, some (take n (take valid_end contents)))
    ]

-- The same behind the test for a file without a complete frame, which comes first.
unfoldable pub repair :
    Text → ℕ → List Block × ℕ → Outcome → Result StorageError (List Block × Bool) × Option Text
repair contents offset (blocks, consumed) o =
    if ltb (offset + consumed) (length contents)
    then if is_nil blocks
      then ite (consumed =? 0)
          (
            err (decode (str "chain.blocks corrupt or truncated (no complete block frame)")),
            some contents,
          )
          (repair_tail contents (offset + consumed) blocks o)
      else repair_tail contents (offset + consumed) blocks o
    else repair_tail contents (offset + consumed) blocks o

-- The part of it behind the detection of the format, on a file that is not empty.
unfoldable pub read_repairing :
    Text → ChainFileFormat × ℕ → Outcome → Result StorageError (List Block × Bool) × Option Text
unfolding repair repair_tail
read_repairing contents (fmt, offset) o =
    elim (parse_prefix (suc (length contents)) fmt (drop offset contents) 0 []) [
      | err e ↦ (err e, some contents)
      | ok r ↦ repair contents offset r o
    ]

-- `BlockStore::read_all_blocks_repairing_tail`, with the file that it leaves.
unfoldable pub read_all_blocks_repairing_tail :
    Outcome → Option Text → Result StorageError (List Block × Bool) × Option Text
unfolding read_repairing
read_all_blocks_repairing_tail o none = (ok ([], false), none)
read_all_blocks_repairing_tail o (some contents) =
    if is_nil contents
    then (ok ([], false), some contents)
    else read_repairing contents (detect contents) o

abbrev load_error : ProtocolError → StorageError
load_error (genesis_error s) = genesis s
load_error e = replay e

module _ ⦃c : Primitives⦄ where
  -- `chain_from_genesis`
  unfoldable pub chain_from_genesis : Genesis → Result StorageError Blockchain
  chain_from_genesis g = map_err load_error (new_chain g)

  -- The loop of `load_blockchain_from_disk`.
  unfoldable pub append_all : List Block → Action Blockchain ⊤
  append_all [] chain = (ok tt, chain)
  append_all (b ∷ bs) chain =
      let (r, chain') = append_block b chain in
      elim r [ ok _ ↦ append_all bs chain' | err e ↦ (err e, chain') ]

  unfoldable pub replay_blocks :
      Genesis → List Block × Bool → Result StorageError (Blockchain × Bool)
  replay_blocks g (blocks, repaired) = do
    chain ← chain_from_genesis g
    let run = append_all blocks chain
    map_err replay run.0
    ok (run.1, repaired)

  -- `load_blockchain_from_disk`, with the file that it leaves.
  unfoldable pub load_blockchain_from_disk :
      Genesis → Outcome → Option Text → Result StorageError (Blockchain × Bool) × Option Text
  unfolding replay_blocks
  load_blockchain_from_disk g o file =
      let (r, file') = read_all_blocks_repairing_tail o file in
      (elim r [ ok x ↦ replay_blocks g x | err e ↦ err e ], file')
