-- ===== src/Storage/Store.antt =====
-- node/src/storage.rs: `BlockStore`, the writing side.
use trilogicon_core.Prelude.{
  Text, Result, ok, err, ⊤, none, some, Bool, true, false, ◌++◌, length, take, ltb, ite, ◌=?◌,
  text_eq, if◌then◌else◌, is_nil,
}
use trilogicon_core.Block.{Block}
use trilogicon_core.Encoding.{encode_block}
use trilogicon_core.Encoding.Cursor.{u32_max}
use trilogicon_core.Storage.Io.{
  Outcome, fine, fails, IoError, fail_closed, invalid_input, invalid_file, os, panicked, IoAction,
  ◌>>◌,
}
use trilogicon_core.Storage.Frames.{
  ChainFileFormat, legacy, v2, max_frame_bytes, chain_file_magic, frame,
}

-- `struct BlockStore`. The field `disk` is the content of the file.
pub record BlockStore : Type 0 where
  pub disk : Text
  pub poisoned : Bool
  pub format : ChainFileFormat
  pub v2_magic_on_disk : Bool

abbrev store_of : Text → ChainFileFormat → Bool → BlockStore
store_of contents fmt magic = record {
  disk = contents;
  poisoned = false;
  format = fmt;
  v2_magic_on_disk = magic;
}

-- `BlockStore::open_append`, on the content of the file, which is empty if there was none.
unfoldable pub open_append : Text → Result IoError BlockStore
open_append contents =
    if is_nil contents
    then ok (store_of contents v2 false)
    else if ltb (length contents) 8
    then err invalid_file
    else ok (
        ite (take 8 contents =? chain_file_magic) (store_of contents v2 true)
          (store_of contents legacy false))

-- How the calls of one append go: the magic and its sync, the frame and its sync.
pub record Faults : Type 0 where
  pub magic : Outcome
  pub magic_sync : Outcome
  pub frame_write : Outcome
  pub frame_sync : Outcome

unfoldable pub write_all : Outcome → Text → IoAction BlockStore ⊤
write_all fine bytes s = (ok tt, record s { disk = s.disk ++ bytes })
write_all (fails n) bytes s = (err os, record s { disk = s.disk ++ take n bytes })

unfoldable pub sync_all : Outcome → IoAction BlockStore ⊤
sync_all fine s = (ok tt, s)
sync_all (fails n) s = (err os, s)

abbrev pub note_magic : IoAction BlockStore ⊤
note_magic s = (ok tt, record s { v2_magic_on_disk = true })

-- The header, which only a fresh file still needs.
unfoldable pub write_header : Faults → ChainFileFormat → Bool → IoAction BlockStore ⊤
write_header f legacy magic_on_disk s = (ok tt, s)
write_header f v2 true s = (ok tt, s)
write_header f v2 false s =
    (do write_all f.magic chain_file_magic; sync_all f.magic_sync; note_magic) s

unfoldable pub write_magic : Faults → IoAction BlockStore ⊤
write_magic f s = write_header f s.format s.v2_magic_on_disk s

unfoldable pub write_frame : Faults → Text → IoAction BlockStore ⊤
write_frame f payload s = write_all f.frame_write (frame s.format payload) s

abbrev pub poison_on_error : Result IoError ⊤ × BlockStore → Result IoError ⊤ × BlockStore
poison_on_error (ok _, s) = (ok tt, s)
poison_on_error (err e, s) = (err e, record s { poisoned = true })

unfoldable pub append_payload : Faults → Text → IoAction BlockStore ⊤
unfolding write_all sync_all write_header write_magic write_frame
append_payload f payload s =
    if s.poisoned
    then (err fail_closed, s)
    else if ltb u32_max (length payload)
    then (err invalid_input, s)
    else if ltb max_frame_bytes (length payload)
    then (err invalid_input, s)
    else poison_on_error ((do write_magic f; write_frame f payload; sync_all f.frame_sync) s)

-- `BlockStore::append_block`. The encoder panics on lengths that do not fit.
unfoldable pub append_block : Faults → Block → IoAction BlockStore ⊤
append_block f b s = elim (encode_block b) [
  | none ↦ (err panicked, s)
  | some payload ↦ append_payload f payload s
]
