-- ===== src/Tests/StorageWitnesses.antt =====
-- The theorems about the block file at concrete inputs.
use trilogicon_core.Prelude.{
  ◌≡◌, refl, ok, some, [], ◌∷◌, ◌++◌, arith, inr, false, true, Bool, ltb, ◌&&◌, take, str, All,
  length, Text,
}
use trilogicon_core.Encoding.Cursor.{be_bytes}
use trilogicon_core.Encoding.RoundTrip.{join_all}
use trilogicon_core.Encoding.Blocks.{CanEncodeBlock, block_bytes, each_bytes, decode_block_bytes}
use trilogicon_core.Encoding.Consumption.{IsByte}
use trilogicon_core.Encoding.Decoded.{decode_block-CanEncodeBlock}
use trilogicon_core.Storage.{read_all_blocks_repairing_tail}
use trilogicon_core.Storage.Io.{fine, fails}
use trilogicon_core.Storage.Frames.{v2, frame, chain_file_magic}
use trilogicon_core.Storage.Store.{BlockStore, Faults, append_block}
use trilogicon_core.Storage.Reading.{CanStore, log}
use trilogicon_core.Storage.Files.{header, file_of}
use trilogicon_core.Storage.Recovery.{after_torn_write, read_all_blocks_repairing_tail_torn}
use trilogicon_core.Storage.Holds.{Holds, append_block_progress}
use trilogicon_core.Tests.EncodingWitnesses.{block, block-CanEncodeBlock}

pub block-CanStore : CanStore block
unfolding join_all be_bytes str each_bytes
block-CanStore = (block-CanEncodeBlock, omega arith)

torn_example :
    read_all_blocks_repairing_tail
      (fails 3)
      (some (file_of v2 (block ∷ []) (take 9 (frame v2 (block_bytes block)))))
    ≡ after_torn_write v2 (block ∷ []) block 9 (fails 3)
torn_example =
    read_all_blocks_repairing_tail_torn (fails 3) v2 (block ∷ []) block 9 (omega arith)
      (block-CanStore, tt) block-CanStore

abbrev pub blank : BlockStore
blank = record { disk = []; poisoned = false; format = v2; v2_magic_on_disk = false }

pub blank-Holds : Holds blank []
unfolding header chain_file_magic str log
blank-Holds = record {
  healthy = refl;
  each = tt;
  has_format = tt;
  content = refl;
  fresh = inr (refl, refl, refl, refl);
}

-- The write of the frame stops after nine bytes.
abbrev pub broken : Faults
broken = record { magic = fine; magic_sync = fine; frame_write = fails 9; frame_sync = fine }

abbrev pub working : Faults
working = record { magic = fine; magic_sync = fine; frame_write = fine; frame_sync = fine }

progress_example :
    ((append_block working block blank).0 ≡ ok tt)
    × Holds (append_block working block blank).1 ([] ++ block ∷ [])
progress_example =
    append_block_progress working block blank [] blank-Holds block-CanStore refl refl refl refl

abbrev all_bytes : Text → Bool
all_bytes [] = true
all_bytes (b ∷ bs) = ltb b 256 && all_bytes bs

pub are_bytes : (bs : Text) → all_bytes bs ≡ true → All IsByte bs
are_bytes [] e = tt
are_bytes (b ∷ bs) e = (ground arith, are_bytes bs (ground arith))

block_are_bytes : All IsByte (block_bytes block)
unfolding join_all be_bytes str each_bytes
block_are_bytes = are_bytes (block_bytes block) refl

decoded-CanEncode_example :
    CanEncodeBlock block × (length (block_bytes block) ≡ length (block_bytes block))
decoded-CanEncode_example =
    decode_block-CanEncodeBlock (block_bytes block) block block_are_bytes
      (decode_block_bytes block block-CanEncodeBlock)
