-- ===== src/Tests/ChainWitnesses.antt =====
-- The theorems about the chain at concrete inputs.
use trilogicon_core.Prelude.{◌≡◌, ◌≤◌, refl, ok, [], arith, take}
use trilogicon_core.Blockchain.{
  Blockchain, append_block, rollback_last_block, rollback_to_height, height,
}
use trilogicon_core.Blockchain.Replay.{
  Replayed, append_block-Replayed, rollback_last_block-append_block,
}
use trilogicon_core.Blockchain.Linked.{IsLinked, append_block-IsLinked}
use trilogicon_core.Blockchain.Rollback.{rollback_to_height_total}
use trilogicon_core.Tests.{toy, root, first, grown, document, code}

first_appended : append_block first root ≡ (ok tt, grown)
unfolding code
first_appended = refl

root-Replayed : Replayed document root
unfolding code
root-Replayed = record { rest = []; rooted = refl; replay = refl }

root-IsLinked : IsLinked root
unfolding code
root-IsLinked = record { rest = []; rooted = refl; numbered = (refl, tt); linked = tt }

undo_example : rollback_last_block document grown ≡ (ok tt, root)
undo_example =
    rollback_last_block-append_block document first root grown root-Replayed first_appended

grown-IsLinked_example : IsLinked grown
grown-IsLinked_example =
    append_block-IsLinked first root grown root-IsLinked (omega arith) first_appended

grown_tall : 0 ≤ height grown
grown_tall = omega arith

rollback_example :
    (l : Blockchain) × (rollback_to_height 0 document grown ≡ (ok tt, l))
    × (l.blocks ≡ take 1 grown.blocks)
    × (height l ≡ 0)
    × Replayed document l
rollback_example =
    rollback_to_height_total document 0 grown
      (append_block-IsLinked first root grown root-IsLinked (omega arith) first_appended)
      (append_block-Replayed document first root grown root-Replayed first_appended) grown_tall
