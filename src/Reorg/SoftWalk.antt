-- ===== src/Reorg/SoftWalk.antt =====
-- The deprecated walk of the block index against the hardened one.
use trilogicon_core.Prelude.{
  ◌+◌, ◌≡◌, ◌≤◌, Text, ok, some, List, [], ◌∷◌, arith, length, u64_max, text_eq,
}
use trilogicon_core.Reorg.BlockIndex.{
  BlockIndex, path_from_tip_toward_genesis, ancestors_to_height_zero,
}
use trilogicon_core.Reorg.Links.{Descends}
use trilogicon_core.Reorg.Paths.{path_from_tip_iff}

ancestors-Descends :
    (idx : BlockIndex) (tip : Text) (path : List Text)
    → Descends idx tip path
    → ancestors_to_height_zero (length path) idx tip ≡ some path
unfolding ancestors_to_height_zero
ancestors-Descends idx tip [] d = absurd d
ancestors-Descends idx tip (x ∷ []) (e, (b, there, low)) = ground arith
ancestors-Descends idx tip (x ∷ y ∷ ys) (e, k, d) =
    ground (arith, k.child_stored, k.named, k.one_above, ancestors-Descends idx y (y ∷ ys) d)

-- Where the hardened walk finds a path, the deprecated walk ends within as many rounds as the path
-- has blocks, with the same list. The index must have fewer than u64_max - 1 blocks.
ancestors-path_from_tip :
    (idx : BlockIndex) (tip : Text) (path : List Text)
    → length idx.by_hash + 2 ≤ u64_max
    → path_from_tip_toward_genesis idx tip ≡ ok path
    → ancestors_to_height_zero (length path) idx tip ≡ some path
ancestors-path_from_tip idx tip path n e =
    ancestors-Descends idx tip path ((path_from_tip_iff idx tip path n).0 e)
