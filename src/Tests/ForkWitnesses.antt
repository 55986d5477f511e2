-- ===== src/Tests/ForkWitnesses.antt =====
-- The theorems about branches and about the duplicate cache at concrete inputs.
use trilogicon_core.Prelude.{
  ℕ, ◌≡◌, ◌↔◌, refl, Text, ok, err, some, [], ◌∷◌, arith, contains, text_discrete, text_eq,
}
use trilogicon_core.Prelude.Maps.{get}
use trilogicon_core.Reorg.BlockIndex.{
  BlockIndex, BlockIndexEntry, ForkSlices, path_from_tip_toward_genesis, path_from,
  validated_parent_hash, seek_fork, walk_to_fork, fork_slices_between_tips, cycle,
  validate_block_ancestry,
}
use trilogicon_core.Reorg.Links.{Descends}
use trilogicon_core.Reorg.Paths.{path_from_tip_iff}
use trilogicon_core.Reorg.Forks.{IsFork, fork_slices-IsFork}
use trilogicon_core.Reorg.BranchSelect.{
  TipDescriptor, select_preferred_tip, select_preferred_tip_iff, IsGreatest,
}
use trilogicon_core.Reorg.Plan.{
  ReorgPlan, reverse_onto, from_fork_slices, try_from_tips, validate_against_index,
}
use trilogicon_core.Reorg.Planned.{try_from_tips_validates}
use trilogicon_core.Seen.{SeenCache}

-- A root, a child of it, and two children of that.
abbrev g : Text
g = 1 ∷ []

abbrev a : Text
a = 2 ∷ []

abbrev b : Text
b = 3 ∷ []

abbrev d : Text
d = 4 ∷ []

abbrev entry : Text → ℕ → BlockIndexEntry
entry p h = record { parent_hash = p; height = h }

abbrev forest : BlockIndex
forest = record {
  by_hash = (g, entry [] 0) ∷ (a, entry g 1) ∷ (b, entry a 2) ∷ (d, entry a 2) ∷ [];
}

abbrev loop : BlockIndex
loop = record { by_hash = (a, entry a 1) ∷ [] }

b_path : path_from_tip_toward_genesis forest b ≡ ok (b ∷ a ∷ g ∷ [])
unfolding path_from_tip_toward_genesis path_from validated_parent_hash get contains text_discrete
b_path = refl

loop_cycle : path_from_tip_toward_genesis loop a ≡ err (cycle a)
unfolding path_from_tip_toward_genesis path_from validated_parent_hash get contains text_discrete
loop_cycle = refl

abbrev slices : ForkSlices
slices = record { fork_hash = a; old_suffix = b ∷ []; new_suffix = d ∷ [] }

forked : fork_slices_between_tips forest b d ≡ ok slices
unfolding path_from_tip_toward_genesis path_from validated_parent_hash get contains text_discrete
    fork_slices_between_tips seek_fork walk_to_fork
forked = refl

path_example :
    (path_from_tip_toward_genesis forest b ≡ ok (b ∷ a ∷ g ∷ []))
    ↔ Descends forest b (b ∷ a ∷ g ∷ [])
path_example = path_from_tip_iff forest b (b ∷ a ∷ g ∷ []) (omega arith)

slices-IsFork_example : IsFork forest b d slices
slices-IsFork_example = fork_slices-IsFork forest b d slices (omega arith) forked

abbrev low : TipDescriptor
low = record { height = 1; block_hash = b }

abbrev high : TipDescriptor
high = record { height = 2; block_hash = a }

select_example :
    (select_preferred_tip (low ∷ high ∷ []) ≡ some high) ↔ IsGreatest high (low ∷ high ∷ [])
select_example = select_preferred_tip_iff (low ∷ high ∷ []) high

-- A full cache of two ids.
abbrev full : SeenCache
full = record { cap = 2; order = a ∷ b ∷ []; set = b ∷ a ∷ [] }

b_valid : validate_block_ancestry forest b ≡ ok tt
unfolding path_from_tip_toward_genesis path_from validated_parent_hash get contains text_discrete
    validate_block_ancestry
b_valid = refl

abbrev plan : ReorgPlan
plan = record { fork_hash = a; rollback_ordered = b ∷ []; apply_ordered = d ∷ [] }

built : try_from_tips forest b d ≡ ok plan
unfolding path_from_tip_toward_genesis path_from validated_parent_hash get contains text_discrete
    fork_slices_between_tips seek_fork walk_to_fork try_from_tips from_fork_slices reverse_onto
built = refl

plan_example : validate_against_index plan forest ≡ ok tt
plan_example = try_from_tips_validates forest b d plan (omega arith) b_valid built
