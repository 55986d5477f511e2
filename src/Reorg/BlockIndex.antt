-- ===== src/Reorg/BlockIndex.antt =====
-- node/src/v3/block_index.rs: parent links and heights by block hash, the hardened walk to the
-- root, and the two branches above the deepest common block.
use trilogicon_core.Prelude.{
  ℕ, zero, suc, Text, Option, none, some, Result, ok, err, ⊤, true, false, ok_or, fail_if, ite,
  ◌=?◌, text_eq, nat_eq, decide_eq, is_nil, checked_add, contains, length, List, [], ◌∷◌, ◌++◌,
  ◌>>=◌, ◌>>◌, str, if◌then◌else◌, ◌==◌, not, get_last?, saturating_add,
}
use trilogicon_core.Prelude.Maps.{Dict, get, insert}

pub record BlockIndexEntry : Type 0 where
  pub parent_hash : Text
  pub height : ℕ

pub record ForkSlices : Type 0 where
  pub fork_hash : Text
  pub old_suffix : List Text
  pub new_suffix : List Text

pub data BlockPathError : Type 0 where
  unknown_block : Text → BlockPathError
  missing_parent_link : Text → BlockPathError
  cycle : Text → BlockPathError
  no_common_ancestor : BlockPathError
  malformed_ancestry : Text → Text → BlockPathError

abbrev pub PathResult : Type 0 → Type 0
PathResult A = Result BlockPathError A

pub record BlockIndex : Type 0 where
  pub by_hash : Dict Text BlockIndexEntry

-- `BlockIndex::insert`
unfoldable pub insert_entry : Text → BlockIndexEntry → BlockIndex → BlockIndex
insert_entry hash e idx = record { by_hash = insert hash e idx.by_hash }

-- `self.get(&cur).ok_or_else(..)?`
abbrev pub find_entry : BlockIndex → Text → PathResult BlockIndexEntry
find_entry idx h = ok_or (get h idx.by_hash) (unknown_block h)

-- `self.by_hash.len().saturating_add(2)`
abbrev pub limit : BlockIndex → ℕ
limit idx = saturating_add (length idx.by_hash) 2

unfoldable pub validated_parent_hash : BlockIndex → Text → BlockIndexEntry → PathResult Text
validated_parent_hash idx block e =
    if decide_eq e.parent_hash block
    then err (cycle block)
    else if is_nil e.parent_hash
    then err (missing_parent_link block)
    else do
      pe ← ok_or (get e.parent_hash idx.by_hash) (missing_parent_link block)
      expected ←
          ok_or (checked_add pe.height 1)
            (malformed_ancestry block (str "parent.height + 1 overflows u64"))
      fail_if (not (expected == e.height))
          (malformed_ancestry block (str "parent.height + 1 must equal child.height"))
      ok e.parent_hash

-- The bounded loop of `path_from_tip_toward_genesis`, with the set of visited hashes and the chain
-- that it has built.
unfoldable pub path_from : ℕ → BlockIndex → List Text → List Text → Text → PathResult (List Text)
path_from zero idx visited chain cur = err (cycle cur)
path_from (suc fuel) idx visited chain cur = elim (contains cur visited) [
  | true ↦ err (cycle cur)
  | false ↦ do
    e ← find_entry idx cur
    ite (e.height =? 0) (ok (chain ++ cur ∷ [])) (do
      p ← validated_parent_hash idx cur e
      path_from fuel idx (cur ∷ visited) (chain ++ cur ∷ []) p)
]

unfoldable pub path_from_tip_toward_genesis : BlockIndex → Text → PathResult (List Text)
path_from_tip_toward_genesis idx tip = path_from (limit idx) idx [] [] tip

-- The first loop of `fork_slices_between_tips`: from the new tip to the first block of the old path.
unfoldable pub seek_fork :
    ℕ → BlockIndex → List Text → List Text → List Text → Text → PathResult (Text × List Text)
seek_fork zero idx old_set visited new_suffix cur = err (cycle cur)
seek_fork (suc fuel) idx old_set visited new_suffix cur = elim (contains cur visited) [
  | true ↦ err (cycle cur)
  | false ↦ elim (contains cur old_set) [
    | true ↦ ok (cur, new_suffix)
    | false ↦ do
      e ← find_entry idx cur
      fail_if (e.height == 0) no_common_ancestor
      p ← validated_parent_hash idx cur e
      seek_fork fuel idx old_set (cur ∷ visited) (new_suffix ++ cur ∷ []) p
  ]
]

-- The second loop: from the old tip to the fork, with the block at which it stopped.
unfoldable pub walk_to_fork :
    ℕ → BlockIndex → Text → List Text → List Text → Text → PathResult (Text × List Text)
walk_to_fork zero idx fork visited old_suffix cur = ok (cur, old_suffix)
walk_to_fork (suc fuel) idx fork visited old_suffix cur = elim (decide_eq cur fork) [
  | true ↦ ok (cur, old_suffix)
  | false ↦ elim (contains cur visited) [
    | true ↦ err (cycle cur)
    | false ↦ do
      e ← find_entry idx cur
      fail_if (e.height == 0) no_common_ancestor
      p ← validated_parent_hash idx cur e
      walk_to_fork fuel idx fork (cur ∷ visited) (old_suffix ++ cur ∷ []) p
  ]
]

unfoldable pub fork_slices_between_tips : BlockIndex → Text → Text → PathResult ForkSlices
fork_slices_between_tips idx old_tip new_tip = do
  path_old ← path_from_tip_toward_genesis idx old_tip
  new_side ← seek_fork (limit idx) idx path_old [] [] new_tip
  old_side ← walk_to_fork (limit idx) idx new_side.0 [] [] old_tip
  fail_if (not (decide_eq old_side.0 new_side.0)) no_common_ancestor
  ok (record { fork_hash = new_side.0; old_suffix = old_side.1; new_suffix = new_side.1 })

-- The last two checks of `validate_block_ancestry`.
abbrev check_root : Text → BlockIndexEntry → PathResult ⊤
check_root h ge = do
  fail_if (not (ge.height == 0))
      (malformed_ancestry h (str "path ended without reaching height-0 root"))
  fail_if (not (is_nil ge.parent_hash))
      (malformed_ancestry h (str "height-0 block must use empty parent_hash (genesis/root)"))

unfoldable pub validate_block_ancestry : BlockIndex → Text → PathResult ⊤
validate_block_ancestry idx block = do
  path ← path_from_tip_toward_genesis idx block
  genesis_hash ← ok_or (get_last? path) (unknown_block block)
  ge ← find_entry idx genesis_hash
  check_root genesis_hash ge

-- The loop of the deprecated `ancestors_to_height_zero`, which nothing bounds: none when the fuel
-- runs out.
unfoldable pub ancestors_to_height_zero : ℕ → BlockIndex → Text → Option (List Text)
ancestors_to_height_zero zero idx cur = none
ancestors_to_height_zero (suc fuel) idx cur = elim (get cur idx.by_hash) [
  | none ↦ some (cur ∷ [])
  | some e ↦
      ite (e.height =? 0) (some (cur ∷ []))
        (elim (ancestors_to_height_zero fuel idx e.parent_hash) [
          | none ↦ none
          | some out ↦ some (cur ∷ out)
        ])
]
