-- ===== src/Reorg/Sandbox/Mirror.antt =====
-- One step of the replay and one append to a chain that mirrors it.
use trilogicon_core.Prelude.{
  ◌+◌, ◌≡◌, ◌≢◌, ◌≤◌, Text, ok, ⊤, some, Result-cases, Option-cases, inl, inr, arith, All, List, [],
  ◌∷◌, ◌++◌, get_last?, get_last?-append, text_eq, length, u64_max, refl, sym, ◌∙◌, str, is_blank,
  ne, subst,
}
use trilogicon_core.Prelude.Maps.{get}
use trilogicon_core.Action.{Action, lift, ◌>>◌}
use trilogicon_core.Crypto.{Primitives}
use trilogicon_core.State.{State}
use trilogicon_core.Block
use trilogicon_core.Block.{Block, is_genesis, validate_block_hash}
use trilogicon_core.Blockchain.{Blockchain, append_block, validate_successor}
use trilogicon_core.Reorg.BlockIndex.{BlockIndex, BlockIndexEntry, validate_block_ancestry}
use trilogicon_core.Reorg.Ancestry.{IsGrounded, validate_block_ancestry_iff}
use trilogicon_core.Reorg.Plan.{
  ReorgPlanValidationError, broken_rollback_chain, broken_apply_chain, reverse_onto, check_block,
  check_rollback, check_apply, next_or,
}
use trilogicon_core.Reorg.Sandbox.{
  ReplaySandboxMaterial, validate_block_against_index, resolve_parent_block,
  validate_timestamp_vs_parent, apply_block_to_state, or_else,
}

-- What the plan's check has found out about one block.
pub record Rises (index : BlockIndex) (h before : Text) : Type 0 where
  pub child : BlockIndexEntry
  pub parent : BlockIndexEntry
  pub child_stored : get h index.by_hash ≡ some child
  pub parent_stored : get before index.by_hash ≡ some parent
  pub named : child.parent_hash ≡ before
  pub one_above : child.height ≡ parent.height + 1
  pub in_range : child.height ≤ u64_max

grounded-Rises :
    (index : BlockIndex) (h before : Text) (e : BlockIndexEntry)
    → before ≢ []
    → get h index.by_hash ≡ some e
    → e.parent_hash ≡ before
    → IsGrounded index h
    → Rises index h before
grounded-Rises index h before e ne there named ([], k) = absurd k
grounded-Rises index h before e ne there named (x ∷ [], (_, (b, stored, low, bare))) =
    absurd (ne (ground (arith)))
grounded-Rises index h before e ne there named (x ∷ y ∷ ys, (_, l, _)) = record {
  child = l.child;
  parent = l.parent;
  child_stored = l.child_stored;
  parent_stored = ground (arith, l.child_stored, l.parent_stored, l.named);
  named = ground (arith, l.child_stored, l.named);
  one_above = l.one_above;
  in_range = l.in_range;
}

check_block-Rises :
    (index : BlockIndex) (h before : Text) (broken : ReorgPlanValidationError)
    → length index.by_hash + 2 ≤ u64_max
    → before ≢ []
    → check_block index h before broken ≡ ok tt
    → Rises index h before
unfolding check_block
check_block-Rises index h before broken small ne e =
    elim (Result-cases (validate_block_ancestry index h)) [
      | inr (x, bad) ↦ absurd (ground arith)
      | inl (_, good) ↦ elim (Option-cases (get h index.by_hash)) [
        | inl gone ↦ absurd (ground arith)
        | inr (entry, there) ↦
            grounded-Rises index h before entry ne there (ground arith)
              ((validate_block_ancestry_iff index h small).0 good)
      ]
    ]

pub check_apply-Rises :
    (index : BlockIndex) (h before : Text) (rest : List Text)
    → length index.by_hash + 2 ≤ u64_max
    → before ≢ []
    → check_apply index before (h ∷ rest) ≡ ok tt
    → Rises index h before × (check_apply index h rest ≡ ok tt)
unfolding check_apply
check_apply-Rises index h before rest small ne e = (
  check_block-Rises index h before
      (broken_apply_chain h (str "parent must equal fork_hash or previous apply entry")) small ne
      (ground arith),
  ground arith,
)

check_block_any :
    (index : BlockIndex) (h before : Text) (x y : ReorgPlanValidationError)
    → check_block index h before x ≡ ok tt
    → check_block index h before y ≡ ok tt
unfolding check_block
check_block_any index h before x y e = ground arith

-- The check of the old branch is the check of a new one, read from the fork up.
pub check_rollback-check_apply :
    (index : BlockIndex) (fork : Text) (xs tail : List Text)
    → check_rollback index fork xs ≡ ok tt
    → check_apply index (next_or fork xs) tail ≡ ok tt
    → check_apply index fork (reverse_onto xs tail) ≡ ok tt
unfolding check_rollback check_apply reverse_onto
check_rollback-check_apply index fork [] tail e k = k
check_rollback-check_apply index fork (h ∷ rest) tail e k =
    check_rollback-check_apply index fork rest (h ∷ tail) (ground arith) (
      rw
        (check_block_any index h (next_or fork rest)
          (broken_rollback_chain h (str "parent must equal next rollback entry or fork_hash")) _
          (ground arith))
        k)

-- The tip of the chain is the block that the replay takes for the parent, and the chain has the
-- ledger of the replay and its time policy.
pub record Mirrors (index : BlockIndex) (m : ReplaySandboxMaterial) (k : Blockchain) (s : State)
    (b : Block) : Type 0 where
  pub tip_last : get_last? k.blocks ≡ some b
  pub same_state : k.state ≡ s
  pub same_policy : k.consensus ≡ m.consensus
  pub parent_found :
      or_else (get b.block_hash m.parent_blocks_by_hash) (get b.block_hash m.blocks_by_hash)
      ≡ some b
  pub named : b.block_hash ≢ []
  pub entry : BlockIndexEntry
  pub indexed : get b.block_hash index.by_hash ≡ some entry
  pub same_height : b.height ≡ entry.height

-- No other header is given for a block of the branch.
abbrev pub Agrees : ReplaySandboxMaterial → List Text → Type 0
Agrees m =
    All (λ h.
      or_else (get h m.parent_blocks_by_hash) (get h m.blocks_by_hash) ≡ get h m.blocks_by_hash)

module _ ⦃c : Primitives⦄ where
  -- Appends one block after the other.
  unfoldable pub append_each : List Block → Action Blockchain ⊤
  append_each [] = lift (ok tt)
  append_each (b ∷ rest) = do append_block b; append_each rest

  valid_named : (b : Block) → Block.basic_validate b ≡ ok tt → b.block_hash ≢ []
  unfolding Block.basic_validate validate_block_hash is_blank str
  valid_named b e = λ blank. ground (arith)

  unfoldable pub extended : Blockchain → Block → State → Blockchain
  extended k b s = record k { blocks = k.blocks ++ b ∷ []; state = s }

  pub block_appended :
      (index : BlockIndex) (m : ReplaySandboxMaterial) (k : Blockchain) (s t : State) (p b : Block)
      (h : Text)
      → Mirrors index m k s p
      → Rises index h p.block_hash
      → apply_block_to_state m index b h s ≡ ok t
      → append_block b k ≡ (ok tt, extended k b t)
  unfolding apply_block_to_state validate_block_against_index validate_timestamp_vs_parent
      resolve_parent_block append_block validate_successor extended
  block_appended index m k s t p b h mir up e = ground (
    arith, mir.tip_last, mir.same_state, mir.same_policy, mir.parent_found, mir.indexed,
    mir.same_height, up.child_stored, up.parent_stored, up.named, up.one_above, up.in_range,
  )

  pub extended-Mirrors :
      (index : BlockIndex) (m : ReplaySandboxMaterial) (k : Blockchain) (s t : State) (p b : Block)
      (h : Text)
      → Mirrors index m k s p
      → Rises index h p.block_hash
      → get h m.blocks_by_hash ≡ some b
      → or_else (get h m.parent_blocks_by_hash) (get h m.blocks_by_hash) ≡ get h m.blocks_by_hash
      → apply_block_to_state m index b h s ≡ ok t
      → Mirrors index m (extended k b t) t b × (b.block_hash ≡ h)
  unfolding apply_block_to_state validate_block_against_index extended
  extended-Mirrors index m k s t p b h mir up body same e =
      let called : b.block_hash ≡ h = ground arith in
      (
        record {
          tip_last = get_last?-append k.blocks b;
          same_state = refl;
          same_policy = mir.same_policy;
          parent_found =
              subst (λ x. or_else (get x m.parent_blocks_by_hash) (get x m.blocks_by_hash) ≡ some b)
                (sym called) (same ∙ body);
          named = valid_named b (ground arith);
          entry = up.child;
          indexed = rw called up.child_stored;
          same_height = ground (arith, up.child_stored);
        },
        called,
      )
