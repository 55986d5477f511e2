-- ===== src/Blockchain/Replay.antt =====
-- The ledger is what the blocks lead to from the genesis allocations, and a rollback undoes an
-- append.
use trilogicon_core.Prelude.{
  ◌≡◌, ok, inl, inr, List, ◌++◌, [], ◌∷◌, Result-cases, arith, refl, length-append, ap, ◌∙◌,
}
use trilogicon_core.Crypto.{Primitives}
use trilogicon_core.State.{State}
use trilogicon_core.Block.{Block, genesis}
use trilogicon_core.Genesis.{Genesis, from_genesis}
use trilogicon_core.Blockchain.{
  Blockchain, append_block, rollback_last_block, recompute_state_from_blocks, apply_all,
  apply_blocks, on_clone, pop,
}
use trilogicon_core.Blockchain.Append.{append_block-Extends}

pop-append : (bs : List Block) (b : Block) → pop (bs ++ b ∷ []) ≡ bs
unfolding pop
pop-append [] b = refl
pop-append (x ∷ []) b = refl
pop-append (x ∷ y ∷ bs) b = ap (◌∷◌ x) (pop-append (y ∷ bs) b)

module _ ⦃c : Primitives⦄ where
  apply_blocks-append :
      (bs : List Block) (b : Block) (s t : State)
      → on_clone (apply_blocks bs) s ≡ ok t
      → on_clone (apply_blocks (bs ++ b ∷ [])) s ≡ on_clone (apply_all b.transactions) t
  unfolding apply_blocks
  apply_blocks-append [] b s t e = ground arith
  apply_blocks-append (x ∷ bs) b s t e =
      ground (arith, apply_blocks-append bs b (apply_all x.transactions s).1 t)

  recompute-append :
      (g : Genesis) (root : Block) (rest : List Block) (b : Block) (s : State)
      → recompute_state_from_blocks (root ∷ rest) g ≡ ok s
      → recompute_state_from_blocks (root ∷ rest ++ b ∷ []) g
        ≡ on_clone (apply_all b.transactions) s
  unfolding recompute_state_from_blocks
  recompute-append g root rest b s e = elim (Result-cases (from_genesis g)) [
    | inl (start, eq) ↦ ground (arith, apply_blocks-append rest b start s)
    | inr (x, eq) ↦ ground arith
  ]

  -- The chain starts with the genesis block, and its ledger is the replay of its blocks.
  pub record Replayed (g : Genesis) (k : Blockchain) : Type 0 where
    pub rest : List Block
    pub rooted : k.blocks ≡ genesis ∷ rest
    pub replay : recompute_state_from_blocks k.blocks g ≡ ok k.state

  -- An accepted block keeps the chain rooted in the genesis block, and its ledger the replay of its
  -- blocks on the genesis allocations.
  pub append_block-Replayed :
      (g : Genesis) (b : Block) (k l : Blockchain)
      → Replayed g k
      → append_block b k ≡ (ok tt, l)
      → Replayed g l
  append_block-Replayed g b k l h e =
      let x = append_block-Extends b k l e in
      record {
        rest = h.rest ++ b ∷ [];
        rooted = rw (x.blocks_after, h.rooted);
        replay =
            rw (x.blocks_after, h.rooted)
              (recompute-append g genesis h.rest b k.state (rw h.rooted at h.replay) ∙ x.applies);
      }

  -- Taking the block back that was appended last restores the chain, its ledger included.
  pub rollback_last_block-append_block :
      (g : Genesis) (b : Block) (k l : Blockchain)
      → Replayed g k
      → append_block b k ≡ (ok tt, l)
      → rollback_last_block g l ≡ (ok tt, k)
  unfolding rollback_last_block
  rollback_last_block-append_block g b k l h e =
      let x = append_block-Extends b k l e in
      ground (
        arith,
        h.replay,
        h.rooted,
        x.blocks_after,
        x.consensus_after,
        length-append k.blocks (b ∷ []),
        pop-append k.blocks b,
      )
