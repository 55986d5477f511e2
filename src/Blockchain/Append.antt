-- ===== src/Blockchain/Append.antt =====
-- What `append_block` checks and writes, and that a refused block changes nothing.
use trilogicon_core.Prelude.{
  ◌≡◌, ok, err, inl, inr, some, get_last?, ◌++◌, [], ◌∷◌, Option-cases, arith,
}
use trilogicon_core.Errors.{ProtocolError}
use trilogicon_core.Crypto.{Primitives}
use trilogicon_core.Block
use trilogicon_core.Block.{Block}
use trilogicon_core.Blockchain.{Blockchain, append_block, validate_successor, apply_all, on_clone}

module _ ⦃c : Primitives⦄ where
  -- An accepted block: it is valid, it extends the tip, and its transactions apply.
  pub record Extends (b : Block) (k l : Blockchain) : Type 0 where
    pub tip : Block
    pub tip_last : get_last? k.blocks ≡ some tip
    pub valid : Block.basic_validate b ≡ ok tt
    pub follows : validate_successor tip b k.consensus ≡ ok tt
    pub applies : on_clone (apply_all b.transactions) k.state ≡ ok l.state
    pub blocks_after : l.blocks ≡ k.blocks ++ b ∷ []
    pub consensus_after : l.consensus ≡ k.consensus

  pub append_block-Extends :
      (b : Block) (k l : Blockchain) → append_block b k ≡ (ok tt, l) → Extends b k l
  unfolding append_block
  append_block-Extends b k l e = elim (Option-cases (get_last? k.blocks)) [
    | inl missing ↦ ground arith
    | inr (tip, last) ↦ record {
      tip = tip;
      tip_last = last;
      valid = ground arith;
      follows = ground arith;
      applies = ground arith;
      blocks_after = ground arith;
      consensus_after = ground arith;
    }
  ]

  -- A block that is refused, for whatever reason, leaves blocks, ledger and parameters as they were:
  -- no transaction of a block that fails midway has an effect.
  pub append_block_atomic :
      (b : Block) (k l : Blockchain) (x : ProtocolError) → append_block b k ≡ (err x, l) → l ≡ k
  unfolding append_block
  append_block_atomic b k l x e = ground arith

  Extends-append_block :
      (b : Block) (k l : Blockchain) → Extends b k l → append_block b k ≡ (ok tt, l)
  unfolding append_block
  Extends-append_block b k l h = ground arith
