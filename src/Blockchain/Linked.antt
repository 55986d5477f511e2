-- ===== src/Blockchain/Linked.antt =====
-- The shape of the chain: consecutive heights from 0, each block naming the hash of the one before
-- it and keeping the minimum interval.
use trilogicon_core.Prelude.{
  ℕ, ◌+◌, ◌≡◌, ◌≤◌, ok, ⊤, some, List, get_last?, length, ◌++◌, [], ◌∷◌, arith, u64_max, ap,
}
use trilogicon_core.Crypto.{Primitives}
use trilogicon_core.Consensus.{ConsensusParams, validate_block_timestamps_vs_parent}
use trilogicon_core.Block.{Block, genesis}
use trilogicon_core.Blockchain.{Blockchain, append_block, validate_successor, height_of}
use trilogicon_core.Blockchain.Append.{append_block-Extends}

-- The heights count up from `n`.
abbrev pub Numbered : ℕ → List Block → Type 0
Numbered n [] = ⊤
Numbered n (b ∷ bs) = (b.height ≡ n) × Numbered (n + 1) bs

-- `b` may stand on `a`.
abbrev pub Follows : ConsensusParams → Block → Block → Type 0
Follows p a b =
    (b.previous_hash ≡ a.block_hash)
    × (a.timestamp_unix + p.min_block_interval_secs ≤ b.timestamp_unix)

abbrev pub Linked : ConsensusParams → List Block → Type 0
Linked p [] = ⊤
Linked p (a ∷ []) = ⊤
Linked p (a ∷ b ∷ bs) = Follows p a b × Linked p (b ∷ bs)

pub last-Numbered :
    (n : ℕ) (b : Block) (bs : List Block)
    → Numbered n (b ∷ bs)
    → height_of (get_last? (b ∷ bs)) ≡ n + length bs
last-Numbered n b [] h = omega arith
last-Numbered n b (x ∷ bs) h = omega (arith, last-Numbered (n + 1) x bs h.1)

pub tip-height :
    (bs : List Block) (t : Block) → Numbered 0 bs → get_last? bs ≡ some t → t.height + 1 ≡ length bs
tip-height [] t h e = cc
tip-height (b ∷ bs) t h e = omega (arith, last-Numbered 0 b bs h, ap height_of e)

Numbered-append :
    (n : ℕ) (bs : List Block) (b : Block)
    → Numbered n bs
    → b.height ≡ n + length bs
    → Numbered n (bs ++ b ∷ [])
Numbered-append n [] b h e = (omega arith, tt)
Numbered-append n (x ∷ bs) b h e = (h.0, Numbered-append (n + 1) bs b h.1 (omega arith))

Linked-append :
    (p : ConsensusParams) (bs : List Block) (a b : Block)
    → Linked p bs
    → get_last? bs ≡ some a
    → Follows p a b
    → Linked p (bs ++ b ∷ [])
Linked-append p [] a b h e f = tt
Linked-append p (x ∷ []) a b h e f = ground arith
Linked-append p (x ∷ y ∷ bs) a b h e f = (h.0, Linked-append p (y ∷ bs) a b h.1 e f)

successor-Follows :
    (p : ConsensusParams) (a b : Block) → validate_successor a b p ≡ ok tt → Follows p a b
unfolding validate_successor validate_block_timestamps_vs_parent
successor-Follows p a b e = ground arith

successor-height :
    (p : ConsensusParams) (a b : Block)
    → validate_successor a b p ≡ ok tt
    → a.height + 1 ≤ u64_max
    → b.height ≡ a.height + 1
unfolding validate_successor
successor-height p a b e h = ground arith

-- Block 0 is the genesis block, the heights are 0, 1, 2 …, and consecutive blocks are linked.
pub record IsLinked (k : Blockchain) : Type 0 where
  pub rest : List Block
  pub rooted : k.blocks ≡ genesis ∷ rest
  pub numbered : Numbered 0 k.blocks
  pub linked : Linked k.consensus k.blocks

module _ ⦃c : Primitives⦄ where
  -- An accepted block keeps the chain linked, as long as the heights fit a u64.
  pub append_block-IsLinked :
      (b : Block) (k l : Blockchain)
      → IsLinked k
      → length k.blocks ≤ u64_max
      → append_block b k ≡ (ok tt, l)
      → IsLinked l
  append_block-IsLinked b k l h room e =
      let x = append_block-Extends b k l e in
      let top : x.tip.height + 1 ≡ length k.blocks =
        tip-height k.blocks x.tip h.numbered x.tip_last in
      record {
        rest = h.rest ++ b ∷ [];
        rooted = rw (x.blocks_after, h.rooted);
        numbered = rw x.blocks_after (
            Numbered-append 0 k.blocks b h.numbered
              (omega (arith, successor-height k.consensus x.tip b x.follows)));
        linked =
            rw (x.blocks_after, x.consensus_after)
              (Linked-append k.consensus k.blocks x.tip b h.linked x.tip_last
                (successor-Follows k.consensus x.tip b x.follows));
      }
