-- ===== src/Blockchain/Sealing.antt =====
-- `append_block_from_mempool` and its variant that leaves the pool alone: a block of the pool's
-- candidates on the tip.
use trilogicon_core.Prelude.{
  ℕ, Text, none, some, Option, ◌≡◌, arith, text_eq, Option-cases, inl, inr, List, [], ◌∷◌, ◌++◌,
  refl, length, ok, err, wrapping_add, is_nil, get_last?, contains, if◌then◌else◌, ◌⊎◌,
  Result-cases,
}
use trilogicon_core.Prelude.Maps.{get}
use trilogicon_core.Action.{Action, lift, gets, ◌>>=◌, ◌>>◌}
use trilogicon_core.Errors.{Checked, ProtocolError}
use trilogicon_core.Crypto.{Primitives}
use trilogicon_core.Transaction.{Transaction}
use trilogicon_core.Block
use trilogicon_core.Block.{Block, compute_block_hash, tx_hashes}
use trilogicon_core.Consensus.{validate_block_timestamps_vs_parent}
use trilogicon_core.Mempool.{Mempool, ordered_candidates_for_seal, remove_by_tx_hashes}
use trilogicon_core.Mempool.Invariant.{Consistent}
use trilogicon_core.Mempool.Removal.{get-remove_by_tx_hashes, remove_by_tx_hashes-Consistent}
use trilogicon_core.Mempool.Seal.{ordered_candidates_for_seal-Selected}
use trilogicon_core.Blockchain.{Blockchain, append_block, last_block}

module _ ⦃c : Primitives⦄ where
  -- The block of the transactions on the tip, with its hash.
  abbrev pub sealed_block : Block → ℕ → List Transaction → Block
  sealed_block tip timestamp txs =
      let draft : Block = record {
        height = wrapping_add tip.height 1;
        previous_hash = tip.block_hash;
        timestamp_unix = timestamp;
        transactions = txs;
        block_hash = [];
      } in
      record draft { block_hash = compute_block_hash draft }

  seal_and_append : ℕ → List Transaction → Action Blockchain (Option (List Text))
  seal_and_append timestamp txs = do
    chain ← gets (λ k. k)
    tip ← lift (last_block chain)
    append_block (sealed_block tip timestamp txs)
    lift (ok (some (tx_hashes txs)))

  unfoldable pub append_block_from_mempool_pending_removal :
      Mempool → ℕ → ℕ → Action Blockchain (Option (List Text))
  unfolding seal_and_append
  append_block_from_mempool_pending_removal m max timestamp = do
    s ← gets (λ k. k.state)
    txs ← lift (ordered_candidates_for_seal m s max)
    if is_nil txs then lift (ok none) else seal_and_append timestamp txs

  -- The chain and the pool together.
  abbrev pub Node : Type 0
  Node = Blockchain × Mempool

  unfoldable pub append_block_from_mempool : ℕ → ℕ → Node → Checked ℕ × Node
  append_block_from_mempool max timestamp (k, m) =
      let (r, k') = append_block_from_mempool_pending_removal m max timestamp k in
      elim r [
        | err e ↦ (err e, (k', m))
        | ok none ↦ (ok 0, (k', m))
        | ok (some hashes) ↦ (ok (length hashes), (k', remove_by_tx_hashes hashes m))
      ]

  -- When candidate selection succeeds with some transactions, sealing can fail only by the block's
  -- own validity or its timestamp, never by the ledger: if the sealed block passes these two, it is
  -- appended, and its hashes are returned.
  pub append_block_from_mempool_pending_removal_total :
      (m : Mempool) (max timestamp : ℕ) (k : Blockchain) (tip : Block) (tx : Transaction)
      (txs : List Transaction)
      → get_last? k.blocks ≡ some tip
      → ordered_candidates_for_seal m k.state max ≡ ok (tx ∷ txs)
      → Block.basic_validate (sealed_block tip timestamp (tx ∷ txs)) ≡ ok tt
      → validate_block_timestamps_vs_parent tip (sealed_block tip timestamp (tx ∷ txs)) k.consensus
        ≡ ok tt
      → (l : Blockchain) × (append_block_from_mempool_pending_removal m max timestamp k
          ≡ (ok (some (tx_hashes (tx ∷ txs))), l))
        × (l.blocks ≡ k.blocks ++ sealed_block tip timestamp (tx ∷ txs) ∷ [])
  unfolding append_block_from_mempool_pending_removal append_block
  append_block_from_mempool_pending_removal_total m max timestamp k tip tx txs last sel valid time =
      let (t, chosen) = ordered_candidates_for_seal-Selected m max k.state (tx ∷ txs) sel in
      (
        record k { blocks = k.blocks ++ sealed_block tip timestamp (tx ∷ txs) ∷ []; state = t },
        ground (arith, chosen.applies),
        refl,
      )

  -- A sealing that fails leaves chain and pool as they were.
  pub append_block_from_mempool_atomic :
      (max timestamp : ℕ) (k l : Blockchain) (m n : Mempool) (x : ProtocolError)
      → append_block_from_mempool max timestamp (k, m) ≡ (err x, (l, n))
      → (l ≡ k) × (n ≡ m)
  unfolding append_block_from_mempool append_block_from_mempool_pending_removal append_block
  append_block_from_mempool_atomic max timestamp k l m n x e = (ground arith, ground arith)

  pub unsealed :
      (max timestamp : ℕ) (k l : Blockchain) (m : Mempool)
      → append_block_from_mempool_pending_removal m max timestamp k ≡ (ok none, l)
      → l ≡ k
  unfolding append_block_from_mempool_pending_removal
  unsealed max timestamp k l m e = ground arith

  pub sealed_cases :
      (max timestamp : ℕ) (k l : Blockchain) (m : Mempool) (hashes : List Text)
      → append_block_from_mempool_pending_removal m max timestamp k ≡ (ok (some hashes), l)
      → (tip : Block) × (txs : List Transaction) × (get_last? k.blocks ≡ some tip)
        × (ordered_candidates_for_seal m k.state max ≡ ok txs)
        × (append_block (sealed_block tip timestamp txs) k ≡ (ok tt, l))
        × (hashes ≡ tx_hashes txs)
  unfolding append_block_from_mempool_pending_removal last_block
  sealed_cases max timestamp k l m hashes e = elim (Option-cases (get_last? k.blocks)) [
    | inl bare ↦ absurd (ground arith)
    | inr (tip, last) ↦ elim (Result-cases (ordered_candidates_for_seal m k.state max)) [
      | inl (txs, sel) ↦ (tip, txs, last, sel, ground arith, ground arith)
      | inr (x, bad) ↦ absurd (ground arith)
    ]
  ]

  -- What a sealing that appended a block has done: the block is one of the pool's candidates on the
  -- tip, and exactly these transactions have left the pool.
  pub record Sealed (max timestamp count : ℕ) (k l : Blockchain) (m n : Mempool) : Type 0 where
    pub tip : Block
    pub txs : List Transaction
    pub candidates : ordered_candidates_for_seal m k.state max ≡ ok txs
    pub appended : append_block (sealed_block tip timestamp txs) k ≡ (ok tt, l)
    pub counted : count ≡ length (tx_hashes txs)
    pub left : (h : Text) → get h n.txs ≡ (if contains h (tx_hashes txs) then none else get h m.txs)
    pub consistent : Consistent n

  -- A sealing that succeeds either found no candidates and changed nothing, or appended the block of
  -- the candidates and took exactly these out of the pool, which stays consistent.
  append_block_from_mempool-Sealed :
      (max timestamp count : ℕ) (k l : Blockchain) (m n : Mempool)
      → Consistent m
      → append_block_from_mempool max timestamp (k, m) ≡ (ok count, (l, n))
      → ((count ≡ 0) × (l ≡ k) × (n ≡ m)) ⊎ Sealed max timestamp count k l m n
  unfolding append_block_from_mempool
  append_block_from_mempool-Sealed max timestamp count k l m n c e =
      let run = append_block_from_mempool_pending_removal m max timestamp k in
      elim (Result-cases run.0) [
        | inr (x, bad) ↦ absurd (ground arith)
        | inl (o, fine) ↦ elim (Option-cases o) [
          | inl nothing ↦
              inl (ground arith, ground (arith, unsealed max timestamp k run.1 m), ground arith)
          | inr (hashes, some_block) ↦
              let (tip, txs, last, sel, app, same) =
                sealed_cases max timestamp k run.1 m hashes (ground arith) in
              let rest : n ≡ remove_by_tx_hashes (tx_hashes txs) m = ground arith in
              inr (record {
                tip = tip;
                txs = txs;
                candidates = sel;
                appended = ground arith;
                counted = ground arith;
                left = λ h. ground (arith, get-remove_by_tx_hashes (tx_hashes txs) h m c);
                consistent = rw rest (remove_by_tx_hashes-Consistent (tx_hashes txs) m c);
              })
        ]
      ]
