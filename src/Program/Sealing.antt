-- ===== src/Program/Sealing.antt =====
-- What the sealing of a round does to the chain, the file and the pool.
use trilogicon_core.Prelude.{
  ℕ, ◌≡◌, ◌⊎◌, inl, inr, Text, Result, ok, err, none, some, Option, Bool, true, false, List, [],
  ◌∷◌, ◌++◌, arith, refl, sym, ap, subst, ◌∙◌, Result-cases, Option-cases, get_last?,
  get_last?-append,
}
use trilogicon_core.Errors.{ProtocolError}
use trilogicon_core.Crypto.{Primitives}
use trilogicon_core.Transaction.{Transaction}
use trilogicon_core.Block.{Block}
use trilogicon_core.Blockchain.{Blockchain, append_block, rollback_last_block}
use trilogicon_core.Blockchain.Append.{append_block-Extends}
use trilogicon_core.Blockchain.Replay.{rollback_last_block-append_block}
use trilogicon_core.Blockchain.Sealing.{
  append_block_from_mempool_pending_removal, sealed_block, sealed_cases, unsealed,
}
use trilogicon_core.Mempool.{Mempool, ordered_candidates_for_seal, remove_by_tx_hashes}
use trilogicon_core.Encoding.Blocks.{CanEncodeBlock, encode_block_bytes}
use trilogicon_core.Storage.Io.{IoError, fail_closed, invalid_input, os}
use trilogicon_core.Storage.Store.{BlockStore, Faults, append_payload}
use trilogicon_core.Storage.Store as Store
use trilogicon_core.Storage.Holds.{Holds, append_block-IsAppended}
use trilogicon_core.Network.Node.{NodeInner}
use trilogicon_core.Network.Durability.{Stored, Stored-append, Stored-Replayed}
use trilogicon_core.Network.Restart.{IsConsistent}
use trilogicon_core.Program.{
  RunStop, write_failure, hygiene, undo_sealed, persist_sealed, persist_sealed_tip, seal_now,
  seal_step,
}

poisoned_refuses :
    (f : Faults) (b : Block) (s : BlockStore)
    → s.poisoned ≡ true
    → CanEncodeBlock b
    → Store.append_block f b s ≡ (err fail_closed, s)
unfolding Store.append_block append_payload
poisoned_refuses f b s sick k = rw (Store.append_block, encode_block_bytes b k) (ground arith)

abbrev Sealing : Type 0
Sealing = Result RunStop (Option Block) × NodeInner

module _ ⦃c : Primitives⦄ where
  -- Every block that the node may seal now has an encoding.
  abbrev pub Sealable : NodeInner → ℕ → Type 0
  Sealable n now =
      (tip : Block) (txs : List Transaction)
      → get_last? n.chain.blocks ≡ some tip
      → ordered_candidates_for_seal n.pool n.chain.state 64 ≡ ok txs
      → CanEncodeBlock (sealed_block tip now txs)

  -- The node has sealed nothing and its chain and its file are as before, or it has sealed a block,
  -- which extends both, or the write has failed, and the chain is as before.
  abbrev pub IsSealed : Sealing → NodeInner → Type 0
  IsSealed r n =
      ((r.0 ≡ ok none) × (r.1.chain ≡ n.chain) × (r.1.store ≡ n.store) × IsConsistent r.1)
      ⊎ ((b : Block) × (r.0 ≡ ok (some b))
          × (append_block b n.chain ≡ (ok tt, r.1.chain))
          × (r.1.store.poisoned ≡ false)
          × IsConsistent r.1)
      ⊎ ((e : IoError) × (r.0 ≡ err (write_failure e)) × (r.1.chain ≡ n.chain) × IsConsistent r.1)

  module _ (f : Faults) (hashes : List Text) (b : Block) (n : NodeInner) (l : Blockchain)
      (grown : append_block b n.chain ≡ (ok tt, l)) where
    store_after : BlockStore
    store_after = (Store.append_block f b n.store).1

    stored :
        (Store.append_block f b n.store).0 ≡ ok tt
        → persist_sealed f hashes b (record n { chain = l }) ≡ (
          ok (some b),
          record n { chain = l; store = store_after; pool = remove_by_tx_hashes hashes n.pool },
        )
    unfolding persist_sealed store_after
    stored e = ground (arith, e)

    undone :
        (e : IoError)
        → (e ≡ fail_closed) ⊎ (e ≡ invalid_input) ⊎ (e ≡ os)
        → (Store.append_block f b n.store).0 ≡ err e
        → rollback_last_block n.genesis l ≡ (ok tt, n.chain)
        → persist_sealed f hashes b (record n { chain = l })
          ≡ (err (write_failure e), record n { store = store_after })
    unfolding persist_sealed undo_sealed store_after
    undone e k d back = ground (arith, k, d, back)

    module _ (bs : List Block) (s : Stored n.genesis n.chain bs) (k : CanEncodeBlock b) where
      back : rollback_last_block n.genesis l ≡ (ok tt, n.chain)
      back =
          rollback_last_block-append_block n.genesis b n.chain l
            (Stored-Replayed n.genesis n.chain bs s) grown

      persisted_on :
          Holds n.store bs → IsSealed (persist_sealed f hashes b (record n { chain = l })) n
      unfolding store_after
      persisted_on h = elim (append_block-IsAppended f b n.store bs h k) [
        | inl (done, fits, holds) ↦
            subst (λ r. IsSealed r n) (sym (stored done))
              (inr (
                inl (
                  b,
                  refl,
                  grown,
                  holds.healthy,
                  (bs ++ b ∷ [], Stored-append n.genesis n.chain l bs b s grown, inl holds),
                )))
        | inr (inl (refused, same)) ↦
            subst (λ r. IsSealed r n) (sym (undone invalid_input (inr (inl refl)) refused back))
              (inr (
                inr
                  (invalid_input, refl, refl, (bs, s, inl (subst (λ z. Holds z bs) (sym same) h)))))
        | inr (inr (failed, fits, torn)) ↦
            subst (λ r. IsSealed r n) (sym (undone os (inr (inr refl)) failed back))
              (inr (inr (os, refl, refl, (bs, s, inr (n.store, b, h, fits, torn)))))
      ]

    persisted :
        IsConsistent n
        → CanEncodeBlock b
        → IsSealed (persist_sealed f hashes b (record n { chain = l })) n
    unfolding store_after
    persisted (bs, s, inl h) k = persisted_on bs s k h
    persisted (bs, s, inr (t, d, h, fits, torn)) k =
        let shut = poisoned_refuses f b n.store torn.sick k in
        subst (λ r. IsSealed r n)
          (sym (undone fail_closed (inl refl) (ap (λ r. r.0) shut) (back bs s k)))
          (inr (
            inr (
              fail_closed,
              refl,
              refl,
              subst (λ z. IsConsistent (record n { store = z })) (sym (ap (λ r. r.1) shut))
                  (bs, s, inr (t, d, h, fits, torn)),
            )))

    tip_persisted :
        persist_sealed_tip f hashes (record n { chain = l })
        ≡ persist_sealed f hashes b (record n { chain = l })
    unfolding persist_sealed_tip
    tip_persisted =
        let x = append_block-Extends b n.chain l grown in
        ground (arith, ap get_last? x.blocks_after ∙ get_last?-append n.chain.blocks b)

  attempt_failed :
      (m : Mempool) (now : ℕ) (k l : Blockchain) (x : ProtocolError)
      → append_block_from_mempool_pending_removal m 64 now k ≡ (err x, l)
      → l ≡ k
  unfolding append_block_from_mempool_pending_removal append_block
  attempt_failed m now k l x e = ground arith

  module _ (f : Faults) (now : ℕ) (n : NodeInner) where
    attempt : Result ProtocolError (Option (List Text)) × Blockchain
    attempt = append_block_from_mempool_pending_removal n.pool 64 now n.chain

    idle : attempt.0 ≡ ok none → seal_now f now n ≡ (ok none, record n { chain = attempt.1 })
    unfolding seal_now attempt
    idle e = ground (arith, e)

    gave_up :
        (x : ProtocolError)
        → attempt.0 ≡ err x
        → seal_now f now n ≡ (ok none, hygiene (record n { chain = attempt.1 }))
    unfolding seal_now attempt
    gave_up x e = ground (arith, e)

    made :
        (hashes : List Text)
        → attempt.0 ≡ ok (some hashes)
        → seal_now f now n ≡ persist_sealed_tip f hashes (record n { chain = attempt.1 })
    unfolding seal_now attempt
    made hashes e = ground (arith, e)

    seal_now-IsSealed : IsConsistent n → Sealable n now → IsSealed (seal_now f now n) n
    unfolding attempt hygiene
    seal_now-IsSealed h w = elim (Result-cases attempt.0) [
      | inr (x, bad) ↦
          let same = attempt_failed n.pool now n.chain attempt.1 x (λ i. (bad i, attempt.1)) in
          subst (λ r. IsSealed r n) (sym (gave_up x bad))
            (inl
              (refl, same, refl, subst (λ k. IsConsistent (record n { chain = k })) (sym same) h))
      | inl (o, good) ↦ elim (Option-cases o) [
        | inl nothing ↦
            let e = good ∙ ap ok nothing in
            let same = unsealed 64 now n.chain attempt.1 n.pool (λ i. (e i, attempt.1)) in
            subst (λ r. IsSealed r n) (sym (idle e))
              (inl
                (refl, same, refl, subst (λ k. IsConsistent (record n { chain = k })) (sym same) h))
        | inr (hashes, some_block) ↦
            let e = good ∙ ap ok some_block in
            let (tip, txs, last, sel, app, _) =
              sealed_cases 64 now n.chain attempt.1 n.pool hashes (λ i. (e i, attempt.1)) in
            subst (λ r. IsSealed r n)
              (sym
                (made hashes e ∙ tip_persisted f hashes (sealed_block tip now txs) n attempt.1 app))
              (persisted f hashes (sealed_block tip now txs) n attempt.1 app h (w tip txs last sel))
      ]
    ]

  -- The sealing of a round, on a consistent node: it leaves chain and file as they were, or extends
  -- both by the block that it returns, or stops the program because of a failed write, with the chain
  -- taken back. It never stops for another reason, and the node stays consistent. Every block that the
  -- node may seal must have an encoding.
  pub seal_step-IsSealed :
      (allowed : Bool) (f : Faults) (now : ℕ) (n : NodeInner)
      → IsConsistent n
      → Sealable (hygiene n) now
      → IsSealed (seal_step allowed f now n) n
  unfolding seal_step hygiene
  seal_step-IsSealed true f now n h w = seal_now-IsSealed f now (hygiene n) h w
  seal_step-IsSealed false f now n h w = inl (refl, refl, refl, h)
