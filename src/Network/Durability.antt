-- ===== src/Network/Durability.antt =====
-- The chain in memory and the blocks on disk.
use trilogicon_core.Prelude.{
  ℕ, ◌≡◌, ◌⊎◌, inl, inr, Result, ok, err, ⊤, false, get_last?, List, [], ◌∷◌, ◌++◌, arith, refl,
  sym, ap, subst, ◌∙◌, Result-cases, get_last?-append,
}
use trilogicon_core.Errors.{ProtocolError}
use trilogicon_core.Crypto.{Primitives}
use trilogicon_core.Consensus.{validate_block_vs_local_time}
use trilogicon_core.Genesis.{Genesis, from_genesis}
use trilogicon_core.Block.{Block}
use trilogicon_core.Blockchain.{
  Blockchain, new_chain, append_block, try_append_network_block, rollback_last_block,
  recompute_state_from_blocks, apply_blocks,
}
use trilogicon_core.Blockchain.Append.{append_block-Extends, append_block_atomic}
use trilogicon_core.Blockchain.Replay.{
  Replayed, append_block-Replayed, rollback_last_block-append_block,
}
use trilogicon_core.Encoding.Blocks.{CanEncodeBlock}
use trilogicon_core.Storage.{chain_from_genesis, append_all}
use trilogicon_core.Storage.Io.{IoError, invalid_input, os}
use trilogicon_core.Storage.Reading.{CanStore}
use trilogicon_core.Storage.Store.{BlockStore, Faults}
use trilogicon_core.Storage.Store as Store
use trilogicon_core.Storage.Holds.{Holds, Torn, append_block-IsAppended}
use trilogicon_core.Network.Node.{
  NodeInner, NetworkBlockPersistFailure, peer_rejected_block, persist_after_apply, take_back,
  persist, persist_tip, append_network_block_persist,
}

module _ ⦃c : Primitives⦄ where
  -- The chain is what the blocks lead to from the genesis allocations.
  pub record Stored (g : Genesis) (chain : Blockchain) (bs : List Block) : Type 0 where
    pub start : Blockchain
    pub starts : chain_from_genesis g ≡ ok start
    pub replays : append_all bs start ≡ (ok tt, chain)

  pub append_all-append :
      (bs : List Block) (b : Block) (k l m : Blockchain)
      → append_all bs k ≡ (ok tt, l)
      → append_block b l ≡ (ok tt, m)
      → append_all (bs ++ b ∷ []) k ≡ (ok tt, m)
  unfolding append_all
  append_all-append [] b k l m e h = ground arith
  append_all-append (x ∷ bs) b k l m e h = elim (Result-cases (append_block x k).0) [
    | inl (_, went) ↦ ground (arith, append_all-append bs b (append_block x k).1 l m)
    | inr (_, failed) ↦ ground arith
  ]

  start-Replayed : (g : Genesis) (k : Blockchain) → chain_from_genesis g ≡ ok k → Replayed g k
  unfolding chain_from_genesis new_chain recompute_state_from_blocks apply_blocks
  start-Replayed g k e = elim (Result-cases (from_genesis g)) [
    | inl (s, went) ↦ record { rest = []; rooted = ground arith; replay = ground arith }
    | inr (_, failed) ↦ ground arith
  ]

  append_all-Replayed :
      (g : Genesis) (bs : List Block) (k l : Blockchain)
      → Replayed g k
      → append_all bs k ≡ (ok tt, l)
      → Replayed g l
  unfolding append_all
  append_all-Replayed g [] k l h e = subst (Replayed g) (ap (λ r. r.1) e) h
  append_all-Replayed g (x ∷ bs) k l h e = elim (Result-cases (append_block x k).0) [
    | inl (_, went) ↦
        append_all-Replayed g bs (append_block x k).1 l
          (append_block-Replayed g x k (append_block x k).1 h (λ i. (went i, (append_block x k).1)))
          (ground arith)
    | inr (_, failed) ↦ absurd (ground arith)
  ]

  pub Stored-Replayed :
      (g : Genesis) (k : Blockchain) (bs : List Block) → Stored g k bs → Replayed g k
  Stored-Replayed g k bs s =
      append_all-Replayed g bs s.start k (start-Replayed g s.start s.starts) s.replays

  pub Stored-append :
      (g : Genesis) (k l : Blockchain) (bs : List Block) (b : Block)
      → Stored g k bs
      → append_block b k ≡ (ok tt, l)
      → Stored g l (bs ++ b ∷ [])
  Stored-append g k l bs b s e = record {
    start = s.start;
    starts = s.starts;
    replays = append_all-append bs b s.start k l s.replays e;
  }

  try_append_ok :
      (b : Block) (now : ℕ) (k l : Blockchain)
      → try_append_network_block b now k ≡ (ok tt, l)
      → append_block b k ≡ (ok tt, l)
  unfolding try_append_network_block
  try_append_ok b now k l e = ground arith

  try_append_atomic :
      (b : Block) (now : ℕ) (k l : Blockchain) (x : ProtocolError)
      → try_append_network_block b now k ≡ (err x, l)
      → l ≡ k
  unfolding try_append_network_block
  try_append_atomic b now k l x e =
      elim (Result-cases
        (validate_block_vs_local_time b.timestamp_unix now k.consensus.max_future_drift_secs)) [
          | inl (_, timely) ↦ append_block_atomic b k l x (ground arith)
          | inr (_, early) ↦ ground arith
        ]

  -- What an append by the network does to a node whose store holds bs.
  abbrev pub IsPersisted :
      Result NetworkBlockPersistFailure ⊤ × NodeInner → NodeInner → List Block → Block → Type 0
  IsPersisted r n bs b =
      ((r.0 ≡ ok tt)
        × (append_block b n.chain ≡ (ok tt, r.1.chain))
        × Holds r.1.store (bs ++ b ∷ []))
      ⊎ ((e : ProtocolError) × (r ≡ (err (peer_rejected_block e), n)))
      ⊎ ((e : IoError) × (r.0 ≡ err (persist_after_apply e))
          × (r.1.chain ≡ n.chain)
          × ((r.1.store ≡ n.store) ⊎ (CanStore b × Torn n.store r.1.store b)))

  persist_ok :
      (f : Faults) (b : Block) (n : NodeInner)
      → (Store.append_block f b n.store).0 ≡ ok tt
      → persist f b n ≡ (ok tt, record n { store = (Store.append_block f b n.store).1 })
  unfolding persist
  persist_ok f b n e = ground (arith, e)

  persist_refused :
      (f : Faults) (b : Block) (n : NodeInner) (k : Blockchain)
      → (Store.append_block f b n.store).0 ≡ err invalid_input
      → rollback_last_block n.genesis n.chain ≡ (ok tt, k)
      → persist f b n ≡ (
        err (persist_after_apply invalid_input),
        record n { store = (Store.append_block f b n.store).1; chain = k },
      )
  unfolding persist take_back
  persist_refused f b n k e h = ground (arith, e, h)

  persist_failed :
      (f : Faults) (b : Block) (n : NodeInner) (k : Blockchain)
      → (Store.append_block f b n.store).0 ≡ err os
      → rollback_last_block n.genesis n.chain ≡ (ok tt, k)
      → persist f b n ≡ (
        err (persist_after_apply os),
        record n { store = (Store.append_block f b n.store).1; chain = k },
      )
  unfolding persist take_back
  persist_failed f b n k e h = ground (arith, e, h)

  applied :
      (f : Faults) (b : Block) (now : ℕ) (n : NodeInner) (l : Blockchain)
      → n.store.poisoned ≡ false
      → try_append_network_block b now n.chain ≡ (ok tt, l)
      → append_network_block_persist f b now n ≡ persist_tip f (record n { chain = l })
  unfolding append_network_block_persist
  applied f b now n l h e = ground (arith, h, e)

  refused :
      (f : Faults) (b : Block) (now : ℕ) (n : NodeInner) (l : Blockchain) (x : ProtocolError)
      → n.store.poisoned ≡ false
      → try_append_network_block b now n.chain ≡ (err x, l)
      → append_network_block_persist f b now n
        ≡ (err (peer_rejected_block x), record n { chain = l })
  unfolding append_network_block_persist
  refused f b now n l x h e = ground (arith, h, e)

  module _ (f : Faults) (b : Block) (n : NodeInner) (bs : List Block)
      (s : Stored n.genesis n.chain bs) (h : Holds n.store bs) (k : CanEncodeBlock b) where
    persists :
        (l : Blockchain)
        → append_block b n.chain ≡ (ok tt, l)
        → IsPersisted (persist f b (record n { chain = l })) n bs b
    persists l e =
        let back =
          rollback_last_block-append_block n.genesis b n.chain l
            (Stored-Replayed n.genesis n.chain bs s) e in
        elim (append_block-IsAppended f b n.store bs h k) [
          | inl (done, fits, holds) ↦
              subst (λ r. IsPersisted r n bs b) (sym (persist_ok f b (record n { chain = l }) done))
                (inl (refl, e, holds))
          | inr (inl (refused, same)) ↦
              subst (λ r. IsPersisted r n bs b)
                (sym (persist_refused f b (record n { chain = l }) n.chain refused back))
                (inr (inr (invalid_input, refl, refl, inl same)))
          | inr (inr (failed, fits, torn)) ↦
              subst (λ r. IsPersisted r n bs b)
                (sym (persist_failed f b (record n { chain = l }) n.chain failed back))
                (inr (inr (os, refl, refl, inr (fits, torn))))
        ]

    tip_found :
        (l : Blockchain)
        → append_block b n.chain ≡ (ok tt, l)
        → persist_tip f (record n { chain = l }) ≡ persist f b (record n { chain = l })
    unfolding persist_tip
    tip_found l e =
        let x = append_block-Extends b n.chain l e in
        ground (arith, ap get_last? x.blocks_after ∙ get_last?-append n.chain.blocks b)

    -- A node whose chain and file agree, and a block from the wire: either the block extends both, or it
    -- is refused and nothing changes, or the write fails and the chain in memory is as before, with a store
    -- that is untouched or poisoned. No other outcome is possible.
    pub append_network_block_persist-IsPersisted :
        (now : ℕ) → IsPersisted (append_network_block_persist f b now n) n bs b
    append_network_block_persist-IsPersisted now =
        let l = (try_append_network_block b now n.chain).1 in
        elim (Result-cases (try_append_network_block b now n.chain).0) [
          | inl (_, went) ↦
              let e = try_append_ok b now n.chain l (λ i. (went i, l)) in
              subst (λ r. IsPersisted r n bs b)
                (sym (applied f b now n l h.healthy (λ i. (went i, l)) ∙ tip_found l e))
                (persists l e)
          | inr (x, failed) ↦ inr (
              inl (
                x,
                refused f b now n l x h.healthy (λ i. (failed i, l))
                    ∙ ap (λ z. (err (peer_rejected_block x), record n { chain = z }))
                        (try_append_atomic b now n.chain l x (λ i. (failed i, l))),
              ))
        ]
