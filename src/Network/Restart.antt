-- ===== src/Network/Restart.antt =====
-- What a restart makes of the file that a node left behind.
use trilogicon_core.Prelude.{
  ℕ, ◌≡◌, ◌≢◌, ◌≤◌, ◌<◌, length, ◌⊎◌, inl, inr, Result, ok, err, Text, Option, some, Bool, true,
  false, List, [], ◌∷◌, ◌++◌, arith, refl, sym, ap, subst, ◌∙◌, Result-cases,
}
use trilogicon_core.Errors.{ProtocolError}
use trilogicon_core.Crypto.{Primitives}
use trilogicon_core.Genesis.{Genesis}
use trilogicon_core.Block.{Block}
use trilogicon_core.Blockchain.{Blockchain, append_block}
use trilogicon_core.Encoding.Blocks.{CanEncodeBlock, block_bytes}
use trilogicon_core.Storage.{
  StorageError, replay, append_all, replay_blocks, load_blockchain_from_disk,
  read_all_blocks_repairing_tail,
}
use trilogicon_core.Storage.Io.{Outcome, fine}
use trilogicon_core.Storage.Reading.{CanStore}
use trilogicon_core.Storage.Store.{BlockStore, Faults}
use trilogicon_core.Storage.Holds.{Holds, Torn}
use trilogicon_core.Storage.Writes.{due, pending}
use trilogicon_core.Storage.Recovered.{IsLost}
use trilogicon_core.Storage.Restart.{
  read_all_blocks_repairing_tail-Holds, read_all_blocks_repairing_tail-Torn,
}
use trilogicon_core.Network.Node.{
  NodeInner, append_network_block_persist, persist_tip, persist, take_back, store_poisoned,
}
use trilogicon_core.Network.Durability.{
  Stored, Stored-append, append_network_block_persist-IsPersisted,
}

module _ ⦃c : Primitives⦄ where
  append_all_fails :
      (bs : List Block) (b : Block) (k l m : Blockchain) (x : ProtocolError)
      → append_all bs k ≡ (ok tt, l)
      → append_block b l ≡ (err x, m)
      → (append_all (bs ++ b ∷ []) k).0 ≡ err x
  unfolding append_all
  append_all_fails [] b k l m x e h = ground arith
  append_all_fails (y ∷ bs) b k l m x e h = elim (Result-cases (append_block y k).0) [
    | inl (_, went) ↦ ground (arith, append_all_fails bs b (append_block y k).1 l m x)
    | inr (_, failed) ↦ ground arith
  ]

  -- Replaying the blocks leads to the chain.
  replay_blocks-Stored :
      (g : Genesis) (k : Blockchain) (bs : List Block) (repaired : Bool)
      → Stored g k bs
      → replay_blocks g (bs, repaired) ≡ ok (k, repaired)
  unfolding replay_blocks
  replay_blocks-Stored g k bs repaired s = ground (arith, s.starts, s.replays)

  replay_blocks_refused :
      (g : Genesis) (k l : Blockchain) (bs : List Block) (b : Block) (x : ProtocolError)
      → Stored g k bs
      → append_block b k ≡ (err x, l)
      → replay_blocks g (bs ++ b ∷ [], false) ≡ err (replay x)
  unfolding replay_blocks
  replay_blocks_refused g k l bs b x s e =
      ground (arith, s.starts, append_all_fails bs b s.start k l x s.replays e)

  -- A node whose store works: its file, read back and replayed, is its chain, and the file stays.
  pub load_blockchain_from_disk-Holds :
      (o : Outcome) (n : NodeInner) (bs : List Block)
      → Stored n.genesis n.chain bs
      → Holds n.store bs
      → load_blockchain_from_disk n.genesis o (some n.store.disk)
        ≡ (ok (n.chain, false), some n.store.disk)
  unfolding load_blockchain_from_disk
  load_blockchain_from_disk-Holds o n bs s h =
      rw (load_blockchain_from_disk, read_all_blocks_repairing_tail-Holds o n.store bs h)
        (ap (λ r. (r, some n.store.disk)) (replay_blocks-Stored n.genesis n.chain bs false s))

  -- The chain is the replay of blocks that are in the file, or the last append failed, and a part of it
  -- may be in the file behind them.
  abbrev pub IsConsistent : NodeInner → Type 0
  IsConsistent n =
      (bs : List Block) × Stored n.genesis n.chain bs
      × (Holds n.store bs
          ⊎ ((s : BlockStore) × (b : Block) × Holds s bs × CanStore b × Torn s n.store b))

  -- The chain with the block, or the error with which it refuses the block.
  abbrev pub IsReplayed : Block → Blockchain → Result StorageError (Blockchain × Bool) → Type 0
  IsReplayed b k r =
      (((append_block b k).0 ≡ ok tt) × (r ≡ ok ((append_block b k).1, false)))
      ⊎ ((x : ProtocolError) × ((append_block b k).0 ≡ err x) × (r ≡ err (replay x)))

  -- What a restart comes up with behind a failed write of a block of which p bytes are in the file, out
  -- of so many with those of the header that was due: the chain with the block, if all bytes are there;
  -- the chain, if none or only the header are, or if a part of the length had to be cut off; and
  -- otherwise an error.
  abbrev pub IsRestored :
      Outcome
      → ℕ
      → ℕ
      → ℕ
      → List Block
      → Block
      → Blockchain
      → Result StorageError (Blockchain × Bool)
      → Type 0
  IsRestored o header_bytes whole p bs b k r =
      ((whole ≤ p) × IsReplayed b k r)
      ⊎ ((p < whole) × ((p ≡ 0) ⊎ (p ≡ header_bytes)) × (r ≡ ok (k, false)))
      ⊎ ((1 ≤ p) × (p < 4) × (p < whole) × (1 ≤ length bs) × (o ≡ fine) × (r ≡ ok (k, true)))
      ⊎ ((1 ≤ p)
          × (p ≢ header_bytes)
          × (p < whole)
          × IsLost o p bs
          × ((e : StorageError) × (r ≡ err e)))

  -- What a restart comes up with, and the file that it leaves: the chain and the same file where the
  -- store of the node works, and else what the bytes of the failed write decide.
  abbrev pub IsRestart :
      Outcome
      → (n : NodeInner) → IsConsistent n
      → Result StorageError (Blockchain × Bool) × Option Text
      → Type 0
  IsRestart o n (bs, s, inl h) r = r ≡ (ok (n.chain, false), some n.store.disk)
  IsRestart o n (bs, s, inr (t, b, h, k, torn)) r =
      IsRestored o (length (due t.format t.v2_magic_on_disk)) (length (pending t (block_bytes b)))
        (length torn.part) bs b n.chain r.0

  load_reads :
      (g : Genesis) (o : Outcome) (file : Option Text) (x : List Block × Bool)
      → (read_all_blocks_repairing_tail o file).0 ≡ ok x
      → (load_blockchain_from_disk g o file).0 ≡ replay_blocks g x
  unfolding load_blockchain_from_disk
  load_reads g o file x e = rw (load_blockchain_from_disk, e) refl

  load_fails :
      (g : Genesis) (o : Outcome) (file : Option Text) (e : StorageError)
      → (read_all_blocks_repairing_tail o file).0 ≡ err e
      → (load_blockchain_from_disk g o file).0 ≡ err e
  unfolding load_blockchain_from_disk
  load_fails g o file x e = rw (load_blockchain_from_disk, e) refl

  one_more-IsReplayed :
      (g : Genesis) (k : Blockchain) (bs : List Block) (b : Block)
      → Stored g k bs
      → IsReplayed b k (replay_blocks g (bs ++ b ∷ [], false))
  one_more-IsReplayed g k bs b s = elim (Result-cases (append_block b k).0) [
    | inl (_, went) ↦ inl (
      went,
      replay_blocks-Stored g (append_block b k).1 (bs ++ b ∷ []) false
          (Stored-append g k (append_block b k).1 bs b s (λ i. (went i, (append_block b k).1))),
    )
    | inr (x, failed) ↦ inr (
      x,
      failed,
      replay_blocks_refused g k (append_block b k).1 bs b x s
          (λ i. (failed i, (append_block b k).1)),
    )
  ]

  -- The file of any consistent node at a restart, whatever the disk answers to the rewriting. Where the
  -- store works, the chain that the node had in memory comes back, and the file stays. After a failed
  -- write of a block it comes back with that block if all bytes of the write are in the file, or the
  -- chain refuses the block; without it if none of them or only those of the header are, or if a part of
  -- the length can be cut off; and in the other cases there is an error.
  pub load_blockchain_from_disk-IsRestart :
      (o : Outcome) (n : NodeInner) (k : IsConsistent n)
      → IsRestart o n k (load_blockchain_from_disk n.genesis o (some n.store.disk))
  load_blockchain_from_disk-IsRestart o n (bs, s, inl h) =
      load_blockchain_from_disk-Holds o n bs s h
  load_blockchain_from_disk-IsRestart o n (bs, s, inr (t, b, h, k, torn)) =
      elim (read_all_blocks_repairing_tail-Torn o t n.store bs b h k torn) [
        | inl (all, e) ↦ inl (
          all,
          subst (IsReplayed b n.chain)
              (sym (load_reads n.genesis o (some n.store.disk) (bs ++ b ∷ [], false) e))
              (one_more-IsReplayed n.genesis n.chain bs b s),
        )
        | inr (inl (more, at, e)) ↦ inr (
            inl (
              more,
              at,
              load_reads n.genesis o (some n.store.disk) (bs, false) e
                  ∙ replay_blocks-Stored n.genesis n.chain bs false s,
            ))
        | inr (inr (inl (any, few, more, some_block, good, e))) ↦ inr (
            inr (
              inl (
                any,
                few,
                more,
                some_block,
                good,
                load_reads n.genesis o (some n.store.disk) (bs, true) e
                    ∙ replay_blocks-Stored n.genesis n.chain bs true s,
              )))
        | inr (inr (inr (any, past, more, lost, (x, e)))) ↦
            inr (
              inr
                (inr (any, past, more, lost, (x, load_fails n.genesis o (some n.store.disk) x e))))
      ]

  stays_poisoned :
      (f : Faults) (b : Block) (now : ℕ) (n : NodeInner)
      → n.store.poisoned ≡ true
      → append_network_block_persist f b now n ≡ (err store_poisoned, n)
  unfolding append_network_block_persist
  stays_poisoned f b now n e = ground (arith, e)

  genesis_kept :
      (f : Faults) (b : Block) (now : ℕ) (n : NodeInner)
      → (append_network_block_persist f b now n).1.genesis ≡ n.genesis
  unfolding append_network_block_persist persist_tip persist take_back
  genesis_kept f b now n = ground arith

  moved :
      (g h : Genesis) (k l : Blockchain) (bs : List Block)
      → h ≡ g
      → l ≡ k
      → Stored g k bs
      → Stored h l bs
  moved g h k l bs e e' s = rw (e, e') s

  -- An append by the network keeps a node consistent, whatever the disk answers.
  pub append_network_block_persist-IsConsistent :
      (f : Faults) (b : Block) (now : ℕ) (n : NodeInner)
      → IsConsistent n
      → CanEncodeBlock b
      → IsConsistent (append_network_block_persist f b now n).1
  append_network_block_persist-IsConsistent f b now n (bs, s, inr (t, a, h, k, torn)) e =
      subst IsConsistent (sym (ap (λ r. r.1) (stays_poisoned f b now n torn.sick)))
        (bs, s, inr (t, a, h, k, torn))
  append_network_block_persist-IsConsistent f b now n (bs, s, inl h) e =
      elim (append_network_block_persist-IsPersisted f b n bs s h e now) [
        | inl (went, appended, holds) ↦
            let l = (append_network_block_persist f b now n).1.chain in
            (
              bs ++ b ∷ [],
              moved n.genesis _ l l (bs ++ b ∷ []) (genesis_kept f b now n) refl
                  (Stored-append n.genesis n.chain l bs b s appended),
              inl holds,
            )
        | inr (inl (x, same)) ↦ subst IsConsistent (sym (ap (λ r. r.1) same)) (bs, s, inl h)
        | inr (inr (x, failed, chain_same, after)) ↦
            let stored = moved n.genesis _ n.chain _ bs (genesis_kept f b now n) chain_same s in
            elim after [
              | inl same ↦ (bs, stored, inl (rw same h))
              | inr (fits, torn) ↦ (bs, stored, inr (n.store, b, h, fits, torn))
            ]
      ]
