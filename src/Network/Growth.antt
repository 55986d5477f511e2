-- ===== src/Network/Growth.antt =====
-- node/src/network.rs: how many blocks the chain grows by in one call of the client.
use trilogicon_core.Prelude.{
  ℕ, zero, suc, ◌+◌, ◌-◌, ◌≡◌, ◌≤◌, Result, ok, err, ⊤, Option, none, some, Bool, true, false, List,
  [], ◌∷◌, arith, length, length-append, take, refl, inl, inr, Result-cases, Option-cases,
  Bool-cases, saturating_add, ap, ◌∙◌, ◌⊎◌, ◌≢◌, get_last?, leb,
}
use trilogicon_core.Crypto.{Primitives}
use trilogicon_core.Errors.{ProtocolError}
use trilogicon_core.Consensus.{validate_block_vs_local_time}
use trilogicon_core.Genesis.{Genesis}
use trilogicon_core.Block.{Block}
use trilogicon_core.Blockchain.{
  Blockchain, append_block, try_append_network_block, rollback_last_block,
  rebuild_state_from_genesis, pop,
}
use trilogicon_core.Blockchain.Append.{append_block-Extends, append_block_atomic}
use trilogicon_core.Storage.Io.{IoError}
use trilogicon_core.Storage.Store.{Faults}
use trilogicon_core.Storage.Store as Store
use trilogicon_core.Network.Node.{
  NodeInner, NetworkBlockPersistFailure, append_network_block_persist, persist_tip, persist,
  take_back,
}
use trilogicon_core.Network.Session.{count_up, mempool_hygiene_after_ledger_advance}
use trilogicon_core.Network.Sync.{
  SyncWorkBudget, Pull, Progress, SyncEnd, append_failed, append_batch, take_batch, pull_once,
  finish_sync,
}

pub length-take_max : (n : ℕ) (bs : List Block) → length (take n bs) ≤ n
length-take_max zero bs = omega arith
length-take_max (suc n) [] = omega arith
length-take_max (suc n) (b ∷ bs) = omega (arith, length-take_max n bs)

abbrev pub size : Blockchain → ℕ
size k = length k.blocks

length-pop : (bs : List Block) → length (pop bs) ≤ length bs
unfolding pop
length-pop [] = omega arith
length-pop (b ∷ []) = omega arith
length-pop (a ∷ b ∷ rest) = omega (arith, length-pop (b ∷ rest))

-- The call ended because a block could not be appended.
unfoldable pub is_append_failure : SyncEnd → Bool
is_append_failure (append_failed e) = true
is_append_failure e = false

unfoldable pub goes_wrong : Option SyncEnd → Bool
unfolding is_append_failure
goes_wrong none = false
goes_wrong (some e) = is_append_failure e

module _ ⦃c : Primitives⦄ where
  size-rollback_last_block :
      (g : Genesis) (k : Blockchain) → size (rollback_last_block g k).1 ≤ size k
  unfolding rollback_last_block rebuild_state_from_genesis
  size-rollback_last_block g k = ground (arith, length-pop k.blocks)

  size-append_block :
      (b : Block) (k : Blockchain)
      → (append_block b k).0 ≡ ok tt
      → size (append_block b k).1 ≡ size k + 1
  size-append_block b k e =
      let x = append_block-Extends b k (append_block b k).1 (λ i. (e i, (append_block b k).1)) in
      ap length x.blocks_after ∙ length-append k.blocks (b ∷ [])

  -- The chain has the block, or the call has failed and the chain is as before.
  try_append_cases :
      (b : Block) (now : ℕ) (k : Blockchain)
      → (((try_append_network_block b now k).0 ≡ ok tt)
          × (size (try_append_network_block b now k).1 ≡ size k + 1))
        ⊎ ((x : ProtocolError) × ((try_append_network_block b now k).0 ≡ err x)
            × (size (try_append_network_block b now k).1 ≡ size k))
  unfolding try_append_network_block
  try_append_cases b now k =
      elim (Result-cases
        (validate_block_vs_local_time b.timestamp_unix now k.consensus.max_future_drift_secs)) [
          | inr (x, early) ↦ inr (x, ground (arith, early), ground (arith, early))
          | inl (_, timely) ↦ elim (Result-cases (append_block b k).0) [
            | inl (_, went) ↦ inl (
              ground (arith, timely, went),
              ground (arith, timely, went, size-append_block b k went),
            )
            | inr (x, failed) ↦
                let same =
                  append_block_atomic b k (append_block b k).1 x
                    (λ i. (failed i, (append_block b k).1)) in
                inr (x, ground (arith, timely, failed), ground (arith, timely, failed, same))
          ]
        ]

  size-take_back : (e : IoError) (n : NodeInner) → size (take_back e n).1.chain ≤ size n.chain
  unfolding take_back
  size-take_back e n = ground (arith, size-rollback_last_block n.genesis n.chain)

  take_back_fails : (e : IoError) (n : NodeInner) → (take_back e n).0 ≢ ok tt
  unfolding take_back
  take_back_fails e n h = ground (arith, h)

  -- What is done with a write does not make the chain longer, and leaves it if the write went well.
  abbrev Settled : NodeInner → Result NetworkBlockPersistFailure ⊤ × NodeInner → Type 0
  Settled n r = (size r.1.chain ≤ size n.chain) × (r.0 ≡ ok tt → size r.1.chain ≡ size n.chain)

  persist-Settled : (f : Faults) (b : Block) (n : NodeInner) → Settled n (persist f b n)
  unfolding persist
  persist-Settled f b n = elim (Result-cases (Store.append_block f b n.store).0) [
    | inl (_, went) ↦ (ground (arith, went), λ e. ground (arith, went))
    | inr (x, failed) ↦
        let m = record n { store = (Store.append_block f b n.store).1 } in
        (
          ground (arith, failed, size-take_back x m),
          λ e. absurd (take_back_fails x m (ground (arith, failed, e))),
        )
  ]

  persist_tip-Settled : (f : Faults) (n : NodeInner) → Settled n (persist_tip f n)
  unfolding persist_tip
  persist_tip-Settled f n = elim (Option-cases (get_last? n.chain.blocks)) [
    | inl nothing ↦ (ground (arith, nothing), λ e. ground (arith, nothing))
    | inr (tip, there) ↦ rw (persist_tip, there) (persist-Settled f tip n)
  ]

  -- A block that is appended makes the chain one longer, and one that is not never makes it longer than
  -- that.
  pub append_size :
      (f : Faults) (b : Block) (now : ℕ) (n : NodeInner)
      → (size (append_network_block_persist f b now n).1.chain ≤ size n.chain + 1)
        × ((append_network_block_persist f b now n).0 ≡ ok tt
            → size (append_network_block_persist f b now n).1.chain ≡ size n.chain + 1)
  unfolding append_network_block_persist
  append_size f b now n =
      let t =
        persist_tip-Settled f (record n { chain = (try_append_network_block b now n.chain).1 }) in
      elim (try_append_cases b now n.chain) [
        | inl (went, more) ↦
            (ground (arith, went, more, t.0), λ e. ground (arith, went, more, t.1, e))
        | inr (x, failed, same) ↦ (ground (arith, failed, same), λ e. ground (arith, failed, e))
      ]

  -- From one point of a call to another the chain has grown by as many blocks as were counted, unless an
  -- append failed, and in any case by no more than the budget has left.
  pub record Counts (budget : SyncWorkBudget) (p : Progress) (wrong : Bool) (q : Progress)
      : Type 0 where
    pub counted : wrong ≡ false → size q.node.chain + p.total ≡ size p.node.chain + q.total
    pub within : size q.node.chain + p.total ≤ size p.node.chain + budget.max_blocks_per_call

  module _ (budget : SyncWorkBudget) where
    append_batch-Counts :
        (pull : Pull) (i : ℕ) (bs : List Block) (p : Progress)
        → p.total + length bs ≤ budget.max_blocks_per_call
        → Counts budget p
            (goes_wrong (append_batch budget pull i bs p).0)
            (append_batch budget pull i bs p).1
    unfolding append_batch goes_wrong is_append_failure
    append_batch-Counts pull i [] p fits = record {
      counted = λ e. refl;
      within = omega (arith, fits);
    }
    append_batch-Counts pull i (b ∷ bs) p fits =
        let r = append_network_block_persist (pull.faults i) b (pull.now_unix i) p.node in
        let s = append_size (pull.faults i) b (pull.now_unix i) p.node in
        let after : Progress = record p { node = r.1; total = p.total + 1 } in
        elim (Result-cases r.0) [
          | inr (x, failed) ↦ record {
            counted = λ e. ground (arith, failed, e);
            within = ground (arith, failed, s.0, fits);
          }
          | inl (_, went) ↦
              let rest = append_batch-Counts pull (i + 1) bs after (ground (arith, fits)) in
              let one = s.1 went in
              elim (Bool-cases (leb budget.max_blocks_per_call (p.total + 1))) [
                | inl over ↦ record {
                  counted = λ e. ground (arith, went, over, one);
                  within = ground (arith, went, over, one, fits);
                }
                | inr under ↦ record {
                  counted = λ e. ground (arith, went, under, one, rest.counted, e);
                  within = ground (arith, went, under, one, rest.within);
                }
              ]
        ]

    take_batch-Counts :
        (pull : Pull) (bs : List Block) (p : Progress)
        → p.total ≤ budget.max_blocks_per_call
        → Counts budget p
            (goes_wrong (take_batch budget pull bs p).0)
            (take_batch budget pull bs p).1
    unfolding take_batch goes_wrong is_append_failure
    take_batch-Counts pull bs p h =
        let room = budget.max_blocks_per_call - p.total in
        let c =
          append_batch-Counts pull 0 (take room bs) p (omega (arith, h, length-take_max room bs)) in
        record {
          counted = λ e. ground (arith, h, e, c.counted);
          within = ground (arith, h, c.within);
        }

    pub pull_once-Counts :
        (pull : Pull) (p : Progress)
        → p.total ≤ budget.max_blocks_per_call
        → Counts budget p (goes_wrong (pull_once budget pull p).0) (pull_once budget pull p).1
    unfolding pull_once goes_wrong is_append_failure
    pull_once-Counts pull p h = elim (Result-cases pull.answer) [
      | inr (x, failed) ↦ record {
        counted = λ e. ground (arith, failed);
        within = ground (arith, failed, h);
      }
      | inl (answer, went) ↦
          let c =
            take_batch-Counts pull answer.0
              (record p {
                rounds = count_up p.rounds;
                wire_bytes = saturating_add p.wire_bytes answer.1;
              })
              h in
          record {
            counted = λ e. ground (arith, went, e, c.counted);
            within = ground (arith, went, h, c.within);
          }
    ]

  pub size-finish_sync :
      (e : SyncEnd) (p : Progress) → size (finish_sync e p).node.chain ≡ size p.node.chain
  unfolding finish_sync mempool_hygiene_after_ledger_advance
  size-finish_sync e p = ground arith
