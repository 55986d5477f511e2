-- ===== src/Program/Catching.antt =====
-- node/src/main.rs: what a call of `sync_from_peer` does to the chain and the file.
use trilogicon_core.Prelude.{
  ℕ, ◌+◌, ◌-◌, ◌≡◌, Text, Result, ok, err, ⊤, Bool, ◌⊎◌, List, [], ◌∷◌, arith, All, take, subst,
  sym, Result-cases, Option-cases, Bool-cases, inl, inr, zero, suc, leb, saturating_add, is_nil,
}
use trilogicon_core.Crypto.{Primitives}
use trilogicon_core.Block.{Block}
use trilogicon_core.Encoding.Blocks.{CanEncodeBlock}
use trilogicon_core.Network.Wire.{WireError}
use trilogicon_core.Network.Node.{NodeInner, append_network_block_persist}
use trilogicon_core.Network.Restart.{IsConsistent, append_network_block_persist-IsConsistent}
use trilogicon_core.Network.Sessions.{Same-IsConsistent}
use trilogicon_core.Network.Session.{mempool_hygiene_after_ledger_advance, count_up}
use trilogicon_core.Network.Sync.{
  SyncWorkBudget, Pull, Progress, append_batch, take_batch, pull_once, pull_all, finish_sync,
  sync_from_peer, nothing_yet, stops, SyncEnd,
}
use trilogicon_core.Program.{catch_up_all, has_panicked}

-- The blocks of an answer can be encoded, as what was decoded from the wire can.
abbrev pub IsWrittenAnswer : Result WireError (List Block × ℕ) → Type 0
IsWrittenAnswer (err e) = ⊤
IsWrittenAnswer (ok (bs, n)) = All CanEncodeBlock bs

abbrev pub AreWritten : List Pull → Type 0
AreWritten = All (λ p. IsWrittenAnswer p.answer)

take-All : (n : ℕ) (bs : List Block) → All CanEncodeBlock bs → All CanEncodeBlock (take n bs)
take-All zero bs k = tt
take-All (suc n) [] k = tt
take-All (suc n) (b ∷ bs) k = (k.0, take-All n bs k.1)

module _ ⦃c : Primitives⦄ (budget : SyncWorkBudget) where
  append_batch-IsConsistent :
      (pull : Pull) (i : ℕ) (bs : List Block) (p : Progress)
      → IsConsistent p.node
      → All CanEncodeBlock bs
      → IsConsistent (append_batch budget pull i bs p).1.node
  unfolding append_batch
  append_batch-IsConsistent pull i [] p h k = h
  append_batch-IsConsistent pull i (b ∷ bs) p h k =
      elim (Result-cases
        (append_network_block_persist (pull.faults i) b (pull.now_unix i) p.node).0) [
          | inr (x, bad) ↦ rw (bad, append_batch) kept
          | inl (_, good) ↦ elim (Bool-cases (leb budget.max_blocks_per_call (p.total + 1))) [
            | inl over ↦ rw (good, append_batch) (rw over kept)
            | inr under ↦
                rw (good, append_batch)
                  (rw under (
                    append_batch-IsConsistent pull (i + 1) bs
                      (record p {
                        node =
                            (append_network_block_persist (pull.faults i) b (pull.now_unix i)
                              p.node).1;
                        total = p.total + 1;
                      })
                      kept k.1))
          ]
        ]
    where
      kept :
          IsConsistent (append_network_block_persist (pull.faults i) b (pull.now_unix i) p.node).1
      kept =
          append_network_block_persist-IsConsistent (pull.faults i) b (pull.now_unix i) p.node h k.0

  take_batch_node :
      (pull : Pull) (bs : List Block) (p : Progress)
      → ((take_batch budget pull bs p).1.node ≡ p.node)
        ⊎ ((take_batch budget pull bs p).1.node
            ≡ (append_batch budget pull 0
                (take (budget.max_blocks_per_call - p.total) bs)
                p).1.node)
  unfolding take_batch
  take_batch_node pull bs p = ground arith

  take_batch-IsConsistent :
      (pull : Pull) (bs : List Block) (p : Progress)
      → IsConsistent p.node
      → All CanEncodeBlock bs
      → IsConsistent (take_batch budget pull bs p).1.node
  take_batch-IsConsistent pull bs p h k = elim (take_batch_node pull bs p) [
    | inl same ↦ subst IsConsistent (sym same) h
    | inr went ↦ subst IsConsistent (sym went) (
        append_batch-IsConsistent pull 0 (take (budget.max_blocks_per_call - p.total) bs) p h
          (take-All (budget.max_blocks_per_call - p.total) bs k))
  ]

  pull_once-IsConsistent :
      (pull : Pull) (p : Progress)
      → IsConsistent p.node
      → IsWrittenAnswer pull.answer
      → IsConsistent (pull_once budget pull p).1.node
  unfolding pull_once
  pull_once-IsConsistent pull p h k = elim (Result-cases pull.answer) [
    | inr (x, bad) ↦ rw (bad, pull_once) h
    | inl (answer, good) ↦ elim (Bool-cases (is_nil answer.0)) [
      | inl empty ↦ rw (good, pull_once) (rw empty h)
      | inr more ↦
          rw (good, pull_once)
            (rw more (take_batch-IsConsistent pull answer.0 (counted answer.1) h (rw good at k)))
    ]
  ]
    where
      counted : ℕ → Progress
      counted bytes = record p {
        rounds = count_up p.rounds;
        wire_bytes = saturating_add p.wire_bytes bytes;
      }

  pull_all-IsConsistent :
      (pulls : List Pull) (p : Progress)
      → IsConsistent p.node
      → AreWritten pulls
      → IsConsistent (pull_all budget pulls p).1.node
  unfolding pull_all
  pull_all-IsConsistent [] p h k = elim (Bool-cases (stops budget p)) [
    | inl over ↦ rw over h
    | inr under ↦ rw under h
  ]
  pull_all-IsConsistent (pull ∷ later) p h k = elim (Bool-cases (stops budget p)) [
    | inl over ↦ rw over h
    | inr under ↦ elim (Option-cases (pull_once budget pull p).0) [
      | inr (e, ended) ↦ rw under (rw ended (pull_once-IsConsistent pull p h k.0))
      | inl more ↦ rw under (
          rw more (
            pull_all-IsConsistent later (pull_once budget pull p).1
              (pull_once-IsConsistent pull p h k.0) k.1))
    ]
  ]

  finish_sync-IsConsistent :
      (e : SyncEnd) (p : Progress) → IsConsistent p.node → IsConsistent (finish_sync e p).node
  unfolding finish_sync mempool_hygiene_after_ledger_advance
  finish_sync-IsConsistent e p h =
      Same-IsConsistent (finish_sync e p).node p.node (ground arith, ground arith, ground arith) h

  -- A call that catches up with a peer leaves a consistent node consistent, however the peer answers
  -- and the disk behaves.
  pub sync_from_peer-IsConsistent :
      (pulls : List Pull) (n : NodeInner)
      → IsConsistent n
      → AreWritten pulls
      → IsConsistent (sync_from_peer budget pulls n).1.node
  unfolding sync_from_peer
  sync_from_peer-IsConsistent pulls n h k = elim (sync_node pulls n) [
    | inl same ↦ subst IsConsistent (sym same) h
    | inr went ↦ subst IsConsistent (sym went) (
        finish_sync-IsConsistent (pull_all budget pulls (nothing_yet n)).0
          (pull_all budget pulls (nothing_yet n)).1
          (pull_all-IsConsistent pulls (nothing_yet n) h k))
  ]
    where
      sync_node :
          (pulls : List Pull) (n : NodeInner)
          → ((sync_from_peer budget pulls n).1.node ≡ n)
            ⊎ ((sync_from_peer budget pulls n).1.node
                ≡ (finish_sync
                    (pull_all budget pulls (nothing_yet n)).0
                    (pull_all budget pulls (nothing_yet n)).1).node)
      sync_node pulls n = ground arith

  pub catch_up_all-IsConsistent :
      (answers : Text → List Pull) (peers : List Text) (all_ok : Bool) (n : NodeInner)
      → IsConsistent n
      → ((p : Text) → AreWritten (answers p))
      → IsConsistent (catch_up_all budget answers peers all_ok n).1
  unfolding catch_up_all
  catch_up_all-IsConsistent answers [] all_ok n h k = h
  catch_up_all-IsConsistent answers (p ∷ rest) all_ok n h k =
      let kept = sync_from_peer-IsConsistent (answers p) n h (k p) in
      elim (Bool-cases (has_panicked (sync_from_peer budget (answers p) n).0)) [
        | inl stopped ↦ rw stopped kept
        | inr plain ↦ rw plain (
            catch_up_all-IsConsistent answers rest _ (sync_from_peer budget (answers p) n).1.node
              kept k)
      ]
