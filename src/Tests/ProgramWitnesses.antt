-- ===== src/Tests/ProgramWitnesses.antt =====
-- The theorems about a round of the program at concrete inputs.
use trilogicon_core.Prelude.{◌≡◌, refl, ok, none, true, [], ◌∷◌, arith, subst, text_eq, inl}
use trilogicon_core.Block.{genesis}
use trilogicon_core.Blockchain.Sealing.{sealed_block}
use trilogicon_core.Mempool.{ordered_candidates_for_seal}
use trilogicon_core.Mempool.Hygiene.{
  hygiene_vs_committed_ledger, drop_later_sender_nonce_conflicts_keep_fifo_first, retain_known,
  later_conflicts, seen_before,
}
use trilogicon_core.Encoding.Blocks.{CanEncodeBlock}
use trilogicon_core.Storage.Io.{fine}
use trilogicon_core.Network.Node.{NodeInner, for_tests}
use trilogicon_core.Network.Restart.{IsConsistent}
use trilogicon_core.Pending.{PendingDisk, DrainIo, drain_pending_file}
use trilogicon_core.Program.{
  RunState, RoundIo, hygiene, seal_step, run_round, drain_step, allow_sealing,
}
use trilogicon_core.Program.Sealing.{Sealable, IsSealed, seal_step-IsSealed}
use trilogicon_core.Program.Rounds.{readied, run_round-IsConsistent}
use trilogicon_core.Tests.{toy, code, payment, pool}
use trilogicon_core.Tests.StorageWitnesses.{working, broken, blank-Holds}
use trilogicon_core.Tests.NetworkWitnesses.{node, root-Stored, first-CanEncodeBlock, one_round}

-- A node on the genesis block with a payment in its pool.
abbrev paying : NodeInner
paying = record node { pool = pool }

paying-IsConsistent : IsConsistent paying
unfolding for_tests
paying-IsConsistent = ([], root-Stored, inl blank-Holds)

candidates :
    ordered_candidates_for_seal (hygiene paying).pool (hygiene paying).chain.state 64
    ≡ ok (payment ∷ [])
unfolding code hygiene hygiene_vs_committed_ledger for_tests
    drop_later_sender_nonce_conflicts_keep_fifo_first retain_known later_conflicts seen_before
candidates = refl

paying-Sealable : Sealable (hygiene paying) 9
unfolding code hygiene hygiene_vs_committed_ledger for_tests
paying-Sealable tip txs tip_last picked =
    let same_tip : genesis ≡ tip = ground arith in
    let same_txs : payment ∷ [] ≡ txs = cc (candidates, picked) in
    subst (λ t. CanEncodeBlock (sealed_block t 9 txs)) same_tip
      (subst (λ l. CanEncodeBlock (sealed_block genesis 9 l)) same_txs first-CanEncodeBlock)

seal_example : IsSealed (seal_step true working 9 paying) paying
seal_example = seal_step-IsSealed true working 9 paying paying-IsConsistent paying-Sealable

abbrev no_queue : PendingDisk
no_queue = record { pending = none; tmp = none }

abbrev drains : DrainIo
drains = record {
  lock = true;
  read = true;
  rewrite = record { create = true; write = fine; sync = fine; rename = fine };
}

abbrev running : RunState
running = record {
  node = paying;
  queue = no_queue;
  book = record { by_addr = [] };
  sealing_allowed = true;
}

-- No peer answers, and the write of the sealed block fails.
abbrev silent : RoundIo
silent = record {
  drain = drains;
  catch_up = λ p. [];
  now_unix = 9;
  faults = broken;
  now_sync = 10;
  sync = λ p. record { pulls = []; now_unix = 10 };
  saved = true;
}

running-Sealable : Sealable (hygiene (readied one_round [] silent running).node) 9
unfolding drain_step allow_sealing drain_pending_file
running-Sealable = paying-Sealable

round_example : IsConsistent (run_round one_round [] silent running).1.node
round_example =
    run_round-IsConsistent one_round [] silent running paying-IsConsistent (λ p. tt) (λ p. tt)
      running-Sealable
