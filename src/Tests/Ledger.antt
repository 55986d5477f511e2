-- ===== src/Tests/Ledger.antt =====
-- Runs of the ledger code.
use trilogicon_core.Prelude.{◌≡◌, refl, ok}
use trilogicon_core.Transaction.{basic_validate}
use trilogicon_core.State.{apply_transaction, total_balance_sum}
use trilogicon_core.Blockchain.{new_chain, append_block, height}
use trilogicon_core.Mempool.{try_submit, new}
use trilogicon_core.Tests.{toy, payment, start, paid, code, root, document, first, grown, pool}

payment_valid : basic_validate payment ≡ ok tt
unfolding code
payment_valid = refl

payment_applied : apply_transaction payment start ≡ (ok tt, paid)
unfolding code
payment_applied = refl

paid_audit : total_balance_sum paid ≡ ok 99
unfolding code
paid_audit = refl

root_new : new_chain document ≡ ok root
unfolding code
root_new = refl

first_appended : append_block first root ≡ (ok tt, grown)
unfolding code
first_appended = refl

grown_height : height grown ≡ 1
unfolding code
grown_height = refl

payment_submitted : try_submit payment (new 2) ≡ (ok tt, pool)
unfolding code
payment_submitted = refl
