-- ===== src/Tests/Witnesses.antt =====
-- The theorems about the ledger and its records at concrete inputs.
use trilogicon_core.Prelude.{◌≡◌, ◌+◌, ◌↔◌, refl, ok, err, arith, text_eq}
use trilogicon_core.Types.{Account}
use trilogicon_core.Errors.{invalid_nonce}
use trilogicon_core.Transaction.{basic_validate}
use trilogicon_core.Transaction.Validity.{IsAuthentic, basic_validate_iff}
use trilogicon_core.Block
use trilogicon_core.Block.Validity.{IsSealed, basic_validate-IsSealed_iff}
use trilogicon_core.State.{apply_transaction}
use trilogicon_core.State.Transfer.{Transfers, apply_transaction-Transfers}
use trilogicon_core.State.Acceptance.{Applicable, apply_transaction_no_replay}
use trilogicon_core.State.Invariant.{
  WellFormed, apply_transaction-WellFormed, apply_transaction_iff,
}
use trilogicon_core.State.Supply.{supply, supply-apply_transaction}
use trilogicon_core.Tests.{toy, payment, start, paid, first, code}

payment_applied : apply_transaction payment start ≡ (ok tt, paid)
unfolding code
payment_applied = refl

start-WellFormed : WellFormed start
unfolding code
start-WellFormed = ((refl, tt), ((refl, omega arith, omega arith), tt))

Transfers_example : (basic_validate payment ≡ ok tt) × Transfers payment start paid
Transfers_example = apply_transaction-Transfers payment start paid payment_applied

supply_example : supply paid + 1 ≡ supply start
supply_example = supply-apply_transaction payment start paid payment_applied

no_replay_example : apply_transaction payment paid ≡ (err invalid_nonce, paid)
no_replay_example = apply_transaction_no_replay payment start paid payment_applied

WellFormed_example : WellFormed (apply_transaction payment start).1
WellFormed_example = apply_transaction-WellFormed payment start start-WellFormed

accept_example :
    ((apply_transaction payment start).0 ≡ ok tt) ↔ ((a : Account) × Applicable payment start a)
accept_example = apply_transaction_iff payment start start-WellFormed

authentic_example : (basic_validate payment ≡ ok tt) ↔ IsAuthentic payment
authentic_example = basic_validate_iff payment

sealed_example : (Block.basic_validate first ≡ ok tt) ↔ IsSealed first
sealed_example = basic_validate-IsSealed_iff first (omega arith)
