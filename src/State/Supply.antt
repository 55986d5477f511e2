-- ===== src/State/Supply.antt =====
-- The total supply, and the fee that each transfer burns.
use trilogicon_core.Prelude.{
  ℕ, ◌+◌, ◌≤◌, ◌≡◌, ok, err, inl, inr, [], ◌∷◌, arith, leb, u64_max, if◌then◌else◌, str, text_eq,
}
use trilogicon_core.Prelude.Maps.{Dict, get, insert}
use trilogicon_core.Types.{Address, Account}
use trilogicon_core.Errors.{state_error}
use trilogicon_core.Crypto.{Primitives}
use trilogicon_core.Transaction.{Transaction}
use trilogicon_core.State.{
  State, apply_transaction, put_account, set_balance, or_new, total_balance_sum, add_balances,
}
use trilogicon_core.State.Transfer.{
  balance_of, balance_in, debit, refund, apply_transaction-cases, get-put_account,
}

sum_balances : Dict Address Account → ℕ
sum_balances [] = 0
sum_balances ((_, a) ∷ rest) = a.balance + sum_balances rest

-- The sum of all balances, unbounded.
unfoldable pub supply : State → ℕ
unfolding sum_balances
supply s = sum_balances s.accounts

add_balances_lem :
    (acc : ℕ) (m : Dict Address Account)
    → acc ≤ u64_max
    → add_balances acc m ≡ (
        if leb (acc + sum_balances m) u64_max
        then ok (acc + sum_balances m)
        else err (state_error (str "total balance sum overflow")))
unfolding add_balances sum_balances
add_balances_lem acc [] h = ground arith
add_balances_lem acc ((k, a) ∷ rest) h = ground (arith, add_balances_lem (acc + a.balance) rest)

sum_balances-insert :
    (k : Address) (a : Account) (m : Dict Address Account)
    → sum_balances (insert k a m) + balance_in (get k m) ≡ sum_balances m + a.balance
unfolding sum_balances insert get
sum_balances-insert k a [] = omega arith
sum_balances-insert k a ((j, b) ∷ m) = ground (arith, sum_balances-insert k a m)

sum_balances-get : (k : Address) (m : Dict Address Account) → balance_in (get k m) ≤ sum_balances m
unfolding sum_balances get
sum_balances-get k [] = omega arith
sum_balances-get k ((j, b) ∷ m) = ground (arith, sum_balances-get k m)

supply-put_account :
    (k : Address) (a : Account) (s : State)
    → supply (put_account k a s) + balance_of s k ≡ supply s + a.balance
unfolding supply put_account
supply-put_account k a s = sum_balances-insert k a s.accounts

supply-set_balance :
    (k : Address) (b : ℕ) (s : State) → supply (set_balance k b s) + balance_of s k ≡ supply s + b
unfolding set_balance
supply-set_balance k b s =
    supply-put_account k (record (or_new k (get k s.accounts)) { balance = b }) s

-- The audit reports the sum of all balances when that fits a u64, and an error otherwise, though
-- it stops at the first partial sum that does not.
pub total_balance_sum_lem :
    (s : State)
    → total_balance_sum s ≡ (
        if leb (supply s) u64_max
        then ok (supply s)
        else err (state_error (str "total balance sum overflow")))
unfolding total_balance_sum supply
total_balance_sum_lem s = ground (arith, add_balances_lem 0 s.accounts (omega arith))

module _ ⦃c : Primitives⦄ where
  -- A transfer burns exactly its fee: the supply falls by the fee, also for a transfer to oneself
  -- and for one that creates the receiver's account.
  pub supply-apply_transaction :
      (tx : Transaction) (s t : State)
      → apply_transaction tx s ≡ (ok tt, t)
      → supply t + tx.fee ≡ supply s
  unfolding debit refund
  supply-apply_transaction tx s t e = elim (apply_transaction-cases tx s t e).1 [
    | inl (same, m) ↦ rw m.4 (ground (arith, supply-put_account tx.sender (refund tx m.0) s))
    | inr (ne, m) ↦
        let u = put_account tx.sender (debit tx m.0) s in
        rw m.4 (
          ground (
            arith,
            supply-put_account tx.sender (debit tx m.0) s,
            supply-set_balance tx.receiver (balance_of s tx.receiver + tx.amount) u,
            get-put_account tx.receiver tx.sender (debit tx m.0) s,
          ))
  ]
