-- ===== src/State/Invariant.antt =====
-- The invariant of the ledger: one account per address, filed under its own address, with a
-- balance and a nonce that fit a u64.
use trilogicon_core.Prelude.{
  ℕ, ◌≡◌, ok, inl, inr, All, arith, IsU64, refl, text_eq, Option-cases, ◌↔◌, ap, Result-cases,
}
use trilogicon_core.Prelude.Maps.{Unique, insert-Unique, All-insert, All-get, get}
use trilogicon_core.Types.{Address, Account}
use trilogicon_core.Crypto.{Primitives}
use trilogicon_core.Transaction.{Transaction}
use trilogicon_core.State.{
  State, apply_transaction, put_account, set_balance, or_new, create_account,
}
use trilogicon_core.State.Transfer.{
  debit, refund, apply_transaction-cases, apply_transaction_atomic,
}
use trilogicon_core.State.Acceptance.{
  Applicable, apply_transaction_accepts, apply_transaction-Applicable,
}

abbrev pub Filed : Address × Account → Type 0
Filed (k, a) = (a.address ≡ k) × IsU64 a.balance × IsU64 a.nonce

abbrev pub WellFormed : State → Type 0
WellFormed s = Unique s.accounts × All Filed s.accounts

put_account-WellFormed :
    (k : Address) (a : Account) (s : State)
    → WellFormed s
    → Filed (k, a)
    → WellFormed (put_account k a s)
unfolding put_account
put_account-WellFormed k a s h f =
    (insert-Unique k a s.accounts h.0, All-insert Filed k a s.accounts h.1 f)

pub create_account-WellFormed :
    (k : Address) (balance : ℕ) (s : State)
    → IsU64 balance
    → WellFormed s
    → WellFormed (create_account k balance s)
unfolding create_account
create_account-WellFormed k balance s small h = elim (Option-cases (get k s.accounts)) [
  | inl e ↦ rw (e, create_account) (put_account-WellFormed k _ s h (refl, small, omega arith))
  | inr (a, e) ↦ rw (e, create_account) h
]

or_new-Filed : (k : Address) (s : State) → WellFormed s → Filed (k, or_new k (get k s.accounts))
or_new-Filed k s h = elim (Option-cases (get k s.accounts)) [
  | inl e ↦ rw e (refl, omega arith, omega arith)
  | inr (a, e) ↦ rw e (All-get Filed k s.accounts h.1 e)
]

set_balance-WellFormed :
    (k : Address) (b : ℕ) (s : State) → IsU64 b → WellFormed s → WellFormed (set_balance k b s)
unfolding set_balance
set_balance-WellFormed k b s small h =
    let f = or_new-Filed k s h in
    put_account-WellFormed k (record (or_new k (get k s.accounts)) { balance = b }) s h
      (f.0, small, f.2)

module _ ⦃c : Primitives⦄ where
  applied-WellFormed :
      (tx : Transaction) (s t : State)
      → WellFormed s
      → apply_transaction tx s ≡ (ok tt, t)
      → WellFormed t
  unfolding debit refund
  applied-WellFormed tx s t h e =
      let (b, fit) = apply_transaction-Applicable tx s t e in
      elim (apply_transaction-cases tx s t e).1 [
        | inl (same, m) ↦
            let f = All-get Filed tx.sender s.accounts h.1 m.1 in
            rw m.4 (
              put_account-WellFormed tx.sender (refund tx m.0) s h
                (f.0, omega arith, ground (arith, fit.found, fit.nonce_room)))
        | inr (ne, m) ↦
            let f = All-get Filed tx.sender s.accounts h.1 m.1 in
            rw m.4 (
              set_balance-WellFormed tx.receiver _ _ (fit.receiver_room ne) (
                put_account-WellFormed tx.sender (debit tx m.0) s h
                  (f.0, omega arith, ground (arith, fit.found, fit.nonce_room))))
      ]

  -- Whatever the transaction, accepted or refused, the ledger stays well formed: one account for
  -- each address, filed under its own address, with a balance and a nonce that fit a u64.
  pub apply_transaction-WellFormed :
      (tx : Transaction) (s : State) → WellFormed s → WellFormed (apply_transaction tx s).1
  apply_transaction-WellFormed tx s h = elim (Result-cases (apply_transaction tx s).0) [
    | inl (_, e) ↦
        applied-WellFormed tx s (apply_transaction tx s).1 h
          (λ i. (e i, (apply_transaction tx s).1))
    | inr (x, e) ↦
        rw
          (apply_transaction_atomic tx s (apply_transaction tx s).1 x
            (λ i. (e i, (apply_transaction tx s).1)))
          h
  ]

  -- On a well formed ledger a transaction is applied exactly when it is valid, its sender has an
  -- account whose nonce is the transaction's, that account covers amount and fee, and neither the
  -- nonce nor the balance of another receiver would overflow a u64.
  pub apply_transaction_iff :
      (tx : Transaction) (s : State)
      → WellFormed s
      → ((apply_transaction tx s).0 ≡ ok tt) ↔ ((a : Account) × Applicable tx s a)
  apply_transaction_iff tx s h = (
    λ e.
        apply_transaction-Applicable tx s (apply_transaction tx s).1
          (λ i. (e i, (apply_transaction tx s).1)),
    λ (a, fit).
        let (t, e) =
          apply_transaction_accepts tx s a (All-get Filed tx.sender s.accounts h.1 fit.found).1
            fit in
        ap (λ r. r.0) e,
  )
