-- ===== src/State/Acceptance.antt =====
-- When `apply_transaction` accepts, and how it answers a wrong nonce or a replay.
use trilogicon_core.Prelude.{
  ◌+◌, ◌≡◌, ◌≢◌, ◌≤◌, ◌<◌, some, ok, err, inl, inr, ◌=?◌, text_eq, arith, Option-cases, IsU64,
  u64_max,
}
use trilogicon_core.Prelude.Maps.{get}
use trilogicon_core.Types.{Account}
use trilogicon_core.Errors.{invalid_nonce}
use trilogicon_core.Crypto.{Primitives}
use trilogicon_core.Transaction.{Transaction, basic_validate}
use trilogicon_core.State.{
  State, apply_transaction, apply_to_other, apply_self_transfer, put_account, set_balance, credited,
}
use trilogicon_core.State.Transfer.{
  balance_of, debit, refund, Moved, apply_transaction-cases, get-put_account, get-set_balance,
}

module _ ⦃c : Primitives⦄ where
  -- A valid transaction whose sender exists is refused with `InvalidNonce` whenever its nonce is
  -- not the account's, whatever the balances are, unless amount and fee overflow a u64.
  pub apply_transaction_wrong_nonce :
      (tx : Transaction) (s : State) (a : Account)
      → basic_validate tx ≡ ok tt
      → get tx.sender s.accounts ≡ some a
      → tx.amount + tx.fee ≤ u64_max
      → a.nonce ≢ tx.nonce
      → apply_transaction tx s ≡ (err invalid_nonce, s)
  unfolding apply_transaction apply_self_transfer apply_to_other
  apply_transaction_wrong_nonce tx s a valid found fits wrong = ground arith

  fits_u64 :
      (tx : Transaction) (s t : State)
      → apply_transaction tx s ≡ (ok tt, t)
      → tx.amount + tx.fee ≤ u64_max
  unfolding apply_transaction apply_self_transfer apply_to_other
  fits_u64 tx s t e = ground arith

  sender_after :
      (tx : Transaction) (s t : State)
      → ¬ (tx.sender ≡ tx.receiver)
      → (m : Moved tx s t) → get tx.sender t.accounts ≡ some (debit tx m.0)
  sender_after tx s t ne m = rw m.4 (
      ground (
        arith,
        get-set_balance tx.sender tx.receiver (balance_of s tx.receiver + tx.amount)
            (put_account tx.sender (debit tx m.0) s),
        get-put_account tx.sender tx.sender (debit tx m.0) s,
      ))

  -- A transaction that was applied is refused by the ledger that it left, with `InvalidNonce`.
  pub apply_transaction_no_replay :
      (tx : Transaction) (s t : State)
      → apply_transaction tx s ≡ (ok tt, t)
      → apply_transaction tx t ≡ (err invalid_nonce, t)
  unfolding debit refund
  apply_transaction_no_replay tx s t e =
      let (valid, how) = apply_transaction-cases tx s t e in
      elim how [
        | inl (same, m) ↦
            apply_transaction_wrong_nonce tx t (refund tx m.0) valid
              (rw m.4 (ground (arith, get-put_account tx.sender tx.sender (refund tx m.0) s)))
              (fits_u64 tx s t e) (omega arith)
        | inr (ne, m) ↦
            apply_transaction_wrong_nonce tx t (debit tx m.0) valid (sender_after tx s t ne m)
              (fits_u64 tx s t e) (omega arith)
      ]

  -- What `apply_transaction` asks of a transaction.
  pub record Applicable (tx : Transaction) (s : State) (a : Account) : Type 0 where
    pub valid : basic_validate tx ≡ ok tt
    pub found : get tx.sender s.accounts ≡ some a
    pub in_order : a.nonce ≡ tx.nonce
    pub funded : tx.amount + tx.fee ≤ a.balance
    pub nonce_room : a.nonce < u64_max
    pub receiver_room : tx.sender ≢ tx.receiver → balance_of s tx.receiver + tx.amount ≤ u64_max

  pub apply_transaction_accepts :
      (tx : Transaction) (s : State) (a : Account)
      → IsU64 a.balance
      → Applicable tx s a
      → (t : State) × (apply_transaction tx s ≡ (ok tt, t))
  unfolding apply_transaction apply_self_transfer apply_to_other debit refund set_balance credited
  apply_transaction_accepts tx s a small h = elim (tx.sender =? tx.receiver) [
    | yes same ↦ (put_account tx.sender (refund tx a) s, ground (arith, h.receiver_room))
    | no ne ↦ (
      set_balance tx.receiver (balance_of s tx.receiver + tx.amount)
          (put_account tx.sender (debit tx a) s),
      ground (arith, h.receiver_room ne),
    )
  ]

  pub apply_transaction-Applicable :
      (tx : Transaction) (s t : State)
      → apply_transaction tx s ≡ (ok tt, t)
      → (a : Account) × Applicable tx s a
  unfolding apply_transaction apply_self_transfer apply_to_other
  apply_transaction-Applicable tx s t e = elim (Option-cases (get tx.sender s.accounts)) [
    | inl missing ↦ ground arith
    | inr (a, found) ↦ (
      a,
      record {
        valid = ground arith;
        found = found;
        in_order = ground arith;
        funded = ground arith;
        nonce_room = ground arith;
        receiver_room = λ ne. ground arith;
      },
    )
  ]
