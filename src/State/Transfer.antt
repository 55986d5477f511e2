-- ===== src/State/Transfer.antt =====
-- The effect of `apply_transaction` on the ledger read as two functions of the address, and its
-- atomicity.
use trilogicon_core.Prelude.{
  ℕ, Option-cases, ◌⊎◌, inl, inr, ◌+◌, ◌-◌, ◌≡◌, ◌≤◌, Option, none, some, ok, err, ite, ◌=?◌,
  text_eq, arith,
}
use trilogicon_core.Prelude.Maps.{get, get-insert}
use trilogicon_core.Types.{Address, Account}
use trilogicon_core.Errors.{ProtocolError}
use trilogicon_core.Crypto.{Primitives}
use trilogicon_core.Transaction.{Transaction, basic_validate}
use trilogicon_core.State.{
  State, apply_transaction, apply_to_other, apply_self_transfer, put_account, or_new, set_balance,
}

abbrev pub balance_in : Option Account → ℕ
balance_in none = 0
balance_in (some a) = a.balance

abbrev pub nonce_in : Option Account → ℕ
nonce_in none = 0
nonce_in (some a) = a.nonce

-- An address with no account counts as an empty one.
abbrev pub balance_of : State → Address → ℕ
balance_of s a = balance_in (get a s.accounts)

abbrev pub nonce_of : State → Address → ℕ
nonce_of s a = nonce_in (get a s.accounts)

-- A transfer from `s` to `t`: the sender pays amount and fee and its nonce goes up, the receiver
-- gets the amount, and no other address sees a change.
pub record Transfers (tx : Transaction) (s t : State) : Type 0 where
  pub funded : tx.amount + tx.fee ≤ balance_of s tx.sender
  pub in_order : nonce_of s tx.sender ≡ tx.nonce
  pub balances :
      (a : Address)
      → balance_of t a + ite (a =? tx.sender) (tx.amount + tx.fee) 0
        ≡ balance_of s a + ite (a =? tx.receiver) tx.amount 0
  pub nonces : (a : Address) → nonce_of t a ≡ nonce_of s a + ite (a =? tx.sender) 1 0

unfoldable pub debit : Transaction → Account → Account
debit tx a = record a { balance = a.balance - (tx.amount + tx.fee); nonce = a.nonce + 1 }

-- What a successful transfer to another address read and wrote.
abbrev pub Moved : Transaction → State → State → Type 0
Moved tx s t =
    (a : Account) × (get tx.sender s.accounts ≡ some a)
    × (a.nonce ≡ tx.nonce)
    × (tx.amount + tx.fee ≤ a.balance)
    × (t
        ≡ set_balance tx.receiver (balance_of s tx.receiver + tx.amount)
            (put_account tx.sender (debit tx a) s))

to_other-Moved : (tx : Transaction) (s t : State) → apply_to_other tx s ≡ (ok tt, t) → Moved tx s t
unfolding apply_to_other debit
to_other-Moved tx s t e = elim (Option-cases (get tx.sender s.accounts)) [
  | inl missing ↦ ground arith
  | inr (a, found) ↦ (a, found, ground arith, ground arith, ground arith)
]

pub get-put_account :
    (j a : Address) (x : Account) (s : State)
    → get j (put_account a x s).accounts ≡ ite (j =? a) (some x) (get j s.accounts)
unfolding put_account
get-put_account j a x s = get-insert a j x s.accounts

pub get-set_balance :
    (j a : Address) (b : ℕ) (s : State)
    → get j (set_balance a b s).accounts
      ≡ ite
          (j =? a)
          (some (record (or_new a (get a s.accounts)) { balance = b }))
          (get j s.accounts)
unfolding set_balance
get-set_balance j a b s =
    get-insert a j (record (or_new a (get a s.accounts)) { balance = b }) s.accounts

module _ (tx : Transaction) (s t : State) (ne : ¬ (tx.sender ≡ tx.receiver))
    (m : Moved tx s t) where
  paid : State
  paid = put_account tx.sender (debit tx m.0) s

  Moved-balances :
      (j : Address)
      → balance_of t j + ite (j =? tx.sender) (tx.amount + tx.fee) 0
        ≡ balance_of s j + ite (j =? tx.receiver) tx.amount 0
  unfolding debit paid
  Moved-balances j = rw m.4 (
      ground (
        arith,
        get-set_balance j tx.receiver (balance_of s tx.receiver + tx.amount) paid,
        get-put_account j tx.sender (debit tx m.0) s,
        get-put_account tx.receiver tx.sender (debit tx m.0) s,
      ))

  Moved-nonces : (j : Address) → nonce_of t j ≡ nonce_of s j + ite (j =? tx.sender) 1 0
  unfolding debit paid
  Moved-nonces j = rw m.4 (
      ground (
        arith,
        get-set_balance j tx.receiver (balance_of s tx.receiver + tx.amount) paid,
        get-put_account j tx.sender (debit tx m.0) s,
        get-put_account tx.receiver tx.sender (debit tx m.0) s,
      ))

  Moved-Transfers : Transfers tx s t
  Moved-Transfers = record {
    funded = ground arith;
    in_order = ground arith;
    balances = Moved-balances;
    nonces = Moved-nonces;
  }

-- The same of a transfer to oneself: only the fee is lost.
unfoldable pub refund : Transaction → Account → Account
refund tx a = record a {
  balance = a.balance - (tx.amount + tx.fee) + tx.amount;
  nonce = a.nonce + 1;
}

abbrev pub SelfMoved : Transaction → State → State → Type 0
SelfMoved tx s t =
    (a : Account) × (get tx.sender s.accounts ≡ some a)
    × (a.nonce ≡ tx.nonce)
    × (tx.amount + tx.fee ≤ a.balance)
    × (t ≡ put_account tx.sender (refund tx a) s)

self_transfer-SelfMoved :
    (tx : Transaction) (s t : State) → apply_self_transfer tx s ≡ (ok tt, t) → SelfMoved tx s t
unfolding apply_self_transfer refund
self_transfer-SelfMoved tx s t e = elim (Option-cases (get tx.sender s.accounts)) [
  | inl missing ↦ ground arith
  | inr (a, found) ↦ (a, found, ground arith, ground arith, ground arith)
]

SelfMoved-Transfers :
    (tx : Transaction) (s t : State) → tx.sender ≡ tx.receiver → SelfMoved tx s t → Transfers tx s t
unfolding refund
SelfMoved-Transfers tx s t same m = record {
  funded = ground arith;
  in_order = ground arith;
  balances = λ j. rw (m.4, ← same) (ground (arith, get-put_account j tx.sender (refund tx m.0) s));
  nonces = λ j. rw m.4 (ground (arith, get-put_account j tx.sender (refund tx m.0) s));
}

module _ ⦃c : Primitives⦄ where
  pub apply_transaction-cases :
      (tx : Transaction) (s t : State)
      → apply_transaction tx s ≡ (ok tt, t)
      → (basic_validate tx ≡ ok tt)
        × ((tx.sender ≡ tx.receiver) × SelfMoved tx s t
            ⊎ (¬ (tx.sender ≡ tx.receiver)) × Moved tx s t)
  unfolding apply_transaction
  apply_transaction-cases tx s t e = elim (tx.sender =? tx.receiver) [
    | yes same ↦ (ground arith, inl (same, self_transfer-SelfMoved tx s t (ground arith)))
    | no ne ↦ (ground arith, inr (ne, to_other-Moved tx s t (ground arith)))
  ]

  -- An applied transaction passed validation, and the ledger after it differs from the one before
  -- by the transfer alone: amount and fee leave the sender, the amount reaches the receiver, the
  -- sender's nonce goes up by one, and no other address sees a change.
  pub apply_transaction-Transfers :
      (tx : Transaction) (s t : State)
      → apply_transaction tx s ≡ (ok tt, t)
      → (basic_validate tx ≡ ok tt) × Transfers tx s t
  apply_transaction-Transfers tx s t e =
      let (valid, how) = apply_transaction-cases tx s t e in
      (
        valid,
        elim how [
          | inl (same, m) ↦ SelfMoved-Transfers tx s t same m
          | inr (ne, m) ↦ Moved-Transfers tx s t ne m
        ],
      )

  -- A transaction that is refused leaves the ledger as it was.
  pub apply_transaction_atomic :
      (tx : Transaction) (s t : State) (x : ProtocolError)
      → apply_transaction tx s ≡ (err x, t)
      → t ≡ s
  unfolding apply_transaction apply_self_transfer apply_to_other
  apply_transaction_atomic tx s t x e = ground arith
