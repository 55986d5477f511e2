-- ===== src/State.antt =====
-- node/src/state.rs: the account ledger and the application of one transfer.
pub mod Transfer
pub mod Acceptance
pub mod Invariant
pub mod Supply
use trilogicon_core.Prelude.{
  ℕ, ◌+◌, ◌-◌, Option, none, some, ok, err, ⊤, fail_if, ok_or, ite, ◌=?◌, text_eq, str, not, ◌==◌,
  ltb, checked_add, checked_sub, List, [], ◌∷◌, length,
}
use trilogicon_core.Prelude.Maps.{Dict, get, insert}
use trilogicon_core.Prelude.Maps
use trilogicon_core.Prelude.Sorting.{sort_pairs}
use trilogicon_core.Types.{Address, Account, new_account}
use trilogicon_core.Errors.{
  Checked, ProtocolError, state_error, invalid_nonce, insufficient_balance,
}
use trilogicon_core.Crypto.{Primitives}
use trilogicon_core.Transaction.{Transaction, basic_validate}
use trilogicon_core.Action.{Action, lift, gets, modify, ◌>>=◌, ◌>>◌}

-- `struct State`
pub record State : Type 0 where
  pub accounts : Dict Address Account

-- `State::new`
abbrev pub new_state : State
new_state = record { accounts = [] }

-- `accounts_sorted`
unfoldable pub accounts_sorted : State → List (Address × Account)
accounts_sorted s = sort_pairs s.accounts

-- `account_count`
abbrev pub account_count : State → ℕ
account_count s = length s.accounts

unfoldable pub get_account : Address → State → Option Account
get_account a s = get a s.accounts

pub put_account : Address → Account → State → State
put_account a x s = record { accounts = insert a x s.accounts }

-- `create_account`: an account that is there already is kept.
pub create_account : Address → ℕ → State → State
unfolding put_account
create_account address initial_balance s = elim (get address s.accounts) [
  | none ↦ put_account address (new_account address initial_balance) s
  | some _ ↦ s
]

add_balances : ℕ → Dict Address Account → Checked ℕ
add_balances acc [] = ok acc
add_balances acc ((_, a) ∷ rest) = elim (checked_add acc a.balance) [
  | none ↦ err (state_error (str "total balance sum overflow"))
  | some acc' ↦ add_balances acc' rest
]

-- `total_balance_sum`, a fold that stops at the first overflow.
unfoldable pub total_balance_sum : State → Checked ℕ
unfolding add_balances
total_balance_sum s = add_balances 0 s.accounts

-- The receiver's balance after the credit; an unknown receiver starts from nothing.
pub credited : Option Account → ℕ → Checked ℕ
credited none amount = ok amount
credited (some r) amount =
    ok_or (checked_add r.balance amount) (state_error (str "receiver balance overflow"))

-- `self.accounts.get(&tx.sender).ok_or_else(..)?`
pub find_sender : Transaction → Action State Account
find_sender tx s =
    (ok_or (get tx.sender s.accounts) (state_error (str "sender account missing")), s)

-- `or_insert_with(|| Account::new(a, 0))`
abbrev pub or_new : Address → Option Account → Account
or_new a none = new_account a 0
or_new a (some x) = x

-- `entry(a).or_insert_with(|| Account::new(a, 0)).balance = balance`
pub set_balance : Address → ℕ → State → State
unfolding put_account
set_balance a balance s =
    put_account a (record (or_new a (get a s.accounts)) { balance = balance }) s

pub apply_self_transfer : Transaction → Action State ⊤
unfolding find_sender put_account
apply_self_transfer tx = do
  total_cost ← lift (ok_or (checked_add tx.amount tx.fee) (state_error (str "amount+fee overflow")))
  acc ← find_sender tx
  lift (fail_if (not (acc.nonce == tx.nonce)) invalid_nonce)
  lift (fail_if (ltb acc.balance total_cost) insufficient_balance)
  debited ←
      lift
        (ok_or (checked_sub acc.balance total_cost) (state_error (str "balance update overflow")))
  new_balance ←
      lift (ok_or (checked_add debited tx.amount) (state_error (str "balance update overflow")))
  new_nonce ← lift (ok_or (checked_add acc.nonce 1) (state_error (str "sender nonce overflow")))
  modify (put_account tx.sender (record acc { balance = new_balance; nonce = new_nonce }))

-- `apply_transaction` from the point where sender and receiver are known to differ.
pub apply_to_other : Transaction → Action State ⊤
unfolding find_sender put_account credited set_balance
apply_to_other tx = do
  total_cost ← lift (ok_or (checked_add tx.amount tx.fee) (state_error (str "amount+fee overflow")))
  sender ← find_sender tx
  lift (fail_if (not (sender.nonce == tx.nonce)) invalid_nonce)
  lift (fail_if (ltb sender.balance total_cost) insufficient_balance)
  new_sender_balance ← lift (
      ok_or (checked_sub sender.balance total_cost)
        (state_error (str "sender balance debit underflow")))
  new_sender_nonce ←
      lift (ok_or (checked_add sender.nonce 1) (state_error (str "sender nonce overflow")))
  receiver ← gets (λ s. get tx.receiver s.accounts)
  new_receiver_balance ← lift (credited receiver tx.amount)
  modify (
      put_account tx.sender
        (record sender { balance = new_sender_balance; nonce = new_sender_nonce }))
  modify (set_balance tx.receiver new_receiver_balance)

module _ ⦃c : Primitives⦄ where
  unfoldable pub apply_transaction : Transaction → Action State ⊤
  unfolding apply_self_transfer apply_to_other
  apply_transaction tx = do
    lift (basic_validate tx)
    ite (tx.sender =? tx.receiver) (apply_self_transfer tx) (apply_to_other tx)
