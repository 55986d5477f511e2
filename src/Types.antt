-- ===== src/Types.antt =====
-- node/src/types.rs: addresses and accounts.
use trilogicon_core.Prelude.{ℕ, Bool, ◌&&◌, not, Text, is_blank, leb, length}

-- `struct Address(pub String)`
abbrev pub Address : Type 0
Address = Text

-- `Address::is_valid`
unfoldable pub is_valid : Address → Bool
is_valid a = not (is_blank a) && leb (length a) 128

pub record Account : Type 0 where
  pub address : Address
  pub balance : ℕ
  pub nonce : ℕ

-- `Account::new`
abbrev pub new_account : Address → ℕ → Account
new_account address balance = record { address = address; balance = balance; nonce = 0 }
