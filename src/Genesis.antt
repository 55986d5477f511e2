-- ===== src/Genesis.antt =====
-- node/src/genesis.rs: the initial allocations. Reading and writing the TOML file is not modelled.
use trilogicon_core.Prelude.{
  ℕ, Text, ok, err, ⊤, ◌>>=◌, ◌>>◌, fail_if, ite, ◌=?◌, text_eq, str, join, show_u64, not, ◌==◌,
  List, [], ◌∷◌, ◌++◌, map,
}
use trilogicon_core.Prelude.Maps.{insert}
use trilogicon_core.Prelude.Sorting.{sort_pairs}
use trilogicon_core.Types.{Address, is_valid, new_account}
use trilogicon_core.Errors.{Checked, genesis_error}
use trilogicon_core.Crypto.{Primitives, sha256_raw32}
use trilogicon_core.State.{State, new_state}

pub record GenesisAllocation : Type 0 where
  pub address : Text
  pub balance : ℕ

pub record Genesis : Type 0 where
  pub allocations : List GenesisAllocation

-- `Genesis::empty`
abbrev pub empty : Genesis
empty = record { allocations = [] }

-- `validate_decl`. The first message quotes the address; the escapes of Rust's debug form are left
-- out.
unfoldable pub validate_decl : List GenesisAllocation → Checked ⊤
validate_decl [] = ok tt
validate_decl (a ∷ rest) = do
  fail_if (not (is_valid a.address))
      (genesis_error (str "invalid address in genesis: " ++ (34 ∷ []) ++ a.address ++ (34 ∷ [])))
  fail_if (a.balance == 0) (genesis_error (str "zero balance not allowed for " ++ a.address))
  validate_decl rest

-- The loop over `windows(2)`.
unfoldable pub reject_duplicates : List (Address × ℕ) → Checked ⊤
reject_duplicates [] = ok tt
reject_duplicates (p ∷ []) = ok tt
reject_duplicates (p ∷ q ∷ rest) = do
  ite (p.0 =? q.0) (err (genesis_error (str "duplicate genesis address: " ++ p.0))) (ok tt)
  reject_duplicates (q ∷ rest)

abbrev pub pair_of : GenesisAllocation → Address × ℕ
pair_of a = (a.address, a.balance)

unfoldable pub sorted_pairs : Genesis → Checked (List (Address × ℕ))
sorted_pairs g = do
  validate_decl g.allocations
  let pairs = sort_pairs (map pair_of g.allocations)
  reject_duplicates pairs
  ok pairs

insert_all : List (Address × ℕ) → State → State
insert_all [] s = s
insert_all ((a, b) ∷ rest) s =
    insert_all rest (record { accounts = insert a (new_account a b) s.accounts })

-- `State::from_genesis` of node/src/state.rs
unfoldable pub from_genesis : Genesis → Checked State
unfolding insert_all
from_genesis g = do pairs ← sorted_pairs g; ok (insert_all pairs new_state)

abbrev line_of : Address × ℕ → Text
line_of (a, b) = join (str "|") (a ∷ show_u64 b ∷ [])

module _ ⦃c : Primitives⦄ where
  unfoldable pub state_commitment_raw32 : Genesis → Checked Text
  state_commitment_raw32 g = do
    pairs ← sorted_pairs g
    ok (sha256_raw32 (join (10 ∷ []) (map line_of pairs)))

  unfoldable pub state_commitment_hex : Genesis → Checked Text
  state_commitment_hex g = do raw ← state_commitment_raw32 g; ok (c.hex_encode raw)
