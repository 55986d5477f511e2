-- ===== src/Mempool.antt =====
-- node/src/mempool.rs: the queue of pending transactions, its policies and its hygiene.
pub mod Index
pub mod Invariant
pub mod Eviction
pub mod Submit
pub mod Removal
pub mod Seal
pub mod Hygiene
pub mod Purge
pub mod Stale
pub mod Restoring
use trilogicon_core.Prelude.{
  ℕ, zero, suc, ◌+◌, Text, ok, err, ⊤, none, some, Option, Bool, true, false, not, ltb, leb, is_nil,
  length, take, List, [], ◌∷◌, ◌++◌, text_eq, nat_eq, if◌then◌else◌, checked_add, ne, contains,
  is_ok, Eq,
}
use trilogicon_core.Prelude.Maps.{Dict, get, insert, remove, contains_key}
use trilogicon_core.Action.{Action, lift, gets, modify, ◌>>=◌, ◌>>◌}
use trilogicon_core.Types.{Address, Account}
use trilogicon_core.Errors.{
  Checked, ProtocolError, duplicate_transaction, mempool_nonce_conflict, mempool_full,
  invalid_nonce,
}
use trilogicon_core.Crypto.{Primitives}
use trilogicon_core.Transaction.{Transaction, basic_validate}
use trilogicon_core.State.{State, apply_transaction, get_account}
use Index.{Slots, slot, index_insert, index_remove}

pub record Mempool : Type 0 where
  pub capacity : ℕ
  pub txs : Dict Text Transaction
  pub order : List Text
  pub by_sender : Slots

-- `Mempool::new`
unfoldable pub new : ℕ → Mempool
new capacity = record { capacity = capacity; txs = []; order = []; by_sender = [] }

unfoldable pub remove_tx_hash : Text → Mempool → Mempool
remove_tx_hash hash m = elim (get hash m.txs) [
  | none ↦ m
  | some tx ↦ record m {
    txs = remove hash m.txs;
    by_sender = index_remove tx.sender tx.nonce m.by_sender;
  }
]

-- The loop of `evict_oldest` over the front of the queue, whose entries with no transaction behind
-- them are dropped on the way.
unfoldable pub evict_from : List Text → Mempool → Mempool
evict_from [] m = record m { order = [] }
evict_from (h ∷ rest) m =
    let next = evict_from rest m in
    if contains_key h m.txs then remove_tx_hash h (record m { order = rest }) else next

unfoldable pub evict_oldest : Mempool → Mempool
unfolding evict_from
evict_oldest m = evict_from m.order m

-- `while len >= capacity { evict_oldest(); if is_empty { break } }`, on fuel.
unfoldable pub make_room : ℕ → Mempool → Mempool
make_room zero m = m
make_room (suc fuel) m =
    let m' = evict_oldest m in
    let rest = make_room fuel m' in
    if leb m.capacity (length m.txs) then if is_nil m'.txs then m' else rest else m

-- The three writes of an accepted submission.
unfoldable pub store : Transaction → Mempool → Mempool
store tx m = record m {
  by_sender = index_insert tx.sender tx.nonce tx.tx_hash m.by_sender;
  txs = insert tx.tx_hash tx m.txs;
  order = m.order ++ tx.tx_hash ∷ [];
}

-- Another transaction holds the sender's nonce.
unfoldable pub has_conflict : Transaction → Mempool → Bool
has_conflict tx m = elim (slot tx.sender tx.nonce m.by_sender) [
  | none ↦ false
  | some existing ↦ ne existing tx.tx_hash
]

abbrev pub fail_when : (Mempool → Bool) → ProtocolError → Action Mempool ⊤
fail_when test e m = (if test m then err e else ok tt, m)

abbrev pub is_full : Mempool → Bool
is_full m = leb m.capacity (length m.txs)

module _ ⦃c : Primitives⦄ where
  unfoldable pub try_submit : Transaction → Action Mempool ⊤
  try_submit tx = do
    lift (basic_validate tx)
    fail_when (λ m. contains_key tx.tx_hash m.txs) duplicate_transaction
    fail_when (has_conflict tx) mempool_nonce_conflict
    modify (λ m. make_room (suc (length m.txs)) m)
    fail_when is_full mempool_full
    modify (store tx)

  unfoldable pub try_submit_pending_drain : Transaction → Action Mempool ⊤
  try_submit_pending_drain tx = do
    lift (basic_validate tx)
    fail_when (λ m. contains_key tx.tx_hash m.txs) duplicate_transaction
    fail_when (has_conflict tx) mempool_nonce_conflict
    fail_when is_full mempool_full
    modify (store tx)

-- `order.iter().filter_map(|h| txs.get(h))`
unfoldable pub queued : List Text → Mempool → List Transaction
queued [] m = []
queued (h ∷ rest) m = elim (get h m.txs) [ none ↦ queued rest m | some tx ↦ tx ∷ queued rest m ]

unfoldable pub ordered_candidates : ℕ → Mempool → List Transaction
ordered_candidates max m = take max (queued m.order m)

unfoldable pub clone_fifo : Mempool → List Transaction
clone_fifo m = queued m.order m

store_all : List Transaction → Mempool → Mempool
store_all [] m = m
store_all (tx ∷ rest) m = store_all rest (store tx m)

unfoldable pub restore_fifo : List Transaction → Mempool → Mempool
unfolding store_all
restore_fifo txs m = store_all txs (record m { txs = []; order = []; by_sender = [] })

unfoldable pub remove_each : List Text → Mempool → Mempool
remove_each [] m = m
remove_each (h ∷ rest) m = remove_each rest (remove_tx_hash h m)

-- `order.retain(|x| !remove.contains(x))`
unfoldable pub retain_not_in : List Text → List Text → List Text
retain_not_in hashes [] = []
retain_not_in hashes (x ∷ rest) =
    let kept = retain_not_in hashes rest in if contains x hashes then kept else x ∷ kept

unfoldable pub remove_by_tx_hashes : List Text → Mempool → Mempool
unfolding remove_each retain_not_in
remove_by_tx_hashes hashes m =
    let m' = remove_each hashes m in record m' { order = retain_not_in hashes m'.order }

-- What the walk of `ordered_candidates_for_seal` does with one transaction. The state is the one
-- after the attempt.
pub data Pick : Type 0 where
  taken : State → Pick
  skipped : State → Pick
  failed : ProtocolError → Pick

module _ ⦃c : Primitives⦄ where
  unfoldable pub pick_unfunded : Transaction → State → Pick
  pick_unfunded tx s =
      let (r, s') = apply_transaction tx s in elim r [ ok _ ↦ taken s' | err _ ↦ skipped s' ]

  unfoldable pub pick_next : Transaction → State → Pick
  pick_next tx s =
      let (r, s') = apply_transaction tx s in elim r [ ok _ ↦ taken s' | err e ↦ failed e ]

  unfoldable pub pick : Transaction → State → Pick
  unfolding pick_unfunded pick_next
  pick tx s = elim (get_account tx.sender s) [
    | none ↦ pick_unfunded tx s
    | some a ↦
        if ltb a.nonce tx.nonce
        then skipped s
        else if ltb tx.nonce a.nonce
        then failed invalid_nonce
        else pick_next tx s
  ]

  unfoldable pub seal_from :
      Mempool → ℕ → List Text → State → List Transaction → Checked (List Transaction)
  seal_from m max [] s out = ok out
  seal_from m max (h ∷ rest) s out = elim (leb max (length out)) [
    | true ↦ ok out
    | false ↦ elim (get h m.txs) [
      | none ↦ seal_from m max rest s out
      | some tx ↦ elim (pick tx s) [
        | taken s' ↦ seal_from m max rest s' (out ++ tx ∷ [])
        | skipped s' ↦ seal_from m max rest s' out
        | failed e ↦ err e
      ]
    ]
  ]

  unfoldable pub ordered_candidates_for_seal : Mempool → State → ℕ → Checked (List Transaction)
  ordered_candidates_for_seal m s max = seal_from m max m.order s []
