-- ===== src/Mempool/Hygiene.antt =====
-- node/src/mempool.rs, from `purge_nonviable_under_committed_state` on: the local cleaning of the
-- pool against the committed ledger. The messages to the operator are not modelled.
use trilogicon_core.Prelude.{
  ℕ, ◌+◌, Text, none, some, Bool, true, false, ok, err, ltb, length, List, [], ◌∷◌, text_eq, nat_eq,
  checked_add, if◌then◌else◌, ◌&&◌, ◌||◌, decide_eq,
}
use trilogicon_core.Prelude.Maps.{Dict, get, contains_key}
use trilogicon_core.Types.{Address}
use trilogicon_core.Crypto.{Primitives}
use trilogicon_core.Transaction.{Transaction, basic_validate}
use trilogicon_core.State.{State, get_account}
use trilogicon_core.Mempool.{Mempool, remove_tx_hash, remove_each, remove_by_tx_hashes}

-- The nonce of a transaction lies behind its sender's account.
unfoldable pub is_stale : State → Transaction → Bool
is_stale committed tx = elim (get_account tx.sender committed) [
  | none ↦ false
  | some acc ↦ ltb tx.nonce acc.nonce
]

-- The `to_remove` of `drop_stale_nonces_vs_committed`, in one of the possible orders of the map.
unfoldable pub stale_hashes : State → Dict Text Transaction → List Text
stale_hashes committed [] = []
stale_hashes committed ((_, tx) ∷ rest) =
    let others = stale_hashes committed rest in
    if is_stale committed tx then tx.tx_hash ∷ others else others

unfoldable pub drop_stale_nonces_vs_committed : State → Mempool → ℕ × Mempool
drop_stale_nonces_vs_committed committed m =
    let hashes = stale_hashes committed m.txs in (length hashes, remove_by_tx_hashes hashes m)

-- The `seen` set of senders and nonces.
unfoldable pub seen_before : Address → ℕ → List (Address × ℕ) → Bool
seen_before s n [] = false
seen_before s n ((t, k) ∷ rest) = decide_eq s t && decide_eq n k || seen_before s n rest

-- The `to_remove` of `drop_later_sender_nonce_conflicts_keep_fifo_first`.
unfoldable pub later_conflicts : List (Address × ℕ) → List Text → Mempool → List Text
later_conflicts seen [] m = []
later_conflicts seen (h ∷ rest) m = elim (get h m.txs) [
  | none ↦ later_conflicts seen rest m
  | some tx ↦ elim (seen_before tx.sender tx.nonce seen) [
    | true ↦ h ∷ later_conflicts seen rest m
    | false ↦ later_conflicts ((tx.sender, tx.nonce) ∷ seen) rest m
  ]
]

-- `order.retain(|x| txs.contains_key(x))`
unfoldable pub retain_known : Mempool → List Text → List Text
retain_known m [] = []
retain_known m (x ∷ rest) =
    let kept = retain_known m rest in if contains_key x m.txs then x ∷ kept else kept

unfoldable pub drop_later_sender_nonce_conflicts_keep_fifo_first : Mempool → ℕ × Mempool
drop_later_sender_nonce_conflicts_keep_fifo_first m =
    let hashes = later_conflicts [] m.order m in
    let m' = remove_each hashes m in (length hashes, record m' { order = retain_known m' m'.order })

module _ ⦃c : Primitives⦄ where
  -- The head of the queue is not executable next on the committed ledger.
  unfoldable pub drops_head : State → Transaction → Bool
  drops_head committed tx = elim (basic_validate tx) [
    | err _ ↦ true
    | ok _ ↦ elim (get_account tx.sender committed) [
      | none ↦ true
      | some acc ↦
          if ltb tx.nonce acc.nonce
          then true
          else if ltb acc.nonce tx.nonce
          then false
          else elim (checked_add tx.amount tx.fee) [
            | none ↦ true
            | some total_cost ↦ ltb acc.balance total_cost
          ]
    ]
  ]

  unfoldable pub purge_from : List Text → State → Mempool → ℕ → ℕ × Mempool
  purge_from [] committed m removed = (removed, record m { order = [] })
  purge_from (h ∷ rest) committed m removed = elim (get h m.txs) [
    | none ↦ purge_from rest committed m removed
    | some tx ↦ elim (drops_head committed tx) [
      | true ↦
          purge_from rest committed (remove_tx_hash h (record m { order = rest })) (removed + 1)
      | false ↦ (removed, record m { order = h ∷ rest })
    ]
  ]

  unfoldable pub purge_nonviable_under_committed_state : State → Mempool → ℕ × Mempool
  purge_nonviable_under_committed_state committed m = purge_from m.order committed m 0

  unfoldable pub hygiene_vs_committed_ledger : State → Mempool → (ℕ × ℕ × ℕ) × Mempool
  hygiene_vs_committed_ledger committed m =
      let (front, m₁) = purge_nonviable_under_committed_state committed m in
      let (stale, m₂) = drop_stale_nonces_vs_committed committed m₁ in
      let (dup, m₃) = drop_later_sender_nonce_conflicts_keep_fifo_first m₂ in
      ((front, stale, dup), m₃)
