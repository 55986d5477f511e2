-- ===== src/Mempool/Purge.antt =====
-- What the purge of the head and the whole hygiene run guarantee.
use trilogicon_core.Prelude.{
  ℕ, ◌+◌, Text, some, ◌≡◌, ◌≤◌, false, ok, ⊤, List, [], ◌∷◌, text_eq, arith, Option-cases,
  Bool-cases, inl, inr,
}
use trilogicon_core.Prelude.Maps.{get}
use trilogicon_core.Types.{Account}
use trilogicon_core.Crypto.{Primitives}
use trilogicon_core.Transaction.{Transaction, basic_validate}
use trilogicon_core.State.{State, get_account}
use trilogicon_core.Mempool.{Mempool, remove_tx_hash}
use trilogicon_core.Mempool.Invariant.{Consistent}
use trilogicon_core.Mempool.Eviction.{
  reordered, reordered-remove, drop_head-Consistent, evicted_head-Consistent,
}
use trilogicon_core.Mempool.Hygiene.{purge_from, purge_nonviable_under_committed_state, drops_head}

module _ ⦃c : Primitives⦄ (committed : State) where
  -- A transaction that is valid, of a known sender, not behind the account's nonce, and paid for if
  -- it is the next one.
  pub record IsViable (tx : Transaction) : Type 0 where
    pub valid : basic_validate tx ≡ ok tt
    pub account : Account
    pub known : get_account tx.sender committed ≡ some account
    pub not_behind : account.nonce ≤ tx.nonce
    pub paid_for : account.nonce ≡ tx.nonce → tx.amount + tx.fee ≤ account.balance

  kept-IsViable : (tx : Transaction) → drops_head committed tx ≡ false → IsViable tx
  unfolding drops_head
  kept-IsViable tx e = elim (Option-cases (get_account tx.sender committed)) [
    | inl none_there ↦ absurd (ground arith)
    | inr (a, there) ↦ record {
      valid = ground arith;
      account = a;
      known = there;
      not_behind = ground arith;
      paid_for = λ q. ground arith;
    }
  ]

  -- The queue is empty, or starts with a viable transaction of the pool.
  abbrev pub HasViableHead : Mempool → List Text → Type 0
  HasViableHead m [] = ⊤
  HasViableHead m (h ∷ rest) = (tx : Transaction) × (get h m.txs ≡ some tx) × IsViable tx

  purge_from-Consistent :
      (order : List Text) (m : Mempool) (removed : ℕ)
      → Consistent (reordered order m)
      → let n = (purge_from order committed m removed).1 in Consistent n × HasViableHead n n.order
  unfolding purge_from
  purge_from-Consistent [] m removed k = (k, tt)
  purge_from-Consistent (h ∷ rest) m removed k = elim (Option-cases (get h m.txs)) [
    | inl gone ↦
        rw (gone, purge_from)
          (purge_from-Consistent rest m removed (drop_head-Consistent h rest m gone k))
    | inr (tx, found) ↦ elim (Bool-cases (drops_head committed tx)) [
      | inl bad ↦
          rw (found, purge_from)
            (rw (bad) (
              purge_from-Consistent rest (remove_tx_hash h (reordered rest m)) (removed + 1)
                (rw (← reordered-remove h rest rest m) (evicted_head-Consistent h rest m k))))
      | inr good ↦ rw (found, purge_from) (rw good (k, (tx, found, kept-IsViable tx good)))
    ]
  ]

  -- After the purge the queue is empty or starts with a transaction that is valid, whose sender has
  -- an account, whose nonce is not behind, and which the account can pay if it is next. The pool
  -- stays consistent.
  purge_nonviable-HasViableHead :
      (m : Mempool)
      → Consistent m
      → let n = (purge_nonviable_under_committed_state committed m).1 in
        Consistent n × HasViableHead n n.order
  unfolding purge_nonviable_under_committed_state
  purge_nonviable-HasViableHead m k = purge_from-Consistent m.order m 0 k
