-- ===== src/Mempool/Invariant.antt =====
-- The invariant that ties the three fields of the pool together, and how the removal and the
-- storing of a transaction keep it.
use trilogicon_core.Prelude.{
  ℕ, Text, none, some, ◌≡◌, arith, text_eq, nat_eq, ite, ◌=?◌, Option-cases, inl, inr, List, [],
  ◌∷◌, ◌++◌, ◌⊎◌, length, refl, ◌+◌,
}
use trilogicon_core.Prelude.Maps.{
  get, Unique, get-insert, get-remove, insert-Unique, remove-Unique, length-remove,
}
use trilogicon_core.Types.{Address}
use trilogicon_core.Transaction.{Transaction}
use trilogicon_core.Mempool.Index.{
  slot, Tidy, slot-index_insert, slot-index_remove, index_insert-Tidy, index_remove-Tidy,
}
use trilogicon_core.Mempool.{Mempool, new, remove_tx_hash, store}

-- `h` stands somewhere in the queue.
abbrev pub In : Text → List Text → Type 0
In h [] = ⊥
In h (x ∷ xs) = (h ≡ x) ⊎ In h xs

-- Every transaction is filed under its own hash, holds the slot of its sender and nonce, and is
-- queued; every slot that is taken is that of a transaction in the pool.
pub record Consistent (m : Mempool) : Type 0 where
  pub unique : Unique m.txs
  pub tidy : Tidy m.by_sender
  pub named : (h : Text) (tx : Transaction) → get h m.txs ≡ some tx → tx.tx_hash ≡ h
  pub indexed :
      (h : Text) (tx : Transaction)
      → get h m.txs ≡ some tx
      → slot tx.sender tx.nonce m.by_sender ≡ some h
  pub filled :
      (s : Address) (n : ℕ) (h : Text)
      → slot s n m.by_sender ≡ some h
      → (tx : Transaction) × (get h m.txs ≡ some tx) × (tx.sender ≡ s) × (tx.nonce ≡ n)
  pub queued_all : (h : Text) (tx : Transaction) → get h m.txs ≡ some tx → In h m.order

pub new-Consistent : (capacity : ℕ) → Consistent (new capacity)
unfolding new get slot
new-Consistent capacity = record {
  unique = tt;
  tidy = (tt, tt);
  named = λ h tx e. absurd (ground arith);
  indexed = λ h tx e. absurd (ground arith);
  filled = λ s n h e. absurd (ground arith);
  queued_all = λ h tx e. absurd (ground arith);
}

module _ (hash : Text) (m : Mempool) (c : Consistent m) where
  module _ (old : Transaction) (found : get hash m.txs ≡ some old) where
    pub removed_slot :
        (s : Address) (n : ℕ)
        → slot s n (remove_tx_hash hash m).by_sender
          ≡ ite
              (s =? old.sender)
              (ite (n =? old.nonce) none (slot s n m.by_sender))
              (slot s n m.by_sender)
    unfolding remove_tx_hash
    removed_slot s n =
        rw (found, remove_tx_hash) (slot-index_remove old.sender s old.nonce n m.by_sender c.tidy)

    pub removed_txs :
        (h : Text) → get h (remove_tx_hash hash m).txs ≡ ite (h =? hash) none (get h m.txs)
    unfolding remove_tx_hash
    removed_txs h = rw (found, remove_tx_hash) (get-remove hash h m.txs c.unique)

    removed_order : (remove_tx_hash hash m).order ≡ m.order
    unfolding remove_tx_hash
    removed_order = rw (found, remove_tx_hash)

    removed-Unique : Unique (remove_tx_hash hash m).txs
    unfolding remove_tx_hash
    removed-Unique = rw (found, remove_tx_hash) (remove-Unique hash m.txs c.unique)

    removed-Tidy : Tidy (remove_tx_hash hash m).by_sender
    unfolding remove_tx_hash
    removed-Tidy =
        rw (found, remove_tx_hash) (index_remove-Tidy old.sender old.nonce m.by_sender c.tidy)

    pub removed_length : length (remove_tx_hash hash m).txs + 1 ≡ length m.txs
    unfolding remove_tx_hash
    removed_length = rw (found, remove_tx_hash) (length-remove hash old m.txs found)

    removed_filled :
        (s : Address) (n : ℕ) (h : Text)
        → slot s n (remove_tx_hash hash m).by_sender ≡ some h
        → (tx : Transaction) × (get h (remove_tx_hash hash m).txs ≡ some tx)
          × (tx.sender ≡ s)
          × (tx.nonce ≡ n)
    removed_filled s n h e =
        let (tx, there, es, en) = c.filled s n h (ground (arith, removed_slot s n)) in
        (tx, ground (arith, removed_txs h, removed_slot s n), es, en)

    remove_found-Consistent : Consistent (remove_tx_hash hash m)
    remove_found-Consistent = record {
      unique = removed-Unique;
      tidy = removed-Tidy;
      named = λ h tx e. c.named h tx (ground (arith, removed_txs h));
      indexed = λ h tx e. ground (
        arith,
        removed_txs h,
        removed_slot tx.sender tx.nonce,
        c.indexed hash old found,
        c.indexed h tx,
      );
      filled = removed_filled;
      queued_all = λ h tx e. rw removed_order (c.queued_all h tx (ground (arith, removed_txs h)));
    }

  -- Removing a hash, known or not, keeps the pool consistent.
  pub remove_tx_hash-Consistent : Consistent (remove_tx_hash hash m)
  unfolding remove_tx_hash
  remove_tx_hash-Consistent = elim (Option-cases (get hash m.txs)) [
    | inl missing ↦ rw (missing, remove_tx_hash) c
    | inr (old, found) ↦ remove_found-Consistent old found
  ]

In-append : (h x : Text) (xs : List Text) → In h xs → In h (xs ++ x ∷ [])
In-append h x [] i = elim i [ ]
In-append h x (y ∷ xs) (inl e) = inl e
In-append h x (y ∷ xs) (inr i) = inr (In-append h x xs i)

In-append_self : (h : Text) (xs : List Text) → In h (xs ++ h ∷ [])
In-append_self h [] = inl refl
In-append_self h (y ∷ xs) = inr (In-append_self h xs)

module _ (tx : Transaction) (m : Mempool) (c : Consistent m) where
  stored_slot :
      (s : Address) (n : ℕ)
      → slot s n (store tx m).by_sender
        ≡ ite
            (s =? tx.sender)
            (ite (n =? tx.nonce) (some tx.tx_hash) (slot s n m.by_sender))
            (slot s n m.by_sender)
  unfolding store
  stored_slot s n = slot-index_insert tx.sender s tx.nonce n tx.tx_hash m.by_sender

  stored_txs : (h : Text) → get h (store tx m).txs ≡ ite (h =? tx.tx_hash) (some tx) (get h m.txs)
  unfolding store
  stored_txs h = get-insert tx.tx_hash h tx m.txs

  module _ (new : get tx.tx_hash m.txs ≡ none)
      (free : slot tx.sender tx.nonce m.by_sender ≡ none) where
    older :
        (s : Address) (n : ℕ) (h : Text)
        → slot s n m.by_sender ≡ some h
        → (t : Transaction) × (get h (store tx m).txs ≡ some t) × (t.sender ≡ s) × (t.nonce ≡ n)
    older s n h e =
        let (t, there, es, en) = c.filled s n h e in (t, ground (arith, stored_txs h), es, en)

    stored_queued :
        (h : Text) (t : Transaction)
        → get h (store tx m).txs ≡ some t
        → In h (m.order ++ tx.tx_hash ∷ [])
    stored_queued h t e = elim (h =? tx.tx_hash) [
      | yes q ↦ rw q (In-append_self tx.tx_hash m.order)
      | no ne ↦ In-append h tx.tx_hash m.order (c.queued_all h t (ground (arith, stored_txs h)))
    ]

    stored_filled :
        (s : Address) (n : ℕ) (h : Text)
        → slot s n (store tx m).by_sender ≡ some h
        → (t : Transaction) × (get h (store tx m).txs ≡ some t) × (t.sender ≡ s) × (t.nonce ≡ n)
    stored_filled s n h e = elim (s =? tx.sender) [
      | yes es ↦ elim (n =? tx.nonce) [
        | yes en ↦ (tx, ground (arith, stored_slot s n, stored_txs h), ground arith, ground arith)
        | no ne ↦ older s n h (ground (arith, stored_slot s n))
      ]
      | no ne ↦ older s n h (ground (arith, stored_slot s n))
    ]

    stored_indexed :
        (h : Text) (t : Transaction)
        → get h (store tx m).txs ≡ some t
        → slot t.sender t.nonce (store tx m).by_sender ≡ some h
    stored_indexed h t e = ground (arith, stored_txs h, stored_slot t.sender t.nonce, c.indexed h t)

    -- Storing a new transaction in a free slot keeps the pool consistent.
    pub store-Consistent : Consistent (store tx m)
    unfolding store
    store-Consistent = record {
      unique = insert-Unique tx.tx_hash tx m.txs c.unique;
      tidy = index_insert-Tidy tx.sender tx.nonce tx.tx_hash m.by_sender c.tidy;
      named = λ h t e. ground (arith, stored_txs h, c.named h t);
      indexed = stored_indexed;
      filled = stored_filled;
      queued_all = stored_queued;
    }
