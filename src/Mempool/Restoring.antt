-- ===== src/Mempool/Restoring.antt =====
-- node/src/mempool.rs: `clone_fifo` and `restore_fifo` around a drain.
use trilogicon_core.Prelude.{
  ℕ, Text, ◌≡◌, none, some, List, [], ◌∷◌, ◌++◌, arith, All, refl, sym, ◌∙◌, map, ◌⊎◌, inl, inr,
  Option-cases, text_eq, nat_eq, append-nil, append_assoc, ite, ◌=?◌,
}
use trilogicon_core.Prelude.Maps.{get, get-insert}
use trilogicon_core.Types.{Address}
use trilogicon_core.Transaction.{Transaction}
use trilogicon_core.Mempool.{Mempool, queued, store, store_all, clone_fifo, restore_fifo}
use trilogicon_core.Mempool.Index.{slot, slot-index_insert}
use trilogicon_core.Mempool.Invariant.{In, Consistent}

-- The transaction is in the pool and holds its slot.
abbrev Held : Mempool → Transaction → Type 0
Held m tx =
    (get tx.tx_hash m.txs ≡ some tx) × (slot tx.sender tx.nonce m.by_sender ≡ some tx.tx_hash)

-- What `n` has, `m` has as well.
record Within (n m : Mempool) : Type 0 where
  pub txs_within : (h : Text) → (get h n.txs ≡ none) ⊎ (get h n.txs ≡ get h m.txs)
  pub slots_within :
      (s : Address) (k : ℕ)
      → (slot s k n.by_sender ≡ none) ⊎ (slot s k n.by_sender ≡ slot s k m.by_sender)

abbrev Among : Transaction → List Transaction → Type 0
Among tx [] = ⊥
Among tx (t ∷ ts) = (tx ≡ t) ⊎ Among tx ts

stored_get :
    (tx : Transaction) (n : Mempool) (h : Text)
    → get h (store tx n).txs ≡ ite (h =? tx.tx_hash) (some tx) (get h n.txs)
unfolding store
stored_get tx n h = get-insert tx.tx_hash h tx n.txs

stored_slot :
    (tx : Transaction) (n : Mempool) (s : Address) (k : ℕ)
    → slot s k (store tx n).by_sender
      ≡ ite
          (s =? tx.sender)
          (ite (k =? tx.nonce) (some tx.tx_hash) (slot s k n.by_sender))
          (slot s k n.by_sender)
unfolding store
stored_slot tx n s k = slot-index_insert tx.sender s tx.nonce k tx.tx_hash n.by_sender

store-Held : (tx : Transaction) (n : Mempool) → Held (store tx n) tx
store-Held tx n = (
  ground (arith, stored_get tx n tx.tx_hash),
  ground (arith, stored_slot tx n tx.sender tx.nonce),
)

order-store_all :
    (txs : List Transaction) (n : Mempool)
    → (store_all txs n).order ≡ n.order ++ map (λ t. t.tx_hash) txs
unfolding store_all store
order-store_all [] n = sym (append-nil n.order)
order-store_all (tx ∷ txs) n =
    order-store_all txs (store tx n) ∙ append_assoc n.order (tx.tx_hash ∷ []) _

capacity-store_all :
    (txs : List Transaction) (n : Mempool) → (store_all txs n).capacity ≡ n.capacity
unfolding store_all store
capacity-store_all [] n = refl
capacity-store_all (tx ∷ txs) n = capacity-store_all txs (store tx n)

module _ (m : Mempool) where
  store-Within : (tx : Transaction) (n : Mempool) → Held m tx → Within n m → Within (store tx n) m
  store-Within tx n held w = record {
    txs_within = λ h. ground (arith, stored_get tx n h, w.txs_within h);
    slots_within = λ s k. ground (arith, stored_slot tx n s k, w.slots_within s k);
  }

  store_keeps :
      (tx t : Transaction) (n : Mempool) → Held m tx → Held m t → Held n t → Held (store tx n) t
  store_keeps tx t n a b h =
      (ground (arith, stored_get tx n t.tx_hash), ground (arith, stored_slot tx n t.sender t.nonce))

  store_all-Within :
      (txs : List Transaction) (n : Mempool)
      → All (Held m) txs
      → Within n m
      → Within (store_all txs n) m
  unfolding store_all
  store_all-Within [] n a w = w
  store_all-Within (tx ∷ txs) n a w =
      store_all-Within txs (store tx n) a.1 (store-Within tx n a.0 w)

  store_all_keeps :
      (txs : List Transaction) (t : Transaction) (n : Mempool)
      → All (Held m) txs
      → Held m t
      → Held n t
      → Held (store_all txs n) t
  unfolding store_all
  store_all_keeps [] t n a b h = h
  store_all_keeps (tx ∷ txs) t n a b h =
      store_all_keeps txs t (store tx n) a.1 b (store_keeps tx t n a.0 b h)

  -- Every one of the stored transactions is held in the end.
  store_all-Held :
      (txs : List Transaction) (n : Mempool) → All (Held m) txs → All (Held (store_all txs n)) txs
  unfolding store_all
  store_all-Held [] n a = tt
  store_all-Held (tx ∷ txs) n a = (
    store_all_keeps txs tx (store tx n) a.1 a.0 (store-Held tx n),
    store_all-Held txs (store tx n) a.1,
  )

queued-Held :
    (n : Mempool) (txs : List Transaction)
    → All (Held n) txs
    → queued (map (λ t. t.tx_hash) txs) n ≡ txs
unfolding queued
queued-Held n [] a = refl
queued-Held n (tx ∷ txs) a = ground (arith, a.0.0, queued-Held n txs a.1)

queued-All : (m : Mempool) (hs : List Text) → Consistent m → All (Held m) (queued hs m)
unfolding queued
queued-All m [] c = tt
queued-All m (h ∷ hs) c = elim (Option-cases (get h m.txs)) [
  | inl gone ↦ rw (gone, queued) (queued-All m hs c)
  | inr (tx, there) ↦
      let held : Held m tx = (
        ground (arith, c.named h tx there),
        ground (arith, c.named h tx there, c.indexed h tx there),
      ) in
      rw (there, queued) (held, queued-All m hs c)
]

queued-Among :
    (m : Mempool) (h : Text) (tx : Transaction) (hs : List Text)
    → get h m.txs ≡ some tx
    → In h hs
    → Among tx (queued hs m)
unfolding queued
queued-Among m h tx [] e i = absurd i
queued-Among m h tx (x ∷ hs) e (inl same) = rw (← same) (rw (e, queued) (inl refl))
queued-Among m h tx (x ∷ hs) e (inr i) = elim (Option-cases (get x m.txs)) [
  | inl gone ↦ rw (gone, queued) (queued-Among m h tx hs e i)
  | inr (t, there) ↦ rw (there, queued) (inr (queued-Among m h tx hs e i))
]

Among-Held :
    (n : Mempool) (tx : Transaction) (txs : List Transaction)
    → All (Held n) txs
    → Among tx txs
    → Held n tx
Among-Held n tx [] a i = absurd i
Among-Held n tx (t ∷ ts) a (inl e) = rw e a.0
Among-Held n tx (t ∷ ts) a (inr i) = Among-Held n tx ts a.1 i

-- The two pools have the same transactions, in the same order, and the same slots.
pub record SamePool (n m : Mempool) : Type 0 where
  pub same_txs : (h : Text) → get h n.txs ≡ get h m.txs
  pub same_slots : (s : Address) (k : ℕ) → slot s k n.by_sender ≡ slot s k m.by_sender
  pub same_fifo : clone_fifo n ≡ clone_fifo m
  pub same_capacity : n.capacity ≡ m.capacity

abbrev cleared : Mempool → Mempool
cleared n = record n { txs = []; order = []; by_sender = [] }

-- Whatever has become of the pool in between, restoring a consistent one gives back its
-- transactions, its slots and the order of its queue.
pub restore_fifo-clone_fifo :
    (m n : Mempool)
    → Consistent m
    → n.capacity ≡ m.capacity
    → SamePool (restore_fifo (clone_fifo m) n) m
unfolding restore_fifo clone_fifo get slot
restore_fifo-clone_fifo m n c fits = record {
  same_txs = λ h. elim (Option-cases (get h m.txs)) [
    | inl gone ↦ ground (arith, within.txs_within h)
    | inr (tx, there) ↦ ground (arith, c.named h tx there, (holds h tx there).0)
  ];
  same_slots = λ s k. elim (Option-cases (slot s k m.by_sender)) [
    | inl gone ↦ ground (arith, within.slots_within s k)
    | inr (h, taken) ↦
        let (tx, there, es, en) = c.filled s k h taken in
        ground (arith, c.named h tx there, (holds h tx there).1)
  ];
  same_fifo = rw (order-store_all saved (cleared n)) (queued-Held _ saved held);
  same_capacity = capacity-store_all saved (cleared n) ∙ fits;
}
  where
    saved : List Transaction
    saved = queued m.order m

    all_held : All (Held m) saved
    all_held = queued-All m m.order c

    held : All (Held (store_all saved (cleared n))) saved
    held = store_all-Held m saved (cleared n) all_held

    within : Within (store_all saved (cleared n)) m
    within =
        store_all-Within m saved (cleared n) all_held
          (record { txs_within = λ h. inl refl; slots_within = λ s k. inl refl })

    holds :
        (h : Text) (tx : Transaction)
        → get h m.txs ≡ some tx
        → Held (store_all saved (cleared n)) tx
    holds h tx there =
        Among-Held (store_all saved (cleared n)) tx saved held
          (queued-Among m h tx m.order there (c.queued_all h tx there))
