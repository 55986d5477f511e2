-- ===== src/Mempool/Eviction.antt =====
-- `evict_oldest` and the loop of `try_submit` around it: both keep the pool consistent, each round
-- drops one transaction, and the loop ends with room or with an empty pool.
use trilogicon_core.Prelude.{
  ℕ, zero, suc, ◌+◌, Text, none, some, ◌≡◌, ◌<◌, arith, text_eq, nat_eq, Option-cases, inl, inr,
  List, [], ◌∷◌, ◌⊎◌, length, refl, Bool-cases, is_nil, leb, true, false, ◌∙◌,
}
use trilogicon_core.Prelude.Maps.{
  Dict, get, contains_key, get-remove_self, get-remove-none, length-remove,
}
use trilogicon_core.Types.{Address}
use trilogicon_core.Transaction.{Transaction}
use trilogicon_core.Mempool.Index.{slot, Tidy, slot-index_remove}
use trilogicon_core.Mempool.Invariant.{Consistent, remove_tx_hash-Consistent}
use trilogicon_core.Mempool.{Mempool, remove_tx_hash, evict_from, evict_oldest, make_room}

abbrev pub reordered : List Text → Mempool → Mempool
reordered order m = record m { order = order }

-- A queue entry with no transaction behind it may go.
pub drop_head-Consistent :
    (h : Text) (rest : List Text) (m : Mempool)
    → get h m.txs ≡ none
    → Consistent (reordered (h ∷ rest) m)
    → Consistent (reordered rest m)
drop_head-Consistent h rest m gone c = record {
  unique = c.unique;
  tidy = c.tidy;
  named = c.named;
  indexed = c.indexed;
  filled = c.filled;
  queued_all = λ k tx e. elim (c.queued_all k tx e) [ inl q ↦ absurd (ground arith) | inr i ↦ i ];
}

pub reordered-remove :
    (h : Text) (xs ys : List Text) (m : Mempool)
    → remove_tx_hash h (reordered ys m) ≡ reordered ys (remove_tx_hash h (reordered xs m))
unfolding remove_tx_hash
reordered-remove h xs ys m = ground arith

remove_absent : (h : Text) (m : Mempool) → Consistent m → get h (remove_tx_hash h m).txs ≡ none
unfolding remove_tx_hash
remove_absent h m c = elim (Option-cases (get h m.txs)) [
  | inl missing ↦ rw (missing, remove_tx_hash) missing
  | inr (tx, found) ↦ rw (found, remove_tx_hash) (get-remove_self h m.txs c.unique)
]

nil_of_none :
    (xs : Dict Text Transaction)
    → ((h : Text) (tx : Transaction) → get h xs ≡ some tx → ⊥)
    → xs ≡ []
unfolding get
nil_of_none [] f = refl
nil_of_none ((k, tx) ∷ rest) f = absurd (f k tx (ground arith))

no_txs : (m : Mempool) → Consistent (reordered [] m) → m.txs ≡ []
no_txs m c = nil_of_none m.txs (λ h tx e. c.queued_all h tx e)

removed_head_length :
    (h : Text) (rest : List Text) (m : Mempool) (tx : Transaction)
    → get h m.txs ≡ some tx
    → length (remove_tx_hash h (reordered rest m)).txs + 1 ≡ length m.txs
unfolding remove_tx_hash
removed_head_length h rest m tx found = rw (found, remove_tx_hash) (length-remove h tx m.txs found)

pub evicted_head-Consistent :
    (h : Text) (rest : List Text) (m : Mempool)
    → Consistent (reordered (h ∷ rest) m)
    → Consistent (remove_tx_hash h (reordered rest m))
evicted_head-Consistent h rest m c =
    let whole = reordered (h ∷ rest) m in
    let r = remove_tx_hash h whole in
    rw (reordered-remove h (h ∷ rest) rest m) (
      drop_head-Consistent h rest r (remove_absent h whole c)
        (rw (← reordered-remove h (h ∷ rest) (h ∷ rest) m) (remove_tx_hash-Consistent h whole c)))

-- Each eviction keeps the pool consistent, and drops one transaction if there is one.
evict_from-Consistent :
    (order : List Text) (m : Mempool)
    → Consistent (reordered order m)
    → Consistent (evict_from order m)
      × ((evict_from order m).txs ≡ [] ⊎ (length (evict_from order m).txs + 1 ≡ length m.txs))
unfolding evict_from
evict_from-Consistent [] m c = (c, inl (no_txs m c))
evict_from-Consistent (h ∷ rest) m c = elim (Option-cases (get h m.txs)) [
  | inl gone ↦ rw gone (evict_from-Consistent rest m (drop_head-Consistent h rest m gone c))
  | inr (tx, found) ↦
      rw found (evicted_head-Consistent h rest m c, inr (removed_head_length h rest m tx found))
]

pub evict_oldest-Consistent :
    (m : Mempool)
    → Consistent m
    → Consistent (evict_oldest m)
      × ((evict_oldest m).txs ≡ [] ⊎ (length (evict_oldest m).txs + 1 ≡ length m.txs))
unfolding evict_oldest
evict_oldest-Consistent m c = evict_from-Consistent m.order m c

remove_tx_hash-capacity : (h : Text) (m : Mempool) → (remove_tx_hash h m).capacity ≡ m.capacity
unfolding remove_tx_hash
remove_tx_hash-capacity h m = ground arith

evict_from-capacity : (order : List Text) (m : Mempool) → (evict_from order m).capacity ≡ m.capacity
unfolding evict_from
evict_from-capacity [] m = refl
evict_from-capacity (h ∷ rest) m =
    ground (arith, evict_from-capacity rest m, remove_tx_hash-capacity h (reordered rest m))

evict_oldest-capacity : (m : Mempool) → (evict_oldest m).capacity ≡ m.capacity
unfolding evict_oldest
evict_oldest-capacity m = evict_from-capacity m.order m

shorter :
    (fuel : ℕ) (m m' : Mempool)
    → length m.txs < suc fuel
    → (m'.txs ≡ []) ⊎ (length m'.txs + 1 ≡ length m.txs)
    → is_nil m'.txs ≡ false
    → length m'.txs < fuel
shorter fuel m m' h (inl e) left = absurd (ground arith)
shorter fuel m m' h (inr e) left = omega arith

-- The loop has ended by its own tests.
abbrev pub HasRoom : Mempool → Type 0
HasRoom m = (length m.txs < m.capacity) ⊎ (m.txs ≡ [])

nil_of_is_nil : {A : Type 0} (xs : List A) → is_nil xs ≡ true → xs ≡ []
nil_of_is_nil [] e = refl
nil_of_is_nil (x ∷ xs) e = cc

-- A round for each transaction is enough.
pub make_room-HasRoom :
    (fuel : ℕ) (m : Mempool)
    → Consistent m
    → length m.txs < fuel
    → Consistent (make_room fuel m)
      × HasRoom (make_room fuel m)
      × ((make_room fuel m).capacity ≡ m.capacity)
unfolding make_room
make_room-HasRoom zero m c h = absurd (omega arith)
make_room-HasRoom (suc fuel) m c h = elim (Bool-cases (leb m.capacity (length m.txs))) [
  | inr room ↦ rw room (c, inl (ground arith), refl)
  | inl full ↦
      let m' = evict_oldest m in
      let next = evict_oldest-Consistent m c in
      rw full (elim (Bool-cases (is_nil m'.txs)) [
        | inl bare ↦ rw bare (next.0, inr (nil_of_is_nil m'.txs bare), evict_oldest-capacity m)
        | inr left ↦
            let more = make_room-HasRoom fuel m' next.0 (shorter fuel m m' h next.1 left) in
            rw left (more.0, more.1, more.2 ∙ evict_oldest-capacity m)
      ])
]

-- What the pool does not hold, an eviction does not bring in.
module _ (hash : Text) (s : Address) (n : ℕ) where
  pub record IsFree (m : Mempool) : Type 0 where
    pub absent : get hash m.txs ≡ none
    pub slot_free : slot s n m.by_sender ≡ none

  pub remove_tx_hash-IsFree :
      (h : Text) (m : Mempool) → Tidy m.by_sender → IsFree m → IsFree (remove_tx_hash h m)
  unfolding remove_tx_hash
  remove_tx_hash-IsFree h m tidy f = elim (Option-cases (get h m.txs)) [
    | inl missing ↦ rw (missing, remove_tx_hash) f
    | inr (tx, found) ↦
        rw (found, remove_tx_hash)
          (record {
            absent = get-remove-none h hash m.txs f.absent;
            slot_free =
                ground
                  (arith, f.slot_free, slot-index_remove tx.sender s tx.nonce n m.by_sender tidy);
          })
  ]

  evict_from-IsFree :
      (order : List Text) (m : Mempool) → Tidy m.by_sender → IsFree m → IsFree (evict_from order m)
  unfolding evict_from
  evict_from-IsFree [] m tidy f = record { absent = f.absent; slot_free = f.slot_free }
  evict_from-IsFree (h ∷ rest) m tidy f = elim (Bool-cases (contains_key h m.txs)) [
    | inl there ↦ rw there (
        remove_tx_hash-IsFree h (reordered rest m) tidy
          (record { absent = f.absent; slot_free = f.slot_free }))
    | inr gone ↦ rw gone (evict_from-IsFree rest m tidy f)
  ]

  pub make_room-IsFree :
      (fuel : ℕ) (m : Mempool) → Consistent m → IsFree m → IsFree (make_room fuel m)
  unfolding make_room evict_oldest
  make_room-IsFree zero m c f = f
  make_room-IsFree (suc fuel) m c f = elim (Bool-cases (leb m.capacity (length m.txs))) [
    | inr room ↦ rw room f
    | inl full ↦
        let m' = evict_oldest m in
        let f' = evict_from-IsFree m.order m c.tidy f in
        rw full (elim (Bool-cases (is_nil m'.txs)) [
          | inl bare ↦ rw bare f'
          | inr left ↦ rw left (make_room-IsFree fuel m' (evict_oldest-Consistent m c).0 f')
        ])
  ]
