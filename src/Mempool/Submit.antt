-- ===== src/Mempool/Submit.antt =====
-- `try_submit` and `try_submit_pending_drain`: when they accept, what they change, and that the pool
-- stays consistent and within its capacity.
use trilogicon_core.Prelude.{
  suc, Text, none, some, ◌≡◌, ◌≢◌, ◌≤◌, ◌<◌, arith, text_eq, nat_eq, Option-cases, inl, get_last?,
  get_last?-append, inr, ◌⊎◌, length, true, false, ok, err, Result-cases, ◌↔◌,
}
use trilogicon_core.Prelude.Maps.{get, get-insert_self, length-insert_new, contains_key}
use trilogicon_core.Errors.{ProtocolError}
use trilogicon_core.Crypto.{Primitives}
use trilogicon_core.Transaction.{Transaction, basic_validate}
use trilogicon_core.Mempool.Index.{slot}
use trilogicon_core.Mempool.Invariant.{Consistent, store-Consistent}
use trilogicon_core.Mempool.Eviction.{HasRoom, IsFree, make_room-HasRoom, make_room-IsFree}
use trilogicon_core.Mempool.{
  Mempool, make_room, store, has_conflict, try_submit, try_submit_pending_drain, is_full,
}

-- No transaction of the pool has this sender and nonce.
abbrev pub NonceFree : Transaction → Mempool → Type 0
NonceFree tx m =
    (h : Text) (t : Transaction) → get h m.txs ≡ some t → t.sender ≡ tx.sender → t.nonce ≢ tx.nonce

-- What a submission needs of the pool: it is not there, and its nonce is not taken.
pub record IsAdmissible (tx : Transaction) (m : Mempool) : Type 0 where
  pub new : get tx.tx_hash m.txs ≡ none
  pub nonce_free : NonceFree tx m

-- The tests of the code, as facts about the two maps.
pub passes-IsFree :
    (tx : Transaction) (m : Mempool)
    → Consistent m
    → contains_key tx.tx_hash m.txs ≡ false
    → has_conflict tx m ≡ false
    → IsFree tx.tx_hash tx.sender tx.nonce m
unfolding has_conflict
passes-IsFree tx m c absent clear = elim (Option-cases (slot tx.sender tx.nonce m.by_sender)) [
  | inl free ↦ record { absent = ground arith; slot_free = free }
  | inr (h, taken) ↦
      let (t, there, _, _) = c.filled tx.sender tx.nonce h taken in absurd (ground arith)
]

IsFree-IsAdmissible :
    (tx : Transaction) (m : Mempool)
    → Consistent m
    → IsFree tx.tx_hash tx.sender tx.nonce m
    → IsAdmissible tx m
IsFree-IsAdmissible tx m c f = record {
  new = f.absent;
  nonce_free = λ h t e es en. absurd (ground (arith, f.slot_free, c.indexed h t e));
}

IsAdmissible-passes :
    (tx : Transaction) (m : Mempool)
    → Consistent m
    → IsAdmissible tx m
    → (contains_key tx.tx_hash m.txs ≡ false) × (has_conflict tx m ≡ false)
unfolding has_conflict
IsAdmissible-passes tx m c a = (
  ground (arith, a.new),
  elim (Option-cases (slot tx.sender tx.nonce m.by_sender)) [
    | inl free ↦ ground arith
    | inr (h, taken) ↦
        let (t, there, es, en) = c.filled tx.sender tx.nonce h taken in
        absurd (a.nonce_free h t there es en)
  ],
)

not_full : (m : Mempool) → HasRoom m → 0 < m.capacity → is_full m ≡ false
not_full m (inl room) cap = ground arith
not_full m (inr e) cap = rw e (ground arith)

abbrev roomy : Mempool → Mempool
roomy m = make_room (suc (length m.txs)) m

module _ ⦃p : Primitives⦄ where
  -- An accepted submission, step by step.
  pub record Submitted (tx : Transaction) (m n : Mempool) : Type 0 where
    pub valid : basic_validate tx ≡ ok tt
    pub free : IsFree tx.tx_hash tx.sender tx.nonce m
    pub room : length (roomy m).txs < (roomy m).capacity
    pub stored : n ≡ store tx (roomy m)

  try_submit-Submitted :
      (tx : Transaction) (m n : Mempool)
      → Consistent m
      → try_submit tx m ≡ (ok tt, n)
      → Submitted tx m n
  unfolding try_submit
  try_submit-Submitted tx m n c e = record {
    valid = ground arith;
    free = passes-IsFree tx m c (ground arith) (ground arith);
    room = ground arith;
    stored = ground arith;
  }

  Submitted-Consistent :
      (tx : Transaction) (m n : Mempool) → Consistent m → Submitted tx m n → Consistent n
  Submitted-Consistent tx m n c s =
      let c' = (make_room-HasRoom (suc (length m.txs)) m c (omega arith)).0 in
      let f = make_room-IsFree tx.tx_hash tx.sender tx.nonce (suc (length m.txs)) m c s.free in
      rw s.stored (store-Consistent tx (roomy m) c' f.absent f.slot_free)

  Submitted-length :
      (tx : Transaction) (m n : Mempool)
      → Consistent m
      → Submitted tx m n
      → (length n.txs ≤ n.capacity) × (n.capacity ≡ m.capacity)
  unfolding store
  Submitted-length tx m n c s =
      let f = make_room-IsFree tx.tx_hash tx.sender tx.nonce (suc (length m.txs)) m c s.free in
      rw s.stored (
        omega (arith, length-insert_new tx.tx_hash tx (roomy m).txs f.absent, s.room),
        (make_room-HasRoom (suc (length m.txs)) m c (omega arith)).2,
      )

  roomy-Consistent : (m : Mempool) → Consistent m → Consistent (roomy m)
  roomy-Consistent m c = (make_room-HasRoom (suc (length m.txs)) m c (omega arith)).0

  roomy_not_full : (m : Mempool) → Consistent m → 0 < m.capacity → is_full (roomy m) ≡ false
  roomy_not_full m c cap =
      let (_, room, same) = make_room-HasRoom (suc (length m.txs)) m c (omega arith) in
      not_full (roomy m) room (omega arith)

  refused-cases :
      (tx : Transaction) (m n : Mempool) (x : ProtocolError)
      → try_submit tx m ≡ (err x, n)
      → (n ≡ m) ⊎ ((n ≡ roomy m) × (is_full (roomy m) ≡ true))
  unfolding try_submit
  refused-cases tx m n x e = ground arith

  -- Every call of `try_submit`, accepted or refused, keeps the pool consistent.
  pub try_submit-Consistent :
      (tx : Transaction) (m : Mempool) → Consistent m → Consistent (try_submit tx m).1
  try_submit-Consistent tx m c = elim (Result-cases (try_submit tx m).0) [
    | inl (_, e) ↦
        let n = (try_submit tx m).1 in
        Submitted-Consistent tx m n c (try_submit-Submitted tx m n c (λ i. (e i, n)))
    | inr (x, e) ↦
        let n = (try_submit tx m).1 in
        elim (refused-cases tx m n x (λ i. (e i, n))) [
          | inl same ↦ rw same c
          | inr (emptied, _) ↦ rw emptied (roomy-Consistent m c)
        ]
  ]

  -- With a positive capacity, a submission is accepted exactly when the transaction is valid, not in
  -- the pool, and no other transaction of the pool has its sender and nonce.
  pub try_submit_iff :
      (tx : Transaction) (m : Mempool)
      → Consistent m
      → 0 < m.capacity
      → ((try_submit tx m).0 ≡ ok tt) ↔ ((basic_validate tx ≡ ok tt) × IsAdmissible tx m)
  unfolding try_submit
  try_submit_iff tx m c cap = (
    λ e. (
      ground arith,
      IsFree-IsAdmissible tx m c (passes-IsFree tx m c (ground arith) (ground arith)),
    ),
    λ h. ground (arith, IsAdmissible-passes tx m c h.1, roomy_not_full m c cap),
  )

  -- The pool after an accepted submission holds the transaction, at the end of its queue, and no more
  -- transactions than its capacity.
  try_submit_stores :
      (tx : Transaction) (m n : Mempool)
      → Consistent m
      → try_submit tx m ≡ (ok tt, n)
      → (get tx.tx_hash n.txs ≡ some tx)
        × (length n.txs ≤ n.capacity)
        × (n.capacity ≡ m.capacity)
        × (get_last? n.order ≡ some tx.tx_hash)
  unfolding store
  try_submit_stores tx m n c e =
      let s = try_submit-Submitted tx m n c e in
      let (fits, same) = Submitted-length tx m n c s in
      (
        rw s.stored (get-insert_self tx.tx_hash tx (roomy m).txs),
        fits,
        same,
        rw s.stored (get_last?-append (roomy m).order tx.tx_hash),
      )

  -- With a positive capacity, a refused submission changes nothing.
  try_submit_atomic :
      (tx : Transaction) (m n : Mempool) (x : ProtocolError)
      → Consistent m
      → 0 < m.capacity
      → try_submit tx m ≡ (err x, n)
      → n ≡ m
  try_submit_atomic tx m n x c cap e = elim (refused-cases tx m n x e) [
    | inl same ↦ same
    | inr (_, full) ↦ absurd (ground (arith, roomy_not_full m c cap))
  ]

  -- The drain of the pending file never evicts: it accepts exactly the valid, admissible
  -- transactions for which there is room, and a refusal changes nothing.
  pub try_submit_pending_drain_iff :
      (tx : Transaction) (m : Mempool)
      → Consistent m
      → ((try_submit_pending_drain tx m ≡ (ok tt, store tx m))
          ↔ ((basic_validate tx ≡ ok tt) × IsAdmissible tx m × (length m.txs < m.capacity)))
        × ((try_submit_pending_drain tx m).0 ≢ ok tt → (try_submit_pending_drain tx m).1 ≡ m)
  unfolding try_submit_pending_drain
  try_submit_pending_drain_iff tx m c = (
    (
      λ e. (
        ground arith,
        IsFree-IsAdmissible tx m c (passes-IsFree tx m c (ground arith) (ground arith)),
        ground arith,
      ),
      λ h. ground (arith, IsAdmissible-passes tx m c h.1),
    ),
    λ refused. ground arith,
  )
