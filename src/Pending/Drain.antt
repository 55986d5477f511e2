-- ===== src/Pending/Drain.antt =====
-- What the drain of the queue does to the pool.
use trilogicon_core.Prelude.{
  Text, ◌≡◌, ok, err, some, List, [], ◌∷◌, ◌++◌, arith, All, refl, true, false, text_eq,
  Option-cases, Result-cases, Bool-cases, inl, inr, ap, sym, subst, ◌∙◌, ◌≢◌,
}
use trilogicon_core.Prelude.Maps.{get, get-insert}
use trilogicon_core.Errors.{ProtocolError, duplicate_transaction}
use trilogicon_core.Crypto.{Primitives}
use trilogicon_core.Transaction.{
  Transaction, basic_validate, validate_hash, validate_signature, validate_sender_binding,
}
use trilogicon_core.Mempool.{Mempool, store, try_submit_pending_drain}
use trilogicon_core.Mempool.Invariant.{Consistent, store-Consistent}
use trilogicon_core.Mempool.Submit.{passes-IsFree}
use trilogicon_core.Pending.{consumes, submit_queued}

-- The pool has a transaction of this hash.
abbrev pub IsHeld : Mempool → Transaction → Type 0
IsHeld m tx = (t : Transaction) × (get tx.tx_hash m.txs ≡ some t)

-- What the one pool has, the other has as well.
abbrev pub Keeps : Mempool → Mempool → Type 0
Keeps m n = (h : Text) (t : Transaction) → get h m.txs ≡ some t → get h n.txs ≡ some t

only_duplicate : (x : ProtocolError) → consumes (err x) ≡ true → x ≡ duplicate_transaction
unfolding consumes
only_duplicate duplicate_transaction e = refl
only_duplicate x e = ground arith

module _ ⦃c : Primitives⦄ where
  -- The pool refuses the first of these, and not as a duplicate.
  abbrev pub Refuses : Mempool → List Transaction → Type 0
  Refuses m [] = Unit {0}
  Refuses m (tx ∷ rest) = consumes (try_submit_pending_drain tx m).0 ≡ false

  -- The queue has been worked off up to the first refusal.
  pub record Drained (txs remaining : List Transaction) (m n : Mempool) : Type 0 where
    pub done : List Transaction
    pub split : txs ≡ done ++ remaining
    pub held : All (IsHeld n) done
    pub kept : Keeps m n
    pub stopped : Refuses n remaining
    pub consistent : Consistent n
    pub same_capacity : n.capacity ≡ m.capacity

  accepted :
      (tx : Transaction) (m n : Mempool)
      → Consistent m
      → try_submit_pending_drain tx m ≡ (ok tt, n)
      → Consistent n × IsHeld n tx × Keeps m n × (n.capacity ≡ m.capacity)
  unfolding try_submit_pending_drain store
  accepted tx m n k e =
      let free = passes-IsFree tx m k (ground arith) (ground arith) in
      let stored : n ≡ store tx m = ground arith in
      rw stored (
        store-Consistent tx m k free.absent free.slot_free,
        (tx, ground (arith, get-insert tx.tx_hash tx.tx_hash tx m.txs)),
        (λ h t there. ground (arith, get-insert tx.tx_hash h tx m.txs, free.absent)),
        refl,
      )

  refused :
      (tx : Transaction) (m n : Mempool) (x : ProtocolError)
      → try_submit_pending_drain tx m ≡ (err x, n)
      → n ≡ m
  unfolding try_submit_pending_drain
  refused tx m n x e = ground arith

  refused_state :
      (tx : Transaction) (m : Mempool)
      → consumes (try_submit_pending_drain tx m).0 ≡ false
      → (try_submit_pending_drain tx m).1 ≡ m
  unfolding consumes
  refused_state tx m e = elim (Result-cases (try_submit_pending_drain tx m).0) [
    | inl (_, good) ↦ absurd (ground arith)
    | inr (x, bad) ↦
        refused tx m (try_submit_pending_drain tx m).1 x
          (λ i. (bad i, (try_submit_pending_drain tx m).1))
  ]

  -- No check of a transaction by itself calls it a duplicate.
  valid-ne-duplicate : (tx : Transaction) → basic_validate tx ≢ err duplicate_transaction
  unfolding basic_validate validate_hash validate_signature validate_sender_binding
  valid-ne-duplicate tx = λ e. ground arith

  duplicate-IsHeld :
      (tx : Transaction) (m n : Mempool)
      → try_submit_pending_drain tx m ≡ (err duplicate_transaction, n)
      → IsHeld m tx
  unfolding try_submit_pending_drain
  duplicate-IsHeld tx m n e = elim (Option-cases (get tx.tx_hash m.txs)) [
    | inr (t, there) ↦ (t, there)
    | inl gone ↦ absurd (ground (arith, valid-ne-duplicate tx))
  ]

  -- An answer that takes the transaction off the queue: the pool has it then.
  consumed :
      (tx : Transaction) (m n : Mempool)
      → Consistent m
      → consumes (try_submit_pending_drain tx m).0 ≡ true
      → (try_submit_pending_drain tx m).1 ≡ n
      → Consistent n × IsHeld n tx × Keeps m n × (n.capacity ≡ m.capacity)
  unfolding consumes
  consumed tx m n k e after = elim (Result-cases (try_submit_pending_drain tx m).0) [
    | inl (_, good) ↦ accepted tx m n k (λ i. (good i, after i))
    | inr (x, bad) ↦
        let twice : x ≡ duplicate_transaction = only_duplicate x (rw bad at e) in
        let same : n ≡ m = refused tx m n x (λ i. (bad i, after i)) in
        let held : IsHeld m tx = duplicate-IsHeld tx m n (λ i. ((bad ∙ ap err twice) i, after i)) in
        rw same (k, held, (λ h t there. there), refl)
  ]

  pub submit_queued-Drained :
      (txs remaining : List Transaction) (m n : Mempool)
      → Consistent m
      → submit_queued txs m ≡ (remaining, n)
      → Drained txs remaining m n
  unfolding submit_queued
  submit_queued-Drained [] remaining m n k e = record {
    done = [];
    split = ground arith;
    held = tt;
    kept = λ h t there. ground arith;
    stopped = subst (Refuses n) (ap (λ p. p.0) e) tt;
    consistent = subst Consistent (ap (λ p. p.1) e) k;
    same_capacity = ground arith;
  }
  submit_queued-Drained (tx ∷ txs) remaining m n k e =
      elim (Bool-cases (consumes (try_submit_pending_drain tx m).0)) [
        | inl yes' ↦
            let m' = (try_submit_pending_drain tx m).1 in
            let (k', h, keeps, room) = consumed tx m m' k yes' refl in
            let rest : submit_queued txs m' ≡ (remaining, n) = ground arith in
            let d = submit_queued-Drained txs remaining m' n k' rest in
            record {
              done = tx ∷ d.done;
              split = ap (◌∷◌ tx) d.split;
              held = ((h.0, d.kept tx.tx_hash h.0 h.1), d.held);
              kept = λ g t there. d.kept g t (keeps g t there);
              stopped = d.stopped;
              consistent = d.consistent;
              same_capacity = d.same_capacity ∙ room;
            }
        | inr no' ↦
            let same : (try_submit_pending_drain tx m).1 ≡ m = refused_state tx m no' in
            let there : (tx ∷ txs ≡ remaining) × (m ≡ n) =
              (ground arith, sym same ∙ ground arith) in
            record {
              done = [];
              split = there.0;
              held = tt;
              kept = λ g t x. subst (λ z. get g z.txs ≡ some t) there.1 x;
              stopped = subst (Refuses n) there.0 (subst (λ z. Refuses z (tx ∷ txs)) there.1 no');
              consistent = subst Consistent there.1 k;
              same_capacity = ap (λ z. z.capacity) (sym there.1);
            }
      ]
