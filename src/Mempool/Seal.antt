-- ===== src/Mempool/Seal.antt =====
-- Candidate selection: what it returns applies to the ledger, in its order.
use trilogicon_core.Prelude.{
  ℕ, Text, some, ◌≡◌, ◌≤◌, ◌<◌, ◌⊎◌, subst, arith, text_eq, Option-cases, inl, inr, List, [], ◌∷◌,
  ◌++◌, refl, Bool-cases, leb, length, length-append, ok, All, All-append, Result-cases,
}
use trilogicon_core.Prelude.Maps.{get}
use trilogicon_core.Errors.{ProtocolError}
use trilogicon_core.Crypto.{Primitives}
use trilogicon_core.Transaction.{Transaction}
use trilogicon_core.State.{State, apply_transaction}
use trilogicon_core.State.Transfer.{apply_transaction_atomic}
use trilogicon_core.Blockchain.{apply_all, on_clone}
use trilogicon_core.Mempool.{
  Mempool, Pick, taken, skipped, failed, pick, seal_from, ordered_candidates_for_seal,
}

Pick-cases :
    (p : Pick)
    → ((u : State) × (p ≡ taken u))
      ⊎ (((u : State) × (p ≡ skipped u)) ⊎ ((x : ProtocolError) × (p ≡ failed x)))
Pick-cases (taken u) = inl (u, refl)
Pick-cases (skipped u) = inr (inl (u, refl))
Pick-cases (failed x) = inr (inr (x, refl))

module _ ⦃c : Primitives⦄ where
  apply_all-append :
      (txs : List Transaction) (tx : Transaction) (s t u : State)
      → on_clone (apply_all txs) s ≡ ok t
      → apply_transaction tx t ≡ (ok tt, u)
      → on_clone (apply_all (txs ++ tx ∷ [])) s ≡ ok u
  unfolding apply_all
  apply_all-append [] tx s t u e f = ground arith
  apply_all-append (x ∷ txs) tx s t u e f =
      ground (arith, apply_all-append txs tx (apply_transaction x s).1 t u)

  -- The walk moves on only with the state of the transactions that it took.
  pick_taken :
      (tx : Transaction) (s u : State) → pick tx s ≡ taken u → apply_transaction tx s ≡ (ok tt, u)
  unfolding pick
  pick_taken tx s u e = ground arith

  pick_skipped : (tx : Transaction) (s u : State) → pick tx s ≡ skipped u → u ≡ s
  unfolding pick
  pick_skipped tx s u e = elim (Result-cases (apply_transaction tx s).0) [
    | inl (_, fine) ↦ ground arith
    | inr (x, refused) ↦
        let t = (apply_transaction tx s).1 in
        ground (arith, apply_transaction_atomic tx s t x (λ i. (refused i, t)))
  ]

  module _ (m : Mempool) (max : ℕ) (start : State) where
    -- What holds of the transactions that were selected so far, at the state they lead to.
    pub record Selected (out : List Transaction) (s : State) : Type 0 where
      pub applies : on_clone (apply_all out) start ≡ ok s
      pub within : length out ≤ max
      pub pooled : All (λ tx. (h : Text) × (get h m.txs ≡ some tx)) out

    take_one :
        (h : Text) (tx : Transaction) (s u : State) (out : List Transaction)
        → Selected out s
        → get h m.txs ≡ some tx
        → apply_transaction tx s ≡ (ok tt, u)
        → length out < max
        → Selected (out ++ tx ∷ []) u
    take_one h tx s u out sel found fine room = record {
      applies = apply_all-append out tx start s u sel.applies fine;
      within = omega (arith, length-append out (tx ∷ []));
      pooled = All-append _ out (tx ∷ []) sel.pooled ((h, found), tt);
    }

    seal_from-Selected :
        (order : List Text) (s : State) (out res : List Transaction)
        → Selected out s
        → seal_from m max order s out ≡ ok res
        → (t : State) × Selected res t
    unfolding seal_from
    seal_from-Selected [] s out res sel e =
        let q : out ≡ res = cc in (s, subst (λ r. Selected r s) q sel)
    seal_from-Selected (h ∷ rest) s out res sel e = elim (Bool-cases (leb max (length out))) [
      | inl full ↦ let q : out ≡ res = ground arith in (s, subst (λ r. Selected r s) q sel)
      | inr room ↦ elim (Option-cases (get h m.txs)) [
        | inl stale ↦ seal_from-Selected rest s out res sel (ground arith)
        | inr (tx, found) ↦ elim (Pick-cases (pick tx s)) [
          | inl (u, hit) ↦
              seal_from-Selected rest u (out ++ tx ∷ []) res
                (take_one h tx s u out sel found (pick_taken tx s u hit) (ground arith))
                (ground arith)
          | inr (inl (u, miss)) ↦
              seal_from-Selected rest s out res sel (ground (arith, pick_skipped tx s u miss))
          | inr (inr (x, bad)) ↦ absurd (ground arith)
        ]
      ]
    ]

    -- The candidates for a block are at most `max` transactions of the pool, and they apply to the
    -- ledger one after the other.
    pub ordered_candidates_for_seal-Selected :
        (res : List Transaction)
        → ordered_candidates_for_seal m start max ≡ ok res
        → (t : State) × Selected res t
    unfolding ordered_candidates_for_seal apply_all
    ordered_candidates_for_seal-Selected res e =
        seal_from-Selected m.order start [] res
          (record { applies = refl; within = omega arith; pooled = tt }) e
