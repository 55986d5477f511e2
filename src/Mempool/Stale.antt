-- ===== src/Mempool/Stale.antt =====
-- What the removal of stale nonces guarantees.
use trilogicon_core.Prelude.{
  Text, none, some, ◌≡◌, ◌≤◌, false, [], ◌∷◌, text_eq, arith, contains, Option-cases, inl, inr, ◌↔◌,
  All, refl,
}
use trilogicon_core.Prelude.Maps.{Dict, get, Unique, All-of_get}
use trilogicon_core.Types.{Account}
use trilogicon_core.Transaction.{Transaction}
use trilogicon_core.State.{State, get_account}
use trilogicon_core.Mempool.{Mempool}
use trilogicon_core.Mempool.Invariant.{Consistent}
use trilogicon_core.Mempool.Removal.{get-remove_by_tx_hashes, remove_by_tx_hashes-Consistent}
use trilogicon_core.Mempool.Hygiene.{is_stale, stale_hashes, drop_stale_nonces_vs_committed}

module _ (committed : State) where
  -- The sender's account, if there is one, has not passed the nonce.
  abbrev pub IsFresh : Transaction → Type 0
  IsFresh tx = (a : Account) → get_account tx.sender committed ≡ some a → a.nonce ≤ tx.nonce

  IsFresh-iff : (tx : Transaction) → (is_stale committed tx ≡ false) ↔ IsFresh tx
  unfolding is_stale
  IsFresh-iff tx = elim (Option-cases (get_account tx.sender committed)) [
    | inl missing ↦ (λ e a there. absurd (ground arith), λ f. ground arith)
    | inr (a, there) ↦ (λ e b same. ground arith, λ f. ground (arith, f a there))
  ]

  abbrev Named : Text × Transaction → Type 0
  Named (h, tx) = tx.tx_hash ≡ h

  stale_hashes_absent :
      (h : Text) (xs : Dict Text Transaction)
      → All Named xs
      → get h xs ≡ none
      → contains h (stale_hashes committed xs) ≡ false
  unfolding stale_hashes contains get
  stale_hashes_absent h [] n e = refl
  stale_hashes_absent h ((k, t) ∷ xs) n e = ground (arith, stale_hashes_absent h xs n.1)

  stale_hashes_lem :
      (h : Text) (tx : Transaction) (xs : Dict Text Transaction)
      → Unique xs
      → All Named xs
      → get h xs ≡ some tx
      → contains h (stale_hashes committed xs) ≡ is_stale committed tx
  unfolding stale_hashes contains get
  stale_hashes_lem h tx [] u n e = absurd (ground arith)
  stale_hashes_lem h tx ((k, t) ∷ xs) u n e =
      ground (arith, stale_hashes_lem h tx xs u.1 n.1, stale_hashes_absent h xs n.1)

  -- Afterwards the pool holds exactly the transactions whose sender's account has not passed their
  -- nonce, wherever they stood in the queue, and it stays consistent.
  pub drop_stale_nonces_iff :
      (m : Mempool)
      → Consistent m
      → let n = (drop_stale_nonces_vs_committed committed m).1 in
        Consistent n
        × ((h : Text) (tx : Transaction)
            → (get h n.txs ≡ some tx) ↔ ((get h m.txs ≡ some tx) × IsFresh tx))
  unfolding drop_stale_nonces_vs_committed
  drop_stale_nonces_iff m c =
      let hashes = stale_hashes committed m.txs in
      let named = All-of_get Named m.txs c.unique c.named in
      (
        remove_by_tx_hashes-Consistent hashes m c,
        λ h tx. (
          λ e.
              let there : get h m.txs ≡ some tx =
                ground (arith, get-remove_by_tx_hashes hashes h m c) in
              (
                there,
                (IsFresh-iff tx).0 (
                    ground (
                      arith,
                      get-remove_by_tx_hashes hashes h m c,
                      stale_hashes_lem h tx m.txs c.unique named there,
                    )),
              ),
          λ (there, fresh). ground (
            arith,
            get-remove_by_tx_hashes hashes h m c,
            (IsFresh-iff tx).1 fresh,
            stale_hashes_lem h tx m.txs c.unique named there,
          ),
        ),
      )
