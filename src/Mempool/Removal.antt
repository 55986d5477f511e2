-- ===== src/Mempool/Removal.antt =====
-- `remove_by_tx_hashes`: exactly the named transactions go, and the pool stays consistent.
use trilogicon_core.Prelude.{
  Text, none, ◌≡◌, arith, text_eq, Option-cases, inl, inr, List, [], ◌∷◌, refl, Bool-cases, false,
  contains, if◌then◌else◌,
}
use trilogicon_core.Prelude.Maps.{get, get-remove, Unique}
use trilogicon_core.Mempool.Invariant.{Consistent, In, remove_tx_hash-Consistent}
use trilogicon_core.Mempool.{
  Mempool, remove_tx_hash, remove_each, retain_not_in, remove_by_tx_hashes,
}

get-remove_tx_hash :
    (h k : Text) (m : Mempool)
    → Unique m.txs
    → get k (remove_tx_hash h m).txs ≡ (if contains k (h ∷ []) then none else get k m.txs)
unfolding remove_tx_hash contains
get-remove_tx_hash h k m u = elim (Option-cases (get h m.txs)) [
  | inl missing ↦ rw (missing, remove_tx_hash) (ground arith)
  | inr (tx, found) ↦ rw (found, remove_tx_hash) (ground (arith, get-remove h k m.txs u))
]

get-remove_each :
    (hashes : List Text) (k : Text) (m : Mempool)
    → Consistent m
    → get k (remove_each hashes m).txs ≡ (if contains k hashes then none else get k m.txs)
unfolding remove_each contains
get-remove_each [] k m c = refl
get-remove_each (h ∷ rest) k m c = ground (
  arith,
  get-remove_each rest k (remove_tx_hash h m) (remove_tx_hash-Consistent h m c),
  get-remove_tx_hash h k m c.unique,
)

remove_each-Consistent :
    (hashes : List Text) (m : Mempool) → Consistent m → Consistent (remove_each hashes m)
unfolding remove_each
remove_each-Consistent [] m c = c
remove_each-Consistent (h ∷ rest) m c =
    remove_each-Consistent rest (remove_tx_hash h m) (remove_tx_hash-Consistent h m c)

retain-In :
    (hashes : List Text) (h : Text) (order : List Text)
    → contains h hashes ≡ false
    → In h order
    → In h (retain_not_in hashes order)
unfolding retain_not_in
retain-In hashes h [] e i = elim i [ ]
retain-In hashes h (x ∷ rest) e (inl q) = rw (← q) (rw e (inl refl))
retain-In hashes h (x ∷ rest) e (inr i) = elim (Bool-cases (contains x hashes)) [
  | inl out ↦ rw out (retain-In hashes h rest e i)
  | inr kept ↦ rw kept (inr (retain-In hashes h rest e i))
]

-- Removing a list of hashes, known or not, takes exactly those transactions out of the pool.
pub get-remove_by_tx_hashes :
    (hashes : List Text) (k : Text) (m : Mempool)
    → Consistent m
    → get k (remove_by_tx_hashes hashes m).txs ≡ (if contains k hashes then none else get k m.txs)
unfolding remove_by_tx_hashes
get-remove_by_tx_hashes hashes k m c = get-remove_each hashes k m c

-- It keeps the pool consistent.
pub remove_by_tx_hashes-Consistent :
    (hashes : List Text) (m : Mempool) → Consistent m → Consistent (remove_by_tx_hashes hashes m)
unfolding remove_by_tx_hashes
remove_by_tx_hashes-Consistent hashes m c =
    let c' = remove_each-Consistent hashes m c in
    record {
      unique = c'.unique;
      tidy = c'.tidy;
      named = c'.named;
      indexed = c'.indexed;
      filled = c'.filled;
      queued_all = λ h tx e.
          retain-In hashes h (remove_each hashes m).order
            (ground (arith, get-remove_each hashes h m c)) (c'.queued_all h tx e);
    }
