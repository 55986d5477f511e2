-- ===== src/Reorg/Fingerprint.antt =====
-- node/src/v3/replay_sandbox.rs: the canonical bytes of a ledger and their digest.
use trilogicon_core.Prelude.{
  ℕ, ◌%◌, ◌^◌, ◌≡◌, ◌≤◌, Text, List, [], ◌∷◌, ◌++◌, length, Option, none, some, arith, All, refl,
  ap, sym, ◌∙◌, append_assoc, ◌↔◌, IsU64, text_eq,
}
use mathlib.Core.Path.{ap₂}
use trilogicon_core.Prelude.Maps.{Dict, get, Unique}
use trilogicon_core.Prelude.Sorting.{
  sort_pairs, Ascends, Below, get-sort_pairs, sort_pairs-Ascends, ascending_ext, length-sort_pairs,
  All-sort_pairs,
}
use trilogicon_core.Types.{Address, Account}
use trilogicon_core.Crypto.{Primitives, hash_bytes}
use trilogicon_core.State.{State, accounts_sorted}
use trilogicon_core.Encoding.Cursor.{be_bytes, from_be, u32_max}
use trilogicon_core.Encoding.RoundTrip.{length-be_bytes, from_be-be_bytes}

-- The bytes of one account; the length of the address is cut to a u32.
unfoldable pub account_bytes : Address × Account → Text
account_bytes (addr, ac) =
    be_bytes 4 (length addr % 2 ^ 32) ++ (addr ++ (be_bytes 8 ac.balance ++ be_bytes 8 ac.nonce))

unfoldable pub accounts_bytes : List (Address × Account) → Text
accounts_bytes [] = []
accounts_bytes (p ∷ rest) = account_bytes p ++ accounts_bytes rest

unfoldable pub sandbox_state_fingerprint_preimage : State → Text
sandbox_state_fingerprint_preimage s =
    be_bytes 8 (length (accounts_sorted s)) ++ accounts_bytes (accounts_sorted s)

module _ ⦃c : Primitives⦄ where
  unfoldable pub sandbox_state_fingerprint : State → Text
  sandbox_state_fingerprint s = hash_bytes (sandbox_state_fingerprint_preimage s)

-- What the ledger holds of an account under its address.
abbrev pub View : Type 0
View = ℕ × ℕ

abbrev pub view_of : Option Account → Option View
view_of none = none
view_of (some a) = some (a.balance, a.nonce)

-- The two ledgers give every address the same balance and nonce.
abbrev pub SameLedger : State → State → Type 0
SameLedger s t = (k : Address) → view_of (get k s.accounts) ≡ view_of (get k t.accounts)

-- Addresses whose length fits a u32, balances and nonces that fit a u64.
abbrev pub IsSized : Address × Account → Type 0
IsSized (k, a) = (length k ≤ u32_max) × IsU64 a.balance × IsU64 a.nonce

-- Every address once, and no more of them than a u64 counts.
abbrev pub IsBounded : State → Type 0
IsBounded s = Unique s.accounts × All IsSized s.accounts × IsU64 (length s.accounts)

rows : List (Address × Account) → Dict Text View
rows [] = []
rows ((k, a) ∷ m) = (k, (a.balance, a.nonce)) ∷ rows m

get-rows : (k : Text) (m : List (Address × Account)) → get k (rows m) ≡ view_of (get k m)
unfolding get rows
get-rows k [] = refl
get-rows k ((j, a) ∷ m) = ground (arith, get-rows k m)

rows-All :
    (k : Text) (m : List (Address × Account))
    → All (λ q. Below k q.0) m
    → All (λ q. Below k q.0) (rows m)
unfolding rows
rows-All k [] h = tt
rows-All k ((j, a) ∷ m) h = (h.0, rows-All k m h.1)

rows-Ascends : (m : List (Address × Account)) → Ascends m → Ascends (rows m)
unfolding rows
rows-Ascends [] a = tt
rows-Ascends ((j, x) ∷ m) a = (rows-All j m a.0, rows-Ascends m a.1)

-- The rows of the sorted accounts are the ledger.
rows_iff :
    (s t : State)
    → Unique s.accounts
    → Unique t.accounts
    → (rows (accounts_sorted s) ≡ rows (accounts_sorted t)) ↔ SameLedger s t
unfolding accounts_sorted
rows_iff s t u w = (
  λ e k.
      ap view_of (sym (get-sort_pairs k s.accounts u))
      ∙ sym (get-rows k (sort_pairs s.accounts))
      ∙ ap (get k) e
      ∙ get-rows k (sort_pairs t.accounts)
      ∙ ap view_of (get-sort_pairs k t.accounts w),
  λ f.
      ascending_ext _ _ (rows-Ascends _ (sort_pairs-Ascends s.accounts u))
        (rows-Ascends _ (sort_pairs-Ascends t.accounts w))
        λ k.
          get-rows k (sort_pairs s.accounts)
          ∙ ap view_of (get-sort_pairs k s.accounts u)
          ∙ f k
          ∙ ap view_of (sym (get-sort_pairs k t.accounts w))
          ∙ sym (get-rows k (sort_pairs t.accounts)),
)

-- Two texts of one length in front of what follows can be told apart.
append_inj :
    (xs ys as' bs : Text) → length xs ≡ length ys → xs ++ as' ≡ ys ++ bs → (xs ≡ ys) × (as' ≡ bs)
append_inj [] [] as' bs l e = (refl, e)
append_inj [] (y ∷ ys) as' bs l e = absurd (omega arith)
append_inj (x ∷ xs) [] as' bs l e = absurd (omega arith)
append_inj (x ∷ xs) (y ∷ ys) as' bs l e =
    let ih = append_inj xs ys as' bs (omega arith) (cc) in (cc (ih.0), ih.1)

eight_inj :
    (v w : ℕ) (xs ys : Text)
    → IsU64 v
    → IsU64 w
    → be_bytes 8 v ++ xs ≡ be_bytes 8 w ++ ys
    → (v ≡ w) × (xs ≡ ys)
eight_inj v w xs ys p q e =
    let r =
      append_inj (be_bytes 8 v) (be_bytes 8 w) xs ys
        (length-be_bytes 8 v ∙ sym (length-be_bytes 8 w)) e in
    (
      sym (from_be-be_bytes 8 v (omega arith))
          ∙ ap (from_be 0) r.0
          ∙ from_be-be_bytes 8 w (omega arith),
      r.1,
    )

four_inj :
    (v w : ℕ) (xs ys : Text)
    → v ≤ u32_max
    → w ≤ u32_max
    → be_bytes 4 (v % 2 ^ 32) ++ xs ≡ be_bytes 4 (w % 2 ^ 32) ++ ys
    → (v ≡ w) × (xs ≡ ys)
four_inj v w xs ys p q e =
    let r =
      append_inj (be_bytes 4 (v % 2 ^ 32)) (be_bytes 4 (w % 2 ^ 32)) xs ys
        (length-be_bytes 4 (v % 2 ^ 32) ∙ sym (length-be_bytes 4 (w % 2 ^ 32))) e in
    let n =
      sym (from_be-be_bytes 4 (v % 2 ^ 32) (omega arith))
      ∙ ap (from_be 0) r.0
      ∙ from_be-be_bytes 4 (w % 2 ^ 32) (omega arith) in
    (omega arith, r.1)

regroup : (a b d e xs : Text) → a ++ (b ++ (d ++ (e ++ xs))) ≡ (a ++ (b ++ (d ++ e))) ++ xs
regroup a b d e xs = simp (append_assoc)

sorted_fits : (s : State) → IsBounded s → IsU64 (length (accounts_sorted s))
unfolding accounts_sorted
sorted_fits s u = omega (arith, length-sort_pairs s.accounts)

sorted-IsSized : (s : State) → IsBounded s → All IsSized (accounts_sorted s)
unfolding accounts_sorted
sorted-IsSized s u = All-sort_pairs IsSized s.accounts u.1

account_bytes_inj :
    (p q : Address × Account) (xs ys : Text)
    → IsSized p
    → IsSized q
    → account_bytes p ++ xs ≡ account_bytes q ++ ys
    → (p.0 ≡ q.0) × (p.1.balance ≡ q.1.balance) × (p.1.nonce ≡ q.1.nonce) × (xs ≡ ys)
unfolding account_bytes
account_bytes_inj (k, a) (j, b) xs ys h g e =
    let (same_length, e1) = four_inj (length k) (length j) _ _ h.0 g.0 (
      regroup (be_bytes 4 (length k % 2 ^ 32)) k (be_bytes 8 a.balance) (be_bytes 8 a.nonce) xs
      ∙ e
      ∙ sym (
          regroup (be_bytes 4 (length j % 2 ^ 32)) j (be_bytes 8 b.balance) (be_bytes 8 b.nonce)
            ys)) in
    let (same_key, e2) = append_inj k j _ _ same_length e1 in
    let (same_balance, e3) = eight_inj a.balance b.balance _ _ h.1 g.1 e2 in
    let (same_nonce, e4) = eight_inj a.nonce b.nonce _ _ h.2 g.2 e3 in
    (same_key, same_balance, same_nonce, e4)

accounts_bytes_inj :
    (m n : List (Address × Account))
    → All IsSized m
    → All IsSized n
    → length m ≡ length n
    → accounts_bytes m ≡ accounts_bytes n
    → rows m ≡ rows n
unfolding accounts_bytes rows
accounts_bytes_inj [] [] h g l e = refl
accounts_bytes_inj [] (q ∷ n) h g l e = absurd (omega arith)
accounts_bytes_inj (p ∷ m) [] h g l e = absurd (omega arith)
accounts_bytes_inj (p ∷ m) (q ∷ n) h g l e =
    let (k, b, o, rest) = account_bytes_inj p q (accounts_bytes m) (accounts_bytes n) h.0 g.0 e in
    cc (k, b, o, accounts_bytes_inj m n h.1 g.1 (omega arith) rest)

-- Only the rows are written.
only_rows : (m n : List (Address × Account)) → rows m ≡ rows n → accounts_bytes m ≡ accounts_bytes n
unfolding accounts_bytes account_bytes rows
only_rows [] [] e = refl
only_rows [] (q ∷ n) e = cc
only_rows (p ∷ m) [] e = cc
only_rows ((k, a) ∷ m) ((j, b) ∷ n) e = ground (arith, only_rows m n)

length-rows : (m : List (Address × Account)) → length (rows m) ≡ length m
unfolding rows
length-rows [] = refl
length-rows (p ∷ m) = omega (arith, length-rows m)

module _ (s t : State) (u : IsBounded s) (w : IsBounded t) where
  -- The preimages of two ledgers are the same bytes exactly when the ledgers give every address the
  -- same balance and nonce: neither the order in which the accounts are stored nor the boundary
  -- between two fields makes a difference. The addresses fit a u32 in length, balances and nonces a
  -- u64, and no address is stored twice.
  pub preimage_iff :
      (sandbox_state_fingerprint_preimage s ≡ sandbox_state_fingerprint_preimage t) ↔ SameLedger s t
  unfolding sandbox_state_fingerprint_preimage
  preimage_iff = (
    λ e.
        let (l, r) =
          eight_inj (length (accounts_sorted s)) (length (accounts_sorted t)) _ _ (sorted_fits s u)
            (sorted_fits t w) e in
        (rows_iff s t u.0 w.0).0
          (accounts_bytes_inj _ _ (sorted-IsSized s u) (sorted-IsSized t w) l r),
    λ f.
        let r = (rows_iff s t u.0 w.0).1 f in
        ap₂ (λ n (b : Text). be_bytes 8 n ++ b) (sym (length-rows _) ∙ ap length r ∙ length-rows _)
          (only_rows _ _ r),
  )
