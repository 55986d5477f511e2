-- ===== src/Mempool/Index.antt =====
-- `by_sender: HashMap<Address, BTreeMap<u64, String>>`, and its view as one map from the pair of a
-- sender and a nonce.
use trilogicon_core.Prelude.{
  ℕ, Text, none, some, Option, is_nil, [], ◌∷◌, ◌≡◌, refl, arith, text_eq, nat_eq, if◌then◌else◌,
  ite, ◌=?◌, All, Option-cases, inl, inr, Bool-cases, true,
}
use trilogicon_core.Prelude.Maps.{
  Dict, get, insert, remove, Unique, get-insert, get-remove, insert-Unique, remove-Unique,
  All-remove, All-insert, All-get,
}
use trilogicon_core.Types.{Address}

abbrev pub Slots : Type 0
Slots = Dict Address (Dict ℕ Text)

-- `by_sender.get(sender).and_then(|m| m.get(&nonce))`
unfoldable pub slot : Address → ℕ → Slots → Option Text
slot sender nonce ix = elim (get sender ix) [ none ↦ none | some m ↦ get nonce m ]

-- `entry(sender).or_default()`
abbrev or_default : Option (Dict ℕ Text) → Dict ℕ Text
or_default none = []
or_default (some m) = m

-- `by_sender.entry(sender).or_default().insert(nonce, hash)`
unfoldable pub index_insert : Address → ℕ → Text → Slots → Slots
index_insert sender nonce hash ix =
    insert sender (insert nonce hash (or_default (get sender ix))) ix

-- The slot is freed, and the sender's map goes when it is empty.
unfoldable pub index_remove : Address → ℕ → Slots → Slots
index_remove sender nonce ix = elim (get sender ix) [
  | none ↦ ix
  | some m ↦ let m' = remove nonce m in if is_nil m' then remove sender ix else insert sender m' ix
]

abbrev pub Tidy : Slots → Type 0
Tidy ix = Unique ix × All (λ e. Unique e.1) ix

pub slot-index_insert :
    (s t : Address) (n k : ℕ) (h : Text) (ix : Slots)
    → slot t k (index_insert s n h ix)
      ≡ ite (t =? s) (ite (k =? n) (some h) (slot t k ix)) (slot t k ix)
unfolding slot index_insert get
slot-index_insert s t n k h ix = ground (
  arith,
  get-insert s t (insert n h (or_default (get s ix))) ix,
  get-insert n k h (or_default (get s ix)),
)

get_of_nil : (k : ℕ) (m : Dict ℕ Text) → is_nil m ≡ true → get k m ≡ none
unfolding get
get_of_nil k [] e = refl
get_of_nil k (x ∷ m) e = cc

pub slot-index_remove :
    (s t : Address) (n k : ℕ) (ix : Slots)
    → Tidy ix
    → slot t k (index_remove s n ix) ≡ ite (t =? s) (ite (k =? n) none (slot t k ix)) (slot t k ix)
unfolding slot index_remove
slot-index_remove s t n k ix tidy = elim (Option-cases (get s ix)) [
  | inl e ↦ ground arith
  | inr (m, e) ↦ ground (
    arith,
    get-insert s t (remove n m) ix,
    get-remove s t ix tidy.0,
    get-remove n k m (All-get (λ e'. Unique e'.1) s ix tidy.1 e),
    get_of_nil k (remove n m),
  )
]

pub index_insert-Tidy :
    (s : Address) (n : ℕ) (h : Text) (ix : Slots) → Tidy ix → Tidy (index_insert s n h ix)
unfolding index_insert
index_insert-Tidy s n h ix tidy = elim (Option-cases (get s ix)) [
  | inl e ↦
      rw (e, index_insert)
        (
          insert-Unique s (insert n h []) ix tidy.0,
          All-insert (λ e'. Unique e'.1) s (insert n h []) ix tidy.1 (insert-Unique n h [] tt),
        )
  | inr (m, e) ↦
      rw (e, index_insert)
        (
          insert-Unique s (insert n h m) ix tidy.0,
          All-insert (λ e'. Unique e'.1) s (insert n h m) ix tidy.1
              (insert-Unique n h m (All-get (λ e'. Unique e'.1) s ix tidy.1 e)),
        )
]

pub index_remove-Tidy : (s : Address) (n : ℕ) (ix : Slots) → Tidy ix → Tidy (index_remove s n ix)
unfolding index_remove
index_remove-Tidy s n ix tidy = elim (Option-cases (get s ix)) [
  | inl e ↦ rw (e, index_remove) tidy
  | inr (m, e) ↦ elim (Bool-cases (is_nil (remove n m))) [
    | inl emptied ↦
        rw (e, index_remove)
          (rw emptied (remove-Unique s ix tidy.0, All-remove (λ e'. Unique e'.1) s ix tidy.1))
    | inr kept ↦
        rw (e, index_remove)
          (rw kept (
            insert-Unique s (remove n m) ix tidy.0,
            All-insert (λ e'. Unique e'.1) s (remove n m) ix tidy.1
                (remove-Unique n m (All-get (λ e'. Unique e'.1) s ix tidy.1 e)),
          ))
  ]
]
