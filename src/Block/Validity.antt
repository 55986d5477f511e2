-- ===== src/Block/Validity.antt =====
-- What `Block::basic_validate` accepts: no transaction id twice, every transaction authentic, and
-- the hash of the header.
use trilogicon_core.Prelude.{
  ◌≡◌, ◌≢◌, ◌<◌, ◌↔◌, true, false, ok, ⊤, arith, is_blank, List, [], ◌∷◌, Text, All, contains, refl,
  sym, is_nil, str,
}
use trilogicon_core.Crypto.{Primitives, hash_bytes}
use trilogicon_core.Transaction.{Transaction}
use trilogicon_core.Transaction.Validity.{IsAuthentic, basic_validate_iff}
use trilogicon_core.Block.{
  Block, basic_validate, validate_genesis, check_unique, validate_all, validate_block_hash,
  compute_block_hash, block_header_preimage_bytes, tx_hashes,
}

-- No text occurs twice.
abbrev pub AllDifferent : List Text → Type 0
AllDifferent [] = ⊤
AllDifferent (h ∷ rest) = All (λ x. h ≢ x) rest × AllDifferent rest

-- The transaction's id is not among those seen.
abbrev IsNew : List Text → Transaction → Type 0
IsNew seen tx = All (λ x. tx.tx_hash ≢ x) seen

contains-false_iff :
    (a : Text) (seen : List Text) → (contains a seen ≡ false) ↔ All (λ x. a ≢ x) seen
unfolding contains
contains-false_iff a [] = (λ _. tt, λ _. refl)
contains-false_iff a (x ∷ seen) = (
  λ e. (ground arith, (contains-false_iff a seen).0 (ground arith)),
  λ h. ground (arith, h.0, (contains-false_iff a seen).1 h.1),
)

heads_differ :
    (a : Text) (seen : List Text) (txs : List Transaction)
    → All (IsNew (a ∷ seen)) txs
    → All (λ x. a ≢ x) (tx_hashes txs)
heads_differ a seen [] h = tt
heads_differ a seen (tx ∷ rest) h = (λ e. h.0.0 (sym e), heads_differ a seen rest h.1)

tails-IsNew :
    (a : Text) (seen : List Text) (txs : List Transaction)
    → All (IsNew (a ∷ seen)) txs
    → All (IsNew seen) txs
tails-IsNew a seen [] h = tt
tails-IsNew a seen (tx ∷ rest) h = (h.0.1, tails-IsNew a seen rest h.1)

join-IsNew :
    (a : Text) (seen : List Text) (txs : List Transaction)
    → All (λ x. a ≢ x) (tx_hashes txs)
    → All (IsNew seen) txs
    → All (IsNew (a ∷ seen)) txs
join-IsNew a seen [] h k = tt
join-IsNew a seen (tx ∷ rest) h k = ((λ e. h.0 (sym e), k.0), join-IsNew a seen rest h.1 k.1)

check_unique_sound :
    (seen : List Text) (txs : List Transaction)
    → check_unique seen txs ≡ ok tt
    → All (IsNew seen) txs × AllDifferent (tx_hashes txs)
unfolding check_unique
check_unique_sound seen [] e = (tt, tt)
check_unique_sound seen (tx ∷ rest) e =
    let (new, different) = check_unique_sound (tx.tx_hash ∷ seen) rest (ground arith) in
    (
      ((contains-false_iff tx.tx_hash seen).0 (ground arith), tails-IsNew tx.tx_hash seen rest new),
      (heads_differ tx.tx_hash seen rest new, different),
    )

check_unique_complete :
    (seen : List Text) (txs : List Transaction)
    → All (IsNew seen) txs
    → AllDifferent (tx_hashes txs)
    → check_unique seen txs ≡ ok tt
unfolding check_unique
check_unique_complete seen [] n d = refl
check_unique_complete seen (tx ∷ rest) n d = ground (
  arith,
  (contains-false_iff tx.tx_hash seen).1 n.0,
  check_unique_complete (tx.tx_hash ∷ seen) rest (join-IsNew tx.tx_hash seen rest d.0 n.1) d.1,
)

none_seen : (txs : List Transaction) → All (IsNew []) txs
none_seen [] = tt
none_seen (tx ∷ rest) = (tt, none_seen rest)

module _ ⦃c : Primitives⦄ where
  validate_all_sound : (txs : List Transaction) → validate_all txs ≡ ok tt → All IsAuthentic txs
  unfolding validate_all
  validate_all_sound [] e = tt
  validate_all_sound (tx ∷ rest) e =
      ((basic_validate_iff tx).0 (ground arith), validate_all_sound rest (ground arith))

  validate_all_complete : (txs : List Transaction) → All IsAuthentic txs → validate_all txs ≡ ok tt
  unfolding validate_all
  validate_all_complete [] h = refl
  validate_all_complete (tx ∷ rest) h =
      ground (arith, (basic_validate_iff tx).1 h.0, validate_all_complete rest h.1)

  -- A sealed block above the genesis block.
  pub record IsSealed (b : Block) : Type 0 where
    pub above : 0 < b.height
    pub has_parent : is_blank b.previous_hash ≡ false
    pub distinct : AllDifferent (tx_hashes b.transactions)
    pub authentic : All IsAuthentic b.transactions
    pub named : is_blank b.block_hash ≡ false
    pub hash_matches : b.block_hash ≡ hash_bytes (block_header_preimage_bytes b)

  accepted-IsSealed : (b : Block) → 0 < b.height → basic_validate b ≡ ok tt → IsSealed b
  unfolding basic_validate validate_block_hash compute_block_hash
  accepted-IsSealed b high e = record {
    above = high;
    has_parent = ground arith;
    distinct = (check_unique_sound [] b.transactions (ground arith)).1;
    authentic = validate_all_sound b.transactions (ground arith);
    named = ground arith;
    hash_matches = ground arith;
  }

  IsSealed-accepted : (b : Block) → IsSealed b → basic_validate b ≡ ok tt
  unfolding basic_validate validate_block_hash compute_block_hash
  IsSealed-accepted b h = ground (
    arith,
    check_unique_complete [] b.transactions (none_seen b.transactions) h.distinct,
    validate_all_complete b.transactions h.authentic,
  )

  -- Above height 0, validation accepts exactly the blocks whose transactions are authentic and have
  -- distinct ids, that name a parent, and whose hash is that of their header.
  pub basic_validate-IsSealed_iff :
      (b : Block) → 0 < b.height → (basic_validate b ≡ ok tt) ↔ IsSealed b
  basic_validate-IsSealed_iff b high = (accepted-IsSealed b high, IsSealed-accepted b)

  nil_of : (txs : List Transaction) → is_nil txs ≡ true → txs ≡ []
  nil_of [] e = refl
  nil_of (x ∷ txs) e = cc

  -- At height 0 it accepts exactly the blocks with the fixed hashes and no transaction; the
  -- timestamp is not looked at.
  pub basic_validate_genesis_iff :
      (b : Block)
      → b.height ≡ 0
      → (basic_validate b ≡ ok tt) ↔ (
          (b.previous_hash ≡ str "GENESIS")
          × (b.block_hash ≡ str "GENESIS_HASH")
          × (b.transactions ≡ []))
  unfolding basic_validate validate_genesis
  basic_validate_genesis_iff b low = (
    λ e. (ground arith, ground arith, nil_of b.transactions (ground arith)),
    λ h. rw (h.2) (ground arith),
  )
