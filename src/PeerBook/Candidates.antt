-- ===== src/PeerBook/Candidates.antt =====
-- Which addresses the node catches up from, and which it would hand on.
use trilogicon_core.Prelude.{
  ℕ, zero, suc, ◌≡◌, ◌≤◌, ◌↔◌, ◌⊎◌, Text, Bool, true, false, not, ◌&&◌, ◌||◌, List, [], ◌∷◌, ◌++◌,
  arith, text_eq, contains, Distinct, map, trim, is_nil, refl, sym, ap, ◌∙◌, Bool-cases, inl, inr,
  ◌=?◌, length, take,
}
use trilogicon_core.Prelude.Maps.{Unique}
use trilogicon_core.PeerBook.{
  PeerBook, gossip_keys, sort_texts, distinct_seeds, sync_candidates, gossip_addresses,
}
use trilogicon_core.PeerBook.Keys.{
  IsShared, contains-sort_texts, sort_texts-Distinct, contains-gossip_keys, gossip_keys-Distinct,
}

contains-distinct_seeds :
    (a : Text) (seen l : List Text)
    → contains a (distinct_seeds seen l)
      ≡ (contains a l && (not (is_nil a) && not (contains a seen)))
unfolding distinct_seeds contains
contains-distinct_seeds a seen [] = refl
contains-distinct_seeds a seen (s ∷ rest) = elim (a =? s) [
  | yes same ↦ ground (
    arith,
    ap is_nil same,
    ap (λ z. contains z seen) same,
    contains-distinct_seeds a seen rest,
    contains-distinct_seeds a (s ∷ seen) rest,
  )
  | no other ↦
      ground (arith, contains-distinct_seeds a seen rest, contains-distinct_seeds a (s ∷ seen) rest)
]

nothing_seen : (a : Text) → contains a [] ≡ false
unfolding contains
nothing_seen a = refl

seen_not_again : (a : Text) (seen l : List Text) → contains a (distinct_seeds (a ∷ seen) l) ≡ false
unfolding contains
seen_not_again a seen l = ground (arith, contains-distinct_seeds a (a ∷ seen) l)

distinct_seeds-Distinct : (seen l : List Text) → Distinct (distinct_seeds seen l)
unfolding distinct_seeds
distinct_seeds-Distinct seen [] = tt
distinct_seeds-Distinct seen (s ∷ rest) = ground (
  arith,
  distinct_seeds-Distinct seen rest,
  distinct_seeds-Distinct (s ∷ seen) rest,
  seen_not_again s seen rest,
)

contains-append :
    (a : Text) (xs ys : List Text) → contains a (xs ++ ys) ≡ (contains a xs || contains a ys)
unfolding contains
contains-append a [] ys = refl
contains-append a (x ∷ xs) ys = ground (arith, contains-append a xs ys)

append-Distinct :
    (xs ys : List Text)
    → Distinct xs
    → Distinct ys
    → ((a : Text) → contains a xs ≡ true → contains a ys ≡ false)
    → Distinct (xs ++ ys)
unfolding contains
append-Distinct [] ys d e f = e
append-Distinct (x ∷ xs) ys d e f = (
  ground (arith, contains-append x xs ys, f x),
  append-Distinct xs ys d.1 e (λ a i. f a (ground arith)),
)

module _ (seeds : List Text) (b : PeerBook) (u : Unique b.by_addr) where
  abbrev not_seed : Text → Bool
  not_seed k = not (contains k (distinct_seeds [] (map trim seeds)))

  others : List Text
  others = gossip_keys not_seed b.by_addr

  -- The node catches up from exactly the seeds, trimmed and not empty, and the addresses of the book
  -- that may be handed on, and from each of them once.
  pub sync_candidates_iff :
      Distinct (sync_candidates seeds b)
      × ((a : Text)
          → (contains a (sync_candidates seeds b) ≡ true)
            ↔ (((contains a (map trim seeds) ≡ true) × (is_nil a ≡ false)) ⊎ IsShared a b.by_addr))
  unfolding sync_candidates others
  sync_candidates_iff = (
    append-Distinct (distinct_seeds [] (map trim seeds)) (sort_texts others)
        (distinct_seeds-Distinct [] (map trim seeds))
        (sort_texts-Distinct others (gossip_keys-Distinct not_seed b.by_addr u))
        (λ a i. disjoint a i),
    λ a. (
      (λ e. elim (Bool-cases (contains a (distinct_seeds [] (map trim seeds)))) [
        | inl first ↦ inl (ground (arith, contains-distinct_seeds a [] (map trim seeds)))
        | inr second ↦
            inr ((contains-gossip_keys not_seed a b.by_addr u).0 (in_others a second e)).1
      ]),
      λ h. listed a h,
    ),
  )
    where
      disjoint :
          (a : Text)
          → contains a (distinct_seeds [] (map trim seeds)) ≡ true
          → contains a (sort_texts others) ≡ false
      disjoint a i = contains-sort_texts a others ∙ elim (Bool-cases (contains a others)) [
        | inr out ↦ out
        | inl among ↦
            let h = ((contains-gossip_keys not_seed a b.by_addr u).0 among).0 in
            absurd (ground arith)
      ]

      in_others :
          (a : Text)
          → contains a (distinct_seeds [] (map trim seeds)) ≡ false
          → contains a (distinct_seeds [] (map trim seeds) ++ sort_texts others) ≡ true
          → contains a others ≡ true
      in_others a n e = ground (
        arith,
        contains-append a (distinct_seeds [] (map trim seeds)) (sort_texts others),
        contains-sort_texts a others,
      )

      listed :
          (a : Text)
          → ((contains a (map trim seeds) ≡ true) × (is_nil a ≡ false)) ⊎ IsShared a b.by_addr
          → contains a (distinct_seeds [] (map trim seeds) ++ sort_texts others) ≡ true
      listed a h =
          contains-append a (distinct_seeds [] (map trim seeds)) (sort_texts others)
          ∙ elim (Bool-cases (contains a (distinct_seeds [] (map trim seeds)))) [
            | inl first ↦ ground arith
            | inr second ↦ elim h [
              | inl seed ↦
                  absurd
                    (ground (arith, contains-distinct_seeds a [] (map trim seeds), nothing_seen a))
              | inr shared ↦
                  let among =
                    (contains-gossip_keys not_seed a b.by_addr u).1 (ground arith, shared) in
                  ground (arith, contains-sort_texts a others)
            ]
          ]

contains-take :
    (a : Text) (n : ℕ) (l : List Text) → contains a (take n l) ≡ true → contains a l ≡ true
unfolding contains
contains-take a zero l e = absurd (ground arith)
contains-take a (suc n) [] e = e
contains-take a (suc n) (x ∷ l) e = ground (arith, contains-take a n l)

length-take-le : (n : ℕ) (l : List Text) → length (take n l) ≤ n
length-take-le zero l = omega arith
length-take-le (suc n) [] = omega arith
length-take-le (suc n) (x ∷ l) = omega (arith, length-take-le n l)

-- No more addresses are handed on than asked for, and each of them may be handed on: the source of
-- an inbound connection that is not otherwise known is not among them.
gossip_addresses-IsShared :
    (max : ℕ) (a : Text) (b : PeerBook)
    → Unique b.by_addr
    → contains a (gossip_addresses max b) ≡ true
    → (length (gossip_addresses max b) ≤ max) × IsShared a b.by_addr
unfolding gossip_addresses
gossip_addresses-IsShared max a b u e = (
  length-take-le max (sort_texts (gossip_keys (λ _. true) b.by_addr)),
  ((contains-gossip_keys (λ _. true) a b.by_addr u).0 (
      sym (contains-sort_texts a (gossip_keys (λ _. true) b.by_addr))
      ∙ contains-take a max (sort_texts (gossip_keys (λ _. true) b.by_addr)) e)).1,
)
