-- ===== src/PeerBook/Keys.antt =====
-- The addresses of the book that may be handed on, and their order.
use trilogicon_core.Prelude.{
  ◌≡◌, ◌↔◌, Text, none, some, Bool, true, false, List, [], ◌∷◌, arith, text_eq, contains, Distinct,
  map, refl, ◌∙◌, ◌=?◌, ⊤,
}
use trilogicon_core.Prelude.Maps.{Dict, get, Unique}
use trilogicon_core.Prelude.Sorting.{sort_pairs, insert_sorted}
use trilogicon_core.PeerBook.{PeerEntry, gossip_keys, sort_texts, key_of, unit_pair}

abbrev keys : List (Text × ⊤) → List Text
keys = map key_of

contains-insert_sorted :
    (a : Text) (p : Text × ⊤) (m : List (Text × ⊤))
    → contains a (keys (insert_sorted p m)) ≡ contains a (p.0 ∷ keys m)
unfolding insert_sorted contains
contains-insert_sorted a p [] = refl
contains-insert_sorted a p (q ∷ m) = ground (arith, contains-insert_sorted a p m)

pub contains-sort_texts : (a : Text) (l : List Text) → contains a (sort_texts l) ≡ contains a l
unfolding sort_texts sort_pairs contains
contains-sort_texts a [] = refl
contains-sort_texts a (x ∷ l) =
    contains-insert_sorted a (unit_pair x) (sort_pairs (map unit_pair l))
    ∙ ground (arith, contains-sort_texts a l)

insert_sorted-Distinct :
    (p : Text × ⊤) (m : List (Text × ⊤))
    → contains p.0 (keys m) ≡ false
    → Distinct (keys m)
    → Distinct (keys (insert_sorted p m))
unfolding insert_sorted contains
insert_sorted-Distinct p [] n d = (refl, tt)
insert_sorted-Distinct p (q ∷ m) n d =
    ground (arith, insert_sorted-Distinct p m (ground arith) d.1, contains-insert_sorted q.0 p m)

pub sort_texts-Distinct : (l : List Text) → Distinct l → Distinct (sort_texts l)
unfolding sort_texts sort_pairs
sort_texts-Distinct [] d = tt
sort_texts-Distinct (x ∷ l) d =
    insert_sorted-Distinct (unit_pair x) (sort_pairs (map unit_pair l))
      (contains-sort_texts x l ∙ d.0) (sort_texts-Distinct l d.1)

-- The address is in the book and may be handed on.
abbrev pub IsShared : Text → Dict Text PeerEntry → Type 0
IsShared a m = (e : PeerEntry) × (get a m ≡ some e) × (e.include_in_gossip ≡ true)

no_gossip :
    (test : Text → Bool) (a : Text) (m : Dict Text PeerEntry)
    → get a m ≡ none
    → contains a (gossip_keys test m) ≡ false
unfolding gossip_keys contains get
no_gossip test a [] e = refl
no_gossip test a ((k, x) ∷ m) e = ground (arith, no_gossip test a m)

pub contains-gossip_keys :
    (test : Text → Bool) (a : Text) (m : Dict Text PeerEntry)
    → Unique m
    → (contains a (gossip_keys test m) ≡ true) ↔ ((test a ≡ true) × IsShared a m)
unfolding gossip_keys contains get
contains-gossip_keys test a [] u = ((λ e. absurd (ground arith)), λ h. absurd (ground arith))
contains-gossip_keys test a ((k, x) ∷ m) u =
    let ih = contains-gossip_keys test a m u.1 in
    elim (a =? k) [
      | yes same ↦ (
        (λ e. (
          ground (arith, same, no_gossip test k m u.0),
          (x, ground arith, ground (arith, same, no_gossip test k m u.0)),
        )),
        λ h. ground (arith, same),
      )
      | no other ↦ (
        (λ e. let (t, shared) = ih.0 (ground arith) in (t, (shared.0, ground arith, shared.2))),
        λ h. let c = ih.1 (h.0, (h.1.0, ground arith, h.1.2)) in ground arith,
      )
    ]

pub gossip_keys-Distinct :
    (test : Text → Bool) (m : Dict Text PeerEntry) → Unique m → Distinct (gossip_keys test m)
unfolding gossip_keys
gossip_keys-Distinct test [] u = tt
gossip_keys-Distinct test ((k, x) ∷ m) u =
    ground (arith, gossip_keys-Distinct test m u.1, no_gossip test k m u.0)
