-- ===== src/Seen.antt =====
-- node/src/seen.rs: the bounded memory of gossiped ids, oldest out first.
use trilogicon_core.Prelude.{
  ⊤, ℕ, zero, suc, ◌+◌, ◌≡◌, ◌≤◌, Text, Bool, true, false, List, [], ◌∷◌, ◌++◌, arith, length,
  contains, leb, ite, ◌=?◌, ◌-◌, if◌then◌else◌, drop, text_eq, inl, inr, refl, sym, ap, ◌∙◌,
  Bool-cases, length-append,
}

pub record SeenCache : Type 0 where
  pub cap : ℕ
  pub order : List Text
  pub set : List Text

-- `SeenCache::new`
unfoldable pub new_cache : ℕ → SeenCache
new_cache cap = record { cap = if leb 1 cap then cap else 1; order = []; set = [] }

-- `HashSet::remove`
unfoldable pub forget : Text → List Text → List Text
forget a [] = []
forget a (b ∷ rest) = ite (a =? b) rest (b ∷ forget a rest)

-- `while order.len() >= cap { pop_front; set.remove }`, by recursion on the queue that it pops. The
-- capacity is at least 1, so that the loop ends at the latest when the queue is empty.
unfoldable pub drop_oldest : ℕ → List Text → List Text → List Text × List Text
drop_oldest cap [] set = ([], set)
drop_oldest cap (old ∷ rest) set =
    let next = drop_oldest cap rest (forget old set) in
    if leb cap (length (old ∷ rest)) then next else (old ∷ rest, set)

-- `SeenCache::insert`. A set keeps one copy: the id is not in it when it is added.
unfoldable pub insert_id : Text → SeenCache → Bool × SeenCache
insert_id id c =
    if contains id c.set
    then (false, c)
    else let (order, set) = drop_oldest c.cap c.order c.set in
      (true, record c { set = id ∷ set; order = order ++ id ∷ [] })

abbrev Distinct : List Text → Type 0
Distinct [] = ⊤
Distinct (x ∷ xs) = (contains x xs ≡ false) × Distinct xs

-- The set has the ids of the queue, none is twice in either, and they fit the capacity.
pub record WellFormed (c : SeenCache) : Type 0 where
  pub positive : 1 ≤ c.cap
  pub fits : length c.order ≤ c.cap
  pub once : Distinct c.order
  pub once_set : Distinct c.set
  pub same : (a : Text) → contains a c.set ≡ contains a c.order

contains-forget :
    (a b : Text) (s : List Text)
    → Distinct s
    → contains b (forget a s) ≡ (if contains b (a ∷ []) then false else contains b s)
unfolding contains forget
contains-forget a b [] d = ground arith
contains-forget a b (x ∷ s) d = ground (arith, contains-forget a b s d.1)

forget-Distinct : (a : Text) (s : List Text) → Distinct s → Distinct (forget a s)
unfolding forget contains
forget-Distinct a [] d = tt
forget-Distinct a (x ∷ s) d = ground (arith, forget-Distinct a s d.1, contains-forget a x s d.1)

contains-append :
    (a b : Text) (s : List Text)
    → contains a (s ++ b ∷ []) ≡ (if contains a s then true else contains a (b ∷ []))
unfolding contains
contains-append a b [] = ground arith
contains-append a b (x ∷ s) = ground (arith, contains-append a b s)

append-Distinct :
    (b : Text) (s : List Text) → Distinct s → contains b s ≡ false → Distinct (s ++ b ∷ [])
unfolding contains
append-Distinct b [] d n = (refl, tt)
append-Distinct b (x ∷ s) d n =
    (ground (arith, contains-append x b s), append-Distinct b s d.1 (ground arith))

drop_all : (n : ℕ) → [] ≡ drop {A = Text} n []
drop_all zero = refl
drop_all (suc n) = refl

drop_none : (xs : List Text) (n : ℕ) → n ≡ 0 → xs ≡ drop n xs
drop_none xs n e = rw e refl

drop_more : (x : Text) (xs : List Text) (n k : ℕ) → k ≡ n + 1 → drop n xs ≡ drop k (x ∷ xs)
drop_more x xs n zero e = absurd (omega (arith, e))
drop_more x xs n (suc k) e = ap (λ i. drop i xs) (omega (arith, e))

-- Room for one more, and the same ids on both sides.
record Roomy (cap : ℕ) (order set : List Text) (r : List Text × List Text) : Type 0 where
  room : length r.0 + 1 ≤ cap
  once : Distinct r.0
  once_set : Distinct r.1
  same : (a : Text) → contains a r.1 ≡ contains a r.0
  fewer : (a : Text) → contains a set ≡ false → contains a r.1 ≡ false
  last : r.0 ≡ drop (length order + 1 - cap) order

drop_oldest-Roomy :
    (cap : ℕ) (order set : List Text)
    → 1 ≤ cap
    → Distinct order
    → Distinct set
    → ((a : Text) → contains a set ≡ contains a order)
    → Roomy cap order set (drop_oldest cap order set)
unfolding drop_oldest contains
drop_oldest-Roomy cap [] set p d d' s = record {
  room = omega arith;
  once = tt;
  once_set = d';
  same = s;
  fewer = λ a e. e;
  last = drop_all (0 + 1 - cap);
}
drop_oldest-Roomy cap (x ∷ xs) set p d d' s = elim (Bool-cases (leb cap (length (x ∷ xs)))) [
  | inl full ↦
      let r =
        drop_oldest-Roomy cap xs (forget x set) p d.1 (forget-Distinct x set d')
          (λ a. ground (arith, contains-forget x a set d', s a)) in
      rw full (record {
        room = r.room;
        once = r.once;
        once_set = r.once_set;
        same = r.same;
        fewer = λ a e. r.fewer a (ground (arith, contains-forget x a set d'));
        last =
            r.last
            ∙ drop_more x xs (length xs + 1 - cap) (length (x ∷ xs) + 1 - cap) (ground arith);
      })
  | inr free ↦ rw free (record {
    room = ground arith;
    once = d;
    once_set = d';
    same = s;
    fewer = λ a e. e;
    last = drop_none (x ∷ xs) (length (x ∷ xs) + 1 - cap) (ground arith);
  })
]

-- An insertion keeps the capacity, the set and the queue in step.
pub insert_id-WellFormed :
    (id : Text) (c : SeenCache) → WellFormed c → WellFormed (insert_id id c).1
unfolding insert_id contains
insert_id-WellFormed id c w = elim (Bool-cases (contains id c.set)) [
  | inl known ↦ rw known w
  | inr new ↦
      let r = drop_oldest-Roomy c.cap c.order c.set w.positive w.once w.once_set w.same in
      rw new (record {
        positive = w.positive;
        fits = omega (arith, r.room, length-append (drop_oldest c.cap c.order c.set).0 (id ∷ []));
        once =
            append-Distinct id (drop_oldest c.cap c.order c.set).0 r.once
              (sym (r.same id) ∙ r.fewer id new);
        once_set = (r.fewer id new, r.once_set);
        same =
            λ a. ground (arith, contains-append a id (drop_oldest c.cap c.order c.set).0, r.same a);
      })
]
