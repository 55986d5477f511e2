-- ===== src/Network/Slots.antt =====
-- node/src/network.rs: `InboundSlotPool`, the counter that several threads share, and the permits
-- that they hold. Each step is one atomic access.
use trilogicon_core.Prelude.{ℕ, ◌+◌, ◌-◌, ◌≡◌, ◌≢◌, ◌≤◌, ◌<◌, List, [], ◌∷◌, ◌++◌, arith, refl, ap}

-- Where a thread stands: outside; in the loop of `try_acquire` with what it has read; with a permit;
-- and in the loop of `drop`, with what it has read.
pub data Pc : Type 0 where
  outside : Pc
  trying : ℕ → Pc
  holding : Pc
  dropping : ℕ → Pc

-- What one thread does to the counter. `compare_exchange_weak` may fail for no reason;
-- `compare_exchange` fails only when the counter has another value.
pub data Move (max : ℕ) : ℕ → Pc → ℕ → Pc → Type 0 where
  load : {a : ℕ} → Move max a outside a (trying a)
  refuse : {a n : ℕ} → max ≤ n → Move max a (trying n) a outside
  take : {a n : ℕ} → n < max → a ≡ n → Move max a (trying n) (n + 1) holding
  retry : {a n : ℕ} → n < max → Move max a (trying n) a (trying a)
  drop_load : {a : ℕ} → a ≢ 0 → Move max a holding a (dropping a)
  drop_empty : {a : ℕ} → a ≡ 0 → Move max a holding a outside
  release : {a n : ℕ} → a ≡ n → Move max a (dropping n) (n - 1) outside
  again : {a n : ℕ} → a ≢ n → Move max a (dropping n) a holding

-- The counter and the threads.
pub record SlotPool : Type 0 where
  pub active : ℕ
  pub threads : List Pc

-- One of the threads moves, or a thread is spawned.
pub data Step (max : ℕ) : SlotPool → SlotPool → Type 0 where
  moves :
      {a b : ℕ} {p q : Pc} (before after : List Pc)
      → Move max a p b q
      → Step max
          (record { active = a; threads = before ++ p ∷ after })
          (record { active = b; threads = before ++ q ∷ after })
  spawns :
      {a : ℕ} {ts : List Pc}
      → Step max
          (record { active = a; threads = ts })
          (record { active = a; threads = outside ∷ ts })

-- `InboundSlotPool::new`, before any thread runs.
abbrev pub new_pool : SlotPool
new_pool = record { active = 0; threads = [] }

pub data Reach (max : ℕ) : SlotPool → Type 0 where
  start : Reach max new_pool
  later : {s t : SlotPool} → Reach max s → Step max s t → Reach max t

-- The permits that a thread has.
abbrev pub permits_of : Pc → ℕ
permits_of outside = 0
permits_of (trying n) = 0
permits_of holding = 1
permits_of (dropping n) = 1

abbrev pub permits : List Pc → ℕ
permits [] = 0
permits (p ∷ ps) = permits_of p + permits ps

permits-append : (xs ys : List Pc) → permits (xs ++ ys) ≡ permits xs + permits ys
permits-append [] ys = omega arith
permits-append (x ∷ xs) ys = omega (arith, permits-append xs ys)

-- The counter is the number of permits, which the bound limits.
pub record IsSound (max : ℕ) (s : SlotPool) : Type 0 where
  pub counted : s.active ≡ permits s.threads
  pub bounded : s.active ≤ max

Move-counts :
    {max a b : ℕ} {p q : Pc} (others : ℕ)
    → Move max a p b q
    → a ≡ permits_of p + others
    → a ≤ max
    → (b ≡ permits_of q + others) × (b ≤ max)
Move-counts others load e l = omega arith
Move-counts others (refuse h) e l = omega arith
Move-counts others (take h g) e l = omega (arith, h, g)
Move-counts others (retry h) e l = omega arith
Move-counts others (drop_load h) e l = omega arith
Move-counts others (drop_empty h) e l = absurd (omega (arith, h))
Move-counts others (release h) e l = omega (arith, h)
Move-counts others (again h) e l = omega arith

Step-IsSound : {max : ℕ} {s t : SlotPool} → Step max s t → IsSound max s → IsSound max t
Step-IsSound (moves {p} {q} before after mv) v =
    let r =
      Move-counts (permits before + permits after) mv
        (omega (arith, v.counted, permits-append before (p ∷ after))) v.bounded in
    record { counted = omega (arith, r.0, permits-append before (q ∷ after)); bounded = r.1 }
Step-IsSound spawns v = record { counted = omega (arith, v.counted); bounded = v.bounded }

-- However the threads interleave, the counter is the number of permits held, and never more than the
-- bound on concurrent sessions.
pub Reach-IsSound : {max : ℕ} {s : SlotPool} → Reach max s → IsSound max s
Reach-IsSound start = record { counted = refl; bounded = omega arith }
Reach-IsSound (later r st) = Step-IsSound st (Reach-IsSound r)

-- A thread that gives a permit back never finds the counter at zero.
holding_counts :
    {max : ℕ} {s : SlotPool} (before after : List Pc)
    → Reach max s
    → s.threads ≡ before ++ holding ∷ after
    → 0 < s.active
holding_counts {s} before after r e =
    omega (arith, (Reach-IsSound r).counted, permits-append before (holding ∷ after), ap permits e)
