-- ===== src/PeerBook.antt =====
-- node/src/peer_book.rs: the addresses of peers with their streaks of failures. The clock is a
-- parameter. Reading and writing the TOML file is not modelled.
pub mod Health
pub mod Keys
pub mod Candidates
use trilogicon_core.Prelude.{
  ℕ, ◌+◌, ◌-◌, ◌*◌, Text, none, some, Option, Bool, true, false, not, ◌&&◌, List, [], ◌∷◌, ◌++◌,
  leb, ltb, is_nil, if◌then◌else◌, text_eq, contains, take, map, trim, u64_max, ⊤,
}
use trilogicon_core.Prelude.Maps.{Dict, get, insert}
use trilogicon_core.Prelude.Sorting.{sort_pairs}
use trilogicon_core.Encoding.Cursor.{u32_max}

-- `FAIL_STREAK_COOLDOWN_THRESHOLD`
abbrev pub fail_streak_cooldown_threshold : ℕ
fail_streak_cooldown_threshold = 5

-- `COOLDOWN_BASE_SECS`
abbrev pub cooldown_base_secs : ℕ
cooldown_base_secs = 30

pub record PeerEntry : Type 0 where
  pub addr : Text
  pub fail_streak : ℕ
  pub last_fail_unix : ℕ
  pub last_ok_unix : ℕ
  pub include_in_gossip : Bool

pub record PeerBook : Type 0 where
  pub by_addr : Dict Text PeerEntry

-- The entry that the methods insert for an address that is not in the book.
unfoldable pub fresh_entry : Text → Bool → PeerEntry
fresh_entry addr gossip = record {
  addr = addr;
  fail_streak = 0;
  last_fail_unix = 0;
  last_ok_unix = 0;
  include_in_gossip = gossip;
}

unfoldable pub put_entry : Text → PeerEntry → PeerBook → PeerBook
put_entry addr e b = record { by_addr = insert addr e b.by_addr }

-- The book that `load_or_empty` makes of the entries of the file.
unfoldable pub from_entries : List PeerEntry → PeerBook → PeerBook
from_entries [] b = b
from_entries (e ∷ rest) b = from_entries rest (put_entry e.addr e b)

unfoldable pub merge_seed : Text → PeerBook → PeerBook
merge_seed addr b = if is_nil addr then b else elim (get addr b.by_addr) [
  | none ↦ put_entry addr (fresh_entry addr true) b
  | some e ↦ put_entry addr (record e { include_in_gossip = true }) b
]

-- One round of `merge_seeds_report_new`, with the count of new addresses.
unfoldable pub merge_and_count : Text → ℕ × PeerBook → ℕ × PeerBook
merge_and_count a (n, b) = if is_nil a then (n, b) else elim (get a b.by_addr) [
  | some e ↦ (n, put_entry a (record e { include_in_gossip = true }) b)
  | none ↦ (n + 1, put_entry a (fresh_entry a true) b)
]

unfoldable pub merge_seeds_from : List Text → ℕ × PeerBook → ℕ × PeerBook
merge_seeds_from [] s = s
merge_seeds_from (a ∷ rest) s = merge_seeds_from rest (merge_and_count a s)

unfoldable pub merge_seeds_report_new : List Text → PeerBook → ℕ × PeerBook
merge_seeds_report_new addrs b = merge_seeds_from addrs (0, b)

unfoldable pub merge_inbound_peer : Text → PeerBook → PeerBook
merge_inbound_peer addr b =
    if is_nil addr
    then b
    else elim (get addr b.by_addr) [ some _ ↦ b | none ↦ put_entry addr (fresh_entry addr false) b ]

abbrev pub min : ℕ → ℕ → ℕ
min a b = if leb a b then a else b

-- `COOLDOWN_BASE_SECS.saturating_mul(mult)`
abbrev pub saturating_mul : ℕ → ℕ → ℕ
saturating_mul a b = if leb (a * b) u64_max then a * b else u64_max

-- On ℕ the difference stops at 0, as `saturating_sub` does.
unfoldable pub entry_available : PeerEntry → ℕ → Bool
entry_available e now =
    if ltb e.fail_streak fail_streak_cooldown_threshold
    then true
    else leb (saturating_mul cooldown_base_secs (min e.fail_streak 8)) (now - e.last_fail_unix)

unfoldable pub is_available : Text → ℕ → PeerBook → Bool
is_available addr now b = elim (get addr b.by_addr) [ none ↦ true | some e ↦ entry_available e now ]

unfoldable pub filter_available : List Text → ℕ → PeerBook → List Text
filter_available [] now b = []
filter_available (a ∷ rest) now b =
    let kept = filter_available rest now b in if is_available a now b then a ∷ kept else kept

-- `by_addr.iter().filter(|(k, e)| test(k) && e.include_in_gossip).map(|(k, _)| k)`
unfoldable pub gossip_keys : (Text → Bool) → Dict Text PeerEntry → List Text
gossip_keys test [] = []
gossip_keys test ((k, e) ∷ rest) =
    let kept = gossip_keys test rest in if test k && e.include_in_gossip then k ∷ kept else kept

abbrev unit_pair : Text → Text × ⊤
unit_pair k = (k, tt)

abbrev key_of : Text × ⊤ → Text
key_of p = p.0

-- `sort()` on strings
unfoldable pub sort_texts : List Text → List Text
sort_texts keys = map key_of (sort_pairs (map unit_pair keys))

-- The loop of `sync_candidates` over the trimmed seeds, with the set of those seen.
unfoldable pub distinct_seeds : List Text → List Text → List Text
distinct_seeds seen [] = []
distinct_seeds seen (s ∷ rest) =
    let skip = distinct_seeds seen rest in
    let more = distinct_seeds (s ∷ seen) rest in
    if is_nil s then skip else if contains s seen then skip else s ∷ more

-- The set of the seeds seen has the addresses of `out`.
unfoldable pub sync_candidates : List Text → PeerBook → List Text
sync_candidates seeds b =
    let out = distinct_seeds [] (map trim seeds) in
    out ++ sort_texts (gossip_keys (λ k. not (contains k out)) b.by_addr)

unfoldable pub gossip_addresses : ℕ → PeerBook → List Text
gossip_addresses max b = take max (sort_texts (gossip_keys (λ _. true) b.by_addr))

-- `entry(addr).or_insert(..)`
abbrev pub entry_or_new : Text → Option PeerEntry → PeerEntry
entry_or_new addr none = fresh_entry addr true
entry_or_new addr (some e) = e

unfoldable pub record_ok : Text → ℕ → PeerBook → PeerBook
record_ok addr now b =
    put_entry addr
      (record (entry_or_new addr (get addr b.by_addr)) { fail_streak = 0; last_ok_unix = now }) b

-- `fail_streak.saturating_add(1)` on a u32
unfoldable pub one_more : ℕ → ℕ
one_more n = if leb (n + 1) u32_max then n + 1 else u32_max

unfoldable pub record_fail : Text → ℕ → PeerBook → PeerBook
record_fail addr now b =
    let e = entry_or_new addr (get addr b.by_addr) in
    put_entry addr (record e { fail_streak = one_more e.fail_streak; last_fail_unix = now }) b
