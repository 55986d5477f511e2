-- ===== src/PeerBook/Health.antt =====
-- The cooldown of a peer, as a function of what has happened with it.
use trilogicon_core.Prelude.{
  ℕ, ◌+◌, ◌*◌, ◌≡◌, ◌≤◌, ◌<◌, ◌↔◌, Text, false, List, [], ◌∷◌, arith, text_eq, ite, ◌=?◌,
  Option-cases, inl, inr,
}
use trilogicon_core.Prelude.Maps.{get, get-insert}
use trilogicon_core.Encoding.Cursor.{u32_max}
use trilogicon_core.PeerBook.{
  PeerBook, PeerEntry, entry_or_new, fresh_entry, put_entry, record_ok, record_fail, one_more,
  is_available, entry_available, min,
}

-- What the node notes about an address, and when.
pub data Contact : Type 0 where
  succeeded : Text → ℕ → Contact
  failed : Text → ℕ → Contact

abbrev empty_book : PeerBook
empty_book = record { by_addr = [] }

-- The book after a history, the latest contact in front.
unfoldable pub noted : List Contact → PeerBook
noted [] = empty_book
noted (succeeded a t ∷ older) = record_ok a t (noted older)
noted (failed a t ∷ older) = record_fail a t (noted older)

-- The failures since the last success.
unfoldable pub failures : Text → List Contact → ℕ
failures a [] = 0
failures a (succeeded b t ∷ older) = ite (a =? b) 0 (failures a older)
failures a (failed b t ∷ older) = ite (a =? b) (failures a older + 1) (failures a older)

-- The time of the last failure.
unfoldable pub last_failure : Text → List Contact → ℕ
last_failure a [] = 0
last_failure a (succeeded b t ∷ older) = last_failure a older
last_failure a (failed b t ∷ older) = ite (a =? b) t (last_failure a older)

abbrev entry_of : Text → PeerBook → PeerEntry
entry_of a b = entry_or_new a (get a b.by_addr)

abbrev after_ok : ℕ → PeerEntry → PeerEntry
after_ok t e = record e { fail_streak = 0; last_ok_unix = t }

abbrev after_fail : ℕ → PeerEntry → PeerEntry
after_fail t e = record e { fail_streak = one_more e.fail_streak; last_fail_unix = t }

entry-put_entry :
    (a b : Text) (e : PeerEntry) (k : PeerBook)
    → entry_of a (put_entry b e k) ≡ ite (a =? b) e (entry_of a k)
unfolding put_entry
entry-put_entry a b e k = ground (arith, get-insert b a e k.by_addr)

entry-record_ok :
    (a b : Text) (t : ℕ) (k : PeerBook)
    → entry_of a (record_ok b t k) ≡ ite (a =? b) (after_ok t (entry_of b k)) (entry_of a k)
unfolding record_ok
entry-record_ok a b t k = entry-put_entry a b (after_ok t (entry_of b k)) k

entry-record_fail :
    (a b : Text) (t : ℕ) (k : PeerBook)
    → entry_of a (record_fail b t k) ≡ ite (a =? b) (after_fail t (entry_of b k)) (entry_of a k)
unfolding record_fail
entry-record_fail a b t k = entry-put_entry a b (after_fail t (entry_of b k)) k

fail_streak_of :
    (a b : Text) (t : ℕ) (older : List Contact)
    → a ≡ b
    → entry_of a (record_fail b t (noted older))
      ≡ ite (a =? b) (after_fail t (entry_of b (noted older))) (entry_of a (noted older))
    → (entry_of a (noted older)).fail_streak ≡ min (failures a older) u32_max
    → (entry_of a (record_fail b t (noted older))).fail_streak
      ≡ min (ite (a =? b) (failures a older + 1) (failures a older)) u32_max
unfolding one_more
fail_streak_of a b t older same e streak = ground (arith, e, streak, same)

-- The streak is the number of failures as far as a u32 counts, and the time is that of the last.
noted_entry :
    (a : Text) (h : List Contact)
    → ((entry_of a (noted h)).fail_streak ≡ min (failures a h) u32_max)
      × ((entry_of a (noted h)).last_fail_unix ≡ last_failure a h)
unfolding noted failures last_failure get fresh_entry
noted_entry a [] = ground arith
noted_entry a (succeeded b t ∷ older) =
    let e = entry-record_ok a b t (noted older) in
    let (streak, time) = noted_entry a older in
    elim (a =? b) [
      | yes same ↦ (ground (arith, e), ground (arith, e, same))
      | no other ↦ (ground (arith, e), ground (arith, e))
    ]
noted_entry a (failed b t ∷ older) =
    let e = entry-record_fail a b t (noted older) in
    let (streak, time) = noted_entry a older in
    elim (a =? b) [
      | yes same ↦ (fail_streak_of a b t older same e streak, ground (arith, e))
      | no other ↦ (ground (arith, e), ground (arith, e))
    ]

-- A peer is passed over exactly when it has failed at least five times since its last success, and
-- fewer than thirty seconds for each of these failures, eight at most, have gone by since the last
-- failure.
pub is_available-noted_iff :
    (a : Text) (now : ℕ) (h : List Contact)
    → (is_available a now (noted h) ≡ false)
      ↔ ((5 ≤ failures a h) × (now < last_failure a h + 30 * min (failures a h) 8))
unfolding is_available entry_available fresh_entry
is_available-noted_iff a now h =
    let (streak, time) = noted_entry a h in
    elim (Option-cases (get a (noted h).by_addr)) [
      | inl gone ↦ ground (arith, streak)
      | inr (e, there) ↦ ground (arith, streak, time)
    ]
