-- ===== src/Tests/PeerWitnesses.antt =====
-- The theorems about the peer book and the session slots at concrete inputs.
use trilogicon_core.Prelude.{
  ◌≡◌, ◌≤◌, ◌<◌, ◌+◌, ◌*◌, ◌↔◌, ◌⊎◌, refl, List, Distinct, true, false, Text, [], ◌∷◌, arith,
  contains, is_nil, map, trim, text_eq,
}
use trilogicon_core.Prelude.Maps.{get}
use trilogicon_core.PeerBook.{PeerBook, fresh_entry, is_available, sync_candidates, min}
use trilogicon_core.PeerBook.Health.{
  Contact, succeeded, failed, noted, failures, last_failure, is_available-noted_iff,
}
use trilogicon_core.PeerBook.Keys.{IsShared}
use trilogicon_core.PeerBook.Candidates.{sync_candidates_iff}
use trilogicon_core.Network.Slots.{
  holding, load, take, moves, spawns, Reach, start, later, IsSound, Reach-IsSound,
}

abbrev near : Text
near = 97 ∷ []

abbrev far : Text
far = 98 ∷ []

abbrev history : List Contact
history = failed near 9 ∷ succeeded far 8 ∷ failed near 7 ∷ []

available_example : (is_available near 12 (noted history) ≡ false) ↔ (
    (5 ≤ failures near history)
    × (12 < last_failure near history + 30 * min (failures near history) 8))
available_example = is_available-noted_iff near 12 history

abbrev book : PeerBook
book = record { by_addr = (far, fresh_entry far true) ∷ [] }

candidates_example :
    Distinct (sync_candidates (near ∷ []) book)
    × ((a : Text)
        → (contains a (sync_candidates (near ∷ []) book) ≡ true) ↔ (
            ((contains a (map trim (near ∷ [])) ≡ true) × (is_nil a ≡ false))
            ⊎ IsShared a book.by_addr))
unfolding get
candidates_example = sync_candidates_iff (near ∷ []) book (refl, tt)

-- One thread takes the first of two permits.
abbrev one_session : Reach 2 (record { active = 1; threads = holding ∷ [] })
one_session =
    later (later (later start spawns) (moves [] [] load))
      (moves [] [] (take {n = 0} (omega arith) refl))

slots_example : IsSound 2 (record { active = 1; threads = holding ∷ [] })
slots_example = Reach-IsSound one_session
