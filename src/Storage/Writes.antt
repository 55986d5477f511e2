-- ===== src/Storage/Writes.antt =====
-- Sequences of writes: what is on disk after them, whether they end well or not.
use trilogicon_core.Prelude.{
  ℕ, zero, suc, ◌≡◌, ◌⊎◌, inl, inr, Text, Result, ok, err, ⊤, Bool, true, false, [], ◌∷◌, ◌++◌,
  append-nil, append_assoc, arith, take, drop, refl, ap, sym, subst, ◌∙◌, Result-cases,
}
use trilogicon_core.Storage.Io.{Outcome, fine, fails, IoError, os, IoAction, ◌>>=◌, ◌>>◌}
use trilogicon_core.Storage.Frames.{ChainFileFormat, legacy, v2, frame, chain_file_magic}
use trilogicon_core.Storage.Store.{
  BlockStore, Faults, write_header, write_magic, write_frame, write_all, sync_all, note_magic,
}

take-drop : (n : ℕ) (xs : Text) → take n xs ++ drop n xs ≡ xs
take-drop zero xs = refl
take-drop (suc n) [] = refl
take-drop (suc n) (x ∷ xs) = ap (◌∷◌ x) (take-drop n xs)

-- Nothing but the file has changed, of what an append depends on.
abbrev pub Keeps : BlockStore → BlockStore → Type 0
Keeps s t = (t.format ≡ s.format) × (t.poisoned ≡ s.poisoned)

abbrev pub IsDone : Result IoError ⊤ × BlockStore → BlockStore → Text → Type 0
IsDone r s bytes = (r.0 ≡ ok tt) × (r.1.disk ≡ s.disk ++ bytes) × Keeps s r.1

-- An error, with the front part of the bytes in the file.
pub record IsCut (r : Result IoError ⊤ × BlockStore) (s : BlockStore) (bytes : Text) : Type 0 where
  pub failed : r.0 ≡ err os
  pub part : Text
  pub rest : Text
  pub parts : part ++ rest ≡ bytes
  pub disk_after : r.1.disk ≡ s.disk ++ part
  pub keeps : Keeps s r.1

-- A computation that writes these bytes, or a front part of them and fails.
abbrev pub Writes : IoAction BlockStore ⊤ → BlockStore → Text → Type 0
Writes m s bytes = IsDone (m s) s bytes ⊎ IsCut (m s) s bytes

write_all-Writes :
    (o : Outcome) (bytes : Text) (s : BlockStore) → Writes (write_all o bytes) s bytes
unfolding write_all
write_all-Writes fine bytes s = inl (refl, refl, (refl, refl))
write_all-Writes (fails n) bytes s = inr (record {
  failed = refl;
  part = take n bytes;
  rest = drop n bytes;
  parts = take-drop n bytes;
  disk_after = refl;
  keeps = (refl, refl);
})

sync_all-Writes : (o : Outcome) (s : BlockStore) → Writes (sync_all o) s []
unfolding sync_all
sync_all-Writes fine s = inl (refl, sym (append-nil s.disk), (refl, refl))
sync_all-Writes (fails n) s = inr (record {
  failed = refl;
  part = [];
  rest = [];
  parts = refl;
  disk_after = sym (append-nil s.disk);
  keeps = (refl, refl);
})

note_magic-Writes : (s : BlockStore) → Writes note_magic s []
note_magic-Writes s = inl (refl, sym (append-nil s.disk), (refl, refl))

module _ (m k : IoAction BlockStore ⊤) (s : BlockStore) where
  continues : (m s).0 ≡ ok tt → (m >> k) s ≡ k (m s).1
  continues e = rw (◌>>◌, ◌>>=◌, e) refl

  stops : (e : IoError) → (m s).0 ≡ err e → (m >> k) s ≡ (err e, (m s).1)
  stops x e = rw (◌>>◌, ◌>>=◌, e) refl

  -- One after the other writes one behind the other.
  sequence-Writes :
      (xs ys : Text) → Writes m s xs → Writes k (m s).1 ys → Writes (m >> k) s (xs ++ ys)
  sequence-Writes xs ys (inr cut) next = inr (
      subst (λ r. IsCut r s (xs ++ ys)) (sym (stops os cut.failed))
        (record {
          failed = refl;
          part = cut.part;
          rest = cut.rest ++ ys;
          parts = sym (append_assoc cut.part cut.rest ys) ∙ ap (λ z. z ++ ys) cut.parts;
          disk_after = cut.disk_after;
          keeps = cut.keeps;
        }))
  sequence-Writes xs ys (inl (e, d, keeps)) (inl (e', d', keeps')) = inl (
      subst (λ r. IsDone r s (xs ++ ys)) (sym (continues e))
        (
          e',
          d' ∙ ap (λ z. z ++ ys) d ∙ append_assoc s.disk xs ys,
          (keeps'.0 ∙ keeps.0, keeps'.1 ∙ keeps.1),
        ))
  sequence-Writes xs ys (inl (e, d, keeps)) (inr cut) = inr (
      subst (λ r. IsCut r s (xs ++ ys)) (sym (continues e))
        (record {
          failed = cut.failed;
          part = xs ++ cut.part;
          rest = cut.rest;
          parts = append_assoc xs cut.part cut.rest ∙ ap (λ z. xs ++ z) cut.parts;
          disk_after = cut.disk_after ∙ ap (λ z. z ++ cut.part) d ∙ append_assoc s.disk xs cut.part;
          keeps = (cut.keeps.0 ∙ keeps.0, cut.keeps.1 ∙ keeps.1);
        }))

-- The header, if it is still to be written.
abbrev pub due : ChainFileFormat → Bool → Text
due legacy magic_on_disk = []
due v2 true = []
due v2 false = chain_file_magic

nothing-Writes : (s : BlockStore) → IsDone (ok tt, s) s []
nothing-Writes s = (refl, sym (append-nil s.disk), (refl, refl))

write_header-Writes :
    (f : Faults) (fmt : ChainFileFormat) (magic_on_disk : Bool) (s : BlockStore)
    → Writes (write_header f fmt magic_on_disk) s (due fmt magic_on_disk)
unfolding write_header
write_header-Writes f legacy m s = inl (nothing-Writes s)
write_header-Writes f v2 true s = inl (nothing-Writes s)
write_header-Writes f v2 false s =
    subst (Writes (write_header f v2 false) s) (append-nil chain_file_magic) (
      sequence-Writes (write_all f.magic chain_file_magic) (sync_all f.magic_sync >> note_magic) s
        chain_file_magic [] (write_all-Writes f.magic chain_file_magic s)
        (sequence-Writes (sync_all f.magic_sync) note_magic _ [] [] (sync_all-Writes f.magic_sync _)
          (note_magic-Writes _)))

Writes-Keeps :
    (m : IoAction BlockStore ⊤) (s : BlockStore) (bytes : Text) → Writes m s bytes → Keeps s (m s).1
Writes-Keeps m s bytes (inl (_, _, keeps)) = keeps
Writes-Keeps m s bytes (inr cut) = cut.keeps

-- What is written for the next payload.
abbrev pub pending : BlockStore → Text → Text
pending s payload = due s.format s.v2_magic_on_disk ++ frame s.format payload

-- The three steps of an append, which the store takes unless it is poisoned or the payload too long.
abbrev pub steps : Faults → Text → IoAction BlockStore ⊤
steps f payload = do write_magic f; write_frame f payload; sync_all f.frame_sync

pub steps-Writes :
    (f : Faults) (payload : Text) (s : BlockStore) → Writes (steps f payload) s (pending s payload)
unfolding write_magic write_frame
steps-Writes f payload s =
    sequence-Writes (write_magic f) (write_frame f payload >> sync_all f.frame_sync) s
      (due s.format s.v2_magic_on_disk) (frame s.format payload) header_written
      (subst (Writes (write_frame f payload >> sync_all f.frame_sync) t)
        (append-nil (frame t.format payload)
          ∙ ap (λ z. frame z payload) (Writes-Keeps (write_magic f) s _ header_written).0)
        (sequence-Writes (write_frame f payload) (sync_all f.frame_sync) t (frame t.format payload)
          [] (write_all-Writes f.frame_write (frame t.format payload) t)
          (sync_all-Writes f.frame_sync _)))
  where
    header_written : Writes (write_magic f) s (due s.format s.v2_magic_on_disk)
    header_written = write_header-Writes f s.format s.v2_magic_on_disk s

    t : BlockStore
    t = (write_magic f s).1

write_header_done :
    (f : Faults) (fmt : ChainFileFormat) (magic_on_disk : Bool) (s : BlockStore)
    → fmt ≡ s.format
    → magic_on_disk ≡ s.v2_magic_on_disk
    → (write_header f fmt magic_on_disk s).0 ≡ ok tt
    → due fmt (write_header f fmt magic_on_disk s).1.v2_magic_on_disk ≡ []
unfolding write_header write_all sync_all
write_header_done f legacy m s e k h = refl
write_header_done f v2 true s e k h = rw (sym k) refl
write_header_done f v2 false s e k h = ground arith

rest_keeps_magic :
    (f : Faults) (payload : Text) (s : BlockStore)
    → ((write_frame f payload >> sync_all f.frame_sync) s).1.v2_magic_on_disk ≡ s.v2_magic_on_disk
unfolding write_frame write_all sync_all
rest_keeps_magic f payload s = ground arith

pub steps_done :
    (f : Faults) (payload : Text) (s : BlockStore)
    → (steps f payload s).0 ≡ ok tt
    → due s.format (steps f payload s).1.v2_magic_on_disk ≡ []
unfolding write_magic
steps_done f payload s e = elim (Result-cases (write_magic f s).0) [
  | inl (_, went) ↦
      ap (λ r. due s.format r.1.v2_magic_on_disk)
        (continues (write_magic f) (write_frame f payload >> sync_all f.frame_sync) s went)
      ∙ ap (due s.format) (rest_keeps_magic f payload (write_magic f s).1)
      ∙ write_header_done f s.format s.v2_magic_on_disk s refl refl went
  | inr (x, failed) ↦ ground arith
]
