-- ===== src/Storage/Holds.antt =====
-- The blocks that a store holds, and what an append does to them, whatever the disk answers.
use trilogicon_core.Prelude.{
  ◌≡◌, ◌<◌, ◌⊎◌, inl, inr, Text, Result, ok, err, ⊤, true, false, List, [], ◌∷◌, ◌++◌, arith,
  length, All, All-append, append-nil, append_assoc, refl, ap, sym, subst, ◌∙◌, dec_le,
}
use trilogicon_core.Block.{Block}
use trilogicon_core.Encoding.Blocks.{CanEncodeBlock, block_bytes, encode_block_bytes}
use trilogicon_core.Storage.Io.{fine, IoError, invalid_input, os}
use trilogicon_core.Storage.Frames.{v2, max_frame_bytes, frame, chain_file_magic}
use trilogicon_core.Storage.Store.{
  BlockStore, Faults, append_payload, append_block, poison_on_error, write_magic, write_header,
  write_frame, write_all, sync_all,
}
use trilogicon_core.Storage.Reading.{CanStore, log}
use trilogicon_core.Storage.Files.{header, HasFormat, file_of}
use trilogicon_core.Storage.Recovery.{file_of-append, HasFormat-append}
use trilogicon_core.Storage.Writes.{Writes, IsDone, due, pending, steps, steps-Writes, steps_done}

-- A store that works, with these blocks in its file. A fresh file has no header yet.
pub record Holds (s : BlockStore) (bs : List Block) : Type 0 where
  pub healthy : s.poisoned ≡ false
  pub each : All CanStore bs
  pub has_format : HasFormat s.format bs
  pub content : s.disk ++ due s.format s.v2_magic_on_disk ≡ file_of s.format bs []
  pub fresh :
      (due s.format s.v2_magic_on_disk ≡ [])
      ⊎ ((s.format ≡ v2)
          × (due s.format s.v2_magic_on_disk ≡ chain_file_magic)
          × (s.disk ≡ [])
          × (bs ≡ []))

-- A store that failed in the middle of an append: of what was to be written for the block, a front
-- part is in the file.
pub record Torn (before after : BlockStore) (b : Block) : Type 0 where
  pub sick : after.poisoned ≡ true
  pub part : Text
  pub rest : Text
  pub parts : part ++ rest ≡ pending before (block_bytes b)
  pub disk_after : after.disk ≡ before.disk ++ part

append_unfolds :
    (f : Faults) (b : Block) (s : BlockStore)
    → s.poisoned ≡ false
    → CanStore b
    → append_block f b s ≡ poison_on_error (steps f (block_bytes b) s)
unfolding append_block append_payload
append_unfolds f b s h k = rw (append_block, encode_block_bytes b k.0) (ground (arith, k.1))

append_refuses :
    (f : Faults) (b : Block) (s : BlockStore)
    → s.poisoned ≡ false
    → CanEncodeBlock b
    → max_frame_bytes < length (block_bytes b)
    → append_block f b s ≡ (err invalid_input, s)
unfolding append_block append_payload
append_refuses f b s h k l = rw (append_block, encode_block_bytes b k) (ground arith)

-- What an append to a store with these blocks can do.
abbrev pub IsAppended : Result IoError ⊤ × BlockStore → BlockStore → List Block → Block → Type 0
IsAppended r s bs b =
    ((r.0 ≡ ok tt) × CanStore b × Holds r.1 (bs ++ b ∷ []))
    ⊎ ((r.0 ≡ err invalid_input) × (r.1 ≡ s))
    ⊎ ((r.0 ≡ err os) × CanStore b × Torn s r.1 b)

-- Bytes behind the file, with the header in between if it is still due.
pub file_of_more :
    (s : BlockStore) (bs : List Block) (more : Text)
    → Holds s bs
    → s.disk ++ (due s.format s.v2_magic_on_disk ++ more) ≡ file_of s.format bs more
file_of_more s bs more h =
    sym (append_assoc s.disk (due s.format s.v2_magic_on_disk) more)
    ∙ ap (λ z. z ++ more) h.content
    ∙ append_assoc (header s.format) (log s.format bs ++ []) more
    ∙ ap (λ z. header s.format ++ (z ++ more)) (append-nil (log s.format bs))

done-Holds :
    (f : Faults) (b : Block) (s : BlockStore) (bs : List Block)
    → Holds s bs
    → CanStore b
    → IsDone (steps f (block_bytes b) s) s (pending s (block_bytes b))
    → Holds (steps f (block_bytes b) s).1 (bs ++ b ∷ [])
done-Holds f b s bs h k (e, d, keeps) = record {
  healthy = keeps.1 ∙ h.healthy;
  each = All-append CanStore bs (b ∷ []) h.each (k, tt);
  has_format = rw keeps.0 (HasFormat-append s.format bs b);
  content =
      rw (keeps.0, steps_done f (block_bytes b) s e)
        (append-nil (steps f (block_bytes b) s).1.disk
          ∙ d
          ∙ file_of_more s bs (frame s.format (block_bytes b)) h
          ∙ file_of-append s.format bs b);
  fresh = inl (rw keeps.0 (steps_done f (block_bytes b) s e));
}

poison_ok : (r : Result IoError ⊤ × BlockStore) → r.0 ≡ ok tt → poison_on_error r ≡ (ok tt, r.1)
poison_ok r e = ground arith

poison_err :
    (r : Result IoError ⊤ × BlockStore) (x : IoError)
    → r.0 ≡ err x
    → poison_on_error r ≡ (err x, record r.1 { poisoned = true })
poison_err r x e = ground arith

stored :
    (f : Faults) (b : Block) (s : BlockStore) (bs : List Block)
    → Holds s bs
    → CanStore b
    → Writes (steps f (block_bytes b)) s (pending s (block_bytes b))
    → IsAppended (poison_on_error (steps f (block_bytes b) s)) s bs b
stored f b s bs h k (inl done) =
    subst (λ r. IsAppended r s bs b) (sym (poison_ok (steps f (block_bytes b) s) done.0))
      (inl (refl, k, done-Holds f b s bs h k done))
stored f b s bs h k (inr cut) =
    subst (λ r. IsAppended r s bs b) (sym (poison_err (steps f (block_bytes b) s) os cut.failed))
      (inr (
        inr (
          refl,
          k,
          record {
            sick = refl;
            part = cut.part;
            rest = cut.rest;
            parts = cut.parts;
            disk_after = cut.disk_after;
          },
        )))

-- An append of any block of the wire to a store with blocks bs, whatever the disk answers: the store
-- holds the block too, or it is as before and the block was too large, or it is poisoned with a part of
-- the frame in its file.
pub append_block-IsAppended :
    (f : Faults) (b : Block) (s : BlockStore) (bs : List Block)
    → Holds s bs
    → CanEncodeBlock b
    → IsAppended (append_block f b s) s bs b
append_block-IsAppended f b s bs h k = elim (dec_le (length (block_bytes b)) max_frame_bytes) [
  | yes fits ↦
      subst (λ r. IsAppended r s bs b) (sym (append_unfolds f b s h.healthy (k, fits)))
        (stored f b s bs h (k, fits) (steps-Writes f (block_bytes b) s))
  | no large ↦
      let e = append_refuses f b s h.healthy k (omega (arith, large)) in
      inr (inl (ap (λ r. r.0) e, ap (λ r. r.1) e))
]

all_steps_fine :
    (f : Faults) (payload : Text) (s : BlockStore)
    → f.magic ≡ fine
    → f.magic_sync ≡ fine
    → f.frame_write ≡ fine
    → f.frame_sync ≡ fine
    → (steps f payload s).0 ≡ ok tt
unfolding write_magic write_header write_frame write_all sync_all
all_steps_fine f payload s a b d e = ground (arith, a, b, d, e)

-- Where the disk takes every write and every sync, an append to a store that works goes through, for each
-- block that a frame can hold, and the store holds the block then.
pub append_block_progress :
    (f : Faults) (b : Block) (s : BlockStore) (bs : List Block)
    → Holds s bs
    → CanStore b
    → f.magic ≡ fine
    → f.magic_sync ≡ fine
    → f.frame_write ≡ fine
    → f.frame_sync ≡ fine
    → ((append_block f b s).0 ≡ ok tt) × Holds (append_block f b s).1 (bs ++ b ∷ [])
append_block_progress f b s bs h k e₁ e₂ e₃ e₄ =
    let went = all_steps_fine f (block_bytes b) s e₁ e₂ e₃ e₄ in
    let e = append_unfolds f b s h.healthy k ∙ poison_ok (steps f (block_bytes b) s) went in
    elim (steps-Writes f (block_bytes b) s) [
      | inl done ↦ (ap (λ r. r.0) e, rw e (done-Holds f b s bs h k done))
      | inr cut ↦ absurd (ground (arith, cut.failed, went))
    ]
