-- ===== src/Storage/Recovery.antt =====
-- What a restart reads after a write that may have stopped anywhere.
use trilogicon_core.Prelude.{
  ℕ, zero, suc, ◌≡◌, ◌≤◌, ◌<◌, Text, Option, Result, ok, err, Bool, true, false, some, List, [],
  ◌∷◌, ◌++◌, append-nil, arith, length, take, All, All-append, length-append, refl, ap, sym, inl,
  dec_le, if◌then◌else◌, take_of_length-le, ◌∙◌, leb, str, text_eq, nat_eq,
}
use trilogicon_core.Block.{Block}
use trilogicon_core.Encoding.Blocks.{block_bytes}
use trilogicon_core.Storage.Io.{Outcome, fine, fails}
use trilogicon_core.Storage.Frames.{ChainFileFormat, legacy, v2, next_frame, frame}
use trilogicon_core.Storage.Reading.{CanStore, log, log-append}
use trilogicon_core.Storage.Torn.{frame-IsTorn, length-take}
use trilogicon_core.Storage.{
  StorageError, decode, io, repair, repair_tail, read_all_blocks_repairing_tail,
}
use trilogicon_core.Storage.Files.{
  header, HasFormat, file_of, length-file_of, take-file_of, drop-file_of, read_file,
}

pub repair_whole :
    (o : Outcome) (fmt : ChainFileFormat) (bs : List Block)
    → repair (file_of fmt bs []) (length (header fmt)) (bs, length (log fmt bs)) o
      ≡ (ok (bs, false), some (file_of fmt bs []))
unfolding repair repair_tail
repair_whole o fmt bs = ground (arith, length-file_of fmt bs [])

-- What the rewriting of a file with a short tail leads to: the file without the tail, or, where the
-- write fails, a front part of that and an error.
abbrev pub rewritten :
    ChainFileFormat → List Block → Outcome → Result StorageError (List Block × Bool) × Option Text
rewritten fmt bs fine = (ok (bs, true), some (file_of fmt bs []))
rewritten fmt bs (fails m) = (err io, some (take m (file_of fmt bs [])))

repair_short :
    (o : Outcome) (fmt : ChainFileFormat) (b : Block) (bs : List Block) (tail : Text)
    → 1 ≤ length tail
    → length tail < 4
    → repair (file_of fmt (b ∷ bs) tail) (length (header fmt)) (b ∷ bs, length (log fmt (b ∷ bs))) o
      ≡ rewritten fmt (b ∷ bs) o
unfolding repair repair_tail
repair_short fine fmt b bs tail any few =
    rw (drop-file_of fmt (b ∷ bs) tail)
      (rw (take-file_of fmt (b ∷ bs) tail) (ground (arith, length-file_of fmt (b ∷ bs) tail)))
repair_short (fails m) fmt b bs tail any few =
    rw (drop-file_of fmt (b ∷ bs) tail)
      (rw (take-file_of fmt (b ∷ bs) tail) (ground (arith, length-file_of fmt (b ∷ bs) tail)))

repair_long :
    (o : Outcome) (fmt : ChainFileFormat) (b : Block) (bs : List Block) (tail : Text)
    → 4 ≤ length tail
    → repair (file_of fmt (b ∷ bs) tail) (length (header fmt)) (b ∷ bs, length (log fmt (b ∷ bs))) o
      ≡ (
        err (decode (str "chain.blocks truncated after last complete block frame")),
        some (file_of fmt (b ∷ bs) tail),
      )
unfolding repair repair_tail
repair_long o fmt b bs tail many =
    rw (drop-file_of fmt (b ∷ bs) tail) (ground (arith, length-file_of fmt (b ∷ bs) tail))

-- The rewriting where there is something to cut off.
abbrev pub trimmed :
    ChainFileFormat
    → List Block
    → ℕ
    → Outcome
    → Result StorageError (List Block × Bool) × Option Text
trimmed fmt bs zero o = (ok (bs, false), some (file_of fmt bs []))
trimmed fmt bs (suc n) o = rewritten fmt bs o

repair_few :
    (o : Outcome) (fmt : ChainFileFormat) (b : Block) (bs : List Block) (n : ℕ) (f : Text)
    → n ≤ length f
    → n < 4
    → repair
        (file_of fmt (b ∷ bs) (take n f))
        (length (header fmt))
        (b ∷ bs, length (log fmt (b ∷ bs)))
        o
      ≡ trimmed fmt (b ∷ bs) n o
repair_few o fmt b bs zero f l few = repair_whole o fmt (b ∷ bs)
repair_few o fmt b bs (suc n) f l few =
    repair_short o fmt b bs (take (suc n) f) (omega (arith, length-take (suc n) f l))
      (omega (arith, few, length-take (suc n) f l))

-- The blocks that a restart finds behind a write that stopped after n bytes of the frame of b, or
-- the error, and the file that the restart leaves.
abbrev pub after_torn_write :
    ChainFileFormat
    → List Block
    → Block
    → ℕ
    → Outcome
    → Result StorageError (List Block × Bool) × Option Text
after_torn_write fmt bs b n o =
    if leb (length (frame fmt (block_bytes b))) n
    then (ok (bs ++ b ∷ [], false), some (file_of fmt (bs ++ b ∷ []) []))
    else if leb 4 n
    then (
      err (decode (str "chain.blocks truncated after last complete block frame")),
      some (file_of fmt bs (take n (frame fmt (block_bytes b)))),
    )
    else trimmed fmt bs n o

pub file_of-append :
    (fmt : ChainFileFormat) (bs : List Block) (b : Block)
    → file_of fmt bs (frame fmt (block_bytes b)) ≡ file_of fmt (bs ++ b ∷ []) []
unfolding log
file_of-append fmt bs b =
    ap (λ z. header fmt ++ z)
      (ap (λ z. log fmt bs ++ z) (sym (append-nil (frame fmt (block_bytes b))))
        ∙ sym (log-append fmt bs (b ∷ []))
        ∙ sym (append-nil (log fmt (bs ++ b ∷ []))))

pub HasFormat-append :
    (fmt : ChainFileFormat) (bs : List Block) (b : Block) → HasFormat fmt (bs ++ b ∷ [])
HasFormat-append legacy bs b = omega (arith, length-append bs (b ∷ []))
HasFormat-append v2 bs b = tt

pub nonempty-HasFormat :
    (fmt : ChainFileFormat) (bs : List Block) → 1 ≤ length bs → HasFormat fmt bs
nonempty-HasFormat legacy bs h = h
nonempty-HasFormat v2 bs h = tt

pub whole_write :
    (o : Outcome) (fmt : ChainFileFormat) (bs : List Block)
    → HasFormat fmt bs
    → All CanStore bs
    → read_all_blocks_repairing_tail o (some (file_of fmt bs []))
      ≡ (ok (bs, false), some (file_of fmt bs []))
unfolding next_frame
whole_write o fmt bs h k = read_file o fmt bs [] h k (inl refl) ∙ repair_whole o fmt bs

module _ (o : Outcome) (fmt : ChainFileFormat) where
  after_all :
      (bs : List Block) (b : Block) (n : ℕ)
      → length (frame fmt (block_bytes b)) ≤ n
      → after_torn_write fmt bs b n o
        ≡ (ok (bs ++ b ∷ [], false), some (file_of fmt (bs ++ b ∷ []) []))
  after_all bs b n all = ground arith

  pub written_whole :
      (bs : List Block) (b : Block) (n : ℕ)
      → All CanStore bs
      → CanStore b
      → length (frame fmt (block_bytes b)) ≤ n
      → read_all_blocks_repairing_tail o
          (some (file_of fmt bs (take n (frame fmt (block_bytes b)))))
        ≡ after_torn_write fmt bs b n o
  written_whole bs b n k kb all =
      ap (λ z. read_all_blocks_repairing_tail o (some (file_of fmt bs z)))
        (take_of_length-le n (frame fmt (block_bytes b)) all)
      ∙ ap (λ z. read_all_blocks_repairing_tail o (some z)) (file_of-append fmt bs b)
      ∙ whole_write o fmt (bs ++ b ∷ []) (HasFormat-append fmt bs b)
          (All-append CanStore bs (b ∷ []) k (kb, tt))
      ∙ sym (after_all bs b n all)

  module _ (a : Block) (bs : List Block) (b : Block) (n : ℕ) (k : All CanStore (a ∷ bs))
      (kb : CanStore b) (more : n < length (frame fmt (block_bytes b))) where
    reads :
        read_all_blocks_repairing_tail o
          (some (file_of fmt (a ∷ bs) (take n (frame fmt (block_bytes b)))))
        ≡ repair
            (file_of fmt (a ∷ bs) (take n (frame fmt (block_bytes b))))
            (length (header fmt))
            (a ∷ bs, length (log fmt (a ∷ bs)))
            o
    reads =
        read_file o fmt (a ∷ bs) (take n (frame fmt (block_bytes b)))
          (nonempty-HasFormat fmt (a ∷ bs) (omega arith)) k
          (frame-IsTorn fmt (block_bytes b) n kb.1 more)

    many_written :
        4 ≤ n
        → read_all_blocks_repairing_tail o
            (some (file_of fmt (a ∷ bs) (take n (frame fmt (block_bytes b)))))
          ≡ after_torn_write fmt (a ∷ bs) b n o
    many_written many =
        reads
        ∙ repair_long o fmt a bs (take n (frame fmt (block_bytes b)))
            (omega (arith, many, length-take n (frame fmt (block_bytes b)) (omega (arith, more))))
        ∙ ground (arith, more, many)

    few_written :
        n < 4
        → read_all_blocks_repairing_tail o
            (some (file_of fmt (a ∷ bs) (take n (frame fmt (block_bytes b)))))
          ≡ after_torn_write fmt (a ∷ bs) b n o
    few_written few =
        reads
        ∙ repair_few o fmt a bs n (frame fmt (block_bytes b)) (omega (arith, more)) few
        ∙ ground (arith, more, few)

-- A write of a frame that stopped after any number of bytes, behind at least one block, is what the
-- restart sees: all blocks if everything was written; an error and the file as it is if at least the
-- length but not everything was; and otherwise the blocks without the new one. If then a part of the
-- length is in the file, the restart writes the file anew without it, and where that write fails too
-- there is an error and a front part of the file. Every block has an encoding that a frame can hold.
pub read_all_blocks_repairing_tail_torn :
    (o : Outcome) (fmt : ChainFileFormat) (bs : List Block) (b : Block) (n : ℕ)
    → 1 ≤ length bs
    → All CanStore bs
    → CanStore b
    → read_all_blocks_repairing_tail o (some (file_of fmt bs (take n (frame fmt (block_bytes b)))))
      ≡ after_torn_write fmt bs b n o
read_all_blocks_repairing_tail_torn o fmt [] b n h k kb = absurd (omega (arith, h))
read_all_blocks_repairing_tail_torn o fmt (a ∷ bs) b n h k kb =
    elim (dec_le (length (frame fmt (block_bytes b))) n) [
      | yes all ↦ written_whole o fmt (a ∷ bs) b n k kb all
      | no more ↦ elim (dec_le 4 n) [
        | yes many ↦ many_written o fmt a bs b n k kb (omega (arith, more)) many
        | no few ↦ few_written o fmt a bs b n k kb (omega (arith, more)) (omega (arith, few))
      ]
    ]
