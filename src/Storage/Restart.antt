-- ===== src/Storage/Restart.antt =====
-- What a restart reads of the file of a store: one that works, and one that failed.
use trilogicon_core.Prelude.{
  ℕ, zero, suc, ◌-◌, ◌+◌, ◌≡◌, ◌≤◌, ◌<◌, inl, inr, Text, Result, ok, err, some, Bool, false, List,
  [], ◌∷◌, ◌++◌, arith, length, take, All, append-nil, refl, ap, sym, subst, ◌∙◌, take-append,
  dec_le, dec_lt, nat_eq, text_eq, text_discrete, ℕ_discrete, str,
}
use trilogicon_core.Block.{Block}
use trilogicon_core.Encoding.Cursor.{from_be}
use trilogicon_core.Encoding.Blocks.{block_bytes}
use trilogicon_core.Storage.Io.{Outcome}
use trilogicon_core.Storage.Frames.{
  ChainFileFormat, legacy, v2, frame, next_frame, frame_body, chain_file_magic,
}
use trilogicon_core.Storage.Store.{BlockStore}
use trilogicon_core.Storage.Reading.{CanStore, log}
use trilogicon_core.Storage.Torn.{frame-IsTorn, length-take, take-append_more}
use trilogicon_core.Storage.Files.{header, HasFormat, file_of, read_file, length-file_of}
use trilogicon_core.Storage.Recovery.{
  written_whole, repair_whole, whole_write, read_all_blocks_repairing_tail_torn,
}
use trilogicon_core.Storage.Holds.{Holds, Torn, file_of_more}
use trilogicon_core.Storage.Writes.{due, pending}
use trilogicon_core.Storage.{
  StorageError, decode, read_all_blocks_repairing_tail, read_repairing, repair, repair_tail, detect,
  parse_prefix,
}
use trilogicon_core.Storage.Recovered.{IsRecovered, after_torn-IsRecovered}

-- A store that works is read back as it is, with no write.
pub read_all_blocks_repairing_tail-Holds :
    (o : Outcome) (s : BlockStore) (bs : List Block)
    → Holds s bs
    → read_all_blocks_repairing_tail o (some s.disk) ≡ (ok (bs, false), some s.disk)
unfolding read_all_blocks_repairing_tail
read_all_blocks_repairing_tail-Holds o s bs h = elim h.fresh [
  | inr (_, _, empty, none_yet) ↦ rw (empty, none_yet) refl
  | inl written ↦
      let e = sym (append-nil s.disk) ∙ (rw written at h.content) in
      ap (λ z. read_all_blocks_repairing_tail o (some z)) e
      ∙ whole_write o s.format bs h.has_format h.each
      ∙ ap (λ z. (ok (bs, false), some z)) (sym e)
]

repair_first :
    (o : Outcome) (tail : Text)
    → 1 ≤ length tail
    → (repair (file_of v2 [] tail) (length (header v2)) ([], length (log v2 [])) o).0
      ≡ err (decode (str "chain.blocks corrupt or truncated (no complete block frame)"))
unfolding repair log
repair_first o tail h = ground (arith, length-file_of v2 [] tail)

-- A frame that is not whole behind the header alone.
first_torn :
    (o : Outcome) (b : Block) (n : ℕ)
    → CanStore b
    → IsRecovered o 0
        (length (frame v2 (block_bytes b)))
        n
        []
        b
        (read_all_blocks_repairing_tail o
          (some (file_of v2 [] (take n (frame v2 (block_bytes b)))))).0
first_torn o b n k = elim (dec_le (length (frame v2 (block_bytes b))) n) [
  | yes all ↦ inl (all, ap (λ r. r.0) (written_whole o v2 [] b n tt k all) ∙ ground arith)
  | no more ↦
      let e =
        read_file o v2 [] (take n (frame v2 (block_bytes b))) tt tt
          (frame-IsTorn v2 (block_bytes b) n k.1 (omega (arith, more))) in
      elim (ℕ_discrete n 0) [
        | yes none ↦ inr (
            inl (
              omega (arith, more),
              inl none,
              ap (λ r. r.0) e ∙ rw none (ap (λ r. r.0) (repair_whole o v2 [])),
            ))
        | no any ↦ inr (
            inr (
              inr (
                omega (arith, any),
                any,
                omega (arith, more),
                inr (inl refl),
                (
                  _,
                  ap (λ r. r.0) e
                      ∙ repair_first o (take n (frame v2 (block_bytes b))) (
                          omega (
                            arith,
                            any,
                            more,
                            length-take n (frame v2 (block_bytes b)) (omega (arith, more)),
                          )),
                ),
              )))
      ]
]

-- A header that is not whole.
header_torn :
    (o : Outcome) (n whole : ℕ) (b : Block) (more : Text)
    → n < 8
    → n < whole
    → IsRecovered o 8 whole n [] b
        (read_all_blocks_repairing_tail o (some (take n (chain_file_magic ++ more)))).0
unfolding read_all_blocks_repairing_tail read_repairing detect chain_file_magic str text_discrete
    ℕ_discrete parse_prefix next_frame frame_body repair repair_tail from_be
header_torn o zero whole b more l w = inr (inl (w, inl refl, refl))
header_torn o (suc zero) whole b more l w =
    inr (inr (inr (omega arith, omega arith, w, inr (inl refl), (_, refl))))
header_torn o (suc (suc zero)) whole b more l w =
    inr (inr (inr (omega arith, omega arith, w, inr (inl refl), (_, refl))))
header_torn o (suc (suc (suc zero))) whole b more l w =
    inr (inr (inr (omega arith, omega arith, w, inr (inl refl), (_, refl))))
header_torn o (suc (suc (suc (suc zero)))) whole b more l w =
    inr (inr (inr (omega arith, omega arith, w, inr (inl refl), (_, refl))))
header_torn o (suc (suc (suc (suc (suc zero))))) whole b more l w =
    inr (inr (inr (omega arith, omega arith, w, inr (inl refl), (_, refl))))
header_torn o (suc (suc (suc (suc (suc (suc zero)))))) whole b more l w =
    inr (inr (inr (omega arith, omega arith, w, inr (inl refl), (_, refl))))
header_torn o (suc (suc (suc (suc (suc (suc (suc zero))))))) whole b more l w =
    inr (inr (inr (omega arith, omega arith, w, inr (inl refl), (_, refl))))
header_torn o (suc (suc (suc (suc (suc (suc (suc (suc n)))))))) whole b more l w =
    absurd (omega (arith, l))

front : (part rest whole : Text) → part ++ rest ≡ whole → part ≡ take (length part) whole
front part rest whole e = sym (take-append part rest) ∙ ap (take (length part)) e

behind :
    (o : Outcome) (fmt : ChainFileFormat) (bs : List Block) (b : Block) (n : ℕ)
    → HasFormat fmt bs
    → All CanStore bs
    → CanStore b
    → IsRecovered o 0
        (length (frame fmt (block_bytes b)))
        n
        bs
        b
        (read_all_blocks_repairing_tail o
          (some (file_of fmt bs (take n (frame fmt (block_bytes b)))))).0
behind o legacy [] b n h k kb = absurd (omega (arith, h))
behind o v2 [] b n h k kb = first_torn o b n kb
behind o fmt (a ∷ bs) b n h k kb =
    subst (λ r. IsRecovered o 0 (length (frame fmt (block_bytes b))) n (a ∷ bs) b r.0)
      (sym (read_all_blocks_repairing_tail_torn o fmt (a ∷ bs) b n (omega arith) k kb))
      (after_torn-IsRecovered o fmt a bs b n)

-- The same with the bytes of a header in front.
behind_header :
    (o : Outcome) (whole n : ℕ) (b : Block) (r : Result StorageError (List Block × Bool))
    → 8 ≤ n
    → IsRecovered o 0 whole (n - 8) [] b r
    → IsRecovered o 8 (8 + whole) n [] b r
behind_header o whole n b r h (inl (all, e)) = inl (omega (arith, h, all), e)
behind_header o whole n b r h (inr (inl (more, at, e))) =
    inr (inl (omega (arith, h, more), inr (omega (arith, h, at)), e))
behind_header o whole n b r h (inr (inr (inl (_, _, _, some_block, _, _)))) =
    absurd (omega (arith, some_block))
behind_header o whole n b r h (inr (inr (inr (any, _, more, _, e)))) =
    inr (
      inr
        (inr (omega (arith, h), omega (arith, h, any), omega (arith, h, more), inr (inl refl), e)))

-- The length of the header.
magic_bytes : length chain_file_magic ≡ 8
unfolding chain_file_magic str
magic_bytes = refl

length-magic : (more : Text) → length (chain_file_magic ++ more) ≡ 8 + length more
unfolding chain_file_magic str
length-magic more = omega arith

-- A front part of the first write to a fresh file.
fresh_torn :
    (o : Outcome) (b : Block) (n : ℕ)
    → CanStore b
    → IsRecovered o 8
        (8 + length (frame v2 (block_bytes b)))
        n
        []
        b
        (read_all_blocks_repairing_tail o
          (some (take n (chain_file_magic ++ frame v2 (block_bytes b))))).0
unfolding header chain_file_magic str log
fresh_torn o b n k = elim (dec_lt n 8) [
  | yes few ↦ header_torn o n _ b (frame v2 (block_bytes b)) few (omega (arith, few))
  | no many ↦
      subst
        (λ z.
          IsRecovered o 8 (8 + length (frame v2 (block_bytes b))) n [] b
            (read_all_blocks_repairing_tail o (some z)).0)
        (sym (take-append_more chain_file_magic (frame v2 (block_bytes b)) n (omega (arith, many))))
        (behind_header o (length (frame v2 (block_bytes b))) n b _ (omega (arith, many))
          (first_torn o b (n - 8) k))
]

-- Behind an append that failed, in whatever way: what the restart finds depends on how many bytes of the
-- write are in the file.
pub read_all_blocks_repairing_tail-Torn :
    (o : Outcome) (s t : BlockStore) (bs : List Block) (b : Block)
    → Holds s bs
    → CanStore b
    → (torn : Torn s t b)
    → IsRecovered o
        (length (due s.format s.v2_magic_on_disk))
        (length (pending s (block_bytes b)))
        (length torn.part)
        bs
        b
        (read_all_blocks_repairing_tail o (some t.disk)).0
read_all_blocks_repairing_tail-Torn o s t bs b h k torn = elim h.fresh [
  | inl written ↦
      let file =
        ap (file_of s.format bs) (
          sym (
            front torn.part torn.rest (frame s.format (block_bytes b))
              (torn.parts ∙ ap (λ z. z ++ frame s.format (block_bytes b)) written)))
        ∙ sym (file_of_more s bs torn.part h)
        ∙ ap (λ z. s.disk ++ (z ++ torn.part)) written
        ∙ sym torn.disk_after in
      subst
        (λ d.
          IsRecovered o (length d) (length (d ++ frame s.format (block_bytes b))) (length torn.part)
            bs b (read_all_blocks_repairing_tail o (some t.disk)).0)
        (sym written)
        (subst
          (λ z.
            IsRecovered o 0 (length (frame s.format (block_bytes b))) (length torn.part) bs b
              (read_all_blocks_repairing_tail o (some z)).0)
          file (behind o s.format bs b (length torn.part) h.has_format h.each k))
  | inr (current, header_due, empty, none_yet) ↦
      let part_of =
        front torn.part torn.rest (chain_file_magic ++ frame v2 (block_bytes b))
          (torn.parts ∙ rw (header_due, current) refl) in
      let file = sym part_of ∙ ap (λ z. z ++ torn.part) (sym empty) ∙ sym torn.disk_after in
      let fresh =
        subst
          (λ z.
            IsRecovered o 8 (8 + length (frame v2 (block_bytes b))) (length torn.part) [] b
              (read_all_blocks_repairing_tail o (some z)).0)
          file (fresh_torn o b (length torn.part) k) in
      rw (none_yet, header_due, current, length-magic (frame v2 (block_bytes b)), magic_bytes) fresh
]
