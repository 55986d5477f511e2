-- ===== src/Storage/Recovered.antt =====
-- node/src/storage.rs: what a restart recovers behind a write that stopped.
use trilogicon_core.Prelude.{
  ℕ, zero, suc, ◌≡◌, ◌≢◌, ◌≤◌, ◌<◌, ◌⊎◌, inl, inr, Result, ok, err, Bool, true, false, List, [],
  ◌∷◌, ◌++◌, arith, length, refl, subst, dec_le, nat_eq, text_eq, str,
}
use trilogicon_core.Block.{Block}
use trilogicon_core.Encoding.Blocks.{block_bytes}
use trilogicon_core.Storage.Io.{Outcome, fine, fails}
use trilogicon_core.Storage.Frames.{ChainFileFormat, frame}
use trilogicon_core.Storage.Recovery.{after_torn_write, trimmed}
use trilogicon_core.Storage.{StorageError, decode}

-- Why a restart does not recover the blocks: the length of the frame is in the file and not all of the
-- frame, or there is no block in front of it, or the file could not be written anew.
abbrev pub IsLost : Outcome → ℕ → List Block → Type 0
IsLost o p bs = (4 ≤ p) ⊎ (bs ≡ []) ⊎ (o ≢ fine)

-- What a restart finds behind the write of a block of which p bytes are in the file, out of so many with
-- those of the header that was due: the new block too, if all bytes are there; the blocks as they were,
-- if none or only the header are; the blocks again, if a part of the length had to be cut off; and
-- otherwise an error.
abbrev pub IsRecovered :
    Outcome → ℕ → ℕ → ℕ → List Block → Block → Result StorageError (List Block × Bool) → Type 0
IsRecovered o header_bytes whole p bs b r =
    ((whole ≤ p) × (r ≡ ok (bs ++ b ∷ [], false)))
    ⊎ ((p < whole) × ((p ≡ 0) ⊎ (p ≡ header_bytes)) × (r ≡ ok (bs, false)))
    ⊎ ((1 ≤ p) × (p < 4) × (p < whole) × (1 ≤ length bs) × (o ≡ fine) × (r ≡ ok (bs, true)))
    ⊎ ((1 ≤ p)
        × (p ≢ header_bytes)
        × (p < whole)
        × IsLost o p bs
        × ((e : StorageError) × (r ≡ err e)))

trimmed-IsRecovered :
    (o : Outcome) (fmt : ChainFileFormat) (a : Block) (bs : List Block) (b : Block) (n whole : ℕ)
    → n < 4
    → n < whole
    → IsRecovered o 0 whole n (a ∷ bs) b (trimmed fmt (a ∷ bs) n o).0
trimmed-IsRecovered o fmt a bs b zero whole few more = inr (inl (more, inl refl, refl))
trimmed-IsRecovered fine fmt a bs b (suc n) whole few more =
    inr (inr (inl (omega arith, few, more, omega arith, refl, refl)))
trimmed-IsRecovered (fails m) fmt a bs b (suc n) whole few more =
    inr (inr (inr (omega arith, omega arith, more, inr (inr (λ e. ground (arith, e))), (_, refl))))

pub after_torn-IsRecovered :
    (o : Outcome) (fmt : ChainFileFormat) (a : Block) (bs : List Block) (b : Block) (n : ℕ)
    → IsRecovered o 0
        (length (frame fmt (block_bytes b)))
        n
        (a ∷ bs)
        b
        (after_torn_write fmt (a ∷ bs) b n o).0
after_torn-IsRecovered o fmt a bs b n = elim (dec_le (length (frame fmt (block_bytes b))) n) [
  | yes all ↦ inl (all, ground arith)
  | no more ↦ elim (dec_le 4 n) [
    | yes many ↦ inr (
        inr (
          inr (
            omega (arith, many),
            omega (arith, many),
            omega (arith, more),
            inl many,
            (decode (str "chain.blocks truncated after last complete block frame"), ground arith),
          )))
    | no few ↦
        subst (λ r. IsRecovered o 0 (length (frame fmt (block_bytes b))) n (a ∷ bs) b r)
          (ground (arith, more, few))
          (trimmed-IsRecovered o fmt a bs b n (length (frame fmt (block_bytes b)))
            (omega (arith, few)) (omega (arith, more)))
  ]
]
