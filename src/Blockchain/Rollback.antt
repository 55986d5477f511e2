-- ===== src/Blockchain/Rollback.antt =====
-- `rollback_to_height` on a sound chain: it always succeeds, keeps exactly the blocks up to the
-- target, and leaves the ledger that they lead to.
use trilogicon_core.Prelude.{
  ℕ, zero, suc, ◌+◌, ◌≡◌, ◌≤◌, ◌<◌, ok, inl, inr, List, get_last?, length, take, [], ◌∷◌, arith,
  refl, ap, sym, ◌∙◌, take_of_length-le, Result-cases, Bool-cases, ltb,
}
use trilogicon_core.Crypto.{Primitives}
use trilogicon_core.State.{State}
use trilogicon_core.Block.{Block, genesis}
use trilogicon_core.Genesis.{Genesis, from_genesis}
use trilogicon_core.Blockchain.{
  Blockchain, rollback_to_height, recompute_state_from_blocks, apply_all, apply_blocks, on_clone,
  pop, pop_above, height, height_of,
}
use trilogicon_core.Blockchain.Replay.{Replayed}
use trilogicon_core.Blockchain.Linked.{Numbered, IsLinked, last-Numbered}

length-pop : (b : Block) (bs : List Block) → length (pop (b ∷ bs)) ≡ length bs
unfolding pop
length-pop b [] = refl
length-pop b (x ∷ bs) = omega (arith, length-pop x bs)

take-pop : (n : ℕ) (bs : List Block) → n < length bs → take n (pop bs) ≡ take n bs
unfolding pop
take-pop n [] h = absurd (omega arith)
take-pop zero (b ∷ bs) h = refl
take-pop (suc n) (b ∷ []) h = absurd (omega arith)
take-pop (suc n) (b ∷ x ∷ bs) h = ap (◌∷◌ b) (take-pop n (x ∷ bs) (omega arith))

Numbered-pop : (n : ℕ) (bs : List Block) → Numbered n bs → Numbered n (pop bs)
unfolding pop
Numbered-pop n [] h = tt
Numbered-pop n (b ∷ []) h = tt
Numbered-pop n (b ∷ x ∷ bs) h = (h.0, Numbered-pop (n + 1) (x ∷ bs) h.1)

-- A round for each block is enough: the loop keeps the blocks up to the target.
pop_above-take :
    (fuel target : ℕ) (bs : List Block)
    → length bs ≤ fuel
    → Numbered 0 bs
    → pop_above fuel target bs ≡ take (suc target) bs
unfolding pop_above
pop_above-take zero target [] h num = refl
pop_above-take zero target (b ∷ bs) h num = absurd (omega arith)
pop_above-take (suc fuel) target [] h num = ground (arith, pop_above-take fuel target [])
pop_above-take (suc fuel) target (b ∷ bs) h num =
    elim (Bool-cases (ltb target (height_of (get_last? (b ∷ bs))))) [
      | inl more ↦ rw more (
          pop_above-take fuel target (pop (b ∷ bs)) (omega (arith, length-pop b bs))
            (Numbered-pop 0 (b ∷ bs) num)
          ∙ take-pop (suc target) (b ∷ bs) (ground (arith, last-Numbered 0 b bs num)))
      | inr done ↦
          rw done (
            sym
              (take_of_length-le (suc target) (b ∷ bs) (ground (arith, last-Numbered 0 b bs num))))
    ]

Numbered-take : (n i : ℕ) (bs : List Block) → Numbered n bs → Numbered n (take i bs)
Numbered-take n zero bs h = tt
Numbered-take n (suc i) [] h = tt
Numbered-take n (suc i) (b ∷ bs) h = (h.0, Numbered-take (n + 1) i bs h.1)

length-take : (i : ℕ) (bs : List Block) → i ≤ length bs → length (take i bs) ≡ i
length-take zero bs h = refl
length-take (suc i) [] h = absurd (omega arith)
length-take (suc i) (b ∷ bs) h = omega (arith, length-take i bs (omega arith))

height-take :
    (target : ℕ) (b : Block) (bs : List Block)
    → Numbered 0 (b ∷ bs)
    → target ≤ length bs
    → height_of (get_last? (b ∷ take target bs)) ≡ target
height-take target b bs h low = omega (
  arith,
  last-Numbered 0 b (take target bs) (h.0, Numbered-take 1 target bs h.1),
  length-take target bs low,
)

height_rooted :
    (k : Blockchain) (b : Block) (bs : List Block)
    → k.blocks ≡ b ∷ bs
    → Numbered 0 k.blocks
    → height k ≡ length bs
unfolding height
height_rooted k b bs e h = rw e (omega (arith, last-Numbered 0 b bs (rw e at h)))

module _ ⦃c : Primitives⦄ where
  -- A prefix of a replay that goes through goes through.
  apply_blocks-take :
      (n : ℕ) (bs : List Block) (s t : State)
      → on_clone (apply_blocks bs) s ≡ ok t
      → (u : State) × (on_clone (apply_blocks (take n bs)) s ≡ ok u)
  unfolding apply_blocks
  apply_blocks-take zero bs s t e = (s, refl)
  apply_blocks-take (suc n) [] s t e = (s, refl)
  apply_blocks-take (suc n) (b ∷ bs) s t e = elim (Result-cases (apply_all b.transactions s).0) [
    | inl (_, first) ↦
        let (u, rest) = apply_blocks-take n bs (apply_all b.transactions s).1 t (ground arith) in
        (u, ground arith)
    | inr (x, first) ↦ ground arith
  ]

  recompute-take :
      (g : Genesis) (n : ℕ) (root : Block) (bs : List Block) (t : State)
      → recompute_state_from_blocks (root ∷ bs) g ≡ ok t
      → (u : State) × (recompute_state_from_blocks (root ∷ take n bs) g ≡ ok u)
  unfolding recompute_state_from_blocks
  recompute-take g n root bs t e = elim (Result-cases (from_genesis g)) [
    | inl (start, eq) ↦
        let (u, rest) = apply_blocks-take n bs start t (ground arith) in (u, ground arith)
    | inr (x, eq) ↦ ground arith
  ]

  rolled_back :
      (g : Genesis) (target : ℕ) (k : Blockchain) (u : State)
      → IsLinked k
      → target ≤ height k
      → recompute_state_from_blocks (take (suc target) k.blocks) g ≡ ok u
      → rollback_to_height target g k
        ≡ (ok tt, record k { blocks = take (suc target) k.blocks; state = u })
  unfolding rollback_to_height
  rolled_back g target k u h low e =
      let cut = pop_above-take (length k.blocks) target k.blocks (omega arith) h.numbered in
      ground arith

  -- On a linked chain whose ledger is its replay, a rollback to any height up to the tip's succeeds.
  -- It keeps exactly the blocks up to that height, ends at that height, and its ledger is again the
  -- replay of its blocks.
  pub rollback_to_height_total :
      (g : Genesis) (target : ℕ) (k : Blockchain)
      → IsLinked k
      → Replayed g k
      → target ≤ height k
      → (l : Blockchain) × (rollback_to_height target g k ≡ (ok tt, l))
        × (l.blocks ≡ take (suc target) k.blocks)
        × (height l ≡ target)
        × Replayed g l
  unfolding height
  rollback_to_height_total g target k h r low =
      let (u, again) = recompute-take g target genesis r.rest k.state (rw r.rooted at r.replay) in
      let same : take (suc target) k.blocks ≡ genesis ∷ take target r.rest = rw r.rooted in
      (
        record k { blocks = take (suc target) k.blocks; state = u },
        rolled_back g target k u h low (rw same again),
        refl,
        rw same (
            height-take target genesis r.rest (rw r.rooted at h.numbered)
              (omega (arith, height_rooted k genesis r.rest r.rooted h.numbered))),
        record { rest = take target r.rest; rooted = same; replay = rw same again },
      )
