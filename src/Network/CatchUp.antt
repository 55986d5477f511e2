-- ===== src/Network/CatchUp.antt =====
-- How much one call of the client takes.
use trilogicon_core.Prelude.{
  ℕ, ◌+◌, ◌-◌, ◌≡◌, ◌≤◌, ◌⊎◌, ap, Bool, none, some, true, false, List, [], ◌∷◌, arith, length, take,
  refl, inl, inr, Result-cases, Option-cases, Bool-cases, saturating_add, subst, sym, if◌then◌else◌,
}
use trilogicon_core.Crypto.{Primitives}
use trilogicon_core.Block.{Block}
use trilogicon_core.Encoding.Cursor.{u32_max}
use trilogicon_core.Network.Node.{NodeInner, append_network_block_persist}
use trilogicon_core.Network.Session.{count_up}
use trilogicon_core.Network.Growth.{
  length-take_max, size, is_append_failure, goes_wrong, Counts, pull_once-Counts, size-finish_sync,
}
use trilogicon_core.Network.Sync.{
  SyncWorkBudget, Pull, Progress, SyncEnd, stopped_due_to_budget, stops, is_pulling, nothing_yet,
  append_batch, take_batch, pull_once, pull_all, finish_sync, sync_from_peer,
}

module _ ⦃c : Primitives⦄ (budget : SyncWorkBudget) where
  append_batch_total :
      (pull : Pull) (i : ℕ) (bs : List Block) (p : Progress)
      → ((append_batch budget pull i bs p).1.total ≤ p.total + length bs)
        × ((append_batch budget pull i bs p).1.rounds ≡ p.rounds)
  unfolding append_batch
  append_batch_total pull i [] p = (omega arith, refl)
  append_batch_total pull i (b ∷ bs) p = ground (
    arith,
    append_batch_total pull (i + 1) bs (record p {
      node = (append_network_block_persist (pull.faults i) b (pull.now_unix i) p.node).1;
      total = p.total + 1;
    }),
  )

  take_batch_total :
      (pull : Pull) (bs : List Block) (p : Progress)
      → p.total ≤ budget.max_blocks_per_call
      → ((take_batch budget pull bs p).1.total ≤ budget.max_blocks_per_call)
        × ((take_batch budget pull bs p).1.rounds ≡ p.rounds)
  unfolding take_batch
  take_batch_total pull bs p h = ground (
    arith,
    h,
    length-take_max (budget.max_blocks_per_call - p.total) bs,
    append_batch_total pull 0 (take (budget.max_blocks_per_call - p.total) bs) p,
  )

  pulled : ℕ → Progress → Progress
  pulled bytes p = record p {
    rounds = count_up p.rounds;
    wire_bytes = saturating_add p.wire_bytes bytes;
  }

  pull_once_total :
      (pull : Pull) (p : Progress)
      → p.total ≤ budget.max_blocks_per_call
      → p.rounds + 1 ≤ u32_max
      → ((pull_once budget pull p).1.total ≤ budget.max_blocks_per_call)
        × ((pull_once budget pull p).1.rounds ≤ p.rounds + 1)
  unfolding pull_once pulled
  pull_once_total pull p h l = elim (Result-cases pull.answer) [
    | inl (answer, went) ↦
        ground (arith, h, l, went, take_batch_total pull answer.0 (pulled answer.1 p) h)
    | inr (x, failed) ↦ ground (arith, h, l, failed)
  ]

  pull_once_counts :
      (pull : Pull) (p : Progress)
      → p.total ≤ budget.max_blocks_per_call
      → p.rounds + 1 ≤ u32_max
      → (pull_once budget pull p).0 ≡ none
      → (pull_once budget pull p).1.rounds ≡ p.rounds + 1
  unfolding pull_once pulled
  pull_once_counts pull p h l e = elim (Result-cases pull.answer) [
    | inl (answer, went) ↦
        ground (arith, h, l, e, went, take_batch_total pull answer.0 (pulled answer.1 p) h)
    | inr (x, failed) ↦ absurd (ground (arith, failed, e))
  ]

  append_batch_ends :
      (pull : Pull) (i : ℕ) (bs : List Block) (p : Progress) (x : SyncEnd)
      → (append_batch budget pull i bs p).0 ≡ some x
      → is_pulling x ≡ false
  unfolding append_batch
  append_batch_ends pull i [] p x e = absurd (ground (arith, e))
  append_batch_ends pull i (b ∷ bs) p x e = ground (
    arith,
    e,
    append_batch_ends pull (i + 1) bs
        (record p {
          node = (append_network_block_persist (pull.faults i) b (pull.now_unix i) p.node).1;
          total = p.total + 1;
        })
        x,
  )

  take_batch_ends :
      (pull : Pull) (bs : List Block) (p : Progress) (x : SyncEnd)
      → (take_batch budget pull bs p).0 ≡ some x
      → is_pulling x ≡ false
  unfolding take_batch
  take_batch_ends pull bs p x e =
      ground
        (arith, e, append_batch_ends pull 0 (take (budget.max_blocks_per_call - p.total) bs) p x)

  pull_once_ends :
      (pull : Pull) (p : Progress) (x : SyncEnd)
      → (pull_once budget pull p).0 ≡ some x
      → is_pulling x ≡ false
  unfolding pull_once pulled
  pull_once_ends pull p x e = elim (Result-cases pull.answer) [
    | inl (answer, went) ↦
        ground (arith, e, went, take_batch_ends pull answer.0 (pulled answer.1 p) x)
    | inr (y, failed) ↦ ground (arith, failed, e)
  ]

  -- What a call may do: the blocks and the rounds of the budget, and no waiting once there were as many
  -- answers as rounds.
  abbrev Bounded : List Pull → Progress → SyncEnd × Progress → Type 0
  Bounded pulls p r =
      (r.1.total ≤ budget.max_blocks_per_call)
      × (r.1.rounds ≤ budget.max_rounds_per_call)
      × (is_pulling r.0 ≡ true → p.rounds + length pulls + 1 ≤ budget.max_rounds_per_call)
      × Counts budget p (is_append_failure r.0) r.1

  pull_all-stops :
      (pull : Pull) (later : List Pull) (p : Progress)
      → stops budget p ≡ true
      → pull_all budget (pull ∷ later) p ≡ (stopped_due_to_budget, p)
  unfolding pull_all
  pull_all-stops pull later p e = ground (arith, e)

  goes_room : (p : Progress) → stops budget p ≡ false → p.rounds + 1 ≤ budget.max_rounds_per_call
  goes_room p e = ground (arith, e)

  pull_all_more :
      (pull : Pull) (later : List Pull) (p : Progress)
      → stops budget p ≡ false
      → (pull_once budget pull p).0 ≡ none
      → pull_all budget (pull ∷ later) p ≡ pull_all budget later (pull_once budget pull p).1
  unfolding pull_all
  pull_all_more pull later p e h = rw (pull_all, e, if◌then◌else◌, h) refl

  pull_all_ends :
      (pull : Pull) (later : List Pull) (p : Progress) (x : SyncEnd)
      → stops budget p ≡ false
      → (pull_once budget pull p).0 ≡ some x
      → pull_all budget (pull ∷ later) p ≡ (x, (pull_once budget pull p).1)
  unfolding pull_all
  pull_all_ends pull later p x e h = rw (pull_all, e, if◌then◌else◌, h) refl

  same-Counts :
      (wrong : Bool) (p : Progress) → p.total ≤ budget.max_blocks_per_call → Counts budget p wrong p
  same-Counts wrong p h = record { counted = λ e. refl; within = omega (arith, h) }

  more-Counts :
      (pull : Pull) (p q : Progress) (wrong : Bool)
      → p.total ≤ budget.max_blocks_per_call
      → (pull_once budget pull p).0 ≡ none
      → Counts budget (pull_once budget pull p).1 wrong q
      → Counts budget p wrong q
  unfolding goes_wrong
  more-Counts pull p q wrong h more rest =
      let c = pull_once-Counts budget pull p h in
      let one = c.counted (ap goes_wrong more) in
      record {
        counted = λ e. omega (arith, one, rest.counted e);
        within = omega (arith, one, rest.within);
      }

  end-Counts :
      (pull : Pull) (p : Progress) (x : SyncEnd)
      → p.total ≤ budget.max_blocks_per_call
      → (pull_once budget pull p).0 ≡ some x
      → Counts budget p (is_append_failure x) (pull_once budget pull p).1
  unfolding goes_wrong
  end-Counts pull p x h ended =
      subst (λ o. Counts budget p (goes_wrong o) (pull_once budget pull p).1) ended
        (pull_once-Counts budget pull p h)

  pull_all-Bounded :
      (pulls : List Pull) (p : Progress)
      → budget.max_rounds_per_call ≤ u32_max
      → p.total ≤ budget.max_blocks_per_call
      → p.rounds ≤ budget.max_rounds_per_call
      → Bounded pulls p (pull_all budget pulls p)
  unfolding pull_all
  pull_all-Bounded [] p u h l = elim (Bool-cases (stops budget p)) [
    | inl stopped ↦ rw stopped (h, l, (λ e. ground (arith, e)), same-Counts _ p h)
    | inr goes ↦ rw goes (h, l, (λ e. ground (arith, goes)), same-Counts _ p h)
  ]
  pull_all-Bounded (pull ∷ later) p u h l = elim (Bool-cases (stops budget p)) [
    | inl stopped ↦
        subst (Bounded (pull ∷ later) p) (sym (pull_all-stops pull later p stopped))
          (h, l, (λ e. ground (arith, e)), same-Counts _ p h)
    | inr goes ↦
        let room = goes_room p goes in
        let x = pull_once_total pull p h (omega (arith, room, u)) in
        elim (Option-cases (pull_once budget pull p).0) [
          | inl more ↦
              let counts = pull_once_counts pull p h (omega (arith, room, u)) more in
              let rest =
                pull_all-Bounded later (pull_once budget pull p).1 u x.0
                  (omega (arith, counts, room)) in
              subst (Bounded (pull ∷ later) p) (sym (pull_all_more pull later p goes more)) (
                rest.0,
                rest.1,
                (λ e. omega (arith, rest.2 e, counts)),
                more-Counts pull p _ _ h more rest.3,
              )
          | inr (end, ended) ↦
              subst (Bounded (pull ∷ later) p) (sym (pull_all_ends pull later p end goes ended)) (
                x.0,
                omega (arith, x.1, room),
                (λ e. ground (arith, e, pull_once_ends pull p end ended)),
                end-Counts pull p end h ended,
              )
        ]
  ]

  finish_sync_counts :
      (e : SyncEnd) (p : Progress)
      → ((finish_sync e p).total ≡ p.total) × ((finish_sync e p).rounds ≡ p.rounds)
  unfolding finish_sync
  finish_sync_counts e p = (ground arith, ground arith)

  -- Whatever the peer answers: a call ends at the latest after as many answers as its budget has rounds,
  -- and makes no more rounds than the budget allows. The chain grows by no more blocks than the budget
  -- allows, and unless an append failed by exactly as many as the call reports. The number of rounds is
  -- a u32.
  pub sync_from_peer_ends :
      (pulls : List Pull) (n : NodeInner)
      → budget.max_rounds_per_call ≤ u32_max
      → budget.max_rounds_per_call ≤ length pulls
      → (is_pulling (sync_from_peer budget pulls n).0 ≡ false)
        × ((sync_from_peer budget pulls n).1.total ≤ budget.max_blocks_per_call)
        × ((sync_from_peer budget pulls n).1.rounds ≤ budget.max_rounds_per_call)
        × (size (sync_from_peer budget pulls n).1.node.chain
            ≤ size n.chain + budget.max_blocks_per_call)
        × ((is_append_failure (sync_from_peer budget pulls n).0 ≡ true)
            ⊎ (size (sync_from_peer budget pulls n).1.node.chain
                ≡ size n.chain + (sync_from_peer budget pulls n).1.total))
  unfolding sync_from_peer
  sync_from_peer_ends pulls n u enough =
      let r = pull_all budget pulls (nothing_yet n) in
      let b = pull_all-Bounded pulls (nothing_yet n) u (omega arith) (omega arith) in
      let counts = finish_sync_counts r.0 r.1 in
      let kept = size-finish_sync r.0 r.1 in
      elim (Bool-cases (is_pulling r.0)) [
        | inl waits ↦ absurd (omega (arith, b.2 waits, enough))
        | inr ends ↦ (
          ground arith,
          ground (arith, b.0, counts),
          ground (arith, b.1, counts),
          ground (arith, b.3.within, kept),
          ground (arith, b.3.counted, counts, kept),
        )
      ]
