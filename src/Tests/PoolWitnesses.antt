-- ===== src/Tests/PoolWitnesses.antt =====
-- The theorems about the pool at concrete inputs.
use trilogicon_core.Prelude.{◌≡◌, ◌↔◌, refl, ok, [], ◌∷◌, arith, text_eq}
use trilogicon_core.Transaction.{basic_validate}
use trilogicon_core.State.{State}
use trilogicon_core.Mempool.{new, try_submit, ordered_candidates_for_seal}
use trilogicon_core.Mempool.Invariant.{Consistent, new-Consistent}
use trilogicon_core.Mempool.Seal.{Selected, ordered_candidates_for_seal-Selected}
use trilogicon_core.Mempool.Submit.{IsAdmissible, try_submit-Consistent, try_submit_iff}
use trilogicon_core.Tests.{toy, payment, pool, code, start}

pool-Consistent_example : Consistent (try_submit payment (new 2)).1
pool-Consistent_example = try_submit-Consistent payment (new 2) (new-Consistent 2)

submit_iff_example :
    ((try_submit payment (new 2)).0 ≡ ok tt)
    ↔ ((basic_validate payment ≡ ok tt) × IsAdmissible payment (new 2))
submit_iff_example = try_submit_iff payment (new 2) (new-Consistent 2) (unfold new in omega arith)

candidates : ordered_candidates_for_seal pool start 8 ≡ ok (payment ∷ [])
unfolding code
candidates = refl

Selected-example : (t : State) × Selected pool 8 start (payment ∷ []) t
Selected-example = ordered_candidates_for_seal-Selected pool 8 start (payment ∷ []) candidates
