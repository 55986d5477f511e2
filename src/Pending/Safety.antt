-- ===== src/Pending/Safety.antt =====
-- node/src/pending_tx_file.rs: what a drain and an append do to the queue file and the pool.
use trilogicon_core.Prelude.{
  ◌≡◌, ok, err, some, List, [], ◌∷◌, ◌++◌, Text, arith, All, refl, sym, subst, Option-cases,
  Result-cases, Bool-cases, inl, inr, append-nil,
}
use trilogicon_core.Crypto.{Primitives}
use trilogicon_core.Transaction.{Transaction}
use trilogicon_core.Encoding.Consumption.{IsByte}
use trilogicon_core.Encoding.RoundTrip.{encode_transaction_bytes}
use trilogicon_core.Mempool.{clone_fifo, restore_fifo}
use trilogicon_core.Mempool.Invariant.{Consistent}
use trilogicon_core.Mempool.Restoring.{SamePool, restore_fifo-clone_fifo}
use trilogicon_core.Storage.Io.{fine, fails}
use trilogicon_core.Storage.Io
use trilogicon_core.Pending.{
  PendingDisk, RewriteIo, AppendIo, DrainIo, DrainError, Draining, content, frame_of, write_tmp,
  rename_replace_pending_file, write_pending_atomic, append_bytes, append_pending_transaction,
  commit_drain, drain_queued, drain_bytes, drain_pending_file, parse_pending_file_bytes,
  submit_queued,
}
use trilogicon_core.Pending.Parsing.{IsFrame, IsQueue, parse_pending_file_iff}
use trilogicon_core.Pending.Queue.{
  IsQueueable, frame_bytes, frame_bytes-IsFrame, IsQueue-append, IsQueue-tail,
  encode_pending_payload-IsQueue,
}
use trilogicon_core.Pending.Drain.{Drained, submit_queued-Drained}

write_pending_atomic_ok :
    (io : RewriteIo) (payload : Text) (d e : PendingDisk)
    → write_pending_atomic io payload d ≡ (ok tt, e)
    → e.pending ≡ some payload
unfolding write_pending_atomic write_tmp rename_replace_pending_file
write_pending_atomic_ok io payload d e r = ground arith

write_pending_atomic_err :
    (io : RewriteIo) (payload : Text) (d e : PendingDisk) (x : Io.IoError)
    → write_pending_atomic io payload d ≡ (err x, e)
    → e.pending ≡ d.pending
unfolding write_pending_atomic write_tmp rename_replace_pending_file
write_pending_atomic_err io payload d e x r = ground arith

commit_ok :
    (io : RewriteIo) (saved : List Transaction) (payload : Text) (s t : Draining)
    → commit_drain io saved payload s ≡ (ok tt, t)
    → (t.disk.pending ≡ some payload) × (t.pool ≡ s.pool)
unfolding commit_drain
commit_ok io saved payload s t e = elim (Result-cases (write_pending_atomic io payload s.disk).0) [
  | inr (x, bad) ↦ absurd (ground arith)
  | inl (_, good) ↦
      let d = (write_pending_atomic io payload s.disk).1 in
      let disk : t.disk ≡ d = ground arith in
      (rw disk (write_pending_atomic_ok io payload s.disk d (λ i. (good i, d))), ground arith)
]

commit_err :
    (io : RewriteIo) (saved : List Transaction) (payload : Text) (s t : Draining) (x : DrainError)
    → commit_drain io saved payload s ≡ (err x, t)
    → (t.disk.pending ≡ s.disk.pending) × (t.pool ≡ restore_fifo saved s.pool)
unfolding commit_drain
commit_err io saved payload s t x e =
    elim (Result-cases (write_pending_atomic io payload s.disk).0) [
      | inl (_, good) ↦ absurd (ground arith)
      | inr (y, bad) ↦
          let d = (write_pending_atomic io payload s.disk).1 in
          let disk : t.disk ≡ d = ground arith in
          (rw disk (write_pending_atomic_err io payload s.disk d y (λ i. (bad i, d))), ground arith)
    ]

module _ ⦃c : Primitives⦄ where
  queued_ok :
      (io : RewriteIo) (txs : List Transaction) (bytes : Text) (s t : Draining)
      → Consistent s.pool
      → All IsByte bytes
      → IsQueue bytes txs
      → drain_queued io txs s ≡ (ok tt, t)
      → (remaining : List Transaction) × (bytes' : Text) × (t.disk.pending ≡ some bytes')
        × (parse_pending_file_bytes bytes' ≡ ok remaining)
        × Drained txs remaining s.pool t.pool
  unfolding drain_queued submit_queued
  queued_ok io [] bytes s t k b q e =
      let (disk, pool) = commit_ok io (clone_fifo s.pool) [] s t e in
      let d = submit_queued-Drained [] [] s.pool s.pool k refl in
      (
        [],
        [],
        disk,
        (parse_pending_file_iff [] []).1 refl,
        subst (Drained [] [] s.pool) (sym pool) d,
      )
  queued_ok io (tx ∷ txs) bytes s t k b q e =
      let (remaining, pool) = submit_queued (tx ∷ txs) s.pool in
      let d = submit_queued-Drained (tx ∷ txs) remaining s.pool pool k refl in
      let (bytes', enc, q') =
        encode_pending_payload-IsQueue remaining
          (IsQueue-tail d.done remaining bytes b (subst (IsQueue bytes) d.split q)) in
      let (disk, same) =
        commit_ok io (clone_fifo s.pool) bytes' (record s { pool = pool }) t
          (ground (arith, enc)) in
      (
        remaining,
        bytes',
        disk,
        (parse_pending_file_iff bytes' remaining).1 q',
        subst (Drained (tx ∷ txs) remaining s.pool) (sym same) d,
      )

  queued_err :
      (io : RewriteIo) (txs : List Transaction) (bytes : Text) (s t : Draining) (x : DrainError)
      → Consistent s.pool
      → All IsByte bytes
      → IsQueue bytes txs
      → drain_queued io txs s ≡ (err x, t)
      → (t.disk.pending ≡ s.disk.pending) × SamePool t.pool s.pool
  unfolding drain_queued
  queued_err io [] bytes s t x k b q e =
      let (disk, pool) = commit_err io (clone_fifo s.pool) [] s t x e in
      (disk, rw pool (restore_fifo-clone_fifo s.pool s.pool k refl))
  queued_err io (tx ∷ txs) bytes s t x k b q e =
      let (remaining, pool) = submit_queued (tx ∷ txs) s.pool in
      let d = submit_queued-Drained (tx ∷ txs) remaining s.pool pool k refl in
      let (bytes', enc, _) =
        encode_pending_payload-IsQueue remaining
          (IsQueue-tail d.done remaining bytes b (subst (IsQueue bytes) d.split q)) in
      let (disk, same) =
        commit_err io (clone_fifo s.pool) bytes' (record s { pool = pool }) t x
          (ground (arith, enc)) in
      (disk, rw same (restore_fifo-clone_fifo s.pool pool k d.same_capacity))

  unchanged : (s t : Draining) → t ≡ s → (t.disk.pending ≡ s.disk.pending) × SamePool t.pool s.pool
  unchanged s t e = rw e (
    refl,
    record {
      same_txs = λ h. refl;
      same_slots = λ a k. refl;
      same_fifo = refl;
      same_capacity = refl;
    },
  )

  -- A drain that succeeds loses nothing: the file is left with a queue that parses, the transactions
  -- that have gone from its front are in the pool, the pool has kept what it had, and it refuses the
  -- first transaction that is left.
  pub drain_pending_file_loses_nothing :
      (io : DrainIo) (s t : Draining) (bytes : Text)
      → Consistent s.pool
      → All IsByte bytes
      → s.disk.pending ≡ some bytes
      → drain_pending_file io s ≡ (ok tt, t)
      → (txs : List Transaction) × (remaining : List Transaction) × (bytes' : Text)
        × (parse_pending_file_bytes bytes ≡ ok txs)
        × (t.disk.pending ≡ some bytes')
        × (parse_pending_file_bytes bytes' ≡ ok remaining)
        × Drained txs remaining s.pool t.pool
  unfolding drain_pending_file drain_bytes
  drain_pending_file_loses_nothing io s t bytes k b there e =
      elim (Result-cases (parse_pending_file_bytes bytes)) [
        | inr (x, bad) ↦ absurd (ground arith)
        | inl (txs, good) ↦
            let (remaining, bytes', left, parsed, d) =
              queued_ok io.rewrite txs bytes s t k b ((parse_pending_file_iff bytes txs).0 good)
                (ground arith) in
            (txs, remaining, bytes', good, left, parsed, d)
      ]

  -- A drain that fails, wherever it fails, leaves the file as it was and the pool with the same
  -- transactions, slots and queue.
  pub drain_pending_file_fails :
      (io : DrainIo) (s t : Draining) (x : DrainError)
      → Consistent s.pool
      → All IsByte (content s.disk.pending)
      → drain_pending_file io s ≡ (err x, t)
      → (t.disk.pending ≡ s.disk.pending) × SamePool t.pool s.pool
  unfolding drain_pending_file drain_bytes
  drain_pending_file_fails io s t x k b e = elim (Option-cases s.disk.pending) [
    | inl gone ↦ unchanged s t (ground arith)
    | inr (bytes, there) ↦ elim (Bool-cases io.lock) [
      | inr free ↦ unchanged s t (ground arith)
      | inl locked ↦ elim (Bool-cases io.read) [
        | inr failed ↦ unchanged s t (ground arith)
        | inl was_read ↦ elim (Result-cases (parse_pending_file_bytes bytes)) [
          | inr (y, bad) ↦ unchanged s t (ground arith)
          | inl (txs, good) ↦
              queued_err io.rewrite txs bytes s t x k (subst (λ o. All IsByte (content o)) there b)
                ((parse_pending_file_iff bytes txs).0 good) (ground arith)
        ]
      ]
    ]
  ]

frame_of_bytes : (tx : Transaction) → IsQueueable tx → frame_of tx ≡ ok (frame_bytes tx)
unfolding frame_of
frame_of_bytes tx k = ground (arith, encode_transaction_bytes tx k.0)

-- When the append succeeds, the file parses as the queue that it held with the transaction behind
-- it. The transaction must have an encoding of at most 4 MiB.
pub parse-append_pending_transaction :
    (io : AppendIo) (tx : Transaction) (txs : List Transaction) (d e : PendingDisk)
    → IsQueueable tx
    → parse_pending_file_bytes (content d.pending) ≡ ok txs
    → append_pending_transaction io tx d ≡ (ok tt, e)
    → parse_pending_file_bytes (content e.pending) ≡ ok (txs ++ tx ∷ [])
unfolding append_pending_transaction append_bytes
parse-append_pending_transaction io tx txs d e k old r =
    let after : content e.pending ≡ content d.pending ++ frame_bytes tx =
      ground (arith, frame_of_bytes tx k) in
    (parse_pending_file_iff (content e.pending) (txs ++ tx ∷ [])).1 (
      subst (λ z. IsQueue z (txs ++ tx ∷ [])) (sym after)
        (IsQueue-append txs (tx ∷ []) (content d.pending) (frame_bytes tx)
          ((parse_pending_file_iff (content d.pending) txs).0 old)
          (
            [],
            subst (λ z. IsFrame z tx []) (append-nil (frame_bytes tx))
                (frame_bytes-IsFrame tx [] k),
            refl,
          )))
