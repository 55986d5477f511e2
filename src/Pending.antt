-- ===== src/Pending.antt =====
-- node/src/pending_tx_file.rs: the file that queues transactions between `send` and `run`. What the
-- operating system answers to each call is a parameter. The lock excludes every other access, so a
-- call is one step; the warnings about the directory are left out.
pub mod Parsing
pub mod Queue
pub mod Drain
pub mod Safety
use trilogicon_core.Prelude.{
  ℕ, zero, suc, ◌+◌, Text, Result, ok, err, ⊤, Option, none, some, Bool, true, false, List, [], ◌∷◌,
  ◌++◌, length, take, drop, ltb, leb, str, if◌then◌else◌, fail_if, ok_or, map_err, ◌>>=◌, ◌>>◌, not,
  is_nil,
}
use trilogicon_core.Errors.{ProtocolError, duplicate_transaction}
use trilogicon_core.Crypto.{Primitives}
use trilogicon_core.Transaction.{Transaction}
use trilogicon_core.Encoding.{encode_transaction, decode_transaction}
use trilogicon_core.Encoding.Cursor.{be_bytes, from_be, u32_max}
use trilogicon_core.Mempool.{Mempool, try_submit_pending_drain, clone_fifo, restore_fifo}
use trilogicon_core.Storage.Io.{
  Outcome, fine, fails, IoError, fail_closed, invalid_input, os, panicked,
}
use trilogicon_core.Storage.Io

-- `MAX_PENDING_TX_FRAME`
abbrev pub max_pending_tx_frame : ℕ
max_pending_tx_frame = 4194304

-- The part of a round of the loop behind the length. The sums of positions stay below 2^64, since the
-- bytes are in memory.
unfoldable pub parse_body : ℕ → Text → Result Text (Transaction × Text)
parse_body len bs = do
  fail_if (ltb max_pending_tx_frame len) (str "pending_tx.tril: frame too large")
  fail_if (ltb (length bs) len) (str "pending_tx.tril: truncated frame body")
  tx ← decode_transaction (take len bs)
  ok (tx, drop len bs)

-- One round: the transaction in front and the bytes behind its frame.
unfoldable pub parse_frame : Text → Result Text (Transaction × Text)
parse_frame bs = do
  fail_if (ltb (length bs) 4) (str "pending_tx.tril: truncated length prefix")
  parse_body (from_be 0 (take 4 bs)) (drop 4 bs)

-- The loop, with a round for each byte at most.
unfoldable pub parse_frames : ℕ → Text → Result Text (List Transaction)
parse_frames fuel [] = ok []
parse_frames zero (b ∷ bs) = ok []
parse_frames (suc fuel) (b ∷ bs) = elim (parse_frame (b ∷ bs)) [
  | err e ↦ err e
  | ok (tx, rest) ↦ elim (parse_frames fuel rest) [ err e ↦ err e | ok txs ↦ ok (tx ∷ txs) ]
]

unfoldable pub parse_pending_file_bytes : Text → Result Text (List Transaction)
parse_pending_file_bytes bytes = parse_frames (length bytes) bytes

-- What stops the encoding of a queue: a message, or none where `encode_transaction` panics.
abbrev pub Encoded : Type 0 → Type 0
Encoded A = Result (Option Text) A

unfoldable pub encode_pending_payload : List Transaction → Encoded Text
encode_pending_payload [] = ok []
encode_pending_payload (tx ∷ rest) = do
  payload ← ok_or (encode_transaction tx) none
  fail_if (not (leb (length payload) u32_max)) (some (str "encoded transaction length exceeds u32"))
  tail ← encode_pending_payload rest
  ok (be_bytes 4 (length payload) ++ (payload ++ tail))

-- The queue file and the file that replaces it.
pub record PendingDisk : Type 0 where
  pub pending : Option Text
  pub tmp : Option Text

-- What the calls of `write_pending_atomic` answer.
pub record RewriteIo : Type 0 where
  pub create : Bool
  pub write : Outcome
  pub sync : Outcome
  pub rename : Outcome

abbrev pub or_os : Outcome → Io.IoAction PendingDisk ⊤
or_os fine d = (ok tt, d)
or_os (fails n) d = (err os, d)

-- `fs::write`: the bytes that a failed write has written stay.
unfoldable pub write_tmp : Bool → Outcome → Text → Io.IoAction PendingDisk ⊤
write_tmp false o payload d = (err os, d)
write_tmp true fine payload d = (ok tt, record d { tmp = some payload })
write_tmp true (fails n) payload d = (err os, record d { tmp = some (take n payload) })

abbrev renamed : PendingDisk → PendingDisk
renamed d = record { pending = d.tmp; tmp = none }

-- `rename_replace_pending_file` on Unix
unfoldable pub rename_replace_pending_file : Outcome → Io.IoAction PendingDisk ⊤
rename_replace_pending_file fine d = (ok tt, renamed d)
rename_replace_pending_file (fails n) d = (err os, d)

unfoldable pub write_pending_atomic : RewriteIo → Text → Io.IoAction PendingDisk ⊤
write_pending_atomic io payload =
    Io.◌>>◌ (write_tmp io.create io.write payload)
      (Io.◌>>◌ (or_os io.sync) (rename_replace_pending_file io.rename))

-- What the calls of `append_pending_transaction` answer.
pub record AppendIo : Type 0 where
  pub lock : Bool
  pub open_file : Bool
  pub write : Outcome
  pub sync : Outcome

abbrev pub content : Option Text → Text
content none = []
content (some t) = t

-- `f.write_all(&frame)` behind what the file holds; the file is created if it is not there.
unfoldable pub append_bytes : Outcome → Text → PendingDisk → PendingDisk
append_bytes fine bytes d = record d { pending = some (content d.pending ++ bytes) }
append_bytes (fails n) bytes d = record d { pending = some (content d.pending ++ take n bytes) }

abbrev pub outcome_result : Outcome → Result IoError ⊤
outcome_result fine = ok tt
outcome_result (fails n) = err os

unfoldable pub frame_of : Transaction → Result IoError Text
frame_of tx = do
  payload ← ok_or (encode_transaction tx) panicked
  fail_if (not (leb (length payload) u32_max)) invalid_input
  ok (be_bytes 4 (length payload) ++ payload)

unfoldable pub append_pending_transaction : AppendIo → Transaction → Io.IoAction PendingDisk ⊤
append_pending_transaction io tx d =
    if not io.lock then (err fail_closed, d) else elim (frame_of tx) [
      | err e ↦ (err e, d)
      | ok frame ↦
          if not io.open_file
          then (err os, d)
          else (outcome_result io.write >> outcome_result io.sync, append_bytes io.write frame d)
    ]

-- The errors of a drain: the queue is locked by another process, a message, an error of the
-- operating system, or a panic of the encoder.
pub data DrainError : Type 0 where
  lock_failed : DrainError
  says : Text → DrainError
  from_io : IoError → DrainError

pub record DrainIo : Type 0 where
  pub lock : Bool
  pub read : Bool
  pub rewrite : RewriteIo

pub record Draining : Type 0 where
  pub disk : PendingDisk
  pub pool : Mempool

abbrev encode_error : Option Text → DrainError
encode_error none = from_io panicked
encode_error (some t) = says t

-- What the loop does with the answer of the pool: the transaction leaves the queue, or the loop ends.
unfoldable pub consumes : Result ProtocolError ⊤ → Bool
consumes (ok _) = true
consumes (err duplicate_transaction) = true
consumes (err e) = false

-- The rewriting of the file, and the pool as it was when that fails.
unfoldable pub commit_drain :
    RewriteIo → List Transaction → Text → Draining → Result DrainError ⊤ × Draining
commit_drain io pool_before payload s =
    let (r, d) = write_pending_atomic io payload s.disk in
    elim r [
      | ok _ ↦ (ok tt, record s { disk = d })
      | err e ↦ (err (from_io e), record { disk = d; pool = restore_fifo pool_before s.pool })
    ]

module _ ⦃c : Primitives⦄ where
  -- The loop over the queue: what remains of it, and the pool.
  unfoldable pub submit_queued : List Transaction → Mempool → List Transaction × Mempool
  submit_queued [] m = ([], m)
  submit_queued (tx ∷ rest) m =
      let (r, m') = try_submit_pending_drain tx m in
      elim (consumes r) [ true ↦ submit_queued rest m' | false ↦ (tx ∷ rest, m') ]

  -- The drain of the transactions that were read.
  unfoldable pub drain_queued :
      RewriteIo → List Transaction → Draining → Result DrainError ⊤ × Draining
  drain_queued io txs s =
      if is_nil txs
      then commit_drain io (clone_fifo s.pool) [] s
      else let (remaining, pool) = submit_queued txs s.pool in
        elim (encode_pending_payload remaining) [
          | err e ↦ (err (encode_error e), record s { pool = pool })
          | ok payload ↦ commit_drain io (clone_fifo s.pool) payload (record s { pool = pool })
        ]

  unfoldable pub drain_bytes : DrainIo → Text → Draining → Result DrainError ⊤ × Draining
  drain_bytes io bytes s = elim (parse_pending_file_bytes bytes) [
    | err e ↦ (err (says e), s)
    | ok txs ↦ drain_queued io.rewrite txs s
  ]

  unfoldable pub drain_pending_file : DrainIo → Draining → Result DrainError ⊤ × Draining
  drain_pending_file io s = if not io.lock then (err lock_failed, s) else elim s.disk.pending [
    | none ↦ (ok tt, s)
    | some bytes ↦ if not io.read then (err (from_io os), s) else drain_bytes io bytes s
  ]
