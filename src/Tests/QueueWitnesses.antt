-- ===== src/Tests/QueueWitnesses.antt =====
-- The theorems about the queue file at concrete inputs.
use trilogicon_core.Prelude.{
  ◌≡◌, refl, ok, err, some, none, true, List, Text, [], ◌∷◌, ◌++◌, arith, All, text_eq,
}
use trilogicon_core.Transaction.{Transaction}
use trilogicon_core.Mempool.{new}
use trilogicon_core.Mempool.Invariant.{new-Consistent}
use trilogicon_core.Mempool.Restoring.{SamePool}
use trilogicon_core.Encoding.{encode_transaction, decode_transaction, parse_transaction}
use trilogicon_core.Encoding.Cursor.{
  is_utf8, be_bytes, from_be, push_bytes, take_exact, take_number, take_bytes, take_string, utf8,
  finish, run,
}
use trilogicon_core.Encoding.Consumption.{IsByte}
use trilogicon_core.Encoding.RoundTrip.{join_all}
use trilogicon_core.Storage.Io.{fine, fails, os}
use trilogicon_core.Pending.{
  PendingDisk, RewriteIo, AppendIo, DrainIo, from_io, Draining, content, parse_pending_file_bytes,
  append_pending_transaction, drain_pending_file, drain_bytes, drain_queued, submit_queued,
  consumes, commit_drain, encode_pending_payload, write_pending_atomic, write_tmp,
  rename_replace_pending_file, parse_frame, parse_frames, parse_body, append_bytes, frame_of,
}
use trilogicon_core.Pending.Parsing.{parse_pending_file_iff}
use trilogicon_core.Pending.Queue.{IsQueueable, frame_bytes}
use trilogicon_core.Pending.Drain.{Drained}
use trilogicon_core.Pending.Safety.{
  drain_pending_file_loses_nothing, drain_pending_file_fails, parse-append_pending_transaction,
}
use trilogicon_core.Tests.{toy, code, payment}
use trilogicon_core.Tests.StorageWitnesses.{are_bytes}

abbrev pub appends : AppendIo
appends = record { lock = true; open_file = true; write = fine; sync = fine }

abbrev nothing : PendingDisk
nothing = record { pending = none; tmp = none }

abbrev queued : PendingDisk
queued = record { pending = some (frame_bytes payment); tmp = none }

abbrev waiting : Draining
waiting = record { disk = queued; pool = new 2 }

abbrev rewrites : RewriteIo
rewrites = record { create = true; write = fine; sync = fine; rename = fine }

abbrev good : DrainIo
good = record { lock = true; read = true; rewrite = rewrites }

-- The rename fails.
abbrev bad : DrainIo
bad = record { lock = true; read = true; rewrite = record rewrites { rename = fails 0 } }

abbrev drained : Draining
drained = (drain_pending_file good waiting).1

abbrev not_drained : Draining
not_drained = (drain_pending_file bad waiting).1

drain_run : drain_pending_file good waiting ≡ (ok tt, drained)
unfolding code drain_pending_file drain_bytes drain_queued submit_queued consumes commit_drain
    encode_pending_payload write_pending_atomic write_tmp rename_replace_pending_file
    parse_pending_file_bytes parse_frame parse_frames parse_body decode_transaction
    parse_transaction take_exact take_number take_bytes take_string utf8 finish run from_be be_bytes
    is_utf8 join_all
drain_run = refl

bad_run : drain_pending_file bad waiting ≡ (err (from_io os), not_drained)
unfolding code drain_pending_file drain_bytes drain_queued submit_queued consumes commit_drain
    encode_pending_payload write_pending_atomic write_tmp rename_replace_pending_file
    parse_pending_file_bytes parse_frame parse_frames parse_body decode_transaction
    parse_transaction take_exact take_number take_bytes take_string utf8 finish run from_be be_bytes
    is_utf8 join_all
bad_run = refl

queue_bytes : All IsByte (frame_bytes payment)
unfolding code join_all be_bytes
queue_bytes = are_bytes (frame_bytes payment) refl

payment-IsQueueable : IsQueueable payment
unfolding code is_utf8 join_all be_bytes
payment-IsQueueable = (
  record {
    sender = (omega arith, refl);
    receiver = (omega arith, refl);
    tx_hash = (omega arith, refl);
    public_key = omega arith;
    signature = omega arith;
    amount = omega arith;
    fee = omega arith;
    nonce = omega arith;
    timestamp_unix = omega arith;
  },
  omega arith,
)

loses_nothing_example :
    (txs : List Transaction) × (remaining : List Transaction) × (bytes' : Text)
    × (parse_pending_file_bytes (frame_bytes payment) ≡ ok txs)
    × (drained.disk.pending ≡ some bytes')
    × (parse_pending_file_bytes bytes' ≡ ok remaining)
    × Drained txs remaining (new 2) drained.pool
loses_nothing_example =
    drain_pending_file_loses_nothing good waiting drained (frame_bytes payment) (new-Consistent 2)
      queue_bytes refl drain_run

fails_example : (not_drained.disk.pending ≡ queued.pending) × SamePool not_drained.pool (new 2)
fails_example =
    drain_pending_file_fails bad waiting not_drained (from_io os) (new-Consistent 2) queue_bytes
      bad_run

abbrev appended : PendingDisk
appended = (append_pending_transaction appends payment nothing).1

append_run : append_pending_transaction appends payment nothing ≡ (ok tt, appended)
unfolding code append_pending_transaction append_bytes frame_of encode_transaction push_bytes
    be_bytes
append_run = refl

append_example : parse_pending_file_bytes (content appended.pending) ≡ ok ([] ++ payment ∷ [])
append_example =
    parse-append_pending_transaction appends payment [] nothing appended payment-IsQueueable
      ((parse_pending_file_iff [] []).1 refl) append_run
