-- ===== src/Tests/NetworkWitnesses.antt =====
-- The theorems about the node and its peers at concrete inputs.
use trilogicon_core.Prelude.{
  Result, ◌≡◌, false, ◌≤◌, ◌⊎◌, ◌++◌, inr, ◌+◌, nat_eq, refl, ok, some, Text, [], ◌∷◌, arith, inl,
  true, take, str, length, ite, ◌=?◌, text_eq, err,
}
use trilogicon_core.Mempool.{new}
use trilogicon_core.Crypto.{sha256_raw32}
use trilogicon_core.Genesis.{state_commitment_hex, state_commitment_raw32}
use trilogicon_core.Encoding.{
  encode_block, concat_all, nested, encode_each, encode_transaction, push_count,
}
use trilogicon_core.Encoding.Cursor.{be_bytes, is_utf8, push_bytes}
use trilogicon_core.Encoding.RoundTrip.{join_all}
use trilogicon_core.Encoding.Blocks.{CanEncodeBlock, block_bytes, each_bytes}
use trilogicon_core.Storage.{load_blockchain_from_disk, chain_from_genesis, append_all}
use trilogicon_core.Storage.Io.{fine}
use trilogicon_core.Storage.Frames as Frames
use trilogicon_core.Storage.Frames.{chain_file_magic, v2}
use trilogicon_core.Storage.Holds.{Torn}
use trilogicon_core.Network.Node.{NodeInner, for_tests, append_network_block_persist}
use trilogicon_core.Network.Durability.{
  Stored, IsPersisted, append_network_block_persist-IsPersisted,
}
use trilogicon_core.Network.Restart.{IsConsistent, IsRestored, load_blockchain_from_disk-IsRestart}
use trilogicon_core.Network.Wire.{
  WireError, unexpected_eof, op_session_hello, op_session_hello_ack, handshake_initiator,
  handshake_responder, wire_encode_blocks_response, wire_decode_blocks_response,
  max_blocks_per_batch,
}
use trilogicon_core.Network.Handshake.{
  Commits, answering, session_frame, verdict, handshake_initiator-handshake_responder,
}
use trilogicon_core.Network.Batches.{wire_decode_blocks_response-wire_encode_blocks_response}
use trilogicon_core.Network.Session.{default_policy}
use trilogicon_core.Network.Connection.{Arrival, frame, rounds, peer_connection_loop}
use trilogicon_core.Network.Sessions.{peer_connection_loop-IsConsistent}
use trilogicon_core.Network.Growth.{size, is_append_failure}
use trilogicon_core.Network.Sync.{SyncWorkBudget, Pull, is_pulling, sync_from_peer}
use trilogicon_core.Network.CatchUp.{sync_from_peer_ends}
use trilogicon_core.Tests.{toy, code, document, root, first}
use trilogicon_core.Tests.EncodingWitnesses.{block, block-CanEncodeBlock}
use trilogicon_core.Tests.StorageWitnesses.{
  block-CanStore, working, blank, blank-Holds, broken, are_bytes,
}

abbrev pub node : NodeInner
unfolding for_tests
node = for_tests document root (new 2) blank

pub root-Stored : Stored document root []
unfolding code chain_from_genesis append_all
root-Stored = record { start = root; starts = refl; replays = refl }

pub first-CanEncodeBlock : CanEncodeBlock first
unfolding code is_utf8 join_all be_bytes
first-CanEncodeBlock = record {
  height = omega arith;
  timestamp_unix = omega arith;
  previous_hash = (omega arith, refl);
  block_hash = (omega arith, refl);
  count = omega arith;
  each = (
    (
      record {
        sender = (omega arith, refl);
        receiver = (omega arith, refl);
        tx_hash = (omega arith, refl);
        public_key = omega arith;
        signature = omega arith;
        amount = omega arith;
        fee = omega arith;
        nonce = omega arith;
        timestamp_unix = omega arith;
      },
      omega arith,
    ),
    tt,
  );
}

first-IsPersisted_example :
    IsPersisted (append_network_block_persist broken first 9 node) node [] first
unfolding for_tests
first-IsPersisted_example =
    append_network_block_persist-IsPersisted broken first node [] root-Stored blank-Holds
      first-CanEncodeBlock 9

node-IsConsistent : IsConsistent node
unfolding for_tests
node-IsConsistent = ([], root-Stored, inl blank-Holds)

-- The node after a write of a block that stopped behind the header of the file.
abbrev shaken : NodeInner
shaken = record node { store = record blank { disk = chain_file_magic; poisoned = true } }

shaken-Torn : Torn blank shaken.store block
unfolding for_tests
shaken-Torn = record {
  sick = refl;
  part = chain_file_magic;
  rest = Frames.frame v2 (block_bytes block);
  parts = refl;
  disk_after = refl;
}

load-IsRestart_example :
    IsRestored fine
      (length chain_file_magic)
      (length (chain_file_magic ++ Frames.frame v2 (block_bytes block)))
      (length shaken-Torn.part)
      []
      block
      node.chain
      (load_blockchain_from_disk node.genesis fine (some chain_file_magic)).0
unfolding for_tests
load-IsRestart_example =
    load_blockchain_from_disk-IsRestart fine shaken
      ([], root-Stored, inr (blank, block, blank-Holds, block-CanStore, shaken-Torn))

abbrev commitment : Text
commitment = str "aaaaaaaaaaaaaaaaaaaaaaaaaaaaaaaa|100"

document-Commits : Commits document commitment
unfolding code state_commitment_hex state_commitment_raw32 is_utf8 sha256_raw32
document-Commits = (refl, omega arith, refl)

handshake_example :
    (handshake_initiator document 5 (answering document 0)
      ≡ ite (commitment =? commitment) (ok tt) (err unexpected_eof))
    × ((handshake_responder document 0 (session_frame 6 1 (str "a") 7)).0
        ≡ verdict op_session_hello commitment 6 1 (str "a"))
    × (handshake_initiator document 5 (λ sent. session_frame 6 1 (str "a") 7)
        ≡ verdict op_session_hello_ack commitment 6 1 (str "a"))
unfolding str is_utf8
handshake_example =
    handshake_initiator-handshake_responder document document commitment commitment (str "a") 5 0 6
      1 7 document-Commits document-Commits (omega arith) (omega arith) refl (omega arith)
      (omega arith) (omega arith)

abbrev bytes_of : Result WireError Text → Text
bytes_of (ok bytes) = bytes
bytes_of (err e) = []

batch_encoded :
    wire_encode_blocks_response (block ∷ block ∷ [])
    ≡ ok (bytes_of (wire_encode_blocks_response (block ∷ block ∷ [])))
unfolding wire_encode_blocks_response encode_block concat_all nested encode_each encode_transaction
    push_bytes push_count be_bytes str
batch_encoded = refl

batch_example :
    wire_decode_blocks_response (bytes_of (wire_encode_blocks_response (block ∷ block ∷ [])))
    ≡ ok (take max_blocks_per_batch (block ∷ block ∷ []))
batch_example =
    wire_decode_blocks_response-wire_encode_blocks_response (block ∷ block ∷ [])
      (bytes_of (wire_encode_blocks_response (block ∷ block ∷ [])))
      (block-CanEncodeBlock, (block-CanEncodeBlock, tt)) batch_encoded

-- A question for blocks.
abbrev question : Text
question = 3 ∷ 0 ∷ 0 ∷ 0 ∷ 0 ∷ 0 ∷ 0 ∷ 0 ∷ 9 ∷ []

abbrev asks : Arrival
asks = record { read = frame question; now_unix = 9; faults = broken; sends = true }

abbrev sends_block : Arrival
sends_block = record {
  read = frame (2 ∷ block_bytes block);
  now_unix = 9;
  faults = broken;
  sends = true;
}

session_example :
    IsConsistent (peer_connection_loop default_policy node question (asks ∷ sends_block ∷ [])).1
unfolding for_tests join_all be_bytes str each_bytes
session_example =
    peer_connection_loop-IsConsistent default_policy node question (asks ∷ sends_block ∷ [])
      node-IsConsistent (are_bytes question refl, (are_bytes (2 ∷ block_bytes block) refl, tt))

abbrev pub one_round : SyncWorkBudget
one_round = record {
  max_rounds_per_call = 1;
  max_blocks_per_call = 2;
  max_wire_bytes_per_call = 1000;
}

-- The first block, in an answer of 300 bytes.
abbrev one_block : Pull
one_block = record { answer = ok (first ∷ [], 300); now_unix = λ _. 9; faults = λ _. working }

sync_example :
    let r = sync_from_peer one_round (one_block ∷ []) node in
    (is_pulling r.0 ≡ false)
    × (r.1.total ≤ 2)
    × (r.1.rounds ≤ 1)
    × (size r.1.node.chain ≤ size node.chain + 2)
    × ((is_append_failure r.0 ≡ true) ⊎ (size r.1.node.chain ≡ size node.chain + r.1.total))
sync_example = sync_from_peer_ends one_round (one_block ∷ []) node (omega arith) (omega arith)
