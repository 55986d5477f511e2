-- ===== src/Tests/WalletWitnesses.antt =====
-- The theorem about the wallet at a concrete input, with crates that keep their promises.
use trilogicon_core.Prelude.{
  ◌≡◌, ◌*◌, ◌<◌, refl, ok, none, true, false, Text, [], ◌∷◌, ◌++◌, arith, length, is_blank, str,
  text_eq,
}
use trilogicon_core.Types.{is_valid}
use trilogicon_core.Crypto.{Primitives, address_from_public_key}
use trilogicon_core.Transaction.{Transaction, basic_validate}
use trilogicon_core.Encoding.{encode_transaction}
use trilogicon_core.Encoding.Cursor.{is_utf8, push_bytes, be_bytes}
use trilogicon_core.Pending.{
  PendingDisk, append_pending_transaction, append_bytes, frame_of, parse_pending_file_bytes,
  content,
}
use trilogicon_core.Pending.Parsing.{parse_pending_file_iff}
use trilogicon_core.Wallet.{Wallet, unsigned, signed, sign_transfer}
use trilogicon_core.Wallet.Sending.{HexDigests, IsKeyPair, sign_transfer_queues}
use trilogicon_core.Tests.{repeat, bob}
use trilogicon_core.Tests.QueueWitnesses.{appends}

unfoldable letters : Text → Text
letters [] = []
letters (b ∷ bs) = 97 ∷ 97 ∷ letters bs

-- Every digest is the same, and every signature verifies.
instance abbrev steady : Primitives
steady = record {
  sha256 = λ m. repeat 32 0;
  hex_encode = letters;
  is_key = λ k. true;
  verify = λ k m s. true;
}

length-letters : (b : Text) → length (letters b) ≡ 2 * length b
unfolding letters
length-letters [] = refl
length-letters (b ∷ bs) = omega (arith, length-letters bs)

ascii_utf8 : (s : Text) → is_utf8 (97 ∷ s) ≡ is_utf8 s
unfolding is_utf8
ascii_utf8 [] = refl
ascii_utf8 (a ∷ []) = ground arith
ascii_utf8 (a ∷ b ∷ []) = ground arith
ascii_utf8 (a ∷ b ∷ d ∷ s) = refl

letters_utf8 : (b : Text) → is_utf8 (letters b) ≡ true
unfolding letters is_utf8
letters_utf8 [] = refl
letters_utf8 (b ∷ bs) = rw (ascii_utf8 (97 ∷ letters bs), ascii_utf8 (letters bs)) (letters_utf8 bs)

letters_visible : (b : Text) → 0 < length b → is_blank (letters b) ≡ false
unfolding letters is_blank
letters_visible [] h = absurd (omega (arith, h))
letters_visible (b ∷ []) h = refl
letters_visible (b ∷ a ∷ bs) h = refl

steady-HexDigests : HexDigests
steady-HexDigests = record {
  digest_length = λ m. refl;
  hex_length = length-letters;
  hex_utf8 = letters_utf8;
  hex_visible = letters_visible;
}

abbrev wallet : Wallet
wallet = record { signing_key = record { verifying_key = repeat 32 5; sign = λ m. repeat 64 9 } }

wallet-IsKeyPair : IsKeyPair wallet.signing_key
wallet-IsKeyPair = record {
  key_length = refl;
  key_valid = refl;
  signature_length = λ m. refl;
  verifies = λ m. refl;
}

abbrev transfer : Transaction
transfer = signed wallet (unsigned wallet bob 10 1 0 7)

transfer_signed : sign_transfer wallet bob 10 1 0 7 ≡ ok transfer
unfolding sign_transfer is_valid is_blank
transfer_signed = refl

abbrev no_file : PendingDisk
no_file = record { pending = none; tmp = none }

abbrev with_transfer : PendingDisk
with_transfer = (append_pending_transaction appends transfer no_file).1

bob_utf8 : is_utf8 bob ≡ true
unfolding is_utf8
bob_utf8 = refl

transfer_appended : append_pending_transaction appends transfer no_file ≡ (ok tt, with_transfer)
unfolding append_pending_transaction append_bytes frame_of encode_transaction push_bytes be_bytes
    signed unsigned address_from_public_key letters str
transfer_appended = refl

sending_example :
    (basic_validate transfer ≡ ok tt)
    × (parse_pending_file_bytes (content with_transfer.pending) ≡ ok ([] ++ transfer ∷ []))
sending_example =
    sign_transfer_queues steady-HexDigests wallet wallet-IsKeyPair bob 10 1 0 7 transfer appends
      no_file with_transfer [] bob_utf8 (omega arith) (omega arith) (omega arith) (omega arith)
      transfer_signed ((parse_pending_file_iff [] []).1 refl) transfer_appended
