-- ===== src/Network/Framing.antt =====
-- Frames and session payloads are read back as they were written.
use trilogicon_core.Prelude.{
  ℕ, ◌+◌, ◌/◌, ◌%◌, ◌≡◌, ◌≤◌, ◌<◌, Text, ok, true, [], ◌∷◌, ◌++◌, arith, length, refl, ap, ◌∙◌,
  length-append, append-nil, sym, take-append, drop-append, append_assoc, IsU64, take_of_length-le,
}
use trilogicon_core.Encoding.Cursor.{be_bytes, from_be, is_utf8}
use trilogicon_core.Encoding.RoundTrip.{length-be_bytes, from_be-be_bytes}
use trilogicon_core.Storage.Reading.{take-be_bytes, drop-be_bytes}
use trilogicon_core.Network.Wire.{
  max_wire_frame_bytes, max_session_commitment_bytes, wire_protocol_version, write_framed,
  read_framed, session_bytes, decode_session_payload,
}

frame_read :
    (p rest : Text)
    → length p ≤ max_wire_frame_bytes
    → read_framed (be_bytes 4 (length p) ++ (p ++ rest)) ≡ ok (p, rest)
unfolding read_framed
frame_read p rest fits =
    rw
      (
        read_framed,
        take-be_bytes 4 (length p) (p ++ rest),
        drop-be_bytes 4 (length p) (p ++ rest),
        from_be-be_bytes 4 (length p) (omega (arith, fits)),
        take-append p rest,
        drop-append p rest,
      )
      (ground (
        arith,
        fits,
        length-append (be_bytes 4 (length p)) (p ++ rest),
        length-append p rest,
        length-be_bytes 4 (length p),
      ))

-- A payload within the cap is written, and reading the bytes returns it, with what follows on the
-- stream left for the next frame.
pub read_framed-write_framed :
    (payload rest : Text)
    → length payload ≤ max_wire_frame_bytes
    → (bytes : Text) × (write_framed payload ≡ ok bytes)
      × (read_framed (bytes ++ rest) ≡ ok (payload, rest))
unfolding write_framed
read_framed-write_framed p rest fits = (
  be_bytes 4 (length p) ++ p,
  ground (arith, fits),
  ap read_framed (append_assoc (be_bytes 4 (length p)) p rest) ∙ frame_read p rest fits,
)

-- A payload as a frame, with nothing behind it.
abbrev pub framed : Text → Text
framed p = be_bytes 4 (length p) ++ p

pub write_framed-framed :
    (p : Text) → length p ≤ max_wire_frame_bytes → write_framed p ≡ ok (framed p)
unfolding write_framed
write_framed-framed p fits = ground (arith, fits)

pub read_framed-framed :
    (p : Text) → length p ≤ max_wire_frame_bytes → read_framed (framed p) ≡ ok (p, [])
read_framed-framed p fits =
    ap (λ z. read_framed (be_bytes 4 (length p) ++ z)) (sym (append-nil p)) ∙ frame_read p [] fits

two_bytes : (n : ℕ) → n < 65536 → from_be 0 ((n / 256 % 256) ∷ (n % 256) ∷ []) ≡ n
unfolding from_be
two_bytes n h = omega (arith, h)

module _ (op a b x y : ℕ) (hex adv : Text) where
  decode_pieces :
      from_be 0 (x ∷ y ∷ []) ≡ length hex
      → length hex ≤ max_session_commitment_bytes
      → is_utf8 hex ≡ true
      → length adv ≡ 8
      → decode_session_payload (op ∷ a ∷ b ∷ x ∷ y ∷ (hex ++ adv))
        ≡ ok (record {
          opcode = from_be 0 (op ∷ []);
          version = from_be 0 (a ∷ b ∷ []);
          commitment = hex;
          advisory_height = from_be 0 adv;
        })
  unfolding decode_session_payload
  decode_pieces e fits u l = ground (
    arith,
    e,
    fits,
    u,
    l,
    take-append hex adv,
    drop-append hex adv,
    length-append hex adv,
    take_of_length-le 8 adv (omega (arith, l)),
  )

-- A session frame of any version.
unfoldable pub session_of : ℕ → ℕ → Text → ℕ → Text
session_of op version hex height =
    op ∷ be_bytes 2 version ++ (be_bytes 2 (length hex) ++ (hex ++ be_bytes 8 height))

pub session_of-session_bytes :
    (op : ℕ) (hex : Text) (height : ℕ)
    → session_bytes op hex height ≡ session_of op wire_protocol_version hex height
unfolding session_of session_bytes
session_of-session_bytes op hex height = refl

pub length-session_of :
    (op version : ℕ) (hex : Text) (height : ℕ)
    → length (session_of op version hex height) ≡ 5 + (length hex + 8)
unfolding session_of be_bytes
length-session_of op version hex height =
    omega (arith, length-append hex (be_bytes 8 height), length-be_bytes 8 height)

-- A session frame says what it was made of.
pub decode_session_payload-session_of :
    (op version : ℕ) (hex : Text) (height : ℕ)
    → version < 65536
    → length hex ≤ max_session_commitment_bytes
    → is_utf8 hex ≡ true
    → IsU64 height
    → decode_session_payload (session_of op version hex height)
      ≡ ok (record { opcode = op; version = version; commitment = hex; advisory_height = height })
unfolding decode_session_payload session_of be_bytes from_be
decode_session_payload-session_of op version hex height small fits u h =
    decode_pieces op (version / 256 % 256) (version % 256) (length hex / 256 % 256)
      (length hex % 256) hex (be_bytes 8 height) (two_bytes (length hex) (omega (arith, fits))) fits
      u (length-be_bytes 8 height)
    ∙ (λ i. ok (record {
      opcode = first i;
      version = two_bytes version small i;
      commitment = hex;
      advisory_height = from_be-be_bytes 8 height (omega (arith, h)) i;
    }))
  where
    first : from_be 0 (op ∷ []) ≡ op
    first = omega arith
