-- ===== src/Pending/Parsing.antt =====
-- Which bytes the reader of node/src/pending_tx_file.rs takes for a queue.
use trilogicon_core.Prelude.{
  ℕ, zero, suc, ◌+◌, ◌≡◌, ◌≤◌, ◌↔◌, Text, ok, List, [], ◌∷◌, ◌++◌, arith, length, take, drop,
  length-append, take-append, drop-append, refl, sym, ap, subst, ◌∙◌, Result-cases, inl, inr,
}
use trilogicon_core.Transaction.{Transaction}
use trilogicon_core.Encoding.{decode_transaction}
use trilogicon_core.Encoding.Cursor.{from_be}
use trilogicon_core.Pending.{
  max_pending_tx_frame, parse_body, parse_frame, parse_frames, parse_pending_file_bytes,
}

-- A length of four bytes, and so many bytes that decode to the transaction.
pub record IsFrame (bytes : Text) (tx : Transaction) (rest : Text) : Type 0 where
  pub prefix : Text
  pub payload : Text
  pub split : bytes ≡ prefix ++ (payload ++ rest)
  pub four : length prefix ≡ 4
  pub counts : from_be 0 prefix ≡ length payload
  pub fits : length payload ≤ max_pending_tx_frame
  pub decodes : decode_transaction payload ≡ ok tx

-- The bytes are frames of these transactions, one behind the other, and nothing else.
abbrev pub IsQueue : Text → List Transaction → Type 0
IsQueue bytes [] = bytes ≡ []
IsQueue bytes (tx ∷ txs) = (rest : Text) × IsFrame bytes tx rest × IsQueue rest txs

take-drop : (n : ℕ) (bs : Text) → bs ≡ take n bs ++ drop n bs
take-drop zero bs = refl
take-drop (suc n) [] = refl
take-drop (suc n) (b ∷ bs) = ap (◌∷◌ b) (take-drop n bs)

length-take : (n : ℕ) (bs : Text) → n ≤ length bs → length (take n bs) ≡ n
length-take zero bs h = refl
length-take (suc n) [] h = absurd (omega (arith, h))
length-take (suc n) (b ∷ bs) h = omega (arith, length-take n bs (omega (arith, h)))

take-at : (n : ℕ) (xs ys : Text) → length xs ≡ n → take n (xs ++ ys) ≡ xs
take-at n xs ys e = subst (λ k. take k (xs ++ ys) ≡ xs) e (take-append xs ys)

drop-at : (n : ℕ) (xs ys : Text) → length xs ≡ n → drop n (xs ++ ys) ≡ ys
drop-at n xs ys e = subst (λ k. drop k (xs ++ ys) ≡ ys) e (drop-append xs ys)

parse_frame-IsFrame :
    (bytes rest : Text) (tx : Transaction)
    → parse_frame bytes ≡ ok (tx, rest)
    → IsFrame bytes tx rest
unfolding parse_frame parse_body
parse_frame-IsFrame bytes rest tx e =
    let len : ℕ = from_be 0 (take 4 bytes) in
    elim (Result-cases (decode_transaction (take len (drop 4 bytes)))) [
      | inr (x, bad) ↦ absurd (ground arith)
      | inl (t, good) ↦ record {
        prefix = take 4 bytes;
        payload = take len (drop 4 bytes);
        split =
            take-drop 4 bytes
            ∙ ap (λ z. take 4 bytes ++ z)
                (take-drop len (drop 4 bytes)
                  ∙ ap (λ z. take len (drop 4 bytes) ++ z) (ground arith));
        four = length-take 4 bytes (ground arith);
        counts = sym (length-take len (drop 4 bytes) (ground arith));
        fits = rw (length-take len (drop 4 bytes) (ground arith)) (ground arith);
        decodes = ground arith;
      }
    ]

IsFrame-parse_frame :
    (bytes rest : Text) (tx : Transaction)
    → IsFrame bytes tx rest
    → parse_frame bytes ≡ ok (tx, rest)
unfolding parse_frame parse_body
IsFrame-parse_frame bytes rest tx f = rw f.split (
    ground (
      arith,
      f.counts,
      f.four,
      f.fits,
      f.decodes,
      take-at 4 f.prefix (f.payload ++ rest) f.four,
      drop-at 4 f.prefix (f.payload ++ rest) f.four,
      take-append f.payload rest,
      drop-append f.payload rest,
      length-append f.prefix (f.payload ++ rest),
      length-append f.payload rest,
    ))

IsFrame-length :
    (bytes rest : Text) (tx : Transaction) → IsFrame bytes tx rest → 4 + length rest ≤ length bytes
IsFrame-length bytes rest tx f = omega (
  arith,
  ap length f.split,
  f.four,
  length-append f.prefix (f.payload ++ rest),
  length-append f.payload rest,
)

parse_frames-IsQueue :
    (fuel : ℕ) (bytes : Text) (txs : List Transaction)
    → length bytes ≤ fuel
    → parse_frames fuel bytes ≡ ok txs
    → IsQueue bytes txs
unfolding parse_frames
parse_frames-IsQueue fuel [] [] n e = refl
parse_frames-IsQueue fuel [] (tx ∷ txs) n e = absurd (ground arith)
parse_frames-IsQueue zero (b ∷ bs) txs n e = absurd (omega (arith, n))
parse_frames-IsQueue (suc fuel) (b ∷ bs) txs n e = elim (Result-cases (parse_frame (b ∷ bs))) [
  | inr (x, bad) ↦ absurd (ground arith)
  | inl ((tx, rest), good) ↦
      let f = parse_frame-IsFrame (b ∷ bs) rest tx good in
      elim (Result-cases (parse_frames fuel rest)) [
        | inr (x, bad) ↦ absurd (ground arith)
        | inl (more, fine) ↦
            let same : tx ∷ more ≡ txs = ground arith in
            subst (IsQueue (b ∷ bs)) same (
              rest,
              f,
              parse_frames-IsQueue fuel rest more
                  (omega (arith, n, IsFrame-length (b ∷ bs) rest tx f)) fine,
            )
      ]
]

IsQueue-parse_frames :
    (fuel : ℕ) (bytes : Text) (txs : List Transaction)
    → length bytes ≤ fuel
    → IsQueue bytes txs
    → parse_frames fuel bytes ≡ ok txs
unfolding parse_frames
IsQueue-parse_frames fuel [] [] n q = refl
IsQueue-parse_frames fuel [] (tx ∷ txs) n (rest, f, q) =
    absurd (omega (arith, IsFrame-length [] rest tx f))
IsQueue-parse_frames fuel (b ∷ bs) [] n q = absurd (omega (arith, ap length q))
IsQueue-parse_frames zero (b ∷ bs) (tx ∷ txs) n q = absurd (omega (arith, n))
IsQueue-parse_frames (suc fuel) (b ∷ bs) (tx ∷ txs) n (rest, f, q) = ground (
  arith,
  IsFrame-parse_frame (b ∷ bs) rest tx f,
  IsQueue-parse_frames fuel rest txs (omega (arith, n, IsFrame-length (b ∷ bs) rest tx f)) q,
)

-- The queue file is read as a list of transactions exactly when it is frames of these and nothing
-- else, each a length of four bytes and a payload of that length, at most 4 MiB, that decodes.
pub parse_pending_file_iff :
    (bytes : Text) (txs : List Transaction)
    → (parse_pending_file_bytes bytes ≡ ok txs) ↔ IsQueue bytes txs
unfolding parse_pending_file_bytes
parse_pending_file_iff bytes txs = (
  parse_frames-IsQueue (length bytes) bytes txs (omega arith),
  IsQueue-parse_frames (length bytes) bytes txs (omega arith),
)
