-- ===== src/Encoding/Consumption.antt =====
-- What the readers of the cursor return, and how many bytes they take for it.
use trilogicon_core.Encoding.RoundTrip.{byte_bound, IsWritable}
use native.Mathlib.Nat.{mul-le-mul_right, mul_assoc}
use trilogicon_core.Prelude.{
  ℕ, zero, suc, ◌+◌, ◌*◌, ◌≡◌, ◌≤◌, ◌<◌, Text, ok, err, true, [], ◌∷◌, arith, length, take, drop,
  All, refl, ap, subst, ◌∙◌, inl, inr, Result-cases, Bool-cases, Result, dec_lt,
}
use trilogicon_core.Encoding.Cursor.{
  Parser, stop, check, ◌>>=◌, ◌>>◌, take_exact, from_be, take_number, take_u32_be, take_bytes,
  is_utf8, utf8, take_string, u32_max, EncodeError,
}

abbrev pub IsByte : ℕ → Type 0
IsByte b = b < 256

-- A value that was read from the front of some bytes, with a property that may speak of how many they were.
pub record Taken {A : Type 0} (R : A → ℕ → Type 0) (bs rest : Text) (a : A) : Type 0 where
  pub remain : All IsByte rest
  pub used : ℕ
  pub split : length bs ≡ used + length rest
  pub holds : R a used

abbrev pub Takes : {A : Type 0} → Parser A → (A → ℕ → Type 0) → Type 0
Takes {A} p R =
    (bs : Text) (a : A) (rest : Text) → All IsByte bs → p bs ≡ ok (a, rest) → Taken R bs rest a

module _ {A B : Type 0} (p : Parser A) (f : A → Parser B) where
  bind_ok_inv :
      (bs : Text) (b : B) (rest : Text) (r : A × Text)
      → p bs ≡ ok r
      → (p >>= f) bs ≡ ok (b, rest)
      → f r.0 r.1 ≡ ok (b, rest)
  bind_ok_inv bs b rest r h e = rw (◌>>=◌, h) at e

  bind_err_inv :
      (bs : Text) (b : B) (rest : Text) (x : EncodeError)
      → p bs ≡ err x
      → (p >>= f) bs ≡ ok (b, rest)
      → ⊥
  bind_err_inv bs b rest x h e = ground (arith, rw (◌>>=◌, h) at e)

  pub bind-Takes :
      (R : A → ℕ → Type 0) (S : B → ℕ → Type 0)
      → Takes p R
      → ((a : A) (m : ℕ) → R a m → Takes (f a) (λ b n. S b (m + n)))
      → Takes (p >>= f) S
  bind-Takes R S h k bs b rest bytes e = elim (Result-cases (p bs)) [
    | inl (r, went) ↦
        let x = h bs r.0 r.1 bytes went in
        let y = k r.0 x.used x.holds r.1 b rest x.remain (bind_ok_inv bs b rest r went e) in
        record {
          remain = y.remain;
          used = x.used + y.used;
          split = omega (arith, x.split, y.split);
          holds = y.holds;
        }
    | inr (x, failed) ↦ absurd (bind_err_inv bs b rest x failed e)
  ]

abbrev pub value_or : {A : Type 0} → A → Result EncodeError A → A
value_or d (ok a) = a
value_or d (err e) = d

pub returned :
    {A : Type 0} (R : A → ℕ → Type 0) (bs rest : Text) (b : A) (n : ℕ) (r : A × Text)
    → stop r.0 r.1 ≡ ok (b, rest)
    → All IsByte r.1
    → length bs ≡ n + length r.1
    → R r.0 n
    → Taken R bs rest b
returned R bs rest b n r e bytes l h =
    let same = ap (value_or r) e in
    record {
      remain = subst (All IsByte) (ap (λ z. z.1) same) bytes;
      used = n;
      split = l ∙ ap (λ z. n + length z.1) same;
      holds = subst (λ x. R x n) (ap (λ z. z.0) same) h;
    }

pub stop-Takes : {A : Type 0} (R : A → ℕ → Type 0) (a : A) → R a 0 → Takes (stop a) R
stop-Takes R a h bs b rest bytes e = returned R bs rest b 0 (a, bs) e bytes (omega arith) h

-- A check takes nothing.
pub check_then :
    {P B : Type 0} (d : Dec P) (x : EncodeError) (q : Parser B) (S : B → ℕ → Type 0)
    → Takes q S
    → Takes (check d x >> q) S
check_then (yes p) x q S h bs b rest bytes e = h bs b rest bytes e
check_then (no n) x q S h bs b rest bytes e = absurd (ground arith)

All-drop : (n : ℕ) (bs : Text) → All IsByte bs → All IsByte (drop n bs)
All-drop zero bs k = k
All-drop (suc n) [] k = tt
All-drop (suc n) (b ∷ bs) k = All-drop n bs k.1

All-take : (n : ℕ) (bs : Text) → All IsByte bs → All IsByte (take n bs)
All-take zero bs k = tt
All-take (suc n) [] k = tt
All-take (suc n) (b ∷ bs) k = (k.0, All-take n bs k.1)

length-drop : (n : ℕ) (bs : Text) → n ≤ length bs → length bs ≡ n + length (drop n bs)
length-drop zero bs h = omega arith
length-drop (suc n) [] h = absurd (omega (arith, h))
length-drop (suc n) (b ∷ bs) h = omega (arith, length-drop n bs (omega (arith, h)))

length-take : (n : ℕ) (bs : Text) → n ≤ length bs → length (take n bs) ≡ n
length-take zero bs h = refl
length-take (suc n) [] h = absurd (omega (arith, h))
length-take (suc n) (b ∷ bs) h = omega (arith, length-take n bs (omega (arith, h)))

-- So many bytes.
abbrev pub Chunk : ℕ → Text → ℕ → Type 0
Chunk n t used = (used ≡ n) × (length t ≡ n) × All IsByte t

pub take_exact-Takes : (n : ℕ) → Takes (take_exact n) (Chunk n)
unfolding take_exact
take_exact-Takes n bs t rest bytes e = elim (dec_lt (length bs) n) [
  | yes short ↦ absurd (ground arith)
  | no enough ↦
      returned (Chunk n) bs rest t n (take n bs, drop n bs) (ground arith) (All-drop n bs bytes)
        (length-drop n bs (omega (arith, enough)))
        (refl, length-take n bs (omega (arith, enough)), All-take n bs bytes)
]

from_be_bound :
    (acc : ℕ) (bs : Text) → All IsByte bs → from_be acc bs < (acc + 1) * byte_bound (length bs)
unfolding from_be
from_be_bound acc [] k = omega arith
from_be_bound acc (b ∷ bs) k = omega (
  arith,
  k.0,
  from_be_bound (acc * 256 + b) bs k.1,
  mul-le-mul_right (byte_bound (length bs)) (the_next acc b k.0),
  mul_assoc (acc + 1) 256 (byte_bound (length bs)),
)
  where
    the_next : (acc b : ℕ) → b < 256 → acc * 256 + b + 1 ≤ (acc + 1) * 256
    the_next acc b h = omega (arith, h)

-- A number of so many bytes.
abbrev pub Number : ℕ → ℕ → ℕ → Type 0
Number width v used = (used ≡ width) × (v < byte_bound width)

pub take_number-Takes : (width : ℕ) → Takes (take_number width) (Number width)
unfolding take_number
take_number-Takes width =
    bind-Takes (take_exact width) (λ bs. stop (from_be 0 bs)) (Chunk width) (Number width)
      (take_exact-Takes width)
      (λ bs m x.
        stop-Takes (λ v n. Number width v (m + n)) (from_be 0 bs)
          (omega (arith, x.0), omega (arith, from_be_bound 0 bs x.2, ap byte_bound x.1)))

-- A length and so many bytes.
abbrev pub Framed : Text → ℕ → Type 0
Framed t used = (used ≡ 4 + length t) × (length t ≤ u32_max) × All IsByte t

pub take_bytes-Takes : Takes take_bytes Framed
unfolding take_bytes
take_bytes-Takes =
    bind-Takes take_u32_be take_exact (Number 4) Framed (take_number-Takes 4)
      (λ n m x bs t rest bytes e.
        let r = take_exact-Takes n bs t rest bytes e in
        record {
          remain = r.remain;
          used = r.used;
          split = r.split;
          holds =
              (omega (arith, x.0, r.holds.0, r.holds.1), omega (arith, x.1, r.holds.1), r.holds.2);
        })

-- The same with text.
abbrev pub FramedText : Text → ℕ → Type 0
FramedText t used = (used ≡ 4 + length t) × IsWritable t

utf8-Takes : (t : Text) → Takes (utf8 t) (λ s n. (n ≡ 0) × (s ≡ t) × (is_utf8 t ≡ true))
unfolding utf8
utf8-Takes t bs s rest bytes e = elim (Bool-cases (is_utf8 t)) [
  | inl good ↦
      returned (λ s n. (n ≡ 0) × (s ≡ t) × (is_utf8 t ≡ true)) bs rest s 0 (t, bs) (ground arith)
        bytes (omega arith) (refl, refl, good)
  | inr bad ↦ absurd (ground arith)
]

pub take_string-Takes : Takes take_string FramedText
unfolding take_string
take_string-Takes =
    bind-Takes take_bytes utf8 Framed FramedText take_bytes-Takes (λ t m x bs s rest bytes e.
      let r = utf8-Takes t bs s rest bytes e in
      record {
        remain = r.remain;
        used = r.used;
        split = r.split;
        holds = (
          omega (arith, x.0, r.holds.0, ap length r.holds.1),
          (omega (arith, x.1, ap length r.holds.1), ap is_utf8 r.holds.1 ∙ r.holds.2),
        );
      })
