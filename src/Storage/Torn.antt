-- ===== src/Storage/Torn.antt =====
-- The front of a frame, as a write that stops midway leaves it.
use trilogicon_core.Prelude.{
  ℕ, zero, suc, ◌+◌, ◌-◌, ◌≡◌, ◌≤◌, ◌<◌, inl, inr, Text, [], ◌∷◌, ◌++◌, arith, length, take, refl,
  ap, ◌∙◌, length-append, dec_lt,
}
use trilogicon_core.Encoding.Cursor.{be_bytes}
use trilogicon_core.Encoding.RoundTrip.{length-be_bytes}
use trilogicon_core.Storage.Frames.{
  ChainFileFormat, max_frame_bytes, cut_body, next_frame, frame_body, frame, trailer, trailer_bytes,
}
use trilogicon_core.Storage.Reading.{IsTorn, next_frame_prefix, length-frame, length-trailer_bytes}

pub length-take : (n : ℕ) (xs : Text) → n ≤ length xs → length (take n xs) ≡ n
length-take zero xs h = refl
length-take (suc n) [] h = absurd (omega (arith, h))
length-take (suc n) (x ∷ xs) h = omega (arith, length-take n xs (omega (arith, h)))

pub take-append_more :
    (xs ys : Text) (n : ℕ) → length xs ≤ n → take n (xs ++ ys) ≡ xs ++ take (n - length xs) ys
take-append_more [] ys n h = ap (λ k. take k ys) (omega arith)
take-append_more (x ∷ xs) ys zero h = absurd (omega (arith, h))
take-append_more (x ∷ xs) ys (suc n) h =
    ap (◌∷◌ x)
      (take-append_more xs ys n (omega (arith, h)) ∙ ap (λ k. xs ++ take k ys) (omega arith))

short-IsTorn : (fmt : ChainFileFormat) (bs : Text) → length bs < 4 → IsTorn (next_frame fmt bs)
unfolding next_frame
short-IsTorn fmt [] h = inl refl
short-IsTorn fmt (b ∷ bs) h = ground arith

body_torn :
    (fmt : ChainFileFormat) (n : ℕ) (bs : Text)
    → n ≤ max_frame_bytes
    → length bs < n + trailer fmt
    → frame_body fmt n bs ≡ cut_body
unfolding frame_body
body_torn fmt n bs h l = ground arith

-- A part of a frame is recognised as one.
pub frame-IsTorn :
    (fmt : ChainFileFormat) (p : Text) (n : ℕ)
    → length p ≤ max_frame_bytes
    → n < length (frame fmt p)
    → IsTorn (next_frame fmt (take n (frame fmt p)))
unfolding frame
frame-IsTorn fmt p n fits short = elim (dec_lt n 4) [
  | yes few ↦
      short-IsTorn fmt (take n (frame fmt p))
        (omega (arith, length-take n (frame fmt p) (omega arith)))
  | no many ↦ inr (
      inr (
        ap (next_frame fmt) (
          take-append_more (be_bytes 4 (length p)) (p ++ trailer_bytes fmt p) n
            (omega (arith, length-be_bytes 4 (length p))))
        ∙ next_frame_prefix fmt (length p) (rest n) fits
        ∙ body_torn fmt (length p) (rest n) fits (
            omega (
              arith,
              short,
              length-frame fmt p,
              length-be_bytes 4 (length p),
              length-append p (trailer_bytes fmt p),
              length-trailer_bytes fmt p,
              length-take (n - length (be_bytes 4 (length p))) (p ++ trailer_bytes fmt p) (
                  omega (
                    arith,
                    short,
                    length-frame fmt p,
                    length-be_bytes 4 (length p),
                    length-append p (trailer_bytes fmt p),
                    length-trailer_bytes fmt p,
                  )),
            ))))
]
  where
    rest : ℕ → Text
    rest k = take (k - length (be_bytes 4 (length p))) (p ++ trailer_bytes fmt p)
