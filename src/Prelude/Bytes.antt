-- ===== src/Prelude/Bytes.antt =====
-- Rust's `String` and `Vec<u8>`: a list of byte values, compared byte by byte.
use Prim.Native.Nat.{ℕ, zero, suc, ◌+◌, ◌/◌, ◌%◌}
use Prim.Native.Char.{code}
use Prim.Native.String.{String}
use mathlib.Core.Path.{◌≡◌, refl, ap₂}
use mathlib.Core.Bool.{Bool, true, false, ◌&&◌, ◌||◌}
use mathlib.Core.List.{List, [], ◌∷◌, ◌++◌}
use native.Mathlib.Decide.{ℕ_discrete}
use trilogicon_core.Prelude.Tests.{Eq, ◌==◌, leb, ltb, if◌then◌else◌}

abbrev pub Text : Type 0
Text = List ℕ

head_eq : {a b : ℕ} {xs ys : Text} → a ∷ xs ≡ b ∷ ys → a ≡ b
head_eq p = cc

tail_eq : {a b : ℕ} {xs ys : Text} → a ∷ xs ≡ b ∷ ys → xs ≡ ys
tail_eq p = cc

nil_ne_cons : {b : ℕ} {ys : Text} → [] ≡ b ∷ ys → ⊥
nil_ne_cons p = cc

cons_ne_nil : {b : ℕ} {ys : Text} → b ∷ ys ≡ [] → ⊥
cons_ne_nil p = cc

unfoldable pub text_discrete : Discrete Text
unfolding ℕ_discrete nil_ne_cons cons_ne_nil head_eq tail_eq
text_discrete [] [] = yes refl
text_discrete [] (y ∷ ys) = no nil_ne_cons
text_discrete (x ∷ xs) [] = no cons_ne_nil
text_discrete (x ∷ xs) (y ∷ ys) = elim (ℕ_discrete x y) [
  | yes p ↦ elim (text_discrete xs ys) [
    | yes q ↦ yes (ap₂ ◌∷◌ p q)
    | no n ↦ no (λ e. n (tail_eq e))
  ]
  | no n ↦ no (λ e. n (head_eq e))
]

instance abbrev pub text_eq : Eq Text
text_eq = record { dec = text_discrete }

-- The bytes of an ASCII literal.
unfoldable pub str : String → Text
str String.[] = []
str (String.◌∷◌ c s) = code c ∷ str s

-- The characters of Unicode white space, which `str::trim` removes, by their UTF-8 bytes.
abbrev is_space : ℕ → Bool
is_space a = leb 9 a && leb a 13 || a == 32

abbrev is_space2 : ℕ → ℕ → Bool
is_space2 a b = a == 0xc2 && (b == 0x85 || b == 0xa0)

abbrev is_space3 : ℕ → ℕ → ℕ → Bool
is_space3 a b d =
    a == 0xe1 && b == 0x9a && d == 0x80
    || a == 0xe2 && b == 0x80 && (leb 0x80 d && leb d 0x8a || d == 0xa8 || d == 0xa9 || d == 0xaf)
    || a == 0xe2 && b == 0x81 && d == 0x9f
    || a == 0xe3 && b == 0x80 && d == 0x80

-- `s.trim().is_empty()`: nothing but white space.
unfoldable pub is_blank : Text → Bool
is_blank [] = true
is_blank (a ∷ []) = is_space a
is_blank (a ∷ b ∷ []) = is_space a && is_space b || is_space2 a b
is_blank (a ∷ b ∷ d ∷ s) =
    let one = is_blank (b ∷ d ∷ s) in
    let two = is_blank (d ∷ s) in
    let three = is_blank s in
    if is_space a
    then one
    else if is_space2 a b
    then two
    else if is_space3 a b d
    then three
    else false

-- `s.trim_start()`
unfoldable pub trim_start : Text → Text
trim_start [] = []
trim_start (a ∷ []) = if is_space a then [] else a ∷ []
trim_start (a ∷ b ∷ []) =
    let one = trim_start (b ∷ []) in
    if is_space a then one else if is_space2 a b then [] else a ∷ b ∷ []
trim_start (a ∷ b ∷ d ∷ s) =
    let one = trim_start (b ∷ d ∷ s) in
    let two = trim_start (d ∷ s) in
    let three = trim_start s in
    if is_space a
    then one
    else if is_space2 a b
    then two
    else if is_space3 a b d
    then three
    else a ∷ b ∷ d ∷ s

-- `s.trim_end()`: no white space begins within a character, so the cut is between characters.
unfoldable pub trim_end : Text → Text
trim_end [] = []
trim_end (a ∷ s) = let kept = a ∷ trim_end s in if is_blank (a ∷ s) then [] else kept

-- `s.trim()`
unfoldable pub trim : Text → Text
trim s = trim_end (trim_start s)

-- The decimal digits of a number, `format!("{}", n)`, with the digits found so far at the end.
digits_from : ℕ → ℕ → Text → Text
digits_from zero n acc = acc
digits_from (suc fuel) n acc =
    let acc' = (48 + n % 10) ∷ acc in
    let rest = digits_from fuel (n / 10) acc' in if ltb n 10 then acc' else rest

-- A u64 has at most 20 digits.
unfoldable pub show_u64 : ℕ → Text
unfolding digits_from
show_u64 n = digits_from 20 n []

-- `parts.join(sep)`
unfoldable pub join : Text → List Text → Text
join sep [] = []
join sep (s ∷ []) = s
join sep (s ∷ t ∷ rest) = s ++ sep ++ join sep (t ∷ rest)

-- `a != b`
abbrev pub ne : Text → Text → Bool
ne a b = elim (text_discrete a b) [ yes _ ↦ false | no _ ↦ true ]

-- Membership in a `HashSet<String>`.
unfoldable pub contains : Text → List Text → Bool
contains a [] = false
contains a (b ∷ rest) = elim (text_discrete a b) [ yes _ ↦ true | no _ ↦ contains a rest ]

-- No text is listed twice.
abbrev pub Distinct : List Text → Type 0
Distinct [] = Unit
Distinct (x ∷ xs) = (contains x xs ≡ false) × Distinct xs

-- `a <= b` in the byte order of strings.
unfoldable pub text_leb : Text → Text → Bool
text_leb [] b = true
text_leb (x ∷ a) [] = false
text_leb (x ∷ a) (y ∷ b) = let rest = text_leb a b in if x == y then rest else ltb x y
