-- ===== src/Encoding/Cursor.antt =====
-- The cursor of node/src/encoding.rs, as the bytes not read yet, and what is written field by field.
use trilogicon_core.Prelude.{
  ℕ, zero, suc, ◌+◌, ◌*◌, ◌/◌, ◌%◌, Text, Result, ok, err, ⊤, Bool, true, false, Option, none, some,
  [], ◌∷◌, ◌++◌, ◌&&◌, ◌||◌, str, show_u64, length, take, drop, leb, ltb, is_nil, ◌==◌,
  if◌then◌else◌, ite,
}

-- The message. The part of the UTF-8 error that the standard library words is left out.
abbrev pub EncodeError : Type 0
EncodeError = Text

abbrev pub Parser : Type 0 → Type 0
Parser A = Text → Result EncodeError (A × Text)

abbrev pub stop : {A : Type 0} → A → Parser A
stop a bs = ok (a, bs)

abbrev pub check : {P : Type 0} → Dec P → EncodeError → Parser ⊤
check d e bs = ite d (ok (tt, bs)) (err e)

infixl 5 ◌>>=◌ ◌>>◌
abbrev pub ◌>>=◌ : {A B : Type 0} → Parser A → (A → Parser B) → Parser B
◌>>=◌ p f bs = elim (p bs) [ ok r ↦ f r.0 r.1 | err e ↦ err e ]

abbrev pub ◌>>◌ : {B : Type 0} → Parser ⊤ → Parser B → Parser B
p >> q = p >>= λ _. q

abbrev pub u32_max : ℕ
u32_max = 4294967295

unfoldable pub take_exact : ℕ → Parser Text
take_exact n bs =
    if ltb (length bs) n
    then err (
        str "unexpected end of input (need "
        ++ show_u64 n
        ++ str " bytes, have "
        ++ show_u64 (length bs)
        ++ str ")")
    else ok (take n bs, drop n bs)

-- `u32::from_be_bytes` and `u64::from_be_bytes`, behind the bytes read so far.
unfoldable pub from_be : ℕ → Text → ℕ
from_be acc [] = acc
from_be acc (b ∷ bs) = from_be (acc * 256 + b) bs

unfoldable pub take_number : ℕ → Parser ℕ
take_number width = do bs ← take_exact width; stop (from_be 0 bs)

abbrev pub take_u8 : Parser ℕ
take_u8 = take_number 1

abbrev pub take_u32_be : Parser ℕ
take_u32_be = take_number 4

abbrev pub take_u64_be : Parser ℕ
take_u64_be = take_number 8

unfoldable pub take_bytes : Parser Text
take_bytes = do n ← take_u32_be; take_exact n

abbrev continues : ℕ → Bool
continues b = leb 0x80 b && leb b 0xbf

abbrev is_ascii : ℕ → Bool
is_ascii a = ltb a 0x80

abbrev is_char2 : ℕ → ℕ → Bool
is_char2 a b = leb 0xc2 a && leb a 0xdf && continues b

abbrev is_char3 : ℕ → ℕ → ℕ → Bool
is_char3 a b d =
    continues d
    && (a == 0xe0 && leb 0xa0 b && leb b 0xbf
        || (leb 0xe1 a && leb a 0xec || leb 0xee a && leb a 0xef) && continues b
        || a == 0xed && leb 0x80 b && leb b 0x9f)

abbrev is_char4 : ℕ → ℕ → ℕ → ℕ → Bool
is_char4 a b d e =
    continues d
    && continues e
    && (a == 0xf0 && leb 0x90 b && leb b 0xbf
        || leb 0xf1 a && leb a 0xf3 && continues b
        || a == 0xf4 && leb 0x80 b && leb b 0x8f)

-- Well formed UTF-8.
unfoldable pub is_utf8 : Text → Bool
is_utf8 [] = true
is_utf8 (a ∷ []) = is_ascii a
is_utf8 (a ∷ b ∷ []) = is_ascii a && is_ascii b || is_char2 a b
is_utf8 (a ∷ b ∷ d ∷ []) =
    is_ascii a && is_utf8 (b ∷ d ∷ []) || is_char2 a b && is_ascii d || is_char3 a b d
is_utf8 (a ∷ b ∷ d ∷ e ∷ s) =
    let one = is_utf8 (b ∷ d ∷ e ∷ s) in
    let two = is_utf8 (d ∷ e ∷ s) in
    let three = is_utf8 (e ∷ s) in
    let four = is_utf8 s in
    if is_ascii a
    then one
    else if is_char2 a b
    then two
    else if is_char3 a b d
    then three
    else if is_char4 a b d e
    then four
    else false

unfoldable pub utf8 : Text → Parser Text
utf8 t bs = if is_utf8 t then ok (t, bs) else err (str "invalid utf-8")

unfoldable pub take_string : Parser Text
take_string = do bs ← take_bytes; utf8 bs

-- `Cursor::finish`
unfoldable pub finish : Parser ⊤
finish bs =
    if is_nil bs
    then ok (tt, bs)
    else err (str "trailing bytes after decode: " ++ show_u64 (length bs) ++ str " bytes")

-- A parser on a whole buffer.
unfoldable pub run : {A : Type 0} → Parser A → Text → Result EncodeError A
run p bs = elim ((do a ← p; finish; stop a) bs) [ ok r ↦ ok r.0 | err e ↦ err e ]

-- `to_be_bytes` of a number of so many bytes.
unfoldable pub be_bytes : ℕ → ℕ → Text
be_bytes zero v = []
be_bytes (suc width) v = be_bytes width (v / 256) ++ (v % 256) ∷ []

-- `push_bytes`, which panics on a length that does not fit a u32.
unfoldable pub push_bytes : Text → Option Text
push_bytes b = if leb (length b) u32_max then some (be_bytes 4 (length b) ++ b) else none

abbrev pub push_string : Text → Option Text
push_string = push_bytes
