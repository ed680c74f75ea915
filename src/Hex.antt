-- ===== src/Hex.antt =====
-- `encoding/hex`: `EncodeToString` and `DecodeString`.
use eip_toolkit.Prelude.{
  ℕ, ◌+◌, ◌-◌, ◌*◌, ◌/◌, ◌%◌, ◌<◌, ◌≡◌, refl, subst, some_eq, ◌&&◌, Option, none, some, [], ◌∷◌,
  arith, ltb, leb, if◌then◌else◌, some_eq, length, All, Bytes,
}

-- The lower-case digit of a number below 16.
abbrev pub hex_digit : ℕ → ℕ
hex_digit n = if ltb n 10 then b'0' + n else b'a' + (n - 10)

unfoldable pub encode_to_string : Bytes → Bytes
encode_to_string [] = []
encode_to_string (b ∷ bs) = hex_digit (b / 16) ∷ hex_digit (b % 16) ∷ encode_to_string bs

-- The value of a digit of either case.
abbrev pub from_hex_char : ℕ → Option ℕ
from_hex_char c =
    if leb b'0' c && leb c b'9'
    then some (c - b'0')
    else if leb b'a' c && leb c b'f'
    then some (c - b'a' + 10)
    else if leb b'A' c && leb c b'F'
    then some (c - b'A' + 10)
    else none

abbrev pair_value : Option ℕ → Option ℕ → Option ℕ
pair_value none lo = none
pair_value (some hi) none = none
pair_value (some hi) (some lo) = some (hi * 16 + lo)

abbrev prepend : Option ℕ → Option Bytes → Option Bytes
prepend none rest = none
prepend (some b) none = none
prepend (some b) (some bs) = some (b ∷ bs)

-- The bytes that a text of hexadecimal digits spells; `none` is an invalid digit or an odd length.
unfoldable pub decode_string : Bytes → Option Bytes
decode_string [] = some []
decode_string (c ∷ []) = none
decode_string (c ∷ d ∷ s) =
    prepend (pair_value (from_hex_char c) (from_hex_char d)) (decode_string s)

abbrev pub IsByte : ℕ → Type 0
IsByte b = b < 256

digit_lem : (n : ℕ) → n < 16 → from_hex_char (hex_digit n) ≡ some n
digit_lem n h = ground arith

pub decode_string-encode_to_string :
    (bs : Bytes) → All IsByte bs → decode_string (encode_to_string bs) ≡ some bs
unfolding decode_string encode_to_string
decode_string-encode_to_string [] h = refl
decode_string-encode_to_string (b ∷ bs) (hb, hbs) =
    rw
      (
        digit_lem (b / 16) (omega arith),
        digit_lem (b % 16) (omega arith),
        decode_string-encode_to_string bs hbs,
      )
      (ground arith)

pub length-encode_to_string : (bs : Bytes) → length (encode_to_string bs) ≡ 2 * length bs
unfolding encode_to_string
length-encode_to_string [] = omega arith
length-encode_to_string (b ∷ bs) = omega (arith, length-encode_to_string bs)

from_hex_char_lem : (c n : ℕ) → from_hex_char c ≡ some n → n < 16
from_hex_char_lem c n h = ground arith

pair_lem :
    (hi lo : Option ℕ) (b : ℕ)
    → pair_value hi lo ≡ some b
    → ((h : ℕ) → hi ≡ some h → h < 16)
    → ((l : ℕ) → lo ≡ some l → l < 16)
    → b < 256
pair_lem none lo b e f g = cc
pair_lem (some hi) none b e f g = cc
pair_lem (some hi) (some lo) b e f g = let p = f hi refl in let q = g lo refl in ground arith

prepend_lem :
    (o : Option ℕ) (rest : Option Bytes) (bs : Bytes)
    → prepend o rest ≡ some bs
    → ((b : ℕ) → o ≡ some b → IsByte b)
    → ((r : Bytes) → rest ≡ some r → All IsByte r)
    → All IsByte bs
prepend_lem none rest bs e f g = cc
prepend_lem (some b) none bs e f g = cc
prepend_lem (some b) (some r) bs e f g = subst (λ z. All IsByte z) (some_eq e) (f b refl, g r refl)

-- What is decoded are bytes.
pub decode_string-IsByte : (s bs : Bytes) → decode_string s ≡ some bs → All IsByte bs
unfolding decode_string
decode_string-IsByte [] bs h = subst (λ z. All IsByte z) (some_eq h) tt
decode_string-IsByte (c ∷ []) bs h = cc
decode_string-IsByte (c ∷ d ∷ s) bs h =
    prepend_lem _ _ bs h (λ b e. pair_lem _ _ b e (from_hex_char_lem c) (from_hex_char_lem d))
      (decode_string-IsByte s)
