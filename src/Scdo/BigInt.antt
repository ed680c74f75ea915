-- ===== src/Scdo/BigInt.antt =====
-- `big.Int` as text: `SetString` at base 16 and at base 0, and `%x` (math/big), and with them the
-- `HexBig` of the SCDO client (go/scdo/hex.go).
pub mod Digits
mod Tests
use eip_toolkit.Prelude.{
  ℕ, zero, suc, ◌+◌, ◌*◌, ◌/◌, ◌%◌, Bool, true, false, ◌&&◌, ◌||◌, Option, none, some, [], ◌∷◌,
  ◌++◌, ltb, ◌==◌, if◌then◌else◌, Bytes, codes, bytes_eq, text, Result, ok, err,
}
use eip_toolkit.Prelude.Int.{ℤ, pos, negsuc}
use eip_toolkit.Hex.{hex_digit, from_hex_char}
use eip_toolkit.Strings.{trim, trim_prefix}

-- The last byte that was read: nothing yet, a base prefix, a digit, or a separator.
pub data Prev : Type 0 where
  at_start after_prefix after_digit after_sep : Prev

-- A separator stands between digits, or behind a prefix.
abbrev sep_allowed : Prev → Bool
sep_allowed at_start = false
sep_allowed after_prefix = true
sep_allowed after_digit = true
sep_allowed after_sep = false

abbrev digits_end : Prev → ℕ → Option ℕ
digits_end at_start n = none
digits_end after_prefix n = none
digits_end after_digit n = some n
digits_end after_sep n = none

-- The value of a digit of the base; letters beyond f are digits of no base up to 16.
abbrev pub digit_of : ℕ → ℕ → Option ℕ
digit_of base c = elim (from_hex_char c) [
  | none ↦ none
  | some d ↦ if ltb d base then some d else none
]

-- The digits of a text that ends with them, behind the number `n`; with `seps` an underscore
-- separates digits.
unfoldable pub read_digits : ℕ → Bool → Prev → ℕ → Bytes → Option ℕ
read_digits base seps prev n [] = digits_end prev n
read_digits base seps prev n (c ∷ s) =
    if seps && (c == b'_')
    then if sep_allowed prev then read_digits base seps after_sep n s else none
    else elim (digit_of base c) [
      | none ↦ none
      | some d ↦ read_digits base seps after_digit (n * base + d) s
    ]

-- A magnitude at base 0: decimal, or by its prefix 0x, 0b, 0o or 0.
unfoldable pub read_magnitude : Bytes → Option ℕ
read_magnitude [] = none
read_magnitude (c ∷ []) = read_digits 10 true at_start 0 (c ∷ [])
read_magnitude (c ∷ p ∷ s) =
    if c == b'0'
    then if (p == b'x') || (p == b'X')
      then read_digits 16 true after_prefix 0 s
      else if (p == b'b') || (p == b'B')
      then read_digits 2 true after_prefix 0 s
      else if (p == b'o') || (p == b'O')
      then read_digits 8 true after_prefix 0 s
      else read_digits 8 true after_digit 0 (p ∷ s)
    else read_digits 10 true at_start 0 (c ∷ p ∷ s)

abbrev pub negated : Option ℕ → Option ℤ
negated none = none
negated (some zero) = some (pos 0)
negated (some (suc n)) = some (negsuc n)

abbrev pub unsigned : Option ℕ → Option ℤ
unsigned none = none
unsigned (some n) = some (pos n)

-- A sign, and behind it a magnitude.
abbrev pub signed : (Bytes → Option ℕ) → Bytes → Option ℤ
signed read [] = unsigned (read [])
signed read (c ∷ s) =
    if c == b'-'
    then negated (read s)
    else if c == b'+'
    then unsigned (read s)
    else unsigned (read (c ∷ s))

-- `SetString(s, 16)`, and `SetString(s, 0)`.
unfoldable pub set_string_16 : Bytes → Option ℤ
set_string_16 s = signed (read_digits 16 false at_start 0) s

unfoldable pub set_string_0 : Bytes → Option ℤ
set_string_0 s = signed read_magnitude s

-- The hexadecimal digits of a number below 16 ^ suc fuel.
unfoldable pub hex_from : ℕ → ℕ → Bytes
hex_from zero n = hex_digit (n % 16) ∷ []
hex_from (suc fuel) n = elim (n / 16) [
  | zero ↦ hex_digit (n % 16) ∷ []
  | suc q ↦ hex_from fuel (suc q) ++ hex_digit (n % 16) ∷ []
]

-- `fmt.Sprintf("0x%x", n)`: a sign stands behind the prefix.
unfoldable pub format_hex : ℤ → Bytes
format_hex (pos n) = codes "0x" ++ hex_from n n
format_hex (negsuc n) = codes "0x-" ++ hex_from (suc n) (suc n)

abbrev pub is_quote : ℕ → Bool
is_quote c = c == 34

-- The text of `HexBig` without its quotes and prefixes.
abbrev pub hex_text : Bytes → Bytes
hex_text input = trim_prefix (codes "0X") (trim_prefix (codes "0x") (trim is_quote input))

abbrev pub invalid_hex : Bytes → Option ℤ → Result ℤ
invalid_hex input none = err (text (codes "invalid hex big int: " ++ input))
invalid_hex input (some n) = ok n

abbrev pub read_hex : Bytes → Bytes → Result ℤ
read_hex input s =
    if bytes_eq s [] || bytes_eq s (codes "null")
    then ok (pos 0)
    else invalid_hex input (set_string_16 s)

-- `HexBig.UnmarshalJSON`.
unfoldable pub unmarshal_hex_big : Bytes → Result ℤ
unmarshal_hex_big input = read_hex input (hex_text input)

-- `HexBig.MarshalJSON`: the text in quotes; no byte of it needs an escape.
unfoldable pub marshal_hex_big : ℤ → Bytes
marshal_hex_big n = 34 ∷ format_hex n ++ 34 ∷ []
