-- ===== src/Scdo/BigInt/Digits.antt =====
-- Numbers that are printed in hexadecimal are read back (go/scdo/hex.go, go/scdo/client.go).
use eip_toolkit.Strings.{Free, has_prefix, trim-pad}
use native.Mathlib.Nat.{pow-suc}
use eip_toolkit.Prelude.{
  ℕ, zero, suc, ◌+◌, ◌*◌, ◌/◌, ◌%◌, ◌^◌, ◌<◌, ◌≡◌, refl, sym, ap, ◌∙◌, subst, ◌≢◌, ◌⊎◌, inl, inr,
  Bool, true, false, ◌||◌, Option, some, [], ◌∷◌, ◌++◌, append_assoc, append-nil, arith, ◌==◌,
  All-append, Bytes, codes, ok,
}
use eip_toolkit.Hex.{hex_digit}
use eip_toolkit.Scdo.BigInt.{
  Prev, after_digit, read_digits, hex_from, is_quote, set_string_16, signed, hex_text, negsuc, pos,
  unsigned, negated, at_start, set_string_0, marshal_hex_big, unmarshal_hex_big, trim_prefix,
  format_hex, ℤ, read_magnitude, after_prefix, read_hex,
}

read_digit :
    (seps : Bool) (prev : Prev) (n d : ℕ) (s : Bytes)
    → d < 16
    → read_digits 16 seps prev n (hex_digit d ∷ s) ≡ read_digits 16 seps after_digit (n * 16 + d) s
unfolding read_digits
read_digit true prev n d s h = ground arith
read_digit false prev n d s h = ground arith

hex_from_small : (fuel n : ℕ) → n < 16 → hex_from (suc fuel) n ≡ hex_digit (n % 16) ∷ []
unfolding hex_from
hex_from_small fuel n h = let q : n / 16 ≡ 0 = omega arith in rw (q, hex_from) refl

hex_from_large :
    (fuel n q : ℕ)
    → n / 16 ≡ suc q
    → hex_from (suc fuel) n ≡ hex_from fuel (suc q) ++ hex_digit (n % 16) ∷ []
unfolding hex_from
hex_from_large fuel n q h = rw (h, hex_from) refl

ℕ-cases : (n : ℕ) → (n ≡ 0) ⊎ ((m : ℕ) × (n ≡ suc m))
ℕ-cases zero = inl refl
ℕ-cases (suc m) = inr (m, refl)

-- The digits of a number are read as it, whatever follows.
read_digits-hex_from :
    (seps : Bool) (prev : Prev) (fuel n : ℕ) (s : Bytes)
    → n < 16 ^ suc fuel
    → read_digits 16 seps prev 0 (hex_from fuel n ++ s) ≡ read_digits 16 seps after_digit n s
unfolding hex_from
read_digits-hex_from seps prev zero n s h =
    read_digit seps prev 0 (n % 16) s (omega arith)
    ∙ ap (λ z. read_digits 16 seps after_digit z s) (omega arith)
read_digits-hex_from seps prev (suc fuel) n s h =
    let d : n % 16 < 16 = omega arith in
    elim (ℕ-cases (n / 16)) [
      | inl e ↦
          let small : n < 16 = omega arith in
          ap (λ z. read_digits 16 seps prev 0 (z ++ s)) (hex_from_small fuel n small)
          ∙ read_digit seps prev 0 (n % 16) s d
          ∙ ap (λ z. read_digits 16 seps after_digit z s) (omega arith)
      | inr (q, e) ↦
          let p = pow-suc 16 (suc fuel) in
          let rest = hex_digit (n % 16) ∷ s in
          ap (λ z. read_digits 16 seps prev 0 (z ++ s)) (hex_from_large fuel n q e)
          ∙ ap (read_digits 16 seps prev 0)
              (append_assoc (hex_from fuel (suc q)) (hex_digit (n % 16) ∷ []) s)
          ∙ read_digits-hex_from seps prev fuel (suc q) rest (omega arith)
          ∙ read_digit seps after_digit (suc q) (n % 16) s d
          ∙ ap (λ z. read_digits 16 seps after_digit z s) (omega arith)
    ]

below_pow : (n : ℕ) → n < 16 ^ suc n
below_pow zero = omega arith
below_pow (suc n) = let p = pow-suc 16 (suc n) in let ih = below_pow n in omega arith

read_all_digits :
    (seps : Bool) (prev : Prev) (n : ℕ) → read_digits 16 seps prev 0 (hex_from n n) ≡ some n
unfolding read_digits
read_all_digits seps prev n =
    ap (read_digits 16 seps prev 0) (sym (append-nil (hex_from n n)))
    ∙ read_digits-hex_from seps prev n n [] (below_pow n)

-- The bytes that `HexBig` looks for: quotes, the X of a prefix, and the n of null.
abbrev is_other : ℕ → Bool
is_other c = is_quote c || (c == b'X') || (c == b'n')

hex_digit-Free : (d : ℕ) → d < 16 → is_other (hex_digit d) ≡ false
hex_digit-Free d h = ground arith

hex_from-Free : (fuel n : ℕ) → Free is_other (hex_from fuel n)
unfolding hex_from
hex_from-Free zero n = (hex_digit-Free (n % 16) (omega arith), tt)
hex_from-Free (suc fuel) n = elim (ℕ-cases (n / 16)) [
  | inl e ↦
      let one = hex_from_small fuel n (omega arith) in
      subst (Free is_other) (sym one) (hex_digit-Free (n % 16) (omega arith), tt)
  | inr (q, e) ↦
      let more = hex_from_large fuel n q e in
      subst (Free is_other) (sym more) (
        All-append (λ c. is_other c ≡ false) (hex_from fuel (suc q)) _ (hex_from-Free fuel (suc q))
          (hex_digit-Free (n % 16) (omega arith), tt))
]

-- The first digit is no sign.
hex_from_first :
    (fuel n : ℕ)
    → (c : ℕ) × (s : Bytes) × (hex_from fuel n ≡ c ∷ s)
      × ((c == b'-') ≡ false)
      × ((c == b'+') ≡ false)
unfolding hex_from
hex_from_first zero n = (hex_digit (n % 16), [], refl, ground arith, ground arith)
hex_from_first (suc fuel) n = elim (ℕ-cases (n / 16)) [
  | inl e ↦
      (hex_digit (n % 16), [], hex_from_small fuel n (omega arith), ground arith, ground arith)
  | inr (q, e) ↦
      let (c, s, f, m, p) = hex_from_first fuel (suc q) in
      (
        c,
        s ++ hex_digit (n % 16) ∷ [],
        hex_from_large fuel n q e ∙ ap (λ z. z ++ hex_digit (n % 16) ∷ []) f,
        m,
        p,
      )
]

-- Without a sign in front, the magnitude is the number.
signed_digits :
    (read : Bytes → Option ℕ) (fuel n : ℕ)
    → signed read (hex_from fuel n) ≡ unsigned (read (hex_from fuel n))
signed_digits read fuel n =
    let (c, s, f, m, p) = hex_from_first fuel n in
    subst (λ z. signed read z ≡ unsigned (read z)) (sym f) (ground arith)

set_string_16-hex_from : (n : ℕ) → set_string_16 (hex_from n n) ≡ some (pos n)
unfolding set_string_16
set_string_16-hex_from n =
    signed_digits (read_digits 16 false at_start 0) n n
    ∙ ap unsigned (read_all_digits false at_start n)

set_string_16_minus : (n : ℕ) → set_string_16 (b'-' ∷ hex_from (suc n) (suc n)) ≡ some (negsuc n)
unfolding set_string_16
set_string_16_minus n = ap negated (read_all_digits false at_start (suc n))

other-Free : (s : Bytes) → Free is_other s → Free is_quote s
other-Free [] h = tt
other-Free (c ∷ s) (h, hs) = (ground arith, other-Free s hs)

other-has_prefix : (s : Bytes) → Free is_other s → has_prefix (codes "0X") s ≡ false
unfolding has_prefix
other-has_prefix [] h = refl
other-has_prefix (c ∷ []) h = ground arith
other-has_prefix (c ∷ d ∷ s) (h, (k, hs)) = ground arith

-- What is left of a text between quotes and behind 0x.
hex_text_lem : (s : Bytes) → Free is_other s → hex_text (34 ∷ (b'0' ∷ b'x' ∷ s) ++ 34 ∷ []) ≡ s
unfolding has_prefix
hex_text_lem s h =
    ap (λ z. trim_prefix (codes "0X") (trim_prefix (codes "0x") z))
      (trim-pad is_quote (34 ∷ []) (b'0' ∷ b'x' ∷ s) (34 ∷ []) (refl, tt)
        (refl, (refl, other-Free s h)) (refl, tt))
    ∙ rw (other-has_prefix s h) refl

-- A text that is neither empty nor null is read as a number at base 16.
unmarshal_lem :
    (s : Bytes) (n : ℤ)
    → s ≢ []
    → Free is_other s
    → set_string_16 s ≡ some n
    → unmarshal_hex_big (34 ∷ (b'0' ∷ b'x' ∷ s) ++ 34 ∷ []) ≡ ok n
unfolding unmarshal_hex_big
unmarshal_lem [] n ne h e = absurd (ne refl)
unmarshal_lem (c ∷ s) n ne h e =
    let input = 34 ∷ (b'0' ∷ b'x' ∷ c ∷ s) ++ 34 ∷ [] in
    ap (read_hex input) (hex_text_lem (c ∷ s) h) ∙ number input h
  where
    number : (input : Bytes) → Free is_other (c ∷ s) → read_hex input (c ∷ s) ≡ ok n
    number input (k, ks) = let letter : (c == b'n') ≡ false = ground arith in rw (letter, e) refl

hex_from-ne-nil : (fuel n : ℕ) → hex_from fuel n ≢ []
hex_from-ne-nil fuel n e = let (c, s, f, m, p) = hex_from_first fuel n in cc

-- Every integer is read back from the text that `MarshalJSON` makes of it.
pub unmarshal_hex_big-marshal_hex_big : (n : ℤ) → unmarshal_hex_big (marshal_hex_big n) ≡ ok n
unfolding marshal_hex_big format_hex
unmarshal_hex_big-marshal_hex_big (pos n) =
    unmarshal_lem (hex_from n n) (pos n) (hex_from-ne-nil n n) (hex_from-Free n n)
      (set_string_16-hex_from n)
unmarshal_hex_big-marshal_hex_big (negsuc n) =
    unmarshal_lem (b'-' ∷ hex_from (suc n) (suc n)) (negsuc n) (λ e. cc)
      (refl, hex_from-Free (suc n) (suc n)) (set_string_16_minus n)

-- A number that is not negative is read back by `SetString` at base 0 from its text behind 0x.
pub set_string_0-format_hex : (n : ℕ) → set_string_0 (format_hex (pos n)) ≡ some (pos n)
unfolding set_string_0 format_hex read_magnitude
set_string_0-format_hex n = ap unsigned (read_all_digits true after_prefix n)
