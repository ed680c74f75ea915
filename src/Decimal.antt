-- ===== src/Decimal.antt =====
-- `strconv.FormatUint` and `strconv.ParseUint` at base 10 and 64 bits.
use native.Mathlib.Nat.{pow-suc}
use eip_toolkit.Prelude.{
  ℕ, zero, suc, ◌+◌, ◌-◌, ◌*◌, ◌/◌, ◌%◌, ◌^◌, ◌<◌, ◌≡◌, refl, ◌∙◌, ◌≢◌, inl, inr, Bool, ◌&&◌, List,
  [], ◌∷◌, ◌++◌, arith, u64_mod, ltb, leb, if◌then◌else◌, Bool-cases, Bytes, codes, GoError, text,
  Result, ok, err,
}

-- `n` in decimal; a number below 10 ^ suc fuel has suc fuel digits at most.
format_from : ℕ → ℕ → Bytes
format_from zero n = (b'0' + n % 10) ∷ []
format_from (suc fuel) n =
    let front = format_from fuel (n / 10) in
    if ltb n 10 then (b'0' + n) ∷ [] else front ++ (b'0' + n % 10) ∷ []

-- Twenty digits are enough for 64 bits.
unfoldable pub format_uint : ℕ → Bytes
unfolding format_from
format_uint n = format_from 19 n

-- A number of any size; `n` is below 10 ^ suc n.
unfoldable pub format_big : ℕ → Bytes
unfolding format_from
format_big n = format_from n n

abbrev pub syntax_error : GoError
syntax_error = text (codes "invalid syntax")

abbrev pub range_error : GoError
range_error = text (codes "value out of range")

abbrev pub is_digit : ℕ → Bool
is_digit c = leb b'0' c && leb c b'9'

parse_from : Bytes → ℕ → Result ℕ
parse_from [] n = ok n
parse_from (c ∷ s) n =
    let rest = parse_from s (n * 10 + (c - b'0')) in
    if is_digit c
    then if ltb (n * 10 + (c - b'0')) u64_mod then rest else err range_error
    else err syntax_error

unfoldable pub parse_uint : Bytes → Result ℕ
unfolding parse_from
parse_uint [] = err syntax_error
parse_uint (c ∷ s) = parse_from (c ∷ s) 0

parse_from-append :
    (s t : Bytes) (n m : ℕ) → parse_from s n ≡ ok m → parse_from (s ++ t) n ≡ parse_from t m
unfolding parse_from
parse_from-append [] t n m e = ground arith
parse_from-append (c ∷ s) t n m e = ground (arith, parse_from-append s t (n * 10 + (c - b'0')) m)

tenth_below : (fuel n : ℕ) → n < 10 ^ suc (suc fuel) → n / 10 < 10 ^ suc fuel
tenth_below fuel n h = let p = pow-suc 10 (suc fuel) in omega arith

parse_from-format_from :
    (fuel n : ℕ) → n < 10 ^ suc fuel → n < u64_mod → parse_from (format_from fuel n) 0 ≡ ok n
unfolding parse_from format_from
parse_from-format_from zero n h fits = ground arith
parse_from-format_from (suc fuel) n h fits = elim (Bool-cases (ltb n 10)) [
  | inl small ↦ rw small (ground arith)
  | inr large ↦
      let ih = parse_from-format_from fuel (n / 10) (tenth_below fuel n h) (omega arith) in
      rw large (parse_from-append (format_from fuel (n / 10)) _ 0 (n / 10) ih ∙ ground arith)
]

append-ne-nil {ℓ} : {A : Type ℓ} → (xs : List A) (y : A) → xs ++ y ∷ [] ≢ []
append-ne-nil [] y e = cc
append-ne-nil (x ∷ xs) y e = cc

format_from-ne-nil : (fuel n : ℕ) → format_from fuel n ≢ []
unfolding format_from
format_from-ne-nil zero n e = cc
format_from-ne-nil (suc fuel) n e =
    let front = append-ne-nil (format_from fuel (n / 10)) (b'0' + n % 10) in ground arith

pub format_uint-ne-nil : (n : ℕ) → format_uint n ≢ []
unfolding format_uint
format_uint-ne-nil n = format_from-ne-nil 19 n

parse_uint-parse_from : (s : Bytes) → s ≢ [] → parse_uint s ≡ parse_from s 0
unfolding parse_uint
parse_uint-parse_from [] h = absurd (h refl)
parse_uint-parse_from (c ∷ s) h = refl

-- Every 64-bit number is read back from its decimal print.
pub parse_uint-format_uint : (n : ℕ) → n < u64_mod → parse_uint (format_uint n) ≡ ok n
unfolding format_uint
parse_uint-format_uint n fits =
    parse_uint-parse_from (format_from 19 n) (format_from-ne-nil 19 n)
    ∙ parse_from-format_from 19 n (omega arith) fits
