-- ===== src/LogFilter/Handlers/Quote.antt =====
-- A quoted text is read back (`%q` in `KafkaBatchHandler`, go/logfilter/logfilter.go).
use eip_toolkit.Prelude.{
  ℕ, ◌+◌, ◌*◌, ◌/◌, ◌%◌, ◌<◌, ◌≡◌, refl, sym, ap, ◌∙◌, ◌≢◌, ◌⊎◌, inl, inr, ◌||◌, none, some, [],
  ◌∷◌, ◌++◌, append_assoc, arith, ◌==◌, if◌then◌else◌, All, Bytes,
}
use eip_toolkit.Hex.{hex_digit, from_hex_char}
use eip_toolkit.LogFilter.Handlers.{escape_byte, escape}

abbrev pub IsAscii : ℕ → Type 0
IsAscii c = c < 128

abbrev digit : ℕ → ℕ
digit c = elim (from_hex_char c) [ none ↦ 0 | some n ↦ n ]

abbrev read_escape : ℕ → Bytes → ℕ × Bytes
read_escape e s =
    if (e == 34) || (e == 92)
    then (e, s)
    else if e == 97
    then (7, s)
    else if e == 98
    then (8, s)
    else if e == 116
    then (9, s)
    else if e == 110
    then (10, s)
    else if e == 118
    then (11, s)
    else if e == 102
    then (12, s)
    else if e == 114
    then (13, s)
    else read_hex s
  where
    read_hex : Bytes → ℕ × Bytes
    read_hex (a ∷ b ∷ s) = (digit a * 16 + digit b, s)
    read_hex s = (0, s)

-- The byte in front of a text, and what is behind it.
read_byte : Bytes → ℕ × Bytes
read_byte (c ∷ e ∷ s) = if c == 92 then read_escape e s else (c, e ∷ s)
read_byte (c ∷ []) = (c, [])
read_byte [] = (0, [])

digit_lem : (n : ℕ) → n < 16 → digit (hex_digit n) ≡ n
digit_lem n h = ground arith

read_byte-escape_byte :
    (c d : ℕ) (s : Bytes) → IsAscii c → read_byte (escape_byte c ++ d ∷ s) ≡ (c, d ∷ s)
unfolding read_byte
read_byte-escape_byte c d s h =
    let hi = digit_lem (c / 16) (omega arith) in
    let lo = digit_lem (c % 16) (omega arith) in ground arith

escaped_no_quote : (c : ℕ) (s t : Bytes) → escape_byte c ++ s ≢ 34 ∷ t
escaped_no_quote c s t e = ground arith

escape_byte_cons : (c : ℕ) (s : Bytes) → (d : ℕ) × (t : Bytes) × (escape_byte c ++ s ≡ d ∷ t)
escape_byte_cons c s = elim (list-cases (escape_byte c)) [
  | inl empty ↦ absurd (never_empty c empty)
  | inr (d, t, e) ↦ (d, t ++ s, ap (λ z. z ++ s) e)
]
  where
    list-cases : (xs : Bytes) → (xs ≡ []) ⊎ ((d : ℕ) × (t : Bytes) × (xs ≡ d ∷ t))
    list-cases [] = inl refl
    list-cases (d ∷ t) = inr (d, t, refl)

    never_empty : (c : ℕ) → escape_byte c ≢ []
    never_empty c e = ground arith

ends_in_quote : (s r : Bytes) → (d : ℕ) × (t : Bytes) × (escape s ++ 34 ∷ r ≡ d ∷ t)
unfolding escape
ends_in_quote [] r = (34, r, refl)
ends_in_quote (c ∷ s) r =
    let (d, t, e) = escape_byte_cons c (escape s ++ 34 ∷ r) in
    (d, t, append_assoc (escape_byte c) (escape s) (34 ∷ r) ∙ e)

-- A quoted text ends where it ends: behind it the same text follows.
pub escape_inj :
    (s t r u : Bytes)
    → All IsAscii s
    → All IsAscii t
    → escape s ++ 34 ∷ r ≡ escape t ++ 34 ∷ u
    → (s ≡ t) × (r ≡ u)
unfolding escape
escape_inj [] [] r u hs ht e = (refl, ground arith)
escape_inj [] (d ∷ t) r u hs ht e = absurd (
    escaped_no_quote d (escape t ++ 34 ∷ u) r
      (sym (append_assoc (escape_byte d) (escape t) (34 ∷ u)) ∙ sym e))
escape_inj (c ∷ s) [] r u hs ht e = absurd (
    escaped_no_quote c (escape s ++ 34 ∷ r) u
      (sym (append_assoc (escape_byte c) (escape s) (34 ∷ r)) ∙ e))
escape_inj (c ∷ s) (d ∷ t) r u (hc, hs) (hd, ht) e =
    let (a, x, ex) = ends_in_quote s r in
    let (b, y, ey) = ends_in_quote t u in
    let left =
      ap read_byte
        (append_assoc (escape_byte c) (escape s) (34 ∷ r) ∙ ap (λ z. escape_byte c ++ z) ex)
      ∙ read_byte-escape_byte c a x hc in
    let right =
      ap read_byte
        (append_assoc (escape_byte d) (escape t) (34 ∷ u) ∙ ap (λ z. escape_byte d ++ z) ey)
      ∙ read_byte-escape_byte d b y hd in
    let both = sym left ∙ ap read_byte e ∙ right in
    let rest = escape_inj s t r u hs ht (ex ∙ ap (λ q. q.1) both ∙ sym ey) in (ground arith, rest.1)
