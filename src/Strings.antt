-- ===== src/Strings.antt =====
-- `strings.Trim`, `TrimSpace`, `TrimPrefix`, `Split` and `Contains` of Go on ASCII texts.
use eip_toolkit.Prelude.{
  ℕ, ◌≡◌, refl, ap, ◌∙◌, ◌≢◌, Bool, true, false, ◌&&◌, ◌||◌, List, [], ◌∷◌, ◌++◌, arith, leb, ◌==◌,
  if◌then◌else◌, length, drop, All, Bytes,
}

-- `s` without the first and last bytes that `p` holds of.
unfoldable pub trim_left : (ℕ → Bool) → Bytes → Bytes
trim_left p [] = []
trim_left p (c ∷ s) = let rest = trim_left p s in if p c then rest else c ∷ s

abbrev put_front : (ℕ → Bool) → ℕ → Bytes → Bytes
put_front p c [] = if p c then [] else c ∷ []
put_front p c (d ∷ s) = c ∷ d ∷ s

unfoldable pub trim_right : (ℕ → Bool) → Bytes → Bytes
trim_right p [] = []
trim_right p (c ∷ s) = put_front p c (trim_right p s)

abbrev pub trim : (ℕ → Bool) → Bytes → Bytes
trim p s = trim_right p (trim_left p s)

-- The white space of ASCII: \t, \n, \v, \f, \r and the space.
abbrev pub is_space : ℕ → Bool
is_space c = (leb 9 c && leb c 13) || (c == 32)

abbrev pub trim_space : Bytes → Bytes
trim_space s = trim is_space s

unfoldable pub has_prefix : Bytes → Bytes → Bool
has_prefix [] s = true
has_prefix (c ∷ p) [] = false
has_prefix (c ∷ p) (d ∷ s) = (c == d) && has_prefix p s

abbrev pub trim_prefix : Bytes → Bytes → Bytes
trim_prefix p s = if has_prefix p s then drop (length p) s else s

unfoldable pub contains : Bytes → Bytes → Bool
contains [] p = has_prefix p []
contains (c ∷ s) p = has_prefix p (c ∷ s) || contains s p

abbrev cons_first : ℕ → List Bytes → List Bytes
cons_first c [] = (c ∷ []) ∷ []
cons_first c (w ∷ ws) = (c ∷ w) ∷ ws

-- The parts of a text between the bytes `sep`: one more than there are such bytes.
unfoldable pub split : ℕ → Bytes → List Bytes
split sep [] = [] ∷ []
split sep (c ∷ s) = let rest = split sep s in if c == sep then [] ∷ rest else cons_first c rest

-- The texts with `sep` between them.
unfoldable pub join : ℕ → List Bytes → Bytes
join sep [] = []
join sep (s ∷ []) = s
join sep (s ∷ t ∷ texts) = s ++ sep ∷ join sep (t ∷ texts)

module _ (p : ℕ → Bool) where
  abbrev pub Only : Bytes → Type 0
  Only s = All (λ c. p c ≡ true) s

  abbrev pub Free : Bytes → Type 0
  Free s = All (λ c. p c ≡ false) s

  trim_left-pad : (l s : Bytes) → Only l → trim_left p (l ++ s) ≡ trim_left p s
  unfolding trim_left
  trim_left-pad [] s h = refl
  trim_left-pad (c ∷ l) s (h, hs) = rw h (trim_left-pad l s hs)

  trim_left-Free : (s r : Bytes) → s ≢ [] → Free s → trim_left p (s ++ r) ≡ s ++ r
  unfolding trim_left
  trim_left-Free [] r ne h = absurd (ne refl)
  trim_left-Free (c ∷ s) r ne (h, hs) = rw h refl

  trim_left-Only : (r : Bytes) → Only r → trim_left p r ≡ []
  unfolding trim_left
  trim_left-Only [] h = refl
  trim_left-Only (c ∷ r) (h, hs) = rw h (trim_left-Only r hs)

  trim_right-Only : (r : Bytes) → Only r → trim_right p r ≡ []
  unfolding trim_right
  trim_right-Only [] h = refl
  trim_right-Only (c ∷ r) (h, hs) = rw (trim_right-Only r hs, h) refl

  put_front-Free : (c : ℕ) (s : Bytes) → p c ≡ false → put_front p c s ≡ c ∷ s
  put_front-Free c [] h = rw h refl
  put_front-Free c (d ∷ s) h = refl

  trim_right-pad : (s r : Bytes) → Free s → Only r → trim_right p (s ++ r) ≡ s
  unfolding trim_right
  trim_right-pad [] r h k = trim_right-Only r k
  trim_right-pad (c ∷ s) r (h, hs) k = rw (trim_right-pad s r hs k) (put_front-Free c s h)

  trim-unpad : (s r : Bytes) → Free s → Only r → trim p (s ++ r) ≡ s
  unfolding trim_right
  trim-unpad [] r h k = ap (trim_right p) (trim_left-Only r k)
  trim-unpad (c ∷ s) r h k =
      ap (trim_right p) (trim_left-Free (c ∷ s) r (λ e. cc) h) ∙ trim_right-pad (c ∷ s) r h k

  -- Padding is trimmed away.
  pub trim-pad : (l s r : Bytes) → Only l → Free s → Only r → trim p (l ++ (s ++ r)) ≡ s
  trim-pad l s r hl hs hr = ap (trim_right p) (trim_left-pad l (s ++ r) hl) ∙ trim-unpad s r hs hr

module _ (sep : ℕ) where
  abbrev pub Lacks : Bytes → Type 0
  Lacks s = All (λ c. (c == sep) ≡ false) s

  split-Lacks : (s : Bytes) → Lacks s → split sep s ≡ s ∷ []
  unfolding split
  split-Lacks [] h = refl
  split-Lacks (c ∷ s) (h, hs) = rw (h, split-Lacks s hs) refl

  split-first : (s r : Bytes) → Lacks s → split sep (s ++ sep ∷ r) ≡ s ∷ split sep r
  unfolding split
  split-first [] r h = ground arith
  split-first (c ∷ s) r (h, hs) = rw (h, split-first s r hs) refl

  -- Texts that lack the separator come apart again.
  pub split-join :
      (s : Bytes) (texts : List Bytes)
      → All Lacks (s ∷ texts)
      → split sep (join sep (s ∷ texts)) ≡ s ∷ texts
  unfolding join
  split-join s [] (h, hs) = split-Lacks s h
  split-join s (t ∷ texts) (h, hs) =
      split-first s (join sep (t ∷ texts)) h ∙ ap (λ z. s ∷ z) (split-join t texts hs)

-- What a text contains, it contains behind any other text.
pub contains-append : (s t p : Bytes) → contains t p ≡ true → contains (s ++ t) p ≡ true
unfolding contains
contains-append [] t p h = h
contains-append (c ∷ s) t p h = rw (contains-append s t p h) (ground arith)
