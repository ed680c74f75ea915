-- ===== src/LogFilter/Config/Read.antt =====
-- What `main` reads from its environment (go/logfilter/main.go).
use eip_toolkit.Prelude.{
  ℕ, ◌<◌, ◌≡◌, refl, ap, ◌∙◌, ◌≢◌, inl, inr, false, List, [], ◌∷◌, ◌++◌, map, arith, u64_mod, ◌==◌,
  List-cases, All-append, All, Bytes, codes, GoError, ok, err,
}
use eip_toolkit.Strings.{is_space, trim_space, split, join, Only, Free, Lacks, trim-pad, split-join}
use eip_toolkit.Decimal.{parse_uint, format_uint, parse_uint-format_uint, format_uint-ne-nil}
use eip_toolkit.LogFilter.Config.{Getenv, env, env_uint64, uint_or, contracts_of}

-- An address with what stands around it in the list.
pub record Padded : Type 0 where
  pub left : Bytes
  pub address : Bytes
  pub right : Bytes

abbrev pub written : Padded → Bytes
written p = p.left ++ (p.address ++ p.right)

abbrev pub IsClear : ℕ → Type 0
IsClear c = (is_space c ≡ false) × ((c == b',') ≡ false)

-- White space around an address that has neither white space nor commas.
abbrev pub IsPadded : Padded → Type 0
IsPadded p = Only is_space p.left × All IsClear p.address × Only is_space p.right

spaces-Lacks : (s : Bytes) → Only is_space s → Lacks b',' s
spaces-Lacks [] h = tt
spaces-Lacks (c ∷ s) (h, hs) = (ground arith, spaces-Lacks s hs)

clear-Lacks : (s : Bytes) → All IsClear s → Lacks b',' s
clear-Lacks [] h = tt
clear-Lacks (c ∷ s) ((h, k), hs) = (k, clear-Lacks s hs)

clear-Free : (s : Bytes) → All IsClear s → Free is_space s
clear-Free [] h = tt
clear-Free (c ∷ s) ((h, k), hs) = (h, clear-Free s hs)

written-Lacks : (p : Padded) → IsPadded p → Lacks b',' (written p)
written-Lacks p (l, a, r) =
    All-append (λ c. (c == b',') ≡ false) p.left (p.address ++ p.right) (spaces-Lacks p.left l)
      (All-append (λ c. (c == b',') ≡ false) p.address p.right (clear-Lacks p.address a)
        (spaces-Lacks p.right r))

map-Lacks : (ps : List Padded) → All IsPadded ps → All (Lacks b',') (map written ps)
map-Lacks [] h = tt
map-Lacks (p ∷ ps) (h, hs) = (written-Lacks p h, map-Lacks ps hs)

trimmed :
    (ps : List Padded) → All IsPadded ps → map trim_space (map written ps) ≡ map (λ p. p.address) ps
trimmed [] h = refl
trimmed (p ∷ ps) ((l, a, r), hs) =
    rw (trim-pad is_space p.left p.address p.right l (clear-Free p.address a) r, trimmed ps hs) refl

env_lem : (getenv : Getenv) (key : Bytes) → env getenv key [] ≡ getenv key
unfolding env
env_lem getenv key = elim (List-cases (getenv key)) [
  | inl e ↦ ground arith
  | inr (c, v, e) ↦ ground arith
]

-- A list of addresses with commas between them and any white space around them is read as these
-- addresses, in their order; where the addresses have neither white space nor commas.
pub contracts_of-join :
    (getenv : Getenv) (p : Padded) (ps : List Padded)
    → All IsPadded (p ∷ ps)
    → getenv (codes "CONTRACT_ADDRESS") ≡ join b',' (map written (p ∷ ps))
    → contracts_of getenv ≡ map (λ q. q.address) (p ∷ ps)
unfolding contracts_of
contracts_of-join getenv p ps h e =
    ap (λ s. map trim_space (split b',' s)) (env_lem getenv (codes "CONTRACT_ADDRESS") ∙ e)
    ∙ ap (map trim_space) (split-join b',' (written p) (map written ps) (map-Lacks (p ∷ ps) h))
    ∙ trimmed (p ∷ ps) h

-- A variable that has the decimal text of a 64-bit number is read as it, 0 included; one that
-- `ParseUint` refuses counts as not set, without a message.
pub env_uint64_reads :
    (getenv : Getenv) (key : Bytes) (def : ℕ)
    → ((n : ℕ) → n < u64_mod → getenv key ≡ format_uint n → env_uint64 getenv key def ≡ n)
      × ((e : GoError) → parse_uint (getenv key) ≡ err e → env_uint64 getenv key def ≡ def)
unfolding env_uint64
env_uint64_reads getenv key def = (read, refused)
  where
    go : (v : Bytes) (n : ℕ) → v ≢ [] → parse_uint v ≡ ok n → uint_or v def ≡ n
    go [] n ne e = absurd (ne refl)
    go (c ∷ v) n ne e = rw e refl

    gone : (v : Bytes) (e : GoError) → parse_uint v ≡ err e → uint_or v def ≡ def
    gone [] e h = refl
    gone (c ∷ v) e h = rw h refl

    read : (n : ℕ) → n < u64_mod → getenv key ≡ format_uint n → uint_or (getenv key) def ≡ n
    read n fits h =
        rw h (go (format_uint n) n (format_uint-ne-nil n) (parse_uint-format_uint n fits))

    refused : (e : GoError) → parse_uint (getenv key) ≡ err e → uint_or (getenv key) def ≡ def
    refused e h = gone (getenv key) e h
