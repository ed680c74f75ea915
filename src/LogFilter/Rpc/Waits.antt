-- ===== src/LogFilter/Rpc/Waits.antt =====
-- The waits between the attempts of `RealRPC` (go/logfilter/logfilter.go).
use eip_toolkit.LogFilter.Rpc.{wait_of, RealRpc, attempts, Attempts, with_retries, pos}
use eip_toolkit.Prelude.{
  ℕ, zero, suc, max, ◌+◌, ◌*◌, ◌^◌, ◌≤◌, ◌<◌, ◌≡◌, ap, Option, List, [], ◌∷◌, arith, u64_mod, Bytes,
  GoError, Result,
}
use native.Mathlib.Nat.{pow-suc}

double : (base k : ℕ) → base * 2 ^ suc k ≡ base * 2 ^ k + base * 2 ^ k
double base k = let p = pow-suc 2 k in grind (arith, p)

end_lem : (k m : ℕ) → m ≡ k + 0 → k ≡ m
end_lem k m e = omega arith

below_later : (base k n m : ℕ) → m ≡ k + n → base * 2 ^ k ≤ base * 2 ^ m
below_later base k zero m e = let q = ap (λ i. base * 2 ^ i) (end_lem k m e) in omega arith
below_later base k (suc n) m e =
    let ih = below_later base (suc k) n m (omega arith) in let d = double base k in omega arith

abbrev pub sum : List ℕ → ℕ
sum [] = 0
sum (x ∷ xs) = x + sum xs

one_wait :
    (base k m : ℕ)
    → base * 2 ^ suc k ≤ base * 2 ^ m
    → base * 2 ^ m < u64_mod
    → wait_of base k + base * 2 ^ k ≤ base * 2 ^ m
one_wait base k m h fits = let d = double base k in omega arith

module _ {A : Type 0} where
  Bounded : ℕ → ℕ → ℕ → Attempts A → Type 0
  Bounded base k m r = sum r.waits + base * 2 ^ k ≤ base * 2 ^ m

  attempts-Bounded :
      (prefix : Bytes) (base : ℕ) (answer : ℕ → Result A) (done : ℕ → Option GoError) (n k m : ℕ)
      → m ≡ k + n
      → base * 2 ^ m < u64_mod
      → Bounded base k m (attempts prefix base answer done n k)
  unfolding attempts Bounded
  attempts-Bounded prefix base answer done zero k m e fits =
      let b = below_later base k zero m e in ground arith
  attempts-Bounded prefix base answer done (suc n) k m e fits =
      let b = below_later base k (suc n) m e in
      let w = one_wait base k m (below_later base (suc k) n m (omega arith)) fits in
      let d = double base k in
      let ih = attempts-Bounded prefix base answer done n (suc k) m (omega arith) fits in
      ground arith

  -- Where no product overflows, the waits of a call with retries add up to at most
  -- (2 ^ max - 1) times the base wait, whatever the client and the context answer.
  pub with_retries_waits :
      (prefix : Bytes) (r : RealRpc) (answer : ℕ → Result A) (done : ℕ → Option GoError) (max : ℕ)
      → r.retry_base_wait * 2 ^ max < u64_mod
      → sum (with_retries prefix r answer done (pos max)).waits + r.retry_base_wait
        ≤ r.retry_base_wait * 2 ^ max
  unfolding Bounded
  with_retries_waits prefix r answer done max fits =
      let b = attempts-Bounded prefix r.retry_base_wait answer done max 0 max (omega arith) fits in
      omega arith
