-- ===== src/LogFilter/Pool.antt =====
-- The interface `PendingPool` (go/logfilter/logfilter.go): its operations, and the laws on which
-- the sync round relies.
use eip_toolkit.Prelude.{
  ℕ, ◌<◌, ◌≡◌, ◌≢◌, ◌↔◌, ◌⊎◌, Bool, true, false, Option, none, List, u64_mod, add64, leb, Elem,
  GoError, Result, ok,
}
use eip_toolkit.LogFilter.Log.{LogResult}

-- The state of a pool is passed along; the context is not used by the pools.
pub record PendingPool (S : Type 0) : Type 0 where
  pub add : ℕ → List LogResult → S → Option GoError × S
  pub pop_confirmed : ℕ → ℕ → S → Result (List LogResult) × S
  pub count : S → Result ℕ

-- `h+confirmNum <= latestBlock`, on `uint64`.
abbrev pub is_confirmed : ℕ → ℕ → ℕ → Bool
is_confirmed latest confirm h = leb (add64 h confirm) latest

-- The laws of a pool, at heights that are `uint64`. `Held s h l`: the pool `s` holds the log `l` under the height `h`.
pub record IsPendingPool {S : Type 0} (p : PendingPool S) : Type 1 where
  pub IsValid : S → Type 0
  pub Held : S → ℕ → LogResult → Type 0
  pub add-IsValid :
      (h : ℕ) (logs : List LogResult) (s : S) → h < u64_mod → IsValid s → IsValid (p.add h logs s).1
  -- A block that is stored replaces what its height held before, and no other height changes.
  pub Held-add :
      (h : ℕ) (logs : List LogResult) (s : S) (j : ℕ) (l : LogResult)
      → h < u64_mod
      → IsValid s
      → (p.add h logs s).0 ≡ none
      → Held (p.add h logs s).1 j l ↔ (((h ≡ j) × Elem l logs) ⊎ ((h ≢ j) × Held s j l))
  pub pop-IsValid :
      (latest confirm : ℕ) (s : S) → IsValid s → IsValid (p.pop_confirmed latest confirm s).1
  -- What stays is what is not confirmed.
  pub Held-pop :
      (latest confirm : ℕ) (s : S) (out : List LogResult) (j : ℕ) (l : LogResult)
      → IsValid s
      → (p.pop_confirmed latest confirm s).0 ≡ ok out
      → Held (p.pop_confirmed latest confirm s).1 j l
        ↔ (Held s j l × (is_confirmed latest confirm j ≡ false))
  -- What is handed out is what is confirmed.
  pub Elem-pop :
      (latest confirm : ℕ) (s : S) (out : List LogResult) (l : LogResult)
      → IsValid s
      → (p.pop_confirmed latest confirm s).0 ≡ ok out
      → Elem l out ↔ ((j : ℕ) × Held s j l × (is_confirmed latest confirm j ≡ true))
