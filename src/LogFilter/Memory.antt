-- ===== src/LogFilter/Memory.antt =====
-- `BlockPendingPool`, the pool in memory (go/logfilter/logfilter.go). Go visits the entries of a
-- map in an unspecified order, which is a parameter: the entries of the map in some order.
pub mod Erase
pub mod Popped
pub mod Laws
use mathlib.Core.List.{Permᴰ}
use eip_toolkit.Prelude.{
  ℕ, true, false, Option, none, List, [], ◌∷◌, ◌++◌, length, GoError, Result, ok,
}
use eip_toolkit.Dict.{Dict, insert, erase}
use eip_toolkit.LogFilter.Log.{LogResult}
use eip_toolkit.LogFilter.Pool.{PendingPool, is_confirmed}

pub record BlockPendingPool : Type 0 where
  pub entries : Dict (List LogResult)

abbrev pub new_block_pending_pool : BlockPendingPool
new_block_pending_pool = record { entries = [] }

pub record IterationOrder : Type 0 where
  pub visit : Dict (List LogResult) → List (ℕ × List LogResult)
  pub visit-perm : (d : Dict (List LogResult)) → Permᴰ (visit d) d

unfoldable pub add : ℕ → List LogResult → BlockPendingPool → Option GoError × BlockPendingPool
add block_height logs p = (none, record p { entries = insert block_height logs p.entries })

-- The loop of `PopConfirmed` over the entries still to visit: what is popped, and the map.
unfoldable pub pop_from :
    ℕ
    → ℕ
    → List (ℕ × List LogResult)
    → List LogResult
    → Dict (List LogResult)
    → List LogResult × Dict (List LogResult)
pop_from latest confirm [] out d = (out, d)
pop_from latest confirm ((h, logs) ∷ rest) out d = elim (is_confirmed latest confirm h) [
  | true ↦ pop_from latest confirm rest (out ++ logs) (erase h d)
  | false ↦ pop_from latest confirm rest out d
]

module _ (order : IterationOrder) where
  unfoldable pub pop_confirmed :
      ℕ → ℕ → BlockPendingPool → Result (List LogResult) × BlockPendingPool
  unfolding pop_from
  pop_confirmed latest confirm p =
      let (out, d) = pop_from latest confirm (order.visit p.entries) [] p.entries in
      (ok out, record p { entries = d })

unfoldable pub count : BlockPendingPool → Result ℕ
count p = ok (length p.entries)

abbrev pub block_pending_pool : IterationOrder → PendingPool BlockPendingPool
block_pending_pool order = record { add = add; pop_confirmed = pop_confirmed order; count = count }
