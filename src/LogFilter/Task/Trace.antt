-- ===== src/LogFilter/Task/Trace.antt =====
-- Predicates on the trace of a task, the newest event first.
use eip_toolkit.Prelude.{ℕ, ◌+◌, ◌≤◌, ◌≡◌, ◌⊎◌, List, [], ◌∷◌, Elem, Bytes}
use eip_toolkit.LogFilter.Log.{LogResult, dedup}
use eip_toolkit.LogFilter.Task.{Event, fetched, delivered, saved}

-- The ranges of the queries follow one another without a gap, from block `start` up to, and
-- without, block `next`.
abbrev pub Contiguous : ℕ → ℕ → List Event → Type 0
Contiguous start next [] = start ≡ next
Contiguous start next (fetched a b logs ∷ t) = (b + 1 ≡ next) × (a ≤ b) × Contiguous start a t
Contiguous start next (delivered logs ∷ t) = Contiguous start next t
Contiguous start next (saved n ∷ t) = Contiguous start next t

-- A log that a call of the handler got.
abbrev pub Delivered : LogResult → List Event → Type 0
Delivered l [] = ⊥
Delivered l (fetched a b logs ∷ t) = Delivered l t
Delivered l (delivered logs ∷ t) = Elem l logs ⊎ Delivered l t
Delivered l (saved n ∷ t) = Delivered l t

-- The block that was saved last, or `start`.
abbrev pub last_saved : ℕ → List Event → ℕ
last_saved start [] = start
last_saved start (fetched a b logs ∷ t) = last_saved start t
last_saved start (delivered logs ∷ t) = last_saved start t
last_saved start (saved n ∷ t) = n

module _ (sum256 : Bytes → Bytes) where
  -- A log, without its duplicates, of a batch that was fetched and starts at block `j`.
  abbrev pub FetchedAt : ℕ → LogResult → List Event → Type 0
  FetchedAt j l [] = ⊥
  FetchedAt j l (fetched a b logs ∷ t) = ((a ≡ j) × Elem l (dedup sum256 logs)) ⊎ FetchedAt j l t
  FetchedAt j l (delivered logs ∷ t) = FetchedAt j l t
  FetchedAt j l (saved n ∷ t) = FetchedAt j l t
