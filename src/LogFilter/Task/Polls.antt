-- ===== src/LogFilter/Task/Polls.antt =====
-- Two calls of `RunOnce` one after the other, as `TaskLoop` makes them in live mode.
use eip_toolkit.Prelude.{
  ℕ, ◌+◌, ◌≤◌, ◌<◌, ◌≡◌, ap, ◌⊎◌, inl, inr, true, some, List, [], ◌∷◌, arith, ltb, ltb→lt,
  Bool-cases, Bytes, ok,
}
use eip_toolkit.LogFilter.Pool.{PendingPool, IsPendingPool}
use eip_toolkit.LogFilter.Task.{Event, fetched, delivered, saved, Machine, Env, run_once}
use eip_toolkit.LogFilter.Task.Loop.{IsSized}
use eip_toolkit.LogFilter.Task.Trace.{Contiguous}
use eip_toolkit.LogFilter.Task.Coverage.{run_once_covers}

-- A query whose range has block `n`.
abbrev pub Queried : ℕ → List Event → Type 0
Queried n [] = ⊥
Queried n (fetched a b logs ∷ t) = ((a ≤ n) × (n ≤ b)) ⊎ Queried n t
Queried n (delivered logs ∷ t) = Queried n t
Queried n (saved k ∷ t) = Queried n t

Contiguous-Queried :
    (start next n : ℕ) (t : List Event)
    → Contiguous start next t
    → start ≤ n
    → n < next
    → Queried n t
Contiguous-Queried start next n [] h le lt = omega arith
Contiguous-Queried start next n (fetched a b logs ∷ t) (e, ab, h) le lt =
    elim (Bool-cases (ltb n a)) [
      | inl before ↦ inr (Contiguous-Queried start a n t h le (ltb→lt n a before))
      | inr behind ↦ inl (ground arith, omega arith)
    ]
Contiguous-Queried start next n (delivered logs ∷ t) h le lt =
    Contiguous-Queried start next n t h le lt
Contiguous-Queried start next n (saved k ∷ t) h le lt = Contiguous-Queried start next n t h le lt

module _ {S : Type 0} (sum256 : Bytes → Bytes) (pools : PendingPool S)
    (laws : IsPendingPool pools) where
  open laws use {IsValid}

  -- Two polls that catch up, the second with the task that the first has left and with a head that
  -- is not before the first's: every block from the first checkpoint up to the second head is
  -- queried by one of them. But the block of the checkpoint that the first poll leaves is queried by
  -- both, so that its logs come twice.
  pub polls_overlap :
      (env : Env) (latest latest' fuel fuel' : ℕ) (m m' n n' : Machine S)
      → env.block_number m.round ≡ ok latest
      → env.block_number n.round ≡ ok latest'
      → latest ≤ latest'
      → IsValid m.pool
      → IsValid n.pool
      → IsSized latest m
      → IsSized latest' n
      → m.trace ≡ []
      → n.trace ≡ []
      → m.task.checkpoint ≤ latest
      → n.task ≡ m'.task
      → run_once sum256 pools fuel env m ≡ some (ok true, m')
      → run_once sum256 pools fuel' env n ≡ some (ok true, n')
      → ((k : ℕ) → m.task.checkpoint ≤ k → k ≤ latest' → Queried k m'.trace ⊎ Queried k n'.trace)
        × Queried m'.task.checkpoint m'.trace
        × Queried m'.task.checkpoint n'.trace
  polls_overlap env latest latest' fuel fuel' m m' n n' e e' later v v' z z' fresh fresh' le same h
        h' =
      let (ranges, saved_block, lower, upper) =
        run_once_covers sum256 pools laws env latest fuel m m' e v z fresh le h in
      let at : n.task.checkpoint ≡ m'.task.checkpoint = ap (λ t. t.checkpoint) same in
      let second =
        run_once_covers sum256 pools laws env latest' fuel' n n' e' v' z' fresh' (omega arith) h' in
      let ranges' = second.0 in
      (
        λ k from upto. elim (Bool-cases (ltb latest k)) [
          | inl behind ↦ inr (
              Contiguous-Queried n.task.checkpoint (latest' + 1) k n'.trace ranges' (ground arith)
                (omega arith))
          | inr before ↦ inl (
              Contiguous-Queried m.task.checkpoint (latest + 1) k m'.trace ranges from
                (ground arith))
        ],
        Contiguous-Queried m.task.checkpoint (latest + 1) m'.task.checkpoint m'.trace ranges lower
            (omega arith),
        Contiguous-Queried n.task.checkpoint (latest' + 1) m'.task.checkpoint n'.trace ranges'
            (omega arith) (omega arith),
      )
