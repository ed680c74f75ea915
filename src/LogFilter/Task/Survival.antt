-- ===== src/LogFilter/Task/Survival.antt =====
-- What becomes of the logs that the pool holds when `RunOnce` is called, and of a log over two calls.
use eip_toolkit.Prelude.{
  ℕ, ◌≤◌, ◌<◌, ◌≡◌, refl, sym, ◌∙◌, subst, ◌⊎◌, inl, inr, Bool, true, false, some, List, [], ◌∷◌,
  arith, ◌==◌, ==_iff, Bool-cases, Bytes, Result, ok, err,
}
use eip_toolkit.LogFilter.Log.{LogResult}
use eip_toolkit.LogFilter.Pool.{PendingPool, IsPendingPool, is_confirmed}
use eip_toolkit.LogFilter.Task.{
  Machine, Env, Event, fetched, delivered, saved, run_once, run_round, count_ok,
}
use eip_toolkit.LogFilter.Task.Process.{HeldWith}
use eip_toolkit.LogFilter.Task.Round.{Shrunk, Advanced, round_ok}
use eip_toolkit.LogFilter.Task.Loop.{
  below_64, IsSized, IsReady, rounds_inv, round_keeps, next_bounds,
}
use eip_toolkit.LogFilter.Task.Trace.{Delivered, FetchedAt}
use eip_toolkit.LogFilter.Task.Coverage.{run_once_loop}
use eip_toolkit.LogFilter.Task.Delivery.{Delivered-trace, run_once-Conserves}

-- A batch that starts at block `j` was fetched; its logs take the place of those under `j`.
abbrev pub Refetched : ℕ → List Event → Type 0
Refetched j [] = ⊥
Refetched j (fetched a b logs ∷ t) = (a ≡ j) ⊎ Refetched j t
Refetched j (delivered logs ∷ t) = Refetched j t
Refetched j (saved n ∷ t) = Refetched j t

module _ {S : Type 0} (sum256 : Bytes → Bytes) (pools : PendingPool S)
    (laws : IsPendingPool pools) where
  open laws use {IsValid, Held}

  Refetched-trace :
      {env : Env} {latest from next : ℕ} {m m' : Machine S}
      (a : Advanced sum256 pools laws env latest from next m m') (j : ℕ)
      → (from ≡ j) ⊎ Refetched j m.trace
      → Refetched j m'.trace
  Refetched-trace a j h = elim a.delivers [
    | inl (nothing, trace, same) ↦ rw trace h
    | inr (trace, moved) ↦ rw trace h
  ]

  module _ (env : Env) (latest confirm : ℕ) (pool₀ : S) (first : ℕ) where
    -- Where a log under `j` is that the pool held at first. Behind the first round what is still held
    -- is not confirmed.
    abbrev Kept : ℕ → Machine S → ℕ → LogResult → Type 0
    Kept from m j l =
        Delivered l m.trace
        ⊎ (Refetched j m.trace
            ⊎ (Held m.pool j l × ((from ≡ first) ⊎ (is_confirmed latest confirm j ≡ false))))

    record Survives (from : ℕ) (m : Machine S) : Type 0 where
      ready : IsReady sum256 pools laws latest m
      depth : m.task.confirm_block_num ≡ confirm
      behind : first ≤ from
      kept : (j : ℕ) (l : LogResult) → Held pool₀ j l → Kept from m j l

    module _ {from next : ℕ} {m m' : Machine S} (le : from ≤ latest) (c : Survives from m)
        (a : Advanced sum256 pools laws env latest from next m m') where
      -- A log that is still held is replaced, goes out, or stays.
      still_held : (j : ℕ) (l : LogResult) → Held m.pool j l → Kept next m' j l
      still_held j l h = elim (Bool-cases (from == j)) [
        | inl same ↦ inr (inl (Refetched-trace a j (inl ((==_iff from j).0 same))))
        | inr other ↦
            let with : HeldWith sum256 pools laws m.pool from a.logs j l =
              inr ((λ e. ground arith), h) in
            elim (Bool-cases (is_confirmed latest confirm j)) [
              | inl yes' ↦ inl (
                  (Delivered-trace sum256 pools laws a l).1
                    (inl ((a.goes l).1 (j, with, rw c.depth yes'))))
              | inr no' ↦ inr (inr ((a.stays j l).1 (with, rw c.depth no'), inr no'))
            ]
      ]

      Survives-Advanced : IsReady sum256 pools laws latest m' → Survives next m'
      Survives-Advanced ready' =
          let less = (next_bounds sum256 pools laws le c.ready.1 a).0 in
          let behind' = c.behind in
          record {
            ready = ready';
            depth = a.same_confirm ∙ c.depth;
            behind = omega arith;
            kept = λ j l h. elim (c.kept j l h) [
              | inl out ↦ inl ((Delivered-trace sum256 pools laws a l).1 (inr out))
              | inr (inl again) ↦ inr (inl (Refetched-trace a j (inr again)))
              | inr (inr (held, why)) ↦ still_held j l held
            ];
          }

    Survives-Shrunk :
        {from next : ℕ} {m m' : Machine S}
        → IsReady sum256 pools laws latest m'
        → Survives from m
        → Shrunk from next m m'
        → Survives next m'
    Survives-Shrunk ready' c s = record {
      ready = ready';
      depth = s.same_task.1 ∙ c.depth;
      behind = rw s.again c.behind;
      kept = rw (s.same_trace, s.same_pool, s.again) c.kept;
    }

    Survives-step :
        (from : ℕ) (m : Machine S) (next : ℕ)
        → from ≤ latest
        → Survives from m
        → (run_round sum256 pools env latest from m).0 ≡ ok next
        → Survives next (run_round sum256 pools env latest from m).1
    Survives-step from m next le c h =
        let ready' = (round_keeps sum256 pools laws env latest from m next le c.ready h).0 in
        elim (round_ok sum256 pools laws env latest from m next
          (below_64 latest from m le c.ready.1) c.ready.0 h) [
            | inl s ↦ Survives-Shrunk ready' c s
            | inr a ↦ Survives-Advanced le c a ready'
          ]

    -- At the end of a call that caught up.
    abbrev pub GoesOut : Machine S → Type 0
    GoesOut m =
        (j : ℕ) (l : LogResult)
        → Held pool₀ j l
        → Delivered l m.trace
          ⊎ (Refetched j m.trace ⊎ (Held m.pool j l × (is_confirmed latest confirm j ≡ false)))

    abbrev AtEnd : Result Bool → Machine S → Type 0
    AtEnd (err e) m = Unit
    AtEnd (ok b) m = GoesOut m

    Survives-done :
        first ≤ latest → (from : ℕ) (m : Machine S) → latest < from → Survives from m → GoesOut m
    Survives-done le from m lt c j l h = elim (c.kept j l h) [
      | inl out ↦ inl out
      | inr (inl again) ↦ inr (inl again)
      | inr (inr (held, inl same)) ↦ absurd (omega arith)
      | inr (inr (held, inr no')) ↦ inr (inr (held, no'))
    ]

  -- Over any pool that keeps the interface's laws, a call of `RunOnce` that catches up loses none of
  -- the logs that the pool held before it: each was handed to the handler, or is held as before
  -- under a height that is not confirmed, or a batch that starts at its height was fetched anew.
  pub run_once-GoesOut :
      (env : Env) (latest fuel : ℕ) (m m' : Machine S)
      → env.block_number m.round ≡ ok latest
      → IsValid m.pool
      → IsSized latest m
      → m.task.checkpoint ≤ latest
      → run_once sum256 pools fuel env m ≡ some (ok true, m')
      → GoesOut env latest m.task.confirm_block_num m.pool m.task.checkpoint m'
  run_once-GoesOut env latest fuel m m' e v z le h =
      rounds_inv sum256 pools env latest
        (Survives env latest m.task.confirm_block_num m.pool m.task.checkpoint)
        (AtEnd env latest m.task.confirm_block_num m.pool m.task.checkpoint)
        (Survives-step env latest m.task.confirm_block_num m.pool m.task.checkpoint)
        (Survives-done env latest m.task.confirm_block_num m.pool m.task.checkpoint le)
        (λ from x f le' c bad. tt) fuel m.task.checkpoint (count_ok m) (ok true) m' start
        (sym (run_once_loop sum256 pools laws env latest fuel m e le) ∙ h)
    where
      start :
          Survives env latest m.task.confirm_block_num m.pool m.task.checkpoint m.task.checkpoint
            (count_ok m)
      start = record {
        ready = (v, record { positive = z.positive; fits = z.fits });
        depth = refl;
        behind = omega arith;
        kept = λ j l p. inr (inr (p, inl refl));
      }

  -- A log is handed out once its batch is confirmed: of two polls that catch up, the second with the
  -- pool that the first has left, one hands out each log that the first fetched in a batch starting
  -- at a block that is confirmed at the second head; where a batch that the second fetches anew from
  -- that block has the log again. Each poll starts at a checkpoint that is not past its head, with
  -- a batch size of 1 at least that added to the head stays below 2^64.
  pub fetched_log_goes_out :
      (env : Env) (latest latest' fuel fuel' : ℕ) (m m' n n' : Machine S) (j : ℕ) (l : LogResult)
      → env.block_number m.round ≡ ok latest
      → env.block_number n.round ≡ ok latest'
      → IsValid m.pool
      → IsValid n.pool
      → IsSized latest m
      → IsSized latest' n
      → m.trace ≡ []
      → n.trace ≡ []
      → m.task.checkpoint ≤ latest
      → n.task.checkpoint ≤ latest'
      → n.pool ≡ m'.pool
      → run_once sum256 pools fuel env m ≡ some (ok true, m')
      → run_once sum256 pools fuel' env n ≡ some (ok true, n')
      → FetchedAt sum256 j l m'.trace
      → is_confirmed latest' n.task.confirm_block_num j ≡ true
      → (Refetched j n'.trace → FetchedAt sum256 j l n'.trace)
      → Delivered l m'.trace ⊎ Delivered l n'.trace
  fetched_log_goes_out env latest latest' fuel fuel' m m' n n' j l e e' v v' z z' fresh fresh' le
        le' same h h' f conf stable =
      elim ((run_once-Conserves sum256 pools laws env latest fuel m m' e v z fresh le h).0 j l f) [
        | inl out ↦ inl out
        | inr (held, early) ↦
            elim (run_once-GoesOut env latest' fuel' n n' e' v' z' le' h' j l
              (subst (λ p. Held p j l) (sym same) held)) [
                | inl out ↦ inr out
                | inr (inl again) ↦
                    elim ((run_once-Conserves sum256 pools laws env latest' fuel' n n' e' v' z'
                        fresh' le' h').0
                      j l (stable again)) [
                        | inl out ↦ inr out
                        | inr (still, no') ↦ absurd (ground arith)
                      ]
                | inr (inr (still, no')) ↦ absurd (ground arith)
              ]
      ]
