-- ===== src/LogFilter/Task/Delivery.antt =====
-- What becomes of the logs that `RunOnce` fetches.
use eip_toolkit.Prelude.{
  ℕ, ◌≤◌, ◌<◌, ◌≡◌, refl, sym, ◌∙◌, ◌↔◌, ◌⊎◌, inl, inr, Bool, true, false, some, List, [], ◌∷◌,
  arith, Bool-cases, Elem, Bytes, Result, ok, err,
}
use eip_toolkit.LogFilter.Log.{LogResult}
use eip_toolkit.LogFilter.Pool.{PendingPool, IsPendingPool, is_confirmed}
use eip_toolkit.LogFilter.Task.{Machine, Env, Event, run_once, run_round, count_ok, fetched}
use eip_toolkit.LogFilter.Task.Process.{HeldWith}
use eip_toolkit.LogFilter.Task.Round.{Shrunk, Advanced, round_ok}
use eip_toolkit.LogFilter.Task.Loop.{
  below_64, IsSized, IsReady, rounds_inv, round_keeps, next_bounds,
}
use eip_toolkit.LogFilter.Task.Trace.{Delivered, FetchedAt}
use eip_toolkit.LogFilter.Task.Coverage.{run_once_loop}

module _ {S : Type 0} (sum256 : Bytes → Bytes) (pools : PendingPool S)
    (laws : IsPendingPool pools) where
  open laws use {IsValid, Held}

  module _ {env : Env} {latest from next : ℕ} {m m' : Machine S}
      (a : Advanced sum256 pools laws env latest from next m m') where
    abbrev with_batch : List Event
    with_batch = fetched from a.end a.logs ∷ m.trace

    FetchedAt-trace :
        (j : ℕ) (l : LogResult) → FetchedAt sum256 j l m'.trace ↔ FetchedAt sum256 j l with_batch
    FetchedAt-trace j l = elim a.delivers [
      | inl (nothing, trace, same) ↦ rw trace ((λ h. h), (λ h. h))
      | inr (trace, moved) ↦ rw trace ((λ h. h), (λ h. h))
    ]

    pub Delivered-trace :
        (l : LogResult) → Delivered l m'.trace ↔ (Elem l a.ready ⊎ Delivered l m.trace)
    Delivered-trace l = elim a.delivers [
      | inl (nothing, trace, same) ↦
          rw (trace, nothing) (inr, (λ h. elim h [ inl b ↦ absurd b | inr d ↦ d ]))
      | inr (trace, moved) ↦ rw trace ((λ h. h), (λ h. h))
    ]

  module _ (env : Env) (latest confirm : ℕ) (pool₀ : S) where
    -- Where a log under the height `j` comes from: a batch of this call, or the pool before it.
    abbrev pub Origin : ℕ → LogResult → Machine S → Type 0
    Origin j l m = FetchedAt sum256 j l m.trace ⊎ Held pool₀ j l

    record Accounted (from : ℕ) (m : Machine S) : Type 0 where
      ready : IsReady sum256 pools laws latest m
      depth : m.task.confirm_block_num ≡ confirm
      kept :
          (j : ℕ) (l : LogResult)
          → FetchedAt sum256 j l m.trace
          → (j < from)
            × (Delivered l m.trace ⊎ (Held m.pool j l × (is_confirmed latest confirm j ≡ false)))
      held : (j : ℕ) (l : LogResult) → Held m.pool j l → Origin j l m
      origin :
          (l : LogResult)
          → Delivered l m.trace
          → (j : ℕ) × (is_confirmed latest confirm j ≡ true) × Origin j l m

    module _ {from next : ℕ} {m m' : Machine S} (le : from ≤ latest) (c : Accounted from m)
        (a : Advanced sum256 pools laws env latest from next m m') where
      Origin-with :
          (j : ℕ) (l : LogResult)
          → HeldWith sum256 pools laws m.pool from a.logs j l
          → Origin j l m'
      Origin-with j l (inl new) = inl ((FetchedAt-trace a j l).1 (inl new))
      Origin-with j l (inr (ne, h)) = elim (c.held j l h) [
        | inl f ↦ inl ((FetchedAt-trace a j l).1 (inr f))
        | inr old ↦ inr old
      ]

      -- A log that the pool gets in this round goes out or stays.
      out_or_stays :
          (j : ℕ) (l : LogResult)
          → HeldWith sum256 pools laws m.pool from a.logs j l
          → Delivered l m'.trace ⊎ (Held m'.pool j l × (is_confirmed latest confirm j ≡ false))
      out_or_stays j l h = elim (Bool-cases (is_confirmed latest confirm j)) [
        | inl yes' ↦ inl ((Delivered-trace a l).1 (inl ((a.goes l).1 (j, h, rw c.depth yes'))))
        | inr no' ↦ inr ((a.stays j l).1 (h, rw c.depth no'), no')
      ]

      kept_step :
          (j : ℕ) (l : LogResult)
          → FetchedAt sum256 j l (with_batch a)
          → (j < next)
            × (Delivered l m'.trace ⊎ (Held m'.pool j l × (is_confirmed latest confirm j ≡ false)))
      kept_step j l (inl (e, new)) =
          let less = (next_bounds sum256 pools laws le c.ready.1 a).0 in
          (rw (← e) less, out_or_stays j l (inl (e, new)))
      kept_step j l (inr f) =
          let less = (next_bounds sum256 pools laws le c.ready.1 a).0 in
          let (before, there) = c.kept j l f in
          (
            omega arith,
            elim there [
              | inl d ↦ inl ((Delivered-trace a l).1 (inr d))
              | inr (h, no') ↦ out_or_stays j l (inr ((λ e. omega arith), h))
            ],
          )

      Accounted-Advanced : IsReady sum256 pools laws latest m' → Accounted next m'
      Accounted-Advanced ready' = record {
        ready = ready';
        depth = a.same_confirm ∙ c.depth;
        kept = λ j l f. kept_step j l ((FetchedAt-trace a j l).0 f);
        held = λ j l h. Origin-with j l ((a.stays j l).0 h).0;
        origin = λ l d. elim ((Delivered-trace a l).0 d) [
          | inl out ↦
              let (j, h, conf) = (a.goes l).0 out in (j, rw (← c.depth) conf, Origin-with j l h)
          | inr old ↦
              let (j, conf, o) = c.origin l old in
              (j, conf, elim o [ inl f ↦ inl ((FetchedAt-trace a j l).1 (inr f)) | inr p ↦ inr p ])
        ];
      }

    Accounted-Shrunk :
        {from next : ℕ} {m m' : Machine S}
        → IsReady sum256 pools laws latest m'
        → Accounted from m
        → Shrunk from next m m'
        → Accounted next m'
    Accounted-Shrunk ready' c s = record {
      ready = ready';
      depth = s.same_task.1 ∙ c.depth;
      kept = rw (s.same_trace, s.same_pool, s.again) c.kept;
      held = rw (s.same_trace, s.same_pool) c.held;
      origin = rw s.same_trace c.origin;
    }

    Accounted-step :
        (from : ℕ) (m : Machine S) (next : ℕ)
        → from ≤ latest
        → Accounted from m
        → (run_round sum256 pools env latest from m).0 ≡ ok next
        → Accounted next (run_round sum256 pools env latest from m).1
    Accounted-step from m next le c h =
        let ready' = (round_keeps sum256 pools laws env latest from m next le c.ready h).0 in
        elim (round_ok sum256 pools laws env latest from m next
          (below_64 latest from m le c.ready.1) c.ready.0 h) [
            | inl s ↦ Accounted-Shrunk ready' c s
            | inr a ↦ Accounted-Advanced le c a ready'
          ]

    -- At the end of a call that caught up: nothing that it fetched is lost, and nothing is made up.
    abbrev pub Conserves : Machine S → Type 0
    Conserves m =
        ((j : ℕ) (l : LogResult)
          → FetchedAt sum256 j l m.trace
          → Delivered l m.trace ⊎ (Held m.pool j l × (is_confirmed latest confirm j ≡ false)))
        × ((l : LogResult)
            → Delivered l m.trace
            → (j : ℕ) × (is_confirmed latest confirm j ≡ true) × Origin j l m)
        × ((j : ℕ) (l : LogResult) → Held m.pool j l → Origin j l m)

    abbrev AtEnd : Result Bool → Machine S → Type 0
    AtEnd (err e) m = Unit
    AtEnd (ok b) m = Conserves m

  -- Over any pool that keeps the interface's laws, a call of `RunOnce` that catches up accounts for
  -- every log: each log of a batch that it fetched, but for duplicates in the batch, was handed to
  -- the handler, or is held under the batch's first block, which is not confirmed; each log that
  -- was handed out stood under a confirmed height, in a batch of this call or in the pool before;
  -- and the pool holds only such logs. The call starts at a checkpoint that is not past the head,
  -- with a batch size of 1 at least that added to the head stays below 2^64.
  pub run_once-Conserves :
      (env : Env) (latest fuel : ℕ) (m m' : Machine S)
      → env.block_number m.round ≡ ok latest
      → IsValid m.pool
      → IsSized latest m
      → m.trace ≡ []
      → m.task.checkpoint ≤ latest
      → run_once sum256 pools fuel env m ≡ some (ok true, m')
      → Conserves env latest m.task.confirm_block_num m.pool m'
  run_once-Conserves env latest fuel m m' e v z fresh le h =
      rounds_inv sum256 pools env latest (Accounted env latest m.task.confirm_block_num m.pool)
        (AtEnd env latest m.task.confirm_block_num m.pool)
        (Accounted-step env latest m.task.confirm_block_num m.pool)
        (λ from x lt c. ((λ j l f. (c.kept j l f).1), c.origin, c.held)) (λ from x f le' c bad. tt)
        fuel m.task.checkpoint (count_ok m) (ok true) m' start
        (sym (run_once_loop sum256 pools laws env latest fuel m e le) ∙ h)
    where
      start : Accounted env latest m.task.confirm_block_num m.pool m.task.checkpoint (count_ok m)
      start = record {
        ready = (v, record { positive = z.positive; fits = z.fits });
        depth = refl;
        kept = rw fresh (λ j l f. absurd f);
        held = λ j l p. inr p;
        origin = rw fresh (λ l d. absurd d);
      }
