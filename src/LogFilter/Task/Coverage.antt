-- ===== src/LogFilter/Task/Coverage.antt =====
-- The ranges that `RunOnce` queries, and the checkpoint that it leaves.
use eip_toolkit.Prelude.{
  ℕ, ◌+◌, ◌≤◌, ◌<◌, ◌≡◌, sym, ◌∙◌, subst, inl, inr, Bool, true, false, some, [], arith, ltb, Bytes,
  Result, ok, err,
}
use eip_toolkit.LogFilter.Pool.{PendingPool, IsPendingPool}
use eip_toolkit.LogFilter.Task.{Machine, Env, rounds, run_once, count_ok, run_round}
use eip_toolkit.LogFilter.Task.Round.{Shrunk, Advanced, round_ok}
use eip_toolkit.LogFilter.Task.Loop.{
  below_64, IsSized, IsReady, rounds_inv, round_keeps, end_bounds,
}
use eip_toolkit.LogFilter.Task.Trace.{Contiguous, last_saved}

module _ {S : Type 0} (sum256 : Bytes → Bytes) (pools : PendingPool S)
    (laws : IsPendingPool pools) where
  open laws use {IsValid}

  -- `RunOnce` behind the head is its loop.
  pub run_once_loop :
      (env : Env) (latest fuel : ℕ) (m : Machine S)
      → env.block_number m.round ≡ ok latest
      → m.task.checkpoint ≤ latest
      → run_once sum256 pools fuel env m
        ≡ rounds sum256 pools fuel env latest m.task.checkpoint (count_ok m)
  unfolding run_once
  run_once_loop env latest fuel m e le =
      let behind : ltb latest m.task.checkpoint ≡ false = ground arith in
      rw (e, run_once) (rw behind)

  module _ (env : Env) (latest start : ℕ) where
    -- So far the queries cover the blocks from `start` up to `from`, and the checkpoint is the block
    -- that was saved last, one of those.
    record Covers (from : ℕ) (m : Machine S) : Type 0 where
      ready : IsReady sum256 pools laws latest m
      reached : from ≤ latest + 1
      ranges : Contiguous start from m.trace
      checkpoint : m.task.checkpoint ≡ last_saved start m.trace
      bounds :
          (start ≤ m.task.checkpoint)
          × (m.task.checkpoint ≤ from)
          × (start ≤ from)
          × (m.task.checkpoint ≤ latest)

    Covers-Shrunk :
        {from next : ℕ} {m m' : Machine S}
        → IsReady sum256 pools laws latest m'
        → Covers from m
        → Shrunk from next m m'
        → Covers next m'
    Covers-Shrunk ready' c s =
        let again = s.again in
        let same = s.same_task.0 in
        let bounds' = c.bounds in
        let reached' = c.reached in
        record {
          ready = ready';
          reached = omega arith;
          ranges = rw (s.same_trace, again) c.ranges;
          checkpoint = rw s.same_trace (same ∙ c.checkpoint);
          bounds = omega arith;
        }

    Covers-Advanced :
        {from next : ℕ} {m m' : Machine S}
        → from ≤ latest
        → IsReady sum256 pools laws latest m'
        → Covers from m
        → Advanced sum256 pools laws env latest from next m m'
        → Covers next m'
    Covers-Advanced le ready' c a =
        let ends = end_bounds sum256 pools laws le c.ready.1 a in
        let bounds' = c.bounds in
        elim a.delivers [
          | inl (nothing, trace, same) ↦ record {
            ready = ready';
            reached = omega arith;
            ranges = rw trace (ends.2, ends.0, c.ranges);
            checkpoint = rw trace (same ∙ c.checkpoint);
            bounds = omega arith;
          }
          | inr (trace, moved) ↦ record {
            ready = ready';
            reached = omega arith;
            ranges = rw trace (ends.2, ends.0, c.ranges);
            checkpoint = rw trace moved;
            bounds = omega arith;
          }
        ]

    Covers-step :
        (from : ℕ) (m : Machine S) (next : ℕ)
        → from ≤ latest
        → Covers from m
        → (run_round sum256 pools env latest from m).0 ≡ ok next
        → Covers next (run_round sum256 pools env latest from m).1
    Covers-step from m next le c h =
        let ready' = (round_keeps sum256 pools laws env latest from m next le c.ready h).0 in
        elim (round_ok sum256 pools laws env latest from m next
          (below_64 latest from m le c.ready.1) c.ready.0 h) [
            | inl s ↦ Covers-Shrunk ready' c s
            | inr a ↦ Covers-Advanced le ready' c a
          ]

    abbrev AtHead : Result Bool → Machine S → Type 0
    AtHead (err e) m = Unit
    AtHead (ok b) m =
        Contiguous start (latest + 1) m.trace
        × (m.task.checkpoint ≡ last_saved start m.trace)
        × (start ≤ m.task.checkpoint)
        × (m.task.checkpoint ≤ latest)

    Covers-done : (from : ℕ) (m : Machine S) → latest < from → Covers from m → AtHead (ok true) m
    Covers-done from m lt c =
        let reached' = c.reached in
        let at : from ≡ latest + 1 = omega arith in
        (subst (λ n. Contiguous start n m.trace) at c.ranges, c.checkpoint, c.bounds.0, c.bounds.3)

  -- A call of `RunOnce` that catches up has queried every block from its checkpoint up to the head,
  -- each in exactly one range and in order, and its checkpoint is then the block that it saved
  -- last, or the old one if it saved none: it never falls back and never passes the head. The call
  -- starts at a checkpoint that is not past the head, with a batch size of 1 at least that added to
  -- the head stays below 2^64, over any pool that keeps the interface's laws.
  pub run_once_covers :
      (env : Env) (latest fuel : ℕ) (m m' : Machine S)
      → env.block_number m.round ≡ ok latest
      → IsValid m.pool
      → IsSized latest m
      → m.trace ≡ []
      → m.task.checkpoint ≤ latest
      → run_once sum256 pools fuel env m ≡ some (ok true, m')
      → Contiguous m.task.checkpoint (latest + 1) m'.trace
        × (m'.task.checkpoint ≡ last_saved m.task.checkpoint m'.trace)
        × (m.task.checkpoint ≤ m'.task.checkpoint)
        × (m'.task.checkpoint ≤ latest)
  run_once_covers env latest fuel m m' e v z fresh le h =
      rounds_inv sum256 pools env latest (Covers env latest m.task.checkpoint)
        (AtHead env latest m.task.checkpoint) (Covers-step env latest m.task.checkpoint)
        (Covers-done env latest m.task.checkpoint) (λ from x f le' c bad. tt) fuel m.task.checkpoint
        (count_ok m) (ok true) m' start (sym (run_once_loop env latest fuel m e le) ∙ h)
    where
      start : Covers env latest m.task.checkpoint m.task.checkpoint (count_ok m)
      start = record {
        ready = (v, record { positive = z.positive; fits = z.fits });
        reached = omega arith;
        ranges = rw fresh;
        checkpoint = rw fresh;
        bounds = omega arith;
      }
