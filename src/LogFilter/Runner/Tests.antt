-- ===== src/LogFilter/Runner/Tests.antt =====
-- Runs of the restarting goroutine and witnesses of its properties.
use eip_toolkit.Prelude.{
  ◌≡◌, refl, false, none, some, [], ◌∷◌, arith, codes, GoError, canceled, text,
}
use eip_toolkit.LogFilter.Runner.{
  Limits, Attempt, looping, errors_is, next_backoff, turn, turns, run_task,
}
use eip_toolkit.LogFilter.Runner.Backoff.{behind, wraps, run_task_backoff}

-- `main` sets 5 seconds and 2 minutes.
abbrev limits : Limits
limits = record { restart_backoff = 5_000_000_000; max_backoff = 120_000_000_000 }

abbrev node_error : GoError
node_error = text (codes "connection refused")

abbrev failing : Attempt
failing = record { poll = false; outcome = some node_error; ctx_err = none; done = false }

-- The context was cancelled during a query.
abbrev cancelled : Attempt
cancelled = record {
  poll = false;
  outcome = some (wraps (codes "rpc query: " ∷ []) canceled);
  ctx_err = some canceled;
  done = false;
}

-- The seventh wait is cut to two minutes.
waits_of_seven :
    (run_task limits
      (failing ∷ failing ∷ failing ∷ failing ∷ failing ∷ failing ∷ failing ∷ [])
      0
      0).1.waits
    ≡ 120_000_000_000 ∷ 120_000_000_000 ∷ 80_000_000_000 ∷ 40_000_000_000 ∷ 20_000_000_000
      ∷ 10_000_000_000 ∷ 5_000_000_000 ∷ []
unfolding run_task turns turn errors_is next_backoff
waits_of_seven = refl

not_found : errors_is failing.outcome failing.ctx_err ≡ false
unfolding errors_is
not_found = refl

run_task_backoff_example :
    run_task limits (failing ∷ failing ∷ []) 1 7 ≡ (looping, behind limits 1 7 2)
run_task_backoff_example =
    run_task_backoff limits 1 7 (failing ∷ failing ∷ []) (omega arith, omega arith)
      ((refl, not_found, refl), ((refl, not_found, refl), tt))
