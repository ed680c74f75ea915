-- ===== src/LogFilter/Runner/Backoff.antt =====
-- The restarts of a task and the waits before them (go/logfilter/logfilter.go).
use eip_toolkit.Prelude.{
  ℕ, zero, suc, min, ◌+◌, ◌*◌, ◌^◌, ◌<◌, ◌≡◌, refl, ap, ◌∙◌, ◌⊎◌, inl, inr, true, false, some, List,
  [], ◌∷◌, ◌++◌, arith, length, All, Bytes, GoError, canceled, wrap,
}
use native.Mathlib.Nat.{pow-suc}
use eip_toolkit.LogFilter.Runner.{
  Limits, Attempt, Goroutine, Status, looping, stopped, errors_is, next_backoff, turn, turns,
  run_task,
}

-- Between 0 and 2 ^ 62 ns, which is 146 years.
abbrev pub AreLimits : Limits → Type 0
AreLimits l = (l.restart_backoff < 2 ^ 62) × (l.max_backoff < 2 ^ 62)

-- `TaskLoop` fails with an error that is none of the context's, and nothing is cancelled.
abbrev pub Fails : Attempt → Type 0
Fails a = (a.poll ≡ false) × (errors_is a.outcome a.ctx_err ≡ false) × (a.done ≡ false)

-- The wait behind `n` doublings; the first one is not compared with the maximum.
abbrev pub capped : Limits → ℕ → ℕ
capped l zero = l.restart_backoff
capped l (suc n) = min (l.restart_backoff * 2 ^ suc n) l.max_backoff

-- The first `n` waits, the newest first.
abbrev pub capped_waits : Limits → ℕ → List ℕ
capped_waits l zero = []
capped_waits l (suc n) = capped l n ∷ capped_waits l n

next_backoff-capped :
    (l : Limits) (n : ℕ) → AreLimits l → next_backoff l.max_backoff (capped l n) ≡ capped l (suc n)
unfolding next_backoff
next_backoff-capped l zero (small, small') = ground arith
next_backoff-capped l (suc n) (small, small') =
    let d = double l.restart_backoff (suc n) in ground arith
  where
    double : (b k : ℕ) → b * 2 ^ suc k ≡ b * 2 ^ k + b * 2 ^ k
    double b k = let p = pow-suc 2 k in grind (arith, p)

Status-cases : (s : Status) → (s ≡ looping) ⊎ (s ≡ stopped)
Status-cases looping = inl refl
Status-cases stopped = inr refl

module _ (l : Limits) (running restarts : ℕ) where
  -- The goroutine behind `n` failures.
  abbrev pub behind : ℕ → Goroutine
  behind n = record {
    task_running = running;
    restart_total = restarts + n;
    backoff = capped l n;
    waits = capped_waits l n;
  }

  turn-behind :
      (a : Attempt) (n : ℕ)
      → AreLimits l
      → Fails a
      → turn l a (behind n) ≡ (looping, behind (suc n))
  unfolding turn
  turn-behind a n limits (p, e, d) = let next = next_backoff-capped l n limits in ground arith

  again :
      (a : Attempt) (attempts : List Attempt) (g g' : Goroutine)
      → turn l a g ≡ (looping, g')
      → turns l (a ∷ attempts) g ≡ turns l attempts g'
  unfolding turns
  again a attempts g g' h = ground arith

  turns-behind :
      (attempts : List Attempt) (n : ℕ)
      → AreLimits l
      → All Fails attempts
      → turns l attempts (behind n) ≡ (looping, behind (length attempts + n))
  unfolding turns
  turns-behind [] n limits h = ap (λ k. (looping, behind k)) (omega arith)
  turns-behind (a ∷ attempts) n limits (f, h) =
      let step = turn-behind a n limits f in
      let ih = turns-behind attempts (suc n) limits h in
      again a attempts (behind n) (behind (suc n)) step
      ∙ ih
      ∙ ap (λ k. (looping, behind k)) (omega arith)

  -- While `TaskLoop` keeps failing and nothing is cancelled, the task is restarted without end, with
  -- a restart backoff and a maximum below 2 ^ 62 ns: behind n failures n restarts are counted; wait 0
  -- was the restart backoff, also where it is above the maximum, and each later wait k was the
  -- smaller of 2 ^ k times the restart backoff and the maximum.
  pub run_task_backoff :
      (attempts : List Attempt)
      → AreLimits l
      → All Fails attempts
      → run_task l attempts running restarts ≡ (looping, behind (length attempts))
  unfolding run_task
  run_task_backoff attempts limits h =
      ap (λ g. turns l attempts g) at_start
      ∙ turns-behind attempts 0 limits h
      ∙ ap (λ k. (looping, behind k)) (omega arith)
    where
      at_start :
          record {
            task_running = running;
            restart_total = restarts;
            backoff = l.restart_backoff;
            waits = [];
          }
          ≡ behind 0
      at_start = ground arith

  stops :
      (a : Attempt) (rest : List Attempt) (g : Goroutine)
      → a.poll ≡ false
      → errors_is a.outcome a.ctx_err ≡ true
      → turns l (a ∷ rest) g ≡ (stopped, g)
  unfolding turns turn
  stops a rest g p e = ground arith

  turns-append :
      (attempts more : List Attempt) (g g' : Goroutine)
      → turns l attempts g ≡ (looping, g')
      → turns l (attempts ++ more) g ≡ turns l more g'
  unfolding turns
  turns-append [] more g g' h = ap (λ q. turns l more q.1) h
  turns-append (a ∷ attempts) more g g' h = elim (Status-cases (turn l a g).0) [
    | inl goes ↦ let ih = turns-append attempts more (turn l a g).1 g' in ground arith
    | inr stops ↦ ground arith
  ]

  -- A task that fails a number of times and then returns, without the context polled as done, nil
  -- or, behind any wrappers, the error of the context, is not restarted any more: the goroutine ends
  -- with the restarts of the failures only, whatever would follow.
  pub run_task_stops :
      (attempts rest : List Attempt) (a : Attempt)
      → AreLimits l
      → All Fails attempts
      → a.poll ≡ false
      → errors_is a.outcome a.ctx_err ≡ true
      → run_task l (attempts ++ a ∷ rest) running restarts ≡ (stopped, behind (length attempts))
  unfolding run_task
  run_task_stops attempts rest a limits h p e =
      turns-append attempts (a ∷ rest) _ (behind (length attempts))
        (unfold run_task in run_task_backoff attempts limits h)
      ∙ stops a rest (behind (length attempts)) p e

-- `errors.Is` finds a cancellation behind any number of `%w` wrappers.
abbrev pub wraps : List Bytes → GoError → GoError
wraps [] e = e
wraps (p ∷ ps) e = wrap p (wraps ps e)

pub errors_is-wraps :
    (ps : List Bytes) → errors_is (some (wraps ps canceled)) (some canceled) ≡ true
unfolding errors_is
errors_is-wraps [] = refl
errors_is-wraps (p ∷ ps) = errors_is-wraps ps
