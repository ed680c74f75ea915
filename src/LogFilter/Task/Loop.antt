-- ===== src/LogFilter/Task/Loop.antt =====
-- The loop of `RunOnce`: the rules by which an invariant of its rounds holds at its end, the bounds
-- of a batch, and the fuel that is enough.
use eip_toolkit.LogFilter.Task.Round.{round_ok, Advanced}
use native.Mathlib.Decide.{dec_lt}
use eip_toolkit.Prelude.{
  ℕ, zero, suc, ◌+◌, ◌-◌, ◌≤◌, ◌<◌, ◌≡◌, sym, ◌∙◌, subst, some_eq, inl, inr, Bool, true, some,
  arith, u64_mod, add64, leb, some_eq, Bytes, GoError, Result, ok, err, Result-cases,
}
use eip_toolkit.LogFilter.Pool.{PendingPool, IsPendingPool}
use eip_toolkit.LogFilter.Task.{Machine, Env, batch_end, run_round, rounds}

-- The sizes for which no sum of a round wraps around.
pub record IsSized {S : Type 0} (latest : ℕ) (m : Machine S) : Type 0 where
  pub positive : 1 ≤ m.task.batch_size
  pub fits : latest + m.task.batch_size < u64_mod

pub below_64 :
    {S : Type 0} (latest from : ℕ) (m : Machine S)
    → from ≤ latest
    → IsSized latest m
    → from < u64_mod
below_64 latest from m le z = let fits = z.fits in omega arith

pub batch_end_bounds :
    (latest from size : ℕ)
    → from ≤ latest
    → 1 ≤ size
    → latest + size < u64_mod
    → (from ≤ batch_end latest from size)
      × (batch_end latest from size ≤ latest)
      × (batch_end latest from size < from + size)
      × (add64 (batch_end latest from size) 1 ≡ batch_end latest from size + 1)
unfolding batch_end
batch_end_bounds latest from size le pos fits = ground arith

module _ {S : Type 0} (sum256 : Bytes → Bytes) (pools : PendingPool S) (env : Env)
    (latest : ℕ) where
  abbrev step : ℕ → Machine S → Result ℕ × Machine S
  step = run_round sum256 pools env latest

  module _ (fuel from : ℕ) (m : Machine S) where
    pub rounds_end :
        latest < from → rounds sum256 pools (suc fuel) env latest from m ≡ some (ok true, m)
    unfolding rounds
    rounds_end lt = ground arith

    pub rounds_more :
        (next : ℕ)
        → from ≤ latest
        → (step from m).0 ≡ ok next
        → rounds sum256 pools (suc fuel) env latest from m
          ≡ rounds sum256 pools fuel env latest next (step from m).1
    unfolding rounds
    rounds_more next le h =
        let test : leb from latest ≡ true = ground arith in rw (test, rounds) (rw h)

    pub rounds_fail :
        (e : GoError)
        → from ≤ latest
        → (step from m).0 ≡ err e
        → rounds sum256 pools (suc fuel) env latest from m ≡ some (err e, (step from m).1)
    unfolding rounds
    rounds_fail e le h =
        let test : leb from latest ≡ true = ground arith in rw (test, rounds) (rw h)

  -- The loop's rule: an invariant `P` of its rounds, and what follows from it where the loop ends.
  module _ (P : ℕ → Machine S → Type 0) (R : Result Bool → Machine S → Type 0)
      (keep : (from : ℕ) (m : Machine S) (next : ℕ)
        → from ≤ latest
        → P from m
        → (step from m).0 ≡ ok next
        → P next (step from m).1)
      (done : (from : ℕ) (m : Machine S) → latest < from → P from m → R (ok true) m)
      (fail : (from : ℕ) (m : Machine S) (e : GoError)
        → from ≤ latest
        → P from m
        → (step from m).0 ≡ err e
        → R (err e) (step from m).1) where
    pub rounds_inv :
        (fuel from : ℕ) (m : Machine S) (r : Result Bool) (m' : Machine S)
        → P from m
        → rounds sum256 pools fuel env latest from m ≡ some (r, m')
        → R r m'
    rounds_inv zero from m r m' p h = absurd (unfold rounds in cc)
    rounds_inv (suc fuel) from m r m' p h = elim (dec_lt latest from) [
      | yes lt ↦
          subst (λ (x : Result Bool × Machine S). R x.0 x.1)
            (some_eq (sym (rounds_end fuel from m lt) ∙ h)) (done from m lt p)
      | no ge ↦
          let le : from ≤ latest = omega arith in
          elim (Result-cases (step from m).0) [
            | inl (next, good) ↦
                rounds_inv fuel next (step from m).1 r m' (keep from m next le p good)
                  (sym (rounds_more fuel from m next le good) ∙ h)
            | inr (e, bad) ↦
                subst (λ (x : Result Bool × Machine S). R x.0 x.1)
                  (some_eq (sym (rounds_fail fuel from m e le bad) ∙ h)) (fail from m e le p bad)
          ]
    ]

  -- With a measure below the fuel the loop ends.
  module _ (P : ℕ → Machine S → Type 0) (measure : ℕ → Machine S → ℕ)
      (keep : (from : ℕ) (m : Machine S) (next : ℕ)
        → from ≤ latest
        → P from m
        → (step from m).0 ≡ ok next
        → P next (step from m).1 × (measure next (step from m).1 < measure from m)) where
    pub rounds_ends :
        (fuel from : ℕ) (m : Machine S)
        → P from m
        → measure from m < fuel
        → (r : Result Bool) × (m' : Machine S) × (rounds sum256 pools fuel env latest from m
            ≡ some (r, m'))
    rounds_ends zero from m p h = elim h [ ]
    rounds_ends (suc fuel) from m p h = elim (dec_lt latest from) [
      | yes lt ↦ (ok true, m, rounds_end fuel from m lt)
      | no ge ↦
          let le : from ≤ latest = omega arith in
          elim (Result-cases (step from m).0) [
            | inr (e, bad) ↦ (err e, (step from m).1, rounds_fail fuel from m e le bad)
            | inl (next, good) ↦
                let (p', less) = keep from m next le p good in
                let (r, m', runs) = rounds_ends fuel next (step from m).1 p' (omega arith) in
                (r, m', rounds_more fuel from m next le good ∙ runs)
          ]
    ]

module _ {S : Type 0} (sum256 : Bytes → Bytes) (pools : PendingPool S)
    (laws : IsPendingPool pools) where
  open laws use {IsValid}

  -- A valid pool, and sizes that do not wrap around.
  abbrev pub IsReady : ℕ → Machine S → Type 0
  IsReady latest m = IsValid m.pool × IsSized latest m

  pub next_bounds :
      {env : Env} {latest from next : ℕ} {m m' : Machine S}
      → from ≤ latest
      → IsSized latest m
      → Advanced sum256 pools laws env latest from next m m'
      → (from < next) × (next ≤ latest + 1)
  next_bounds {latest = latest} {from = from} {m = m} le z a =
      let e = a.end_lem in
      let n = a.next_lem in
      let b = batch_end_bounds latest from m.task.batch_size le z.positive z.fits in
      ground (arith, e, n, b)

  pub end_bounds :
      {env : Env} {latest from next : ℕ} {m m' : Machine S}
      → from ≤ latest
      → IsSized latest m
      → (a : Advanced sum256 pools laws env latest from next m m')
      → (from ≤ a.end) × (a.end ≤ latest) × (a.end + 1 ≡ next)
  end_bounds {latest = latest} {from = from} {m = m} le z a =
      let e = a.end_lem in
      let n = a.next_lem in
      let b = batch_end_bounds latest from m.task.batch_size le z.positive z.fits in
      ground (arith, e, n, b)

  -- A round keeps the pool valid and the sizes small, and it advances or halves the batch.
  pub round_keeps :
      (env : Env) (latest from : ℕ) (m : Machine S) (next : ℕ)
      → from ≤ latest
      → IsReady latest m
      → (run_round sum256 pools env latest from m).0 ≡ ok next
      → let m' = (run_round sum256 pools env latest from m).1 in
        IsReady latest m'
        × (latest + 1 - next + m'.task.batch_size < latest + 1 - from + m.task.batch_size)
  round_keeps env latest from m next le (v, z) h =
      elim (round_ok sum256 pools laws env latest from m next (below_64 latest from m le z) v h) [
        | inl s ↦
            let again = s.again in
            let halved = s.halved in
            let positive = z.positive in
            let fits = z.fits in
            ((rw s.same_pool v, record { positive = s.positive; fits = omega arith }), omega arith)
        | inr a ↦
            let size = a.same_size in
            let bounds = next_bounds le z a in
            (
              (a.valid, record { positive = rw size z.positive; fits = rw size z.fits }),
              rw size (omega (arith, bounds)),
            )
      ]
