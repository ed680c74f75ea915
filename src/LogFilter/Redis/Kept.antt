-- ===== src/LogFilter/Redis/Kept.antt =====
-- What `RedisPendingPool.PopConfirmed` leaves in Redis (go/logfilter/logfilter.go).
use eip_toolkit.Prelude.{
  ℕ, ◌≡◌, refl, sym, subst, ◌⊎◌, inl, inr, Bool, some, List, [], ◌∷◌, arith, Option-cases, Bytes,
  GoError, Result, ok, err,
}
use eip_toolkit.LogFilter.Log.{LogResult}
use eip_toolkit.LogFilter.Redis.{
  Redis, Client, Json, Command, exec, keep, pop_from, finish, pop_confirmed,
}

-- Nothing was handed out: an error, or no log.
abbrev pub HandsOutNone : Result (List LogResult) → Type 0
HandsOutNone (err e) = Unit
HandsOutNone (ok []) = Unit
HandsOutNone (ok (l ∷ out)) = ⊥

-- `Exec` was called and has failed: its error is the result, and some of the commands were applied.
abbrev pub ExecFailed :
    Client
    → Redis
    → Result (List LogResult × List Command)
    → Result (List LogResult) × Redis
    → Type 0
ExecFailed client r p t =
    (e : GoError) × (applied : Command → Bool) × (client.exec_failure ≡ some (e, applied))
    × (l : LogResult) × (out : List LogResult) × (pipe : List Command) × (p ≡ ok (l ∷ out, pipe))
    × (t ≡ (err e, exec (keep applied pipe) r))

finish_keeps :
    (client : Client) (r : Redis) (p : Result (List LogResult × List Command))
    → HandsOutNone (finish client r p).0
    → ((finish client r p).1 ≡ r) ⊎ ExecFailed client r p (finish client r p)
finish_keeps client r (err e) h = inl refl
finish_keeps client r (ok ([], pipe)) h = inl refl
finish_keeps client r (ok (l ∷ out, pipe)) h = elim (Option-cases client.exec_failure) [
  | inr ((e, applied), bad) ↦ inr (e, applied, bad, l, out, pipe, refl, ground arith)
  | inl good ↦ ground arith
]

-- Where `PopConfirmed` hands out nothing, by an error or because no confirmed height has a log,
-- Redis is as it was, also where a confirmed height without logs stays in the index with its
-- payload; but for one case: some log was ready and `Exec` has failed, so its error is returned, and
-- those commands that were applied all the same have removed what they remove.
pub empty_pop_changes_no_key :
    (json : Json) (prefix : Bytes) (client : Client) (latest confirm : ℕ) (r : Redis)
    → HandsOutNone (pop_confirmed json prefix client latest confirm r).0
    → ((pop_confirmed json prefix client latest confirm r).1 ≡ r)
      ⊎ ExecFailed client r
          (pop_from json prefix client latest confirm r (client.visit r.index) [] [])
          (pop_confirmed json prefix client latest confirm r)
unfolding pop_confirmed
empty_pop_changes_no_key json prefix client latest confirm r h =
    elim (Option-cases client.smembers_error) [
      | inr (e, bad) ↦ inl (ground arith)
      | inl good ↦
          let same : pop_confirmed json prefix client latest confirm r
              ≡ finish client r
                  (pop_from json prefix client latest confirm r (client.visit r.index) [] []) =
            ground arith in
          subst
            (λ t.
              (t.1 ≡ r)
              ⊎ ExecFailed client r
                  (pop_from json prefix client latest confirm r (client.visit r.index) [] []) t)
            (sym same)
            (finish_keeps client r
              (pop_from json prefix client latest confirm r (client.visit r.index) [] [])
              (subst (λ t. HandsOutNone t.0) same h))
    ]
