-- ===== src/LogFilter/Redis/Popped.antt =====
-- A call of `RedisPendingPool.PopConfirmed` that succeeds (go/logfilter/logfilter.go): what it
-- hands out, and what it has done to Redis.
use eip_toolkit.Prelude.{
  ℕ, ◌≡◌, refl, sym, ap, ◌∙◌, ok_eq, ◌⊎◌, inl, inr, none, List, [], ◌∷◌, arith, Option-cases, Bytes,
  Result, ok, err,
}
use eip_toolkit.LogFilter.Log.{LogResult}
use eip_toolkit.LogFilter.Redis.{
  Redis, Client, Json, Command, exec, finish, pop_from, pop_confirmed,
}
use eip_toolkit.LogFilter.Redis.Gather.{gather}
use eip_toolkit.LogFilter.Redis.Spec.{entry_logs, entry_commands, pop_from-gather}

finish_ok :
    (client : Client) (r : Redis) (p : Result (List LogResult × List Command))
    (out : List LogResult)
    → (finish client r p).0 ≡ ok out
    → (pipe : List Command) × (p ≡ ok (out, pipe))
      × (((out ≡ []) × ((finish client r p).1 ≡ r)) ⊎ ((finish client r p).1 ≡ exec pipe r))
finish_ok client r (err e) out h = ground arith
finish_ok client r (ok ([], pipe)) out h =
    let same = ok_eq h in (pipe, ap (λ z. ok (z, pipe)) same, inl (sym same, refl))
finish_ok client r (ok (k ∷ ks, pipe)) out h = elim (Option-cases client.exec_failure) [
  | inr (e, bad) ↦ ground arith
  | inl good ↦ (pipe, ground arith, inr (ground arith))
]

module _ (json : Json) (prefix : Bytes) (client : Client) (latest confirm : ℕ) (r : Redis) where
  abbrev pub logs_out : List LogResult
  logs_out = gather (entry_logs json prefix latest confirm r) (client.visit r.index)

  abbrev pub commands_out : List Command
  commands_out = gather (entry_commands json prefix latest confirm r) (client.visit r.index)

  reads :
      client.smembers_error ≡ none
      → pop_confirmed json prefix client latest confirm r
        ≡ finish client r
            (pop_from json prefix client latest confirm r (client.visit r.index) [] [])
  unfolding pop_confirmed
  reads good = rw good refl

  pub pop_ok :
      (out : List LogResult)
      → (pop_confirmed json prefix client latest confirm r).0 ≡ ok out
      → (out ≡ logs_out)
        × (((out ≡ []) × ((pop_confirmed json prefix client latest confirm r).1 ≡ r))
            ⊎ ((pop_confirmed json prefix client latest confirm r).1 ≡ exec commands_out r))
  unfolding pop_confirmed
  pop_ok out e = elim (Option-cases client.smembers_error) [
    | inr (d, bad) ↦ ground arith
    | inl good ↦
        let p = pop_from json prefix client latest confirm r (client.visit r.index) [] [] in
        let read = reads good in
        let (pipe, goes, after) = finish_ok client r p out (ap (λ q. q.0) (sym read) ∙ e) in
        let parts =
          pop_from-gather json prefix latest confirm r client (client.visit r.index) [] out [] pipe
            goes in
        (
          parts.0,
          elim after [
            | inl (none', same) ↦ inl (none', ap (λ q. q.1) read ∙ same)
            | inr ran ↦ inr (ap (λ q. q.1) read ∙ ran ∙ ap (λ z. exec z r) parts.1)
          ],
        )
  ]
