-- ===== src/LogFilter/Rpc/Hidden.antt =====
-- What `IsRateLimitOrRangeErr` says of the errors of `RealRPC.EthGetLogs`
-- (go/logfilter/logfilter.go).
use eip_toolkit.LogFilter.Rpc.Retries.{with_retries_outcome}
use eip_toolkit.LogFilter.Rpc.{
  RealRpc, RawLog, FilterQuery, Conversions, eth_get_logs, with_retries,
}
use eip_toolkit.LogFilter.Log.{LogResult}
use eip_toolkit.Prelude.Int.{ℤ, pos, negsuc}
use eip_toolkit.Prelude.{
  ℕ, ◌≡◌, refl, sym, ap, ◌∙◌, subst, ◌⊎◌, inl, inr, false, Option, some, List, Bytes, codes,
  GoError, canceled, deadline_exceeded, wrap, Result, ok, err,
}
use eip_toolkit.LogFilter.Errors.{is_rate_limit_or_range_err}

wrapped_is_no_range_error :
    (e : GoError)
    → is_rate_limit_or_range_err (some (wrap (codes "get logs retries exhausted: ") e)) ≡ false
unfolding is_rate_limit_or_range_err
wrapped_is_no_range_error e = refl

err_eq {ℓ} : {A : Type ℓ} {d e : GoError} {r : Result A} → r ≡ err d → r ≡ err e → d ≡ e
err_eq g h = cc

context_is_no_range_error :
    (c : GoError)
    → (c ≡ canceled) ⊎ (c ≡ deadline_exceeded)
    → is_rate_limit_or_range_err (some c) ≡ false
unfolding is_rate_limit_or_range_err
context_is_no_range_error c (inl h) = rw h refl
context_is_no_range_error c (inr h) = rw h refl

outcome_is_no_range_error :
    (r : RealRpc) (answer : ℕ → Result (List LogResult)) (done : ℕ → Option GoError) (e : GoError)
    (bound : ℤ)
    → ((i : ℕ) (c : GoError) → done i ≡ some c → (c ≡ canceled) ⊎ (c ≡ deadline_exceeded))
    → (with_retries (codes "get logs retries exhausted: ") r answer done bound).outcome ≡ err e
    → is_rate_limit_or_range_err (some e) ≡ false
unfolding is_rate_limit_or_range_err
outcome_is_no_range_error r answer done e (negsuc n) ctx h =
    subst (λ x. is_rate_limit_or_range_err (some x) ≡ false) (err_eq refl h) refl
outcome_is_no_range_error r answer done e (pos n) ctx h =
    elim (with_retries_outcome (codes "get logs retries exhausted: ") r answer done n).3 [
      | inl (a, f, t) ↦ absurd (no_error a e (sym (ap (λ q. q.outcome) t) ∙ h))
      | inr (inl (d, same, f, t)) ↦
          subst (λ x. is_rate_limit_or_range_err (some x) ≡ false)
            (err_eq (ap (λ q. q.outcome) t) h) refl
      | inr (inr (d, c, lt, f, g, t)) ↦
          subst (λ x. is_rate_limit_or_range_err (some x) ≡ false)
            (err_eq (ap (λ q. q.outcome) t) h) (context_is_no_range_error c (ctx _ c g))
    ]
  where
    no_error :
        (a : List LogResult) (d : GoError) → ◌≡◌ {A = Result (List LogResult)} (ok a) (err d) → ⊥
    no_error a d h = cc

-- No error of `RealRPC.EthGetLogs` is taken for a rate limit or range error, whatever the node
-- answers and however many retries are allowed: the message has a prefix in front. The errors of
-- the context are those of Go's context package.
pub range_error_is_hidden :
    (conv : Conversions) (r : RealRpc) (filter_logs : ℕ → FilterQuery → Result (List RawLog))
    (done : ℕ → Option GoError) (from to : ℕ) (addresses : List Bytes) (topics : List (List Bytes))
    (e : GoError)
    → ((i : ℕ) (c : GoError) → done i ≡ some c → (c ≡ canceled) ⊎ (c ≡ deadline_exceeded))
    → (eth_get_logs conv r filter_logs done from to addresses topics).outcome ≡ err e
    → is_rate_limit_or_range_err (some e) ≡ false
unfolding eth_get_logs
range_error_is_hidden conv r filter_logs done from to addresses topics e ctx h =
    outcome_is_no_range_error r _ done e r.max_retries ctx h
