-- ===== src/LogFilter/Rpc/Retries.antt =====
-- The outcome, the number of calls and the waits of a call with retries (`RealRPC.BlockNumber`
-- and `RealRPC.EthGetLogs`, go/logfilter/logfilter.go).
use eip_toolkit.Prelude.{
  ℕ, suc, max, ◌≤◌, ◌<◌, ◌≡◌, sym, ap, ◌∙◌, subst, ◌⊎◌, inl, inr, Option, none, some, Bytes,
  GoError, wrap, Result, ok, err,
}
use eip_toolkit.Prelude.Int.{pos}
use eip_toolkit.LogFilter.Rpc.{RealRpc, with_retries}
use eip_toolkit.LogFilter.Rpc.Steps.{
  waits_from, zero_add, FailsBelow, attempts_first_answer, attempts_exhausted, attempts-Ends,
}

module _ {A : Type 0} where
  -- With a bound of `max` retries, where the first `n ≤ max` attempts fail and the context does not
  -- end the waits, attempt `n` (from 0) is returned if it succeeds: after n + 1 calls, n counted
  -- retries and the waits of the first n attempts.
  pub with_retries_first_answer :
      (prefix : Bytes) (r : RealRpc) (answer : ℕ → Result A) (done : ℕ → Option GoError) (max n : ℕ)
      (a : A)
      → n ≤ max
      → ((i : ℕ) → i < n → ((e : GoError) × (answer i ≡ err e)) × (done i ≡ none))
      → answer n ≡ ok a
      → with_retries prefix r answer done (pos max) ≡ record {
        outcome = ok a;
        calls = suc n;
        retries_total = n;
        waits = waits_from r.retry_base_wait 0 n;
      }
  with_retries_first_answer prefix r answer done max n a h fails e =
      attempts_first_answer prefix r.retry_base_wait answer done max 0 n a h
        (subst (FailsBelow prefix r.retry_base_wait answer done) (zero_add n) fails)
        (ap answer (sym (zero_add n)) ∙ e)

  -- Where every attempt up to `max` fails and no wait is ended by the context, the error of the last
  -- one is returned behind the prefix, after max + 1 calls and max waits.
  pub with_retries_exhausted :
      (prefix : Bytes) (r : RealRpc) (answer : ℕ → Result A) (done : ℕ → Option GoError) (max : ℕ)
      (e : GoError)
      → ((i : ℕ) → i < max → ((e' : GoError) × (answer i ≡ err e')) × (done i ≡ none))
      → answer max ≡ err e
      → with_retries prefix r answer done (pos max) ≡ record {
        outcome = err (wrap prefix e);
        calls = suc max;
        retries_total = suc max;
        waits = waits_from r.retry_base_wait 0 max;
      }
  with_retries_exhausted prefix r answer done max e fails h =
      attempts_exhausted prefix r.retry_base_wait answer done max 0 e
        (subst (FailsBelow prefix r.retry_base_wait answer done) (zero_add max) fails)
        (ap answer (sym (zero_add max)) ∙ h)

  -- What a call with retries does, in full, with a bound of `max` retries: it goes on as long as the
  -- attempts fail, the bound allows another and the context does not end the wait behind one. So
  -- with n failures at first it returns the answer of attempt n; or, with n = max and attempt n
  -- failed as well, its error behind the prefix; or, where the context ends the wait behind attempt
  -- n < max, the error of the context. In each case the calls, the counted retries and the waits
  -- are those of the attempts 0 to n.
  pub with_retries_outcome :
      (prefix : Bytes) (r : RealRpc) (answer : ℕ → Result A) (done : ℕ → Option GoError) (max : ℕ)
      → (n : ℕ) × (n ≤ max)
        × ((i : ℕ) → i < n → ((e : GoError) × (answer i ≡ err e)) × (done i ≡ none))
        × (((a : A) × (answer n ≡ ok a)
              × (with_retries prefix r answer done (pos max) ≡ record {
                outcome = ok a;
                calls = suc n;
                retries_total = n;
                waits = waits_from r.retry_base_wait 0 n;
              }))
            ⊎ ((e : GoError) × (n ≡ max)
                × (answer n ≡ err e)
                × (with_retries prefix r answer done (pos max) ≡ record {
                  outcome = err (wrap prefix e);
                  calls = suc n;
                  retries_total = suc n;
                  waits = waits_from r.retry_base_wait 0 n;
                }))
            ⊎ ((e c : GoError) × (n < max)
                × (answer n ≡ err e)
                × (done n ≡ some c)
                × (with_retries prefix r answer done (pos max) ≡ record {
                  outcome = err c;
                  calls = suc n;
                  retries_total = suc n;
                  waits = waits_from r.retry_base_wait 0 (suc n);
                })))
  with_retries_outcome prefix r answer done max =
      let base = r.retry_base_wait in
      let (n, le, fails, ends) = attempts-Ends prefix base answer done max 0 in
      (
        n,
        le,
        (λ i lt.
            let ((e, h), d) = fails i lt in
            ((e, ap answer (zero_add i) ∙ h), ap done (zero_add i) ∙ d)),
        elim ends [
          | inl (a, h, t) ↦ inl (a, ap answer (zero_add n) ∙ h, t)
          | inr (inl (e, same, h, t)) ↦ inr (inl (e, same, ap answer (zero_add n) ∙ h, t))
          | inr (inr (e, c, lt, h, d, t)) ↦
              inr (inr (e, c, lt, ap answer (zero_add n) ∙ h, ap done (zero_add n) ∙ d, t))
        ],
      )
