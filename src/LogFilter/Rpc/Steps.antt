-- ===== src/LogFilter/Rpc/Steps.antt =====
-- The attempts of a call with retries, from any attempt on (`RealRPC.BlockNumber` and
-- `RealRPC.EthGetLogs`, go/logfilter/logfilter.go).
use eip_toolkit.Prelude.{
  ℕ, zero, suc, ◌+◌, ◌≤◌, ◌<◌, ◌≡◌, refl, sym, ap, ◌∙◌, subst, ◌⊎◌, inl, inr, Option, none, some,
  List, [], ◌∷◌, arith, Option-cases, Bytes, GoError, wrap, Result, ok, err, Result-cases,
}
use eip_toolkit.LogFilter.Rpc.{Attempts, attempts, wait_of, after_failure, begin_wait}

-- The waits behind the attempts `from`, `from + 1`, …, `from + n - 1`.
abbrev pub waits_from : ℕ → ℕ → ℕ → List ℕ
waits_from base from zero = []
waits_from base from (suc n) = wait_of base from ∷ waits_from base (suc from) n

shift : (k n : ℕ) → k + suc n ≡ suc k + n
shift k n = omega arith

plus_zero : (k : ℕ) → k + 0 ≡ k
plus_zero k = omega arith

pub zero_add : (n : ℕ) → n ≡ 0 + n
zero_add n = omega arith

module _ {A : Type 0} (prefix : Bytes) (base : ℕ) (answer : ℕ → Result A)
    (done : ℕ → Option GoError) where
  abbrev pub FailsBelow : ℕ → Type 0
  FailsBelow j = (i : ℕ) → i < j → ((e : GoError) × (answer i ≡ err e)) × (done i ≡ none)

  attempts_again :
      (left k : ℕ) (e : GoError)
      → answer k ≡ err e
      → done k ≡ none
      → attempts prefix base answer done (suc left) k
        ≡ begin_wait
            (wait_of base k)
            (after_failure (attempts prefix base answer done left (suc k)))
  unfolding attempts
  attempts_again left k e failed still = ground arith

  attempts_stop :
      (left k : ℕ) (a : A)
      → answer k ≡ ok a
      → attempts prefix base answer done left k
        ≡ record { outcome = ok a; calls = 1; retries_total = 0; waits = [] }
  unfolding attempts
  attempts_stop zero k a h = ground arith
  attempts_stop (suc left) k a h = ground arith

  attempts_last :
      (k : ℕ) (e : GoError)
      → answer k ≡ err e
      → attempts prefix base answer done zero k
        ≡ record { outcome = err (wrap prefix e); calls = 1; retries_total = 1; waits = [] }
  unfolding attempts
  attempts_last k e h = ground arith

  attempts_done :
      (left k : ℕ) (e c : GoError)
      → answer k ≡ err e
      → done k ≡ some c
      → attempts prefix base answer done (suc left) k
        ≡ record { outcome = err c; calls = 1; retries_total = 1; waits = wait_of base k ∷ [] }
  unfolding attempts
  attempts_done left k e c h n = ground arith

  pub attempts_first_answer :
      (left k n : ℕ) (a : A)
      → n ≤ left
      → FailsBelow (k + n)
      → answer (k + n) ≡ ok a
      → attempts prefix base answer done left k
        ≡ record { outcome = ok a; calls = suc n; retries_total = n; waits = waits_from base k n }
  unfolding attempts
  attempts_first_answer zero k zero a h fails e = ground arith
  attempts_first_answer zero k (suc n) a h fails e = ground arith
  attempts_first_answer (suc left) k zero a h fails e = ground arith
  attempts_first_answer (suc left) k (suc n) a h fails e =
      let ih =
        attempts_first_answer left (suc k) n a (omega arith) (subst FailsBelow (shift k n) fails)
          (ap answer (sym (shift k n)) ∙ e) in
      let ((e', failed), still) = fails k (omega arith) in
      attempts_again left k e' failed still
      ∙ ap (λ r. begin_wait (wait_of base k) (after_failure r)) ih

  pub attempts_exhausted :
      (left k : ℕ) (e : GoError)
      → FailsBelow (k + left)
      → answer (k + left) ≡ err e
      → attempts prefix base answer done left k ≡ record {
        outcome = err (wrap prefix e);
        calls = suc left;
        retries_total = suc left;
        waits = waits_from base k left;
      }
  unfolding attempts
  attempts_exhausted zero k e fails last = ground arith
  attempts_exhausted (suc left) k e fails last =
      let ih =
        attempts_exhausted left (suc k) e (subst FailsBelow (shift k left) fails)
          (ap answer (sym (shift k left)) ∙ last) in
      let ((e', failed), still) = fails k (omega arith) in
      attempts_again left k e' failed still
      ∙ ap (λ r. begin_wait (wait_of base k) (after_failure r)) ih

  -- How the attempts from `k` on end behind `n` failures, with `left` more allowed.
  abbrev Ends : ℕ → ℕ → ℕ → Attempts A → Type 0
  Ends left k n r =
      ((a : A) × (answer (k + n) ≡ ok a)
        × (r ≡ record {
          outcome = ok a;
          calls = suc n;
          retries_total = n;
          waits = waits_from base k n;
        }))
      ⊎ ((e : GoError) × (n ≡ left)
          × (answer (k + n) ≡ err e)
          × (r ≡ record {
            outcome = err (wrap prefix e);
            calls = suc n;
            retries_total = suc n;
            waits = waits_from base k n;
          }))
      ⊎ ((e c : GoError) × (n < left)
          × (answer (k + n) ≡ err e)
          × (done (k + n) ≡ some c)
          × (r ≡ record {
            outcome = err c;
            calls = suc n;
            retries_total = suc n;
            waits = waits_from base k (suc n);
          }))

  abbrev FailsFrom : ℕ → ℕ → Type 0
  FailsFrom k n =
      (i : ℕ) → i < n → ((e : GoError) × (answer (k + i) ≡ err e)) × (done (k + i) ≡ none)

  later-Ends :
      (left k n : ℕ) (r : Attempts A)
      → Ends left (suc k) n r
      → Ends (suc left) k (suc n) (begin_wait (wait_of base k) (after_failure r))
  later-Ends left k n r (inl (a, h, e)) =
      inl (a, ap answer (shift k n) ∙ h, ap (λ q. begin_wait (wait_of base k) (after_failure q)) e)
  later-Ends left k n r (inr (inl (f, same, h, e))) = inr (
      inl (
        f,
        ap suc same,
        ap answer (shift k n) ∙ h,
        ap (λ q. begin_wait (wait_of base k) (after_failure q)) e,
      ))
  later-Ends left k n r (inr (inr (f, c, lt, h, d, e))) = inr (
      inr (
        f,
        c,
        omega arith,
        ap answer (shift k n) ∙ h,
        ap done (shift k n) ∙ d,
        ap (λ q. begin_wait (wait_of base k) (after_failure q)) e,
      ))

  later_fails :
      (k n : ℕ) (e : GoError)
      → answer k ≡ err e
      → done k ≡ none
      → FailsFrom (suc k) n
      → FailsFrom k (suc n)
  later_fails k n e h d fails zero lt =
      ((e, ap answer (plus_zero k) ∙ h), ap done (plus_zero k) ∙ d)
  later_fails k n e h d fails (suc i) lt =
      let ((f, g), still) = fails i (omega arith) in
      ((f, ap answer (shift k i) ∙ g), ap done (shift k i) ∙ still)

  pub attempts-Ends :
      (left k : ℕ)
      → (n : ℕ) × (n ≤ left)
        × FailsFrom k n
        × Ends left k n (attempts prefix base answer done left k)
  unfolding attempts
  attempts-Ends zero k = elim (Result-cases (answer k)) [
    | inl (a, h) ↦ (
      0,
      omega arith,
      (λ i lt. absurd (omega arith)),
      inl (a, ap answer (plus_zero k) ∙ h, attempts_stop zero k a h),
    )
    | inr (e, h) ↦ (
      0,
      omega arith,
      (λ i lt. absurd (omega arith)),
      inr (inl (e, refl, ap answer (plus_zero k) ∙ h, attempts_last k e h)),
    )
  ]
  attempts-Ends (suc left) k = elim (Result-cases (answer k)) [
    | inl (a, h) ↦ (
      0,
      omega arith,
      (λ i lt. absurd (omega arith)),
      inl (a, ap answer (plus_zero k) ∙ h, attempts_stop (suc left) k a h),
    )
    | inr (e, h) ↦ elim (Option-cases (done k)) [
      | inl d ↦
          let (n, le, fails, ends) = attempts-Ends left (suc k) in
          (
            suc n,
            omega arith,
            later_fails k n e h d fails,
            subst (λ q. Ends (suc left) k (suc n) q) (sym (attempts_again left k e h d))
                (later-Ends left k n _ ends),
          )
      | inr (c, d) ↦ (
        0,
        omega arith,
        (λ i lt. absurd (omega arith)),
        inr (
            inr (
              e,
              c,
              omega arith,
              ap answer (plus_zero k) ∙ h,
              ap done (plus_zero k) ∙ d,
              attempts_done left k e c h d,
            )),
      )
    ]
  ]
