-- ===== src/Prelude/Results.antt =====
-- Go errors and the results of fallible calls.
use mathlib.Core.Path.{◌≡◌, refl}
use mathlib.Core.List.{◌++◌}
use mathlib.Core.Logic.{◌⊎◌, inl, inr}
use eip_toolkit.Prelude.Text.{Bytes, codes}

-- `text` is any error with that message; `wrap` is `fmt.Errorf("<prefix>%w", err)`.
pub data GoError : Type 0 where
  canceled deadline_exceeded : GoError
  text : Bytes → GoError
  wrap : Bytes → GoError → GoError

-- `err.Error()`.
abbrev pub message : GoError → Bytes
message canceled = codes "context canceled"
message deadline_exceeded = codes "context deadline exceeded"
message (text m) = m
message (wrap p e) = p ++ message e

pub data Result {ℓ} (A : Type ℓ) : Type ℓ where
  ok : A → Result A
  err : GoError → Result A

pub Result-cases {ℓ} :
    {A : Type ℓ} (r : Result A) → ((a : A) × (r ≡ ok a)) ⊎ ((e : GoError) × (r ≡ err e))
Result-cases (ok a) = inl (a, refl)
Result-cases (err e) = inr (e, refl)

pub ok_eq {ℓ} : {A : Type ℓ} {a b : A} → ok a ≡ ok b → a ≡ b
ok_eq h = cc
