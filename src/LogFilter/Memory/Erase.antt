-- ===== src/LogFilter/Memory/Erase.antt =====
-- The loop of `PopConfirmed` as two recursions on the entries: the logs that it hands out, and the
-- map that it leaves.
use eip_toolkit.Prelude.{
  ℕ, ◌≡◌, refl, ap, ◌∙◌, inl, inr, true, false, none, List, [], ◌∷◌, ◌++◌, append_assoc, append-nil,
  arith, if◌then◌else◌, Bool-cases, Elem,
}
use eip_toolkit.Dict.{Dict, lookup, erase, Distinct, lookup-erase, erase-Distinct}
use eip_toolkit.LogFilter.Log.{LogResult}
use eip_toolkit.LogFilter.Pool.{is_confirmed}
use eip_toolkit.LogFilter.Memory.{pop_from}

abbrev pub Entries : Type 0
Entries = List (ℕ × List LogResult)

module _ (latest confirm : ℕ) where
  abbrev pub confirmed_part : ℕ × List LogResult → List LogResult
  confirmed_part (h, logs) = if is_confirmed latest confirm h then logs else []

  -- The logs of the confirmed entries, in order.
  abbrev pub confirmed_logs : Entries → List LogResult
  confirmed_logs [] = []
  confirmed_logs (e ∷ es) = confirmed_part e ++ confirmed_logs es

  -- The map without the confirmed ones among the entries `es`.
  abbrev pub erase_confirmed : Entries → Dict (List LogResult) → Dict (List LogResult)
  erase_confirmed [] d = d
  erase_confirmed ((h, logs) ∷ es) d =
      erase_confirmed es (if is_confirmed latest confirm h then erase h d else d)

  pub pop_from_lem :
      (es : Entries) (out : List LogResult) (d : Dict (List LogResult))
      → pop_from latest confirm es out d ≡ (out ++ confirmed_logs es, erase_confirmed es d)
  unfolding pop_from
  pop_from_lem [] out d = rw append-nil
  pop_from_lem ((h, logs) ∷ es) out d = elim (Bool-cases (is_confirmed latest confirm h)) [
    | inl c ↦ rw (c, pop_from) (rw (pop_from_lem es (out ++ logs) (erase h d), append_assoc))
    | inr c ↦ rw (c, pop_from) (pop_from_lem es out d)
  ]

  pub erase_confirmed-Distinct :
      (es : Entries) (d : Dict (List LogResult)) → Distinct d → Distinct (erase_confirmed es d)
  erase_confirmed-Distinct [] d v = v
  erase_confirmed-Distinct ((h, logs) ∷ es) d v =
      elim (Bool-cases (is_confirmed latest confirm h)) [
        | inl c ↦ rw c (erase_confirmed-Distinct es (erase h d) (erase-Distinct h d v))
        | inr c ↦ rw c (erase_confirmed-Distinct es d v)
      ]

  -- A key that is not confirmed keeps its value.
  pub lookup_kept :
      (j : ℕ) (es : Entries) (d : Dict (List LogResult))
      → Distinct d
      → is_confirmed latest confirm j ≡ false
      → lookup j (erase_confirmed es d) ≡ lookup j d
  lookup_kept j [] d v c = refl
  lookup_kept j ((h, logs) ∷ es) d v c = elim (Bool-cases (is_confirmed latest confirm h)) [
    | inl e ↦ rw e (
        lookup_kept j es (erase h d) (erase-Distinct h d v) c
        ∙ ground (arith, lookup-erase h j d v))
    | inr e ↦ rw e (lookup_kept j es d v c)
  ]

  pub lookup_gone :
      (j : ℕ) (es : Entries) (d : Dict (List LogResult))
      → Distinct d
      → lookup j d ≡ none
      → lookup j (erase_confirmed es d) ≡ none
  lookup_gone j [] d v n = n
  lookup_gone j ((h, logs) ∷ es) d v n = elim (Bool-cases (is_confirmed latest confirm h)) [
    | inl e ↦
        rw e (
          lookup_gone j es (erase h d) (erase-Distinct h d v)
            (ground (arith, lookup-erase h j d v)))
    | inr e ↦ rw e (lookup_gone j es d v n)
  ]

  -- A confirmed key among the entries is gone.
  pub lookup_erased :
      (j : ℕ) (w : List LogResult) (es : Entries) (d : Dict (List LogResult))
      → Distinct d
      → is_confirmed latest confirm j ≡ true
      → Elem (j, w) es
      → lookup j (erase_confirmed es d) ≡ none
  lookup_erased j w [] d v c m = elim m [ ]
  lookup_erased j w ((h, logs) ∷ es) d v c (inl e) =
      let same : j ≡ h = ap (λ (p : ℕ × List LogResult). p.0) e in
      rw (subst_confirmed same)
        (lookup_gone j es (erase h d) (erase-Distinct h d v) (ground (arith, lookup-erase h j d v)))
    where
      subst_confirmed : j ≡ h → is_confirmed latest confirm h ≡ true
      subst_confirmed s = rw (← s) c
  lookup_erased j w ((h, logs) ∷ es) d v c (inr m) =
      elim (Bool-cases (is_confirmed latest confirm h)) [
        | inl e ↦ rw e (lookup_erased j w es (erase h d) (erase-Distinct h d v) c m)
        | inr e ↦ rw e (lookup_erased j w es d v c m)
      ]
