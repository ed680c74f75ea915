-- ===== src/LogFilter/Memory/Popped.antt =====
-- The logs that `PopConfirmed` hands out: their blocks, and the independence of the order.
use mathlib.Core.List.{Perm, Permᴰ, perm_append_comm}
use mathlib.Core.List.Perm
use eip_toolkit.Prelude.{
  ℕ, ◌≡◌, refl, ap, inl, inr, true, List, [], ◌∷◌, ◌++◌, append_assoc, Bool-cases, Elem,
  Elem-append_left, Elem-append_right, Elem-append_cases,
}
use eip_toolkit.LogFilter.Log.{LogResult}
use eip_toolkit.LogFilter.Pool.{is_confirmed}
use eip_toolkit.LogFilter.Memory.Erase.{Entries, confirmed_part, confirmed_logs}

module _ (latest confirm : ℕ) where
  pub confirmed_logs_sound :
      (l : LogResult) (es : Entries)
      → Elem l (confirmed_logs latest confirm es)
      → (j : ℕ) × (logs : List LogResult) × Elem (j, logs) es
        × Elem l logs
        × (is_confirmed latest confirm j ≡ true)
  confirmed_logs_sound l [] m = elim m [ ]
  confirmed_logs_sound l ((h, logs) ∷ es) m = elim (Bool-cases (is_confirmed latest confirm h)) [
    | inl c ↦ first c (confirmed_logs_sound l es) (rw c at m)
    | inr c ↦ later (confirmed_logs_sound l es (rw c at m))
  ]
    where
      Found : Entries → Type 0
      Found fs =
          (j : ℕ) × (w : List LogResult) × Elem (j, w) fs
          × Elem l w
          × (is_confirmed latest confirm j ≡ true)

      later : Found es → Found ((h, logs) ∷ es)
      later (j, w, there, inside, c) = (j, w, inr there, inside, c)

      first :
          is_confirmed latest confirm h ≡ true
          → (Elem l (confirmed_logs latest confirm es) → Found es)
          → Elem l (logs ++ confirmed_logs latest confirm es)
          → Found ((h, logs) ∷ es)
      first c ih n = elim (Elem-append_cases l logs (confirmed_logs latest confirm es) n) [
        | inl here ↦ (h, logs, inl refl, here, c)
        | inr there ↦ later (ih there)
      ]

  pub confirmed_logs_complete :
      (l : LogResult) (j : ℕ) (w : List LogResult) (es : Entries)
      → Elem (j, w) es
      → Elem l w
      → is_confirmed latest confirm j ≡ true
      → Elem l (confirmed_logs latest confirm es)
  confirmed_logs_complete l j w [] m i c = elim m [ ]
  confirmed_logs_complete l j w ((h, logs) ∷ es) (inl e) i c =
      let here : is_confirmed latest confirm h ≡ true =
        rw (← ap (λ (p : ℕ × List LogResult). p.0) e) c in
      let inside : Elem l logs = rw (← ap (λ (p : ℕ × List LogResult). p.1) e) i in
      rw here (Elem-append_left l logs (confirmed_logs latest confirm es) inside)
  confirmed_logs_complete l j w ((h, logs) ∷ es) (inr m) i c =
      elim (Bool-cases (is_confirmed latest confirm h)) [
        | inl e ↦ rw e (
            Elem-append_right l logs (confirmed_logs latest confirm es)
              (confirmed_logs_complete l j w es m i c))
        | inr e ↦ rw e (confirmed_logs_complete l j w es m i c)
      ]

pub confirmed_logs-perm :
    (latest confirm : ℕ) {xs ys : Entries}
    → Permᴰ xs ys
    → Perm (confirmed_logs latest confirm xs) (confirmed_logs latest confirm ys)
confirmed_logs-perm latest confirm Permᴰ.nil = Perm.refl []
confirmed_logs-perm latest confirm (Permᴰ.cons {a = a} e p) =
    rw (← e)
      (Perm.append_left (confirmed_part latest confirm a) (confirmed_logs-perm latest confirm p))
confirmed_logs-perm latest confirm (Permᴰ.swap {a = a} {b = b} {l = l} e f) =
    rw (← e, ← f)
      (simp (← append_assoc) (
        Perm.append_right (confirmed_logs latest confirm l)
          (perm_append_comm (confirmed_part latest confirm a) (confirmed_part latest confirm b))))
confirmed_logs-perm latest confirm (Permᴰ.trans p q) =
    Perm.trans (confirmed_logs-perm latest confirm p) (confirmed_logs-perm latest confirm q)
