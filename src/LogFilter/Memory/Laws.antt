-- ===== src/LogFilter/Memory/Laws.antt =====
-- The pool in memory keeps the laws of the interface, whatever the order of iteration.
use mathlib.Core.List.Permᴰ
use mathlib.Core.List.{Perm}
use eip_toolkit.Prelude.{
  ℕ, ◌≡◌, ap, subst, ◌≢◌, ◌↔◌, ◌⊎◌, inl, inr, true, false, none, some, List, [], arith, ◌==◌,
  if◌then◌else◌, ==_iff, Bool-cases, Option-cases, Elem, Result, ok,
}
use eip_toolkit.Dict.{
  insert-Distinct, Dict, lookup, insert, Distinct, lookup-insert, lookup→Elem, Elem→lookup,
  Elem-perm,
}
use eip_toolkit.LogFilter.Log.{LogResult}
use eip_toolkit.LogFilter.Pool.{is_confirmed, IsPendingPool}
use eip_toolkit.LogFilter.Memory.{
  BlockPendingPool, IterationOrder, pop_confirmed, add, block_pending_pool,
}
use eip_toolkit.LogFilter.Memory.Erase.{
  confirmed_logs, erase_confirmed, pop_from_lem, erase_confirmed-Distinct, lookup_kept, lookup_gone,
  lookup_erased,
}
use eip_toolkit.LogFilter.Memory.Popped.{
  confirmed_logs_sound, confirmed_logs_complete, confirmed_logs-perm,
}

abbrev pub HeldIn : Dict (List LogResult) → ℕ → LogResult → Type 0
HeldIn d j l = (w : List LogResult) × (lookup j d ≡ some w) × Elem l w

pub HeldIn-insert :
    (h : ℕ) (logs : List LogResult) (d : Dict (List LogResult)) (j : ℕ) (l : LogResult)
    → HeldIn (insert h logs d) j l ↔ (((h ≡ j) × Elem l logs) ⊎ ((h ≢ j) × HeldIn d j l))
HeldIn-insert h logs d j l = (forth, back)
  where
    found : lookup j (insert h logs d) ≡ (if h == j then some logs else lookup j d)
    found = lookup-insert h j logs d

    forth : HeldIn (insert h logs d) j l → ((h ≡ j) × Elem l logs) ⊎ ((h ≢ j) × HeldIn d j l)
    forth (w, e, m) = elim (Bool-cases (h == j)) [
      | inl same ↦ inl ((==_iff h j).0 same, subst (Elem l) (ground (arith, found)) m)
      | inr other ↦ inr ((ground arith), (w, ground (arith, found), m))
    ]

    back : ((h ≡ j) × Elem l logs) ⊎ ((h ≢ j) × HeldIn d j l) → HeldIn (insert h logs d) j l
    back (inl (e, m)) = (logs, ground (arith, found), m)
    back (inr (ne, (w, e, m))) = (w, ground (arith, found), m)

module _ (order : IterationOrder) (latest confirm : ℕ) (d : Dict (List LogResult))
    (v : Distinct d) where
  abbrev kept : Dict (List LogResult)
  kept = erase_confirmed latest confirm (order.visit d) d

  listed : (j : ℕ) (w : List LogResult) → lookup j d ≡ some w → Elem (j, w) (order.visit d)
  listed j w e = Elem-perm (j, w) (Permᴰ.symm (order.visit-perm d)) (lookup→Elem j w d e)

  lookup-kept :
      (j : ℕ) → lookup j kept ≡ (if is_confirmed latest confirm j then none else lookup j d)
  lookup-kept j = elim (Bool-cases (is_confirmed latest confirm j)) [
    | inr c ↦ rw c (lookup_kept latest confirm j (order.visit d) d v c)
    | inl c ↦ rw c (elim (Option-cases (lookup j d)) [
      | inl n ↦ lookup_gone latest confirm j (order.visit d) d v n
      | inr (w, e) ↦ lookup_erased latest confirm j w (order.visit d) d v c (listed j w e)
    ])
  ]

  pub HeldIn-kept :
      (j : ℕ) (l : LogResult)
      → HeldIn kept j l ↔ (HeldIn d j l × (is_confirmed latest confirm j ≡ false))
  HeldIn-kept j l = (forth, back)
    where
      forth : HeldIn kept j l → HeldIn d j l × (is_confirmed latest confirm j ≡ false)
      forth (w, e, m) = elim (Bool-cases (is_confirmed latest confirm j)) [
        | inl c ↦ absurd (ground (arith, lookup-kept j))
        | inr c ↦ ((w, ground (arith, lookup-kept j), m), c)
      ]

      back : HeldIn d j l × (is_confirmed latest confirm j ≡ false) → HeldIn kept j l
      back ((w, e, m), c) = (w, ground (arith, lookup-kept j), m)

  pub Elem-popped :
      (l : LogResult)
      → Elem l (confirmed_logs latest confirm (order.visit d))
        ↔ ((j : ℕ) × HeldIn d j l × (is_confirmed latest confirm j ≡ true))
  Elem-popped l = (forth, back)
    where
      forth :
          Elem l (confirmed_logs latest confirm (order.visit d))
          → (j : ℕ) × HeldIn d j l × (is_confirmed latest confirm j ≡ true)
      forth m =
          let (j, w, there, inside, c) = confirmed_logs_sound latest confirm l (order.visit d) m in
          (j, (w, Elem→lookup j w d v (Elem-perm (j, w) (order.visit-perm d) there), inside), c)

      back :
          (j : ℕ) × HeldIn d j l × (is_confirmed latest confirm j ≡ true)
          → Elem l (confirmed_logs latest confirm (order.visit d))
      back (j, (w, e, m), c) =
          confirmed_logs_complete latest confirm l j w (order.visit d) (listed j w e) m c

module _ (order : IterationOrder) where
  pop_confirmed_lem :
      (latest confirm : ℕ) (p : BlockPendingPool)
      → pop_confirmed order latest confirm p ≡ (
        ok (confirmed_logs latest confirm (order.visit p.entries)),
        record { entries = erase_confirmed latest confirm (order.visit p.entries) p.entries },
      )
  unfolding pop_confirmed
  pop_confirmed_lem latest confirm p =
      rw (pop_from_lem latest confirm (order.visit p.entries) [] p.entries)

  pub pop-Distinct :
      (latest confirm : ℕ) (p : BlockPendingPool)
      → Distinct p.entries
      → Distinct (pop_confirmed order latest confirm p).1.entries
  pop-Distinct latest confirm p v =
      rw (pop_confirmed_lem latest confirm p)
        (erase_confirmed-Distinct latest confirm (order.visit p.entries) p.entries v)

  pub pop-HeldIn :
      (latest confirm : ℕ) (p : BlockPendingPool) (j : ℕ) (l : LogResult)
      → Distinct p.entries
      → HeldIn (pop_confirmed order latest confirm p).1.entries j l
        ↔ (HeldIn p.entries j l × (is_confirmed latest confirm j ≡ false))
  pop-HeldIn latest confirm p j l v =
      rw (pop_confirmed_lem latest confirm p) (HeldIn-kept order latest confirm p.entries v j l)

  pub pop-Elem :
      (latest confirm : ℕ) (p : BlockPendingPool) (out : List LogResult) (l : LogResult)
      → Distinct p.entries
      → (pop_confirmed order latest confirm p).0 ≡ ok out
      → Elem l out ↔ ((j : ℕ) × HeldIn p.entries j l × (is_confirmed latest confirm j ≡ true))
  pop-Elem latest confirm p out l v e =
      let same : confirmed_logs latest confirm (order.visit p.entries) ≡ out = cc (
        e,
        ap (λ (r : Result (List LogResult) × BlockPendingPool). r.0)
            (pop_confirmed_lem latest confirm p),
      ) in
      rw (← same) (Elem-popped order latest confirm p.entries v l)

-- Whatever the order of iteration, `PopConfirmed` hands out the logs of the blocks that are
-- confirmed, each as often as the pool holds it, and leaves under every height what was there, if
-- the height is not confirmed, and else nothing.
pub pop_confirmed_splits :
    (order : IterationOrder) (latest confirm : ℕ) (p : BlockPendingPool)
    → Distinct p.entries
    → (out : List LogResult) × (p' : BlockPendingPool) × (pop_confirmed order latest confirm p
        ≡ (ok out, p'))
      × Perm out (confirmed_logs latest confirm p.entries)
      × ((j : ℕ)
          → lookup j p'.entries
            ≡ (if is_confirmed latest confirm j then none else lookup j p.entries))
pop_confirmed_splits order latest confirm p v = (
  confirmed_logs latest confirm (order.visit p.entries),
  record { entries = kept order latest confirm p.entries v },
  pop_confirmed_lem order latest confirm p,
  confirmed_logs-perm latest confirm (order.visit-perm p.entries),
  lookup-kept order latest confirm p.entries v,
)

pub add-Distinct :
    (h : ℕ) (logs : List LogResult) (p : BlockPendingPool)
    → Distinct p.entries
    → Distinct (add h logs p).1.entries
unfolding add
add-Distinct h logs p v = insert-Distinct h logs p.entries v

pub add-HeldIn :
    (h : ℕ) (logs : List LogResult) (p : BlockPendingPool) (j : ℕ) (l : LogResult)
    → HeldIn (add h logs p).1.entries j l
      ↔ (((h ≡ j) × Elem l logs) ⊎ ((h ≢ j) × HeldIn p.entries j l))
unfolding add
add-HeldIn h logs p = HeldIn-insert h logs p.entries

abbrev pub block_pending_pool_laws :
    (order : IterationOrder) → IsPendingPool (block_pending_pool order)
block_pending_pool_laws order = record {
  IsValid = λ p. Distinct p.entries;
  Held = λ p j l. HeldIn p.entries j l;
  add-IsValid = λ h logs p fits. add-Distinct h logs p;
  Held-add = λ h logs p j l fits v e. add-HeldIn h logs p j l;
  pop-IsValid = pop-Distinct order;
  Held-pop = λ latest confirm p out j l v e. pop-HeldIn order latest confirm p j l v;
  Elem-pop = λ latest confirm p out l v e. pop-Elem order latest confirm p out l v e;
}
