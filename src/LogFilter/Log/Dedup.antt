-- ===== src/LogFilter/Log/Dedup.antt =====
-- What the removal of duplicates keeps.

use eip_toolkit.Prelude.{
  ◌≡◌, refl, sym, ap, ◌∙◌, subst, ◌≢◌, ◌⊎◌, inl, inr, true, false, List, [], ◌∷◌, ◌++◌,
  append_assoc, append-nil, arith, Bool-cases, Elem, All, Bytes, bytes_eq_iff,
}
use eip_toolkit.LogFilter.Log.{LogResult, contains, unique_key, dedup_from, dedup}

contains→Elem : (k : Bytes) (seen : List Bytes) → contains k seen ≡ true → Elem k seen
contains→Elem k [] h = cc
contains→Elem k (j ∷ seen) h = ground (arith, bytes_eq_iff k j, contains→Elem k seen)

not-contains→not-Elem : (k : Bytes) (seen : List Bytes) → contains k seen ≡ false → ¬ Elem k seen
not-contains→not-Elem k [] h m = m
not-contains→not-Elem k (j ∷ seen) h m =
    ground (arith, bytes_eq_iff k j, not-contains→not-Elem k seen)

module _ (sum256 : Bytes → Bytes) where
  -- No two results of a list have one key.
  abbrev pub DistinctKeys : List LogResult → Type 0
  DistinctKeys [] = Unit
  DistinctKeys (l ∷ logs) =
      All (λ m. unique_key sum256 l ≢ unique_key sum256 m) logs × DistinctKeys logs

  -- The results that the loop adds behind `batch`.
  fresh : List LogResult → List Bytes → List LogResult
  fresh [] seen = []
  fresh (l ∷ logs) seen = elim (contains (unique_key sum256 l) seen) [
    | true ↦ fresh logs seen
    | false ↦ l ∷ fresh logs (unique_key sum256 l ∷ seen)
  ]

  module _ (l : LogResult) (logs : List LogResult) (seen : List Bytes) where
    fresh_old : contains (unique_key sum256 l) seen ≡ true → fresh (l ∷ logs) seen ≡ fresh logs seen
    unfolding fresh
    fresh_old e = rw (e, fresh)

    fresh_new :
        contains (unique_key sum256 l) seen ≡ false
        → fresh (l ∷ logs) seen ≡ l ∷ fresh logs (unique_key sum256 l ∷ seen)
    unfolding fresh
    fresh_new e = rw (e, fresh)

  dedup_from-fresh :
      (logs : List LogResult) (seen : List Bytes) (batch : List LogResult)
      → dedup_from sum256 logs seen batch ≡ batch ++ fresh logs seen
  unfolding dedup_from
  dedup_from-fresh [] seen batch = unfold fresh in sym (append-nil batch)
  dedup_from-fresh (l ∷ logs) seen batch = elim (Bool-cases (contains (unique_key sum256 l) seen)) [
    | inl old ↦
        rw (fresh_old l logs seen old) (rw (old, dedup_from) (dedup_from-fresh logs seen batch))
    | inr new ↦
        rw (fresh_new l logs seen new)
          (rw (new, dedup_from) (simp (dedup_from-fresh logs, append_assoc)))
  ]

  fresh-not-seen :
      (k : Bytes) (logs : List LogResult) (seen : List Bytes)
      → Elem k seen
      → All (λ m. k ≢ unique_key sum256 m) (fresh logs seen)
  fresh-not-seen k [] seen h = unfold fresh in tt
  fresh-not-seen k (l ∷ logs) seen h = elim (Bool-cases (contains (unique_key sum256 l) seen)) [
    | inl old ↦ rw (fresh_old l logs seen old) (fresh-not-seen k logs seen h)
    | inr new ↦ rw (fresh_new l logs seen new) (
      (λ e. not-contains→not-Elem _ seen new (rw (← e) h)),
      fresh-not-seen k logs (unique_key sum256 l ∷ seen) (inr h),
    )
  ]

  fresh-DistinctKeys : (logs : List LogResult) (seen : List Bytes) → DistinctKeys (fresh logs seen)
  fresh-DistinctKeys [] seen = unfold fresh in tt
  fresh-DistinctKeys (l ∷ logs) seen = elim (Bool-cases (contains (unique_key sum256 l) seen)) [
    | inl old ↦ rw (fresh_old l logs seen old) (fresh-DistinctKeys logs seen)
    | inr new ↦ rw (fresh_new l logs seen new) (
      fresh-not-seen (unique_key sum256 l) logs (unique_key sum256 l ∷ seen) (inl refl),
      fresh-DistinctKeys logs (unique_key sum256 l ∷ seen),
    )
  ]

  -- A result with the same key.
  abbrev pub KeyIn : LogResult → List LogResult → Type 0
  KeyIn l logs = (m : LogResult) × Elem m logs × (unique_key sum256 m ≡ unique_key sum256 l)

  fresh-KeyIn :
      (l : LogResult) (logs : List LogResult) (seen : List Bytes)
      → Elem l logs
      → Elem (unique_key sum256 l) seen ⊎ KeyIn l (fresh logs seen)
  fresh-KeyIn l [] seen h = elim h [ ]
  fresh-KeyIn l (x ∷ logs) seen h = elim (Bool-cases (contains (unique_key sum256 x) seen)) [
    | inl old ↦
        rw (fresh_old x logs seen old)
          (known (contains→Elem _ seen old) (fresh-KeyIn l logs seen) h)
    | inr new ↦
        rw (fresh_new x logs seen new) (added (fresh-KeyIn l logs (unique_key sum256 x ∷ seen)) h)
  ]
    where
      known :
          Elem (unique_key sum256 x) seen
          → (Elem l logs → Elem (unique_key sum256 l) seen ⊎ KeyIn l (fresh logs seen))
          → Elem l (x ∷ logs)
          → Elem (unique_key sum256 l) seen ⊎ KeyIn l (fresh logs seen)
      known m ih (inl e) = inl (rw e m)
      known m ih (inr h') = ih h'

      added :
          (Elem l logs
            → Elem (unique_key sum256 l) (unique_key sum256 x ∷ seen)
              ⊎ KeyIn l (fresh logs (unique_key sum256 x ∷ seen)))
          → Elem l (x ∷ logs)
          → Elem (unique_key sum256 l) seen ⊎ KeyIn l (x ∷ fresh logs (unique_key sum256 x ∷ seen))
      added ih (inl e) = inr (x, inl refl, ap (unique_key sum256) (sym e))
      added ih (inr h') = elim (ih h') [
        | inl (inl e) ↦ inr (x, inl refl, sym e)
        | inl (inr s) ↦ inl s
        | inr (m, there, e) ↦ inr (m, inr there, e)
      ]

  fresh-Elem :
      (l : LogResult) (logs : List LogResult) (seen : List Bytes)
      → Elem l (fresh logs seen)
      → Elem l logs
  fresh-Elem l [] seen h = unfold fresh in h
  fresh-Elem l (x ∷ logs) seen h = elim (Bool-cases (contains (unique_key sum256 x) seen)) [
    | inl old ↦ inr (fresh-Elem l logs seen (rw (fresh_old x logs seen old) at h))
    | inr new ↦
        let h' : Elem l (x ∷ fresh logs (unique_key sum256 x ∷ seen)) =
          rw (fresh_new x logs seen new) at h in
        elim h' [ inl e ↦ inl e | inr t ↦ inr (fresh-Elem l logs (unique_key sum256 x ∷ seen) t) ]
  ]

  dedup-fresh : (logs : List LogResult) → dedup sum256 logs ≡ fresh logs []
  unfolding dedup
  dedup-fresh logs = dedup_from-fresh logs [] []

  -- A batch without its duplicates has one result for each key of the batch, whatever the digest:
  -- no key occurs twice, every key of the batch is there, and no result is made up.
  pub dedup_one_for_each_key :
      (logs : List LogResult)
      → DistinctKeys (dedup sum256 logs)
        × ((l : LogResult) → Elem l logs → KeyIn l (dedup sum256 logs))
        × ((l : LogResult) → Elem l (dedup sum256 logs) → Elem l logs)
  dedup_one_for_each_key logs = rw (dedup-fresh logs) (
    fresh-DistinctKeys logs [],
    (λ l h. found l (fresh-KeyIn l logs [] h)),
    (λ l. fresh-Elem l logs []),
  )
    where
      found : (l : LogResult) → ⊥ ⊎ KeyIn l (fresh logs []) → KeyIn l (fresh logs [])
      found l (inl h) = absurd h
      found l (inr k) = k

  -- The event of a log within its transaction plays no part in its key.
  abbrev pub SameTransaction : LogResult → LogResult → Type 0
  SameTransaction l m =
      (l.block_number ≡ m.block_number) × (l.transaction_hash ≡ m.transaction_hash)

  same_key : (l m : LogResult) → SameTransaction l m → unique_key sum256 l ≡ unique_key sum256 m
  unfolding unique_key
  same_key l m h = rw (h.0, h.1)

  -- The key of `l` is among the keys, or that of one of the logs.
  abbrev Known : LogResult → List Bytes → List LogResult → Type 0
  Known l seen logs =
      (contains (unique_key sum256 l) seen ≡ true)
      ⊎ ((m : LogResult) × Elem m logs × (unique_key sum256 m ≡ unique_key sum256 l))

  -- A log whose key was seen before it plays no part.
  fresh_later :
      (before : List LogResult) (l : LogResult) (after : List LogResult) (seen : List Bytes)
      → Known l seen before
      → fresh (before ++ l ∷ after) seen ≡ fresh (before ++ after) seen
  fresh_later [] l after seen (inl old) = fresh_old l after seen old
  fresh_later [] l after seen (inr (m, none_before, e)) = elim none_before [ ]
  fresh_later (x ∷ before) l after seen h =
      elim (Bool-cases (contains (unique_key sum256 x) seen)) [
        | inl old ↦
            fresh_old x (before ++ l ∷ after) seen old
            ∙ fresh_later before l after seen (earlier old h)
            ∙ sym (fresh_old x (before ++ after) seen old)
        | inr new ↦
            fresh_new x (before ++ l ∷ after) seen new
            ∙ ap (λ t. x ∷ t) (fresh_later before l after (unique_key sum256 x ∷ seen) (with_x h))
            ∙ sym (fresh_new x (before ++ after) seen new)
      ]
    where
      earlier :
          contains (unique_key sum256 x) seen ≡ true
          → Known l seen (x ∷ before)
          → Known l seen before
      earlier old (inl k) = inl k
      earlier old (inr (m, inl here, e)) =
          inl (subst (λ k. contains k seen ≡ true) (ap (unique_key sum256) (sym here) ∙ e) old)
      earlier old (inr (m, inr there, e)) = inr (m, there, e)

      with_x : Known l seen (x ∷ before) → Known l (unique_key sum256 x ∷ seen) before
      with_x (inl k) = inl (ground arith)
      with_x (inr (m, inl here, e)) =
          let same : unique_key sum256 l ≡ unique_key sum256 x =
            sym e ∙ ap (unique_key sum256) here in
          let eq = (bytes_eq_iff (unique_key sum256 l) (unique_key sum256 x)).1 same in
          inl (ground arith)
      with_x (inr (m, inr there, e)) = inr (m, there, e)

  -- Of the logs of one transaction in a batch all but the first are dropped: a log behind another
  -- one of its block and transaction, wherever the two stand and whatever their addresses, topics
  -- and data are, changes nothing of what is kept.
  pub dedup_drops_events_of_one_transaction :
      (before : List LogResult) (l : LogResult) (after : List LogResult) (m : LogResult)
      → Elem m before
      → SameTransaction m l
      → dedup sum256 (before ++ l ∷ after) ≡ dedup sum256 (before ++ after)
  dedup_drops_events_of_one_transaction before l after m earlier same =
      dedup-fresh (before ++ l ∷ after)
      ∙ fresh_later before l after [] (inr (m, earlier, same_key m l same))
      ∙ sym (dedup-fresh (before ++ after))
