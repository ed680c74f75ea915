-- ===== src/LogFilter/Redis/Held.antt =====
-- The logs that `RedisPendingPool` holds, and what `Add` changes of them
-- (go/logfilter/logfilter.go).
use mathlib.Core.List.{append_cancel_left}
use eip_toolkit.Prelude.{
  ℕ, ◌<◌, ◌≡◌, refl, sym, ap, ◌∙◌, subst, some_eq, ok_eq, ◌≢◌, ◌↔◌, ◌⊎◌, inl, inr, Bool, true, none,
  some, List, [], ◌∷◌, ◌++◌, arith, u64_mod, ◌==◌, ==_iff, Bool-cases, Option-cases, some_eq, Elem,
  Bytes, codes, bytes_eq, bytes_eq→eq, bytes_eq_refl, ok, Result-cases,
}
use eip_toolkit.Decimal.{format_uint, parse_uint, parse_uint-format_uint}
use eip_toolkit.LogFilter.Log.{LogResult, contains}
use eip_toolkit.LogFilter.Redis.Pipeline.{bytes_neq}
use eip_toolkit.LogFilter.Redis.{
  Redis, Client, Json, set_key, sadd, apply, exec, block_key, add, keep, Command,
}

-- Every member of the index is the decimal text of a 64-bit height.
abbrev pub IsCanonical : Redis → Type 0
IsCanonical r = (m : Bytes) → Elem m r.index → (h : ℕ) × (h < u64_mod) × (m ≡ format_uint h)

-- A list of logs is read back from its JSON.
abbrev pub ReadsBack : Json → Type 0
ReadsBack json =
    (logs : List LogResult) (payload : Bytes)
    → json.marshal logs ≡ ok payload
    → json.unmarshal payload ≡ ok logs

pub format_uint_inj : (a b : ℕ) → a < u64_mod → b < u64_mod → format_uint a ≡ format_uint b → a ≡ b
format_uint_inj a b fa fb e =
    ok_eq (sym (parse_uint-format_uint a fa) ∙ ap parse_uint e ∙ parse_uint-format_uint b fb)

pub block_key_inj :
    (prefix : Bytes) (a b : ℕ)
    → a < u64_mod
    → b < u64_mod
    → block_key prefix a ≡ block_key prefix b
    → a ≡ b
block_key_inj prefix a b fa fb e =
    format_uint_inj a b fa fb (append_cancel_left (prefix ++ codes ":block:") _ _ e)

ℕ-cases : (a b : ℕ) → (a ≡ b) ⊎ (a ≢ b)
ℕ-cases a b = elim (Bool-cases (a == b)) [
  | inl same ↦ inl ((==_iff a b).0 same)
  | inr other ↦ inr (ground arith)
]

contains→Elem : (k : Bytes) (xs : List Bytes) → contains k xs ≡ true → Elem k xs
contains→Elem k [] h = cc
contains→Elem k (x ∷ xs) h = elim (Bool-cases (bytes_eq k x)) [
  | inl same ↦ inl (bytes_eq→eq k x same)
  | inr other ↦ inr (contains→Elem k xs (ground arith))
]

-- `SADD` adds its member and no other.
Elem-sadd : (k m : Bytes) (r : Redis) → Elem k (apply (sadd m) r).index ↔ ((k ≡ m) ⊎ Elem k r.index)
Elem-sadd k m r = elim (Bool-cases (contains m r.index)) [
  | inl there ↦ rw there (
    (λ e. inr e),
    (λ e. elim e [
      | inl same ↦ subst (λ z. Elem z r.index) (sym same) (contains→Elem m r.index there)
      | inr e ↦ e
    ]),
  )
  | inr new ↦ rw new ((λ e. e), (λ e. e))
]

module _ (json : Json) (prefix : Bytes) where
  -- The payload of a height in the index, and a log that it spells.
  abbrev pub HeldIn : Redis → ℕ → LogResult → Type 0
  HeldIn r j l =
      (j < u64_mod)
      × Elem (format_uint j) r.index
      × (payload : Bytes) × (logs : List LogResult) × (r.kv (block_key prefix j) ≡ some payload)
      × (json.unmarshal payload ≡ ok logs)
      × Elem l logs

  -- Redis behind an `Add` that succeeds.
  abbrev pub with_block : ℕ → Bytes → Redis → Redis
  with_block h payload r =
      apply (sadd (format_uint h)) (apply (set_key (block_key prefix h) payload) r)

  pub add_ok :
      (client : Client) (h : ℕ) (logs : List LogResult) (r : Redis)
      → (add json prefix client h logs r).0 ≡ none
      → (payload : Bytes) × (json.marshal logs ≡ ok payload)
        × ((add json prefix client h logs r).1 ≡ with_block h payload r)
  unfolding add exec
  add_ok client h logs r e = elim (Result-cases (json.marshal logs)) [
    | inr (d, bad) ↦ ground arith
    | inl (payload, fine) ↦ elim (Option-cases client.exec_failure) [
      | inr (d, bad) ↦ ground arith
      | inl good ↦ (payload, fine, rw (fine, add) (rw good refl))
    ]
  ]

  -- Whichever commands of an `Add` were applied, the index has no other new member.
  Elem-applied :
      (applied : Command → Bool) (key payload m k : Bytes) (r : Redis)
      → Elem k (exec (keep applied (set_key key payload ∷ sadd m ∷ [])) r).index
      → (k ≡ m) ⊎ Elem k r.index
  unfolding exec
  Elem-applied applied key payload m k r e = elim (Bool-cases (applied (set_key key payload))) [
    | inl set ↦ elim (Bool-cases (applied (sadd m))) [
      | inl added ↦ (Elem-sadd k m (apply (set_key key payload) r)).0 (rw (set, added) at e)
      | inr not_added ↦ inr (rw (set, not_added) at e)
    ]
    | inr not_set ↦ elim (Bool-cases (applied (sadd m))) [
      | inl added ↦ (Elem-sadd k m r).0 (rw (not_set, added) at e)
      | inr not_added ↦ inr (rw (not_set, not_added) at e)
    ]
  ]

  pub Elem-add :
      (client : Client) (h : ℕ) (logs : List LogResult) (r : Redis) (k : Bytes)
      → Elem k (add json prefix client h logs r).1.index
      → (k ≡ format_uint h) ⊎ Elem k r.index
  Elem-add client h logs r k e = elim (Option-cases (add json prefix client h logs r).0) [
    | inl good ↦
        let (payload, fine, after) = add_ok client h logs r good in
        (Elem-sadd k (format_uint h) r).0 (subst (λ z. Elem k z.index) after e)
    | inr (d, bad) ↦ elim (Result-cases (json.marshal logs)) [
      | inr (d', wrong) ↦
          let same : (add json prefix client h logs r).1 ≡ r = unfold add in ground arith in
          inr (subst (λ z. Elem k z.index) same e)
      | inl (payload, fine) ↦ elim (Option-cases client.exec_failure) [
        | inl good ↦ absurd (unfold add in ground arith)
        | inr ((d', applied), failed) ↦
            let ran : (add json prefix client h logs r).1
                ≡ exec
                    (keep applied
                      (set_key (block_key prefix h) payload ∷ sadd (format_uint h) ∷ []))
                    r =
              unfold add in ground arith in
            Elem-applied applied (block_key prefix h) payload (format_uint h) k r
              (subst (λ z. Elem k z.index) ran e)
      ]
    ]
  ]

  pub add-IsCanonical :
      (client : Client) (h : ℕ) (logs : List LogResult) (r : Redis)
      → h < u64_mod
      → IsCanonical r
      → IsCanonical (add json prefix client h logs r).1
  add-IsCanonical client h logs r fits v m e = elim (Elem-add client h logs r m e) [
    | inl same ↦ (h, fits, same)
    | inr old ↦ v m old
  ]

  module _ (h : ℕ) (payload : Bytes) (logs : List LogResult) (r : Redis) (fits : h < u64_mod)
      (reads : json.unmarshal payload ≡ ok logs) where
    own_key : (with_block h payload r).kv (block_key prefix h) ≡ some payload
    own_key = rw (bytes_eq_refl (block_key prefix h)) refl

    other_key :
        (j : ℕ)
        → j < u64_mod
        → h ≢ j
        → (with_block h payload r).kv (block_key prefix j) ≡ r.kv (block_key prefix j)
    other_key j fj ne =
        let other =
          bytes_neq (block_key prefix j) (block_key prefix h)
            (λ e. ne (sym (block_key_inj prefix j h fj fits e))) in
        rw other refl

    HeldIn-with_block :
        (j : ℕ) (l : LogResult)
        → HeldIn (with_block h payload r) j l ↔ (((h ≡ j) × Elem l logs) ⊎ ((h ≢ j) × HeldIn r j l))
    HeldIn-with_block j l = (forth, back)
      where
        forth :
            HeldIn (with_block h payload r) j l → ((h ≡ j) × Elem l logs) ⊎ ((h ≢ j) × HeldIn r j l)
        forth (fj, e, p, ls, k, u, m) = elim (ℕ-cases h j) [
          | inl same ↦
              let own =
                ap (λ z. (with_block h payload r).kv (block_key prefix z)) (sym same) ∙ own_key in
              let same_payload = some_eq (sym k ∙ own) in
              inl (same, subst (Elem l) (ok_eq (sym u ∙ ap json.unmarshal same_payload ∙ reads)) m)
          | inr ne ↦
              let old : Elem (format_uint j) r.index =
                elim ((Elem-sadd (format_uint j) (format_uint h) r).0 e) [
                  | inl same ↦ absurd (ne (sym (format_uint_inj j h fj fits same)))
                  | inr old ↦ old
                ] in
              inr (ne, (fj, old, p, ls, sym (other_key j fj ne) ∙ k, u, m))
        ]

        back :
            ((h ≡ j) × Elem l logs) ⊎ ((h ≢ j) × HeldIn r j l) → HeldIn (with_block h payload r) j l
        back (inl (same, m)) =
            subst (λ z. HeldIn (with_block h payload r) z l) same
              (
                fits,
                (Elem-sadd (format_uint h) (format_uint h) r).1 (inl refl),
                payload,
                logs,
                own_key,
                reads,
                m,
              )
        back (inr (ne, (fj, e, p, ls, k, u, m))) = (
          fj,
          (Elem-sadd (format_uint j) (format_uint h) r).1 (inr e),
          p,
          ls,
          other_key j fj ne ∙ k,
          u,
          m,
        )

  pub HeldIn-add :
      (client : Client) (h : ℕ) (logs : List LogResult) (r : Redis) (j : ℕ) (l : LogResult)
      → ReadsBack json
      → h < u64_mod
      → (add json prefix client h logs r).0 ≡ none
      → HeldIn (add json prefix client h logs r).1 j l
        ↔ (((h ≡ j) × Elem l logs) ⊎ ((h ≢ j) × HeldIn r j l))
  HeldIn-add client h logs r j l back fits good =
      let (payload, fine, after) = add_ok client h logs r good in
      subst (λ z. HeldIn z j l ↔ (((h ≡ j) × Elem l logs) ⊎ ((h ≢ j) × HeldIn r j l))) (sym after)
        (HeldIn-with_block h payload logs r fits (back logs payload fine) j l)
