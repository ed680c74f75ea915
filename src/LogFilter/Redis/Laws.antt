-- ===== src/LogFilter/Redis/Laws.antt =====
-- `RedisPendingPool` keeps the laws of the interface `PendingPool` (go/logfilter/logfilter.go).
use eip_toolkit.LogFilter.Redis.Kept.{empty_pop_changes_no_key}
use eip_toolkit.LogFilter.Redis.Pipeline.{
  OnlyRemoves-keep, OnlyRemoves, Elem-exec, exec-Elem, exec-kv,
}
use eip_toolkit.LogFilter.Pool.{is_confirmed}
use eip_toolkit.Decimal.{format_uint, parse_uint, parse_uint-format_uint}
use eip_toolkit.Dict.{Elem-perm}
use mathlib.Core.List.Permᴰ
use mathlib.Core.List.{Permᴰ}
use eip_toolkit.Prelude.{
  ℕ, ◌<◌, ◌≡◌, refl, sym, ap, ◌∙◌, subst, ok_eq, ◌↔◌, ◌⊎◌, inl, inr, Bool, true, false, List, [],
  ◌∷◌, arith, u64_mod, Bool-cases, Elem, Bytes, ok, Result-cases,
}
use eip_toolkit.LogFilter.Log.{LogResult}
use eip_toolkit.LogFilter.Redis.{
  keep, Redis, Client, Json, Command, del, srem, exec, block_key, pop_confirmed,
}
use eip_toolkit.LogFilter.Redis.Popped.{logs_out, commands_out, pop_ok}
use eip_toolkit.LogFilter.Redis.Gather.{Elem-gather, Elem-gather_split}
use eip_toolkit.LogFilter.Redis.Spec.{
  pop_from-gather, entry_logs, entry_commands, commands_only_remove, entry_logs_from, entry_logs_to,
  entry_commands_to, entry_commands_from,
}
use eip_toolkit.LogFilter.Redis.Held.{IsCanonical, HeldIn, format_uint_inj, block_key_inj}

-- A client that lists the members of a set in some order.
abbrev pub ListsMembers : Client → Type 0
ListsMembers client = (ms : List Bytes) → Permᴰ (client.visit ms) ms

del_eq : {a b : Bytes} → del a ≡ del b → a ≡ b
del_eq e = cc

srem_eq : {a b : Bytes} → srem a ≡ srem b → a ≡ b
srem_eq e = cc

srem_del : {a b : Bytes} → srem a ≡ del b → ⊥
srem_del e = cc

module _ (json : Json) (prefix : Bytes) (client : Client) (lists : ListsMembers client)
    (latest confirm : ℕ) (r : Redis) (v : IsCanonical r) where
  abbrev after : Redis
  after = (pop_confirmed json prefix client latest confirm r).1

  abbrev commands : List Command
  commands = commands_out json prefix client latest confirm r

  listed : (m : Bytes) → Elem m r.index → Elem m (client.visit r.index)
  listed m = Elem-perm m (Permᴰ.symm (lists r.index))

  own_height :
      (m : Bytes) (h : ℕ)
      → Elem m (client.visit r.index)
      → parse_uint m ≡ ok h
      → (h < u64_mod) × Elem (format_uint h) r.index
  own_height m h there read =
      let (k, fits, same) = v m (Elem-perm m (lists r.index) there) in
      let k_h = ok_eq (sym (parse_uint-format_uint k fits) ∙ ap parse_uint (sym same) ∙ read) in
      (
        subst (λ z. z < u64_mod) k_h fits,
        subst (λ z. Elem z r.index) (same ∙ ap format_uint k_h) (Elem-perm m (lists r.index) there),
      )

  removed_if_confirmed :
      (j : ℕ)
      → j < u64_mod
      → Elem (format_uint j) r.index
      → is_confirmed latest confirm j ≡ true
      → Elem (srem (format_uint j)) commands
  removed_if_confirmed j fj there c =
      Elem-gather (entry_commands json prefix latest confirm r) (client.visit r.index)
        (format_uint j) (srem (format_uint j)) (listed (format_uint j) there)
        (entry_commands_to json prefix latest confirm r (format_uint j) j
          (parse_uint-format_uint j fj) c)

  -- The commands concern confirmed heights only.
  untouched :
      (j : ℕ) (c : Command)
      → j < u64_mod
      → is_confirmed latest confirm j ≡ false
      → (c ≡ del (block_key prefix j)) ⊎ (c ≡ srem (format_uint j))
      → ¬ Elem c commands
  untouched j c fj early which there =
      let (m, listed', e) =
        Elem-gather_split (entry_commands json prefix latest confirm r) (client.visit r.index) c
          there in
      let (h, read, deep, what) = entry_commands_from json prefix latest confirm r m c e in
      let (fh, held) = own_height m h listed' read in
      confirmed_not h j (same_height h fh which what) deep early
    where
      confirmed_not :
          (h j : ℕ)
          → h ≡ j
          → is_confirmed latest confirm h ≡ true
          → is_confirmed latest confirm j ≡ false
          → ⊥
      confirmed_not h j s y n = ground arith

      same_height :
          (h : ℕ)
          → h < u64_mod
          → (c ≡ del (block_key prefix j)) ⊎ (c ≡ srem (format_uint j))
          → (c ≡ del (block_key prefix h)) ⊎ (c ≡ srem (format_uint h))
          → h ≡ j
      same_height h fh (inl a) (inl b) = block_key_inj prefix h j fh fj (del_eq (sym b ∙ a))
      same_height h fh (inr a) (inr b) = format_uint_inj h j fh fj (srem_eq (sym b ∙ a))
      same_height h fh (inl a) (inr b) = absurd (srem_del (sym b ∙ a))
      same_height h fh (inr a) (inl b) = absurd (srem_del (sym a ∙ b))

  pub pop-Elem :
      (out : List LogResult) (l : LogResult)
      → (pop_confirmed json prefix client latest confirm r).0 ≡ ok out
      → Elem l out ↔ ((j : ℕ) × HeldIn json prefix r j l × (is_confirmed latest confirm j ≡ true))
  pop-Elem out l e = (forth, back)
    where
      same : out ≡ logs_out json prefix client latest confirm r
      same = (pop_ok json prefix client latest confirm r out e).0

      forth :
          Elem l out → (j : ℕ) × HeldIn json prefix r j l × (is_confirmed latest confirm j ≡ true)
      forth m =
          let (k, there, here) =
            Elem-gather_split (entry_logs json prefix latest confirm r) (client.visit r.index) l
              (subst (Elem l) same m) in
          let (h, read, deep, payload, logs, found, fine, el) =
            entry_logs_from json prefix latest confirm r k l here in
          let (fh, held) = own_height k h there read in
          (h, (fh, held, payload, logs, found, fine, el), deep)

      back :
          ((j : ℕ) × HeldIn json prefix r j l × (is_confirmed latest confirm j ≡ true)) → Elem l out
      back (j, (fj, there, payload, logs, found, fine, el), deep) = subst (Elem l) (sym same) (
          Elem-gather (entry_logs json prefix latest confirm r) (client.visit r.index)
            (format_uint j) l (listed (format_uint j) there)
            (subst (Elem l)
              (sym (
                entry_logs_to json prefix latest confirm r (format_uint j) j payload logs
                  (parse_uint-format_uint j fj) deep found fine))
              el))

  only : OnlyRemoves commands
  only = commands_only_remove json prefix latest confirm r (client.visit r.index)

  HeldIn-exec :
      (j : ℕ) (l : LogResult)
      → HeldIn json prefix (exec commands r) j l
        ↔ (HeldIn json prefix r j l × (is_confirmed latest confirm j ≡ false))
  HeldIn-exec j l = (forth, back)
    where
      kept_key :
          j < u64_mod
          → is_confirmed latest confirm j ≡ false
          → (exec commands r).kv (block_key prefix j) ≡ r.kv (block_key prefix j)
      kept_key fj early =
          exec-kv (block_key prefix j) commands r only
            (untouched j (del (block_key prefix j)) fj early (inl refl))

      forth :
          HeldIn json prefix (exec commands r) j l
          → HeldIn json prefix r j l × (is_confirmed latest confirm j ≡ false)
      forth (fj, there, payload, logs, found, fine, el) =
          let (before, not_removed) = Elem-exec (format_uint j) commands r only there in
          elim (Bool-cases (is_confirmed latest confirm j)) [
            | inl deep ↦ absurd (not_removed (removed_if_confirmed j fj before deep))
            | inr early ↦
                ((fj, before, payload, logs, sym (kept_key fj early) ∙ found, fine, el), early)
          ]

      back :
          HeldIn json prefix r j l × (is_confirmed latest confirm j ≡ false)
          → HeldIn json prefix (exec commands r) j l
      back ((fj, there, payload, logs, found, fine, el), early) = (
        fj,
        exec-Elem (format_uint j) commands r only there
            (untouched j (srem (format_uint j)) fj early (inr refl)),
        payload,
        logs,
        kept_key fj early ∙ found,
        fine,
        el,
      )

  -- Where nothing was handed out, no confirmed height holds a log.
  pub pop-HeldIn :
      (out : List LogResult) (j : ℕ) (l : LogResult)
      → (pop_confirmed json prefix client latest confirm r).0 ≡ ok out
      → HeldIn json prefix after j l
        ↔ (HeldIn json prefix r j l × (is_confirmed latest confirm j ≡ false))
  pop-HeldIn out j l e = elim (pop_ok json prefix client latest confirm r out e).1 [
    | inr ran ↦
        subst
          (λ z.
            HeldIn json prefix z j l
            ↔ (HeldIn json prefix r j l × (is_confirmed latest confirm j ≡ false)))
          (sym ran) (HeldIn-exec j l)
    | inl (empty, same) ↦
        subst
          (λ z.
            HeldIn json prefix z j l
            ↔ (HeldIn json prefix r j l × (is_confirmed latest confirm j ≡ false)))
          (sym same) ((λ held. (held, early held empty)), (λ h. h.0))
  ]
    where
      early : HeldIn json prefix r j l → out ≡ [] → is_confirmed latest confirm j ≡ false
      early held empty = elim (Bool-cases (is_confirmed latest confirm j)) [
        | inr not_yet ↦ not_yet
        | inl deep ↦ absurd (subst (Elem l) empty ((pop-Elem out l e).1 (j, held, deep)))
      ]

  after_cases :
      (after ≡ r)
      ⊎ ((after ≡ exec commands r)
          ⊎ ((applied : Command → Bool) × (after ≡ exec (keep applied commands) r)))
  after_cases = elim (Result-cases (pop_confirmed json prefix client latest confirm r).0) [
    | inr (e, bad) ↦
        elim (empty_pop_changes_no_key json prefix client latest confirm r (rw bad tt)) [
          | inl same ↦ inl same
          | inr (d, applied, failed, l, out, pipe, goes, ran) ↦
              let parts =
                pop_from-gather json prefix latest confirm r client (client.visit r.index) []
                  (l ∷ out) [] pipe goes in
              inr (inr (applied, ap (λ q. q.1) ran ∙ ap (λ z. exec (keep applied z) r) parts.1))
        ]
    | inl (out, good) ↦ elim (pop_ok json prefix client latest confirm r out good).1 [
      | inl (empty, same) ↦ inl same
      | inr ran ↦ inr (inl ran)
    ]
  ]

  pub pop-IsCanonical : IsCanonical after
  pop-IsCanonical = elim after_cases [
    | inl same ↦ subst IsCanonical (sym same) v
    | inr (inl ran) ↦ subst IsCanonical (sym ran) (λ m e. v m (Elem-exec m commands r only e).0)
    | inr (inr (applied, ran)) ↦ subst IsCanonical (sym ran) (λ m e.
        v m (Elem-exec m (keep applied commands) r (OnlyRemoves-keep applied commands only) e).0)
  ]
