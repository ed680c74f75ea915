-- ===== src/LogFilter/Redis/Spec.antt =====
-- The loop of `RedisPendingPool.PopConfirmed` (go/logfilter/logfilter.go) by what it adds for each
-- member: the logs of a confirmed height, and the commands that remove it.
use eip_toolkit.LogFilter.Redis.Pipeline.{OnlyRemoves, OnlyRemoves-append}
use eip_toolkit.Prelude.{
  ℕ, ◌≡◌, refl, sym, ap, ◌∙◌, subst, ok_eq, ◌⊎◌, inl, inr, true, Option, none, some, List, [], ◌∷◌,
  ◌++◌, append_assoc, append-nil, arith, if◌then◌else◌, Bool-cases, Option-cases, Elem,
  Elem-append_right, Bytes, Result, ok, err, Result-cases,
}
use eip_toolkit.LogFilter.Redis.Gather.{gather}
use eip_toolkit.Decimal.{format_uint, parse_uint}
use eip_toolkit.LogFilter.Log.{LogResult}
use eip_toolkit.LogFilter.Pool.{is_confirmed}
use eip_toolkit.LogFilter.Redis.{Redis, Client, Json, Command, del, srem, block_key, pop_from}

module _ (json : Json) (prefix : Bytes) (latest confirm : ℕ) (r : Redis) where
  abbrev logs_of : Result (List LogResult) → List LogResult
  logs_of (err e) = []
  logs_of (ok logs) = logs

  -- The logs that Redis holds for a height.
  abbrev pub stored : Option Bytes → List LogResult
  stored none = []
  stored (some payload) = logs_of (json.unmarshal payload)

  abbrev pub height_logs : ℕ → List LogResult
  height_logs h = if is_confirmed latest confirm h then stored (r.kv (block_key prefix h)) else []

  abbrev pub entry_logs : Bytes → List LogResult
  entry_logs m = elim (parse_uint m) [ err e ↦ [] | ok h ↦ height_logs h ]

  abbrev pub drop_payload : ℕ → Option Bytes → List Command
  drop_payload h none = []
  drop_payload h (some payload) = del (block_key prefix h) ∷ []

  abbrev pub height_commands : ℕ → List Command
  height_commands h =
      if is_confirmed latest confirm h
      then drop_payload h (r.kv (block_key prefix h)) ++ srem (format_uint h) ∷ []
      else []

  abbrev pub entry_commands : Bytes → List Command
  entry_commands m = elim (parse_uint m) [ err e ↦ [] | ok h ↦ height_commands h ]

  abbrev Gathered :
      List Bytes → List LogResult × List Command → List LogResult × List Command → Type 0
  Gathered members before after =
      (after.0 ≡ before.0 ++ gather entry_logs members)
      × (after.1 ≡ before.1 ++ gather entry_commands members)

  Gathered-step :
      (m : Bytes) (members : List Bytes) (logs out out' : List LogResult)
      (commands pipe pipe' : List Command)
      → entry_logs m ≡ logs
      → entry_commands m ≡ commands
      → Gathered members (out ++ logs, pipe ++ commands) (out', pipe')
      → Gathered (m ∷ members) (out, pipe) (out', pipe')
  Gathered-step m members logs out out' commands pipe pipe' l c (g, k) = (
    g
        ∙ append_assoc out logs (gather entry_logs members)
        ∙ ap (λ z. out ++ (z ++ gather entry_logs members)) (sym l),
    k
        ∙ append_assoc pipe commands (gather entry_commands members)
        ∙ ap (λ z. pipe ++ (z ++ gather entry_commands members)) (sym c),
  )

  Gathered-skip :
      (m : Bytes) (members : List Bytes) (out out' : List LogResult) (pipe pipe' : List Command)
      → entry_logs m ≡ []
      → entry_commands m ≡ []
      → Gathered members (out, pipe) (out', pipe')
      → Gathered (m ∷ members) (out, pipe) (out', pipe')
  Gathered-skip m members out out' pipe pipe' l c (g, k) =
      Gathered-step m members [] out out' [] pipe pipe' l c
        (rw (append-nil out) g, rw (append-nil pipe) k)

  -- Where the loop succeeds, it has gathered the logs and the commands of every member.
  pub pop_from-gather :
      (client : Client) (members : List Bytes) (out out' : List LogResult)
      (pipe pipe' : List Command)
      → pop_from json prefix client latest confirm r members out pipe ≡ ok (out', pipe')
      → (out' ≡ out ++ gather entry_logs members) × (pipe' ≡ pipe ++ gather entry_commands members)
  unfolding pop_from
  pop_from-gather client [] out out' pipe pipe' e =
      let same = ok_eq e in
      (
        sym (ap (λ q. q.0) same) ∙ sym (append-nil out),
        sym (ap (λ q. q.1) same) ∙ sym (append-nil pipe),
      )
  pop_from-gather client (m ∷ members) out out' pipe pipe' g = elim (Result-cases (parse_uint m)) [
    | inr (e, bad) ↦
        Gathered-skip m members out out' pipe pipe' (ground arith) (ground arith)
          (pop_from-gather client members out out' pipe pipe' (ground arith))
    | inl (h, read) ↦ elim (Bool-cases (is_confirmed latest confirm h)) [
      | inr early ↦
          Gathered-skip m members out out' pipe pipe' (ground arith) (ground arith)
            (pop_from-gather client members out out' pipe pipe' (ground arith))
      | inl deep ↦ elim (Option-cases (client.get_error (block_key prefix h))) [
        | inr (e, bad) ↦ ground arith
        | inl got ↦ elim (Option-cases (r.kv (block_key prefix h))) [
          | inl gone ↦
              let commands = srem (format_uint h) ∷ [] in
              Gathered-step m members [] out out' commands pipe pipe' (ground arith) (ground arith)
                (pop_from-gather client members (out ++ []) out' (pipe ++ commands) pipe'
                  (rw (append-nil out) (ground arith)))
          | inr (payload, here) ↦ elim (Result-cases (json.unmarshal payload)) [
            | inr (e, bad) ↦ ground arith
            | inl (logs, fine) ↦
                let commands = del (block_key prefix h) ∷ srem (format_uint h) ∷ [] in
                Gathered-step m members logs out out' commands pipe pipe' (ground arith)
                  (ground arith)
                  (pop_from-gather client members (out ++ logs) out' (pipe ++ commands) pipe'
                    (ground arith))
          ]
        ]
      ]
    ]
  ]

  entry_commands_only_remove : (m : Bytes) → OnlyRemoves (entry_commands m)
  entry_commands_only_remove m = elim (Result-cases (parse_uint m)) [
    | inr (e, bad) ↦ ground arith
    | inl (h, read) ↦ elim (Bool-cases (is_confirmed latest confirm h)) [
      | inr early ↦ ground arith
      | inl deep ↦ elim (Option-cases (r.kv (block_key prefix h))) [
        | inl gone ↦ ground arith
        | inr (payload, here) ↦ ground arith
      ]
    ]
  ]

  pub commands_only_remove : (members : List Bytes) → OnlyRemoves (gather entry_commands members)
  commands_only_remove [] = tt
  commands_only_remove (m ∷ members) =
      OnlyRemoves-append (entry_commands m) (gather entry_commands members)
        (entry_commands_only_remove m) (commands_only_remove members)

  pub entry_logs_to :
      (m : Bytes) (h : ℕ) (payload : Bytes) (logs : List LogResult)
      → parse_uint m ≡ ok h
      → is_confirmed latest confirm h ≡ true
      → r.kv (block_key prefix h) ≡ some payload
      → json.unmarshal payload ≡ ok logs
      → entry_logs m ≡ logs
  entry_logs_to m h payload logs read deep here fine = ground arith

  entry_commands_value :
      (m : Bytes) (h : ℕ) (o : Option Bytes)
      → parse_uint m ≡ ok h
      → is_confirmed latest confirm h ≡ true
      → r.kv (block_key prefix h) ≡ o
      → entry_commands m ≡ drop_payload h o ++ srem (format_uint h) ∷ []
  entry_commands_value m h o read deep here = ground arith

  -- Where a member's logs and commands come from.
  pub entry_logs_from :
      (m : Bytes) (l : LogResult)
      → Elem l (entry_logs m)
      → (h : ℕ) × (parse_uint m ≡ ok h)
        × (is_confirmed latest confirm h ≡ true)
        × (payload : Bytes) × (logs : List LogResult) × (r.kv (block_key prefix h) ≡ some payload)
        × (json.unmarshal payload ≡ ok logs)
        × Elem l logs
  entry_logs_from m l e = elim (Result-cases (parse_uint m)) [
    | inr (d, bad) ↦ ground arith
    | inl (h, read) ↦ elim (Bool-cases (is_confirmed latest confirm h)) [
      | inr early ↦ ground arith
      | inl deep ↦ elim (Option-cases (r.kv (block_key prefix h))) [
        | inl gone ↦ ground arith
        | inr (payload, here) ↦ elim (Result-cases (json.unmarshal payload)) [
          | inr (d, bad) ↦ ground arith
          | inl (logs, fine) ↦ (
            h,
            read,
            deep,
            payload,
            logs,
            here,
            fine,
            subst (λ z. Elem l z) (entry_logs_to m h payload logs read deep here fine) e,
          )
        ]
      ]
    ]
  ]

  pub entry_commands_to :
      (m : Bytes) (h : ℕ)
      → parse_uint m ≡ ok h
      → is_confirmed latest confirm h ≡ true
      → Elem (srem (format_uint h)) (entry_commands m)
  entry_commands_to m h read deep =
      subst (λ z. Elem (srem (format_uint h)) z) (sym (entry_commands_value m h _ read deep refl))
        (Elem-append_right (srem (format_uint h)) (drop_payload h (r.kv (block_key prefix h)))
          (srem (format_uint h) ∷ []) (inl refl))

  pub entry_commands_from :
      (m : Bytes) (c : Command)
      → Elem c (entry_commands m)
      → (h : ℕ) × (parse_uint m ≡ ok h)
        × (is_confirmed latest confirm h ≡ true)
        × ((c ≡ del (block_key prefix h)) ⊎ (c ≡ srem (format_uint h)))
  entry_commands_from m c e = elim (Result-cases (parse_uint m)) [
    | inr (d, bad) ↦ ground arith
    | inl (h, read) ↦ elim (Bool-cases (is_confirmed latest confirm h)) [
      | inr early ↦ ground arith
      | inl deep ↦ elim (Option-cases (r.kv (block_key prefix h))) [
        | inl gone ↦ (
          h,
          read,
          deep,
          from_value h none
              (subst (λ z. Elem c z) (entry_commands_value m h none read deep gone) e),
        )
        | inr (payload, here) ↦ (
          h,
          read,
          deep,
          from_value h (some payload)
              (subst (λ z. Elem c z) (entry_commands_value m h (some payload) read deep here) e),
        )
      ]
    ]
  ]
    where
      from_value :
          (h : ℕ) (o : Option Bytes)
          → Elem c (drop_payload h o ++ srem (format_uint h) ∷ [])
          → (c ≡ del (block_key prefix h)) ⊎ (c ≡ srem (format_uint h))
      from_value h none (inl e) = inr e
      from_value h (some payload) (inl e) = inl e
      from_value h (some payload) (inr (inl e)) = inr e
      from_value h none (inr x) = elim x [ ]
      from_value h (some payload) (inr (inr x)) = elim x [ ]
