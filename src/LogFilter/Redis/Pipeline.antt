-- ===== src/LogFilter/Redis/Pipeline.antt =====
-- Transactions that only remove keys and members (go/logfilter/logfilter.go).
use eip_toolkit.Prelude.{
  ◌≡◌, refl, sym, ap, ◌∙◌, subst, ◌≢◌, inl, inr, Bool, true, false, List, [], ◌∷◌, ◌++◌,
  if◌then◌else◌, Bool-cases, Elem, Bytes, bytes_eq, bytes_eq→eq, bytes_eq_refl,
}
use eip_toolkit.LogFilter.Redis.{
  Redis, Command, set_key, del, sadd, srem, remove, apply, exec, keep,
}

-- A pipeline that only removes.
abbrev pub OnlyRemoves : List Command → Type 0
OnlyRemoves [] = Unit
OnlyRemoves (del k ∷ cs) = OnlyRemoves cs
OnlyRemoves (srem m ∷ cs) = OnlyRemoves cs
OnlyRemoves (set_key k v ∷ cs) = ⊥
OnlyRemoves (sadd m ∷ cs) = ⊥

Elem-remove : (k m : Bytes) (xs : List Bytes) → Elem k (remove m xs) → Elem k xs × (k ≢ m)
Elem-remove k m [] h = elim h [ ]
Elem-remove k m (x ∷ xs) h = elim (Bool-cases (bytes_eq m x)) [
  | inl same ↦
      let ih =
        Elem-remove k m xs
          (subst (λ b. Elem k (if b then remove m xs else x ∷ remove m xs)) same h) in
      (inr ih.0, ih.1)
  | inr other ↦ elim (subst (λ b. Elem k (if b then remove m xs else x ∷ remove m xs)) other h) [
    | inl e ↦ (
      inl e,
      λ e'.
          absurd (true_false (sym (bytes_eq_refl m) ∙ ap (λ z. bytes_eq m z) (sym e' ∙ e) ∙ other)),
    )
    | inr t ↦ let ih = Elem-remove k m xs t in (inr ih.0, ih.1)
  ]
]
  where
    true_false : true ≡ false → ⊥
    true_false h = cc

-- A pipeline that only removes adds nothing, and a member that it removes is gone.
pub Elem-exec :
    (k : Bytes) (pipe : List Command) (r : Redis)
    → OnlyRemoves pipe
    → Elem k (exec pipe r).index
    → Elem k r.index × (¬ Elem (srem k) pipe)
unfolding exec
Elem-exec k [] r o h = (h, λ f. f)
Elem-exec k (del j ∷ cs) r o h =
    let ih = Elem-exec k cs (apply (del j) r) o h in
    (ih.0, λ f. elim f [ inl e ↦ absurd (del_srem e) | inr t ↦ ih.1 t ])
  where
    del_srem : {j k : Bytes} → srem k ≡ del j → ⊥
    del_srem e = cc
Elem-exec k (srem m ∷ cs) r o h =
    let ih = Elem-exec k cs (apply (srem m) r) o h in
    let here = Elem-remove k m r.index ih.0 in
    (here.0, λ f. elim f [ inl e ↦ here.1 (srem_eq e) | inr t ↦ ih.1 t ])
  where
    srem_eq : {m k : Bytes} → srem k ≡ srem m → k ≡ m
    srem_eq e = cc
Elem-exec k (set_key j v ∷ cs) r o h = elim o [ ]
Elem-exec k (sadd m ∷ cs) r o h = elim o [ ]

pub OnlyRemoves-append :
    (xs ys : List Command) → OnlyRemoves xs → OnlyRemoves ys → OnlyRemoves (xs ++ ys)
OnlyRemoves-append [] ys h k = k
OnlyRemoves-append (del j ∷ xs) ys h k = OnlyRemoves-append xs ys h k
OnlyRemoves-append (srem j ∷ xs) ys h k = OnlyRemoves-append xs ys h k
OnlyRemoves-append (set_key j v ∷ xs) ys h k = elim h [ ]
OnlyRemoves-append (sadd j ∷ xs) ys h k = elim h [ ]

pub bytes_neq : (a b : Bytes) → a ≢ b → bytes_eq a b ≡ false
bytes_neq a b ne = elim (Bool-cases (bytes_eq a b)) [
  | inl same ↦ absurd (ne (bytes_eq→eq a b same))
  | inr other ↦ other
]

Elem-remove_other : (k m : Bytes) (xs : List Bytes) → Elem k xs → k ≢ m → Elem k (remove m xs)
Elem-remove_other k m [] e ne = elim e [ ]
Elem-remove_other k m (x ∷ xs) (inl e) ne =
    let other = bytes_neq m x (λ s. ne (e ∙ sym s)) in rw other (inl e)
Elem-remove_other k m (x ∷ xs) (inr e) ne = elim (Bool-cases (bytes_eq m x)) [
  | inl same ↦ rw same (Elem-remove_other k m xs e ne)
  | inr other ↦ rw other (inr (Elem-remove_other k m xs e ne))
]

-- A member that a pipeline does not remove stays, and so does a key that it does not delete.
pub exec-Elem :
    (k : Bytes) (pipe : List Command) (r : Redis)
    → OnlyRemoves pipe
    → Elem k r.index
    → ¬ Elem (srem k) pipe
    → Elem k (exec pipe r).index
unfolding exec
exec-Elem k [] r o e n = e
exec-Elem k (del j ∷ cs) r o e n = exec-Elem k cs (apply (del j) r) o e (λ f. n (inr f))
exec-Elem k (srem m ∷ cs) r o e n =
    exec-Elem k cs (apply (srem m) r) o (Elem-remove_other k m r.index e (λ s. n (inl (ap srem s))))
      (λ f. n (inr f))
exec-Elem k (set_key j v ∷ cs) r o e n = elim o [ ]
exec-Elem k (sadd m ∷ cs) r o e n = elim o [ ]

pub exec-kv :
    (k : Bytes) (pipe : List Command) (r : Redis)
    → OnlyRemoves pipe
    → ¬ Elem (del k) pipe
    → (exec pipe r).kv k ≡ r.kv k
unfolding exec
exec-kv k [] r o n = refl
exec-kv k (del j ∷ cs) r o n =
    let other = bytes_neq k j (λ s. n (inl (ap del s))) in
    exec-kv k cs (apply (del j) r) o (λ f. n (inr f)) ∙ rw other refl
exec-kv k (srem m ∷ cs) r o n = exec-kv k cs (apply (srem m) r) o (λ f. n (inr f))
exec-kv k (set_key j v ∷ cs) r o n = elim o [ ]
exec-kv k (sadd m ∷ cs) r o n = elim o [ ]

pub OnlyRemoves-keep :
    (applied : Command → Bool) (pipe : List Command)
    → OnlyRemoves pipe
    → OnlyRemoves (keep applied pipe)
OnlyRemoves-keep applied [] o = tt
OnlyRemoves-keep applied (set_key k v ∷ cs) o = elim o [ ]
OnlyRemoves-keep applied (sadd m ∷ cs) o = elim o [ ]
OnlyRemoves-keep applied (del k ∷ cs) o = elim (Bool-cases (applied (del k))) [
  | inl kept ↦ rw kept (OnlyRemoves-keep applied cs o)
  | inr left ↦ rw left (OnlyRemoves-keep applied cs o)
]
OnlyRemoves-keep applied (srem m ∷ cs) o = elim (Bool-cases (applied (srem m))) [
  | inl kept ↦ rw kept (OnlyRemoves-keep applied cs o)
  | inr left ↦ rw left (OnlyRemoves-keep applied cs o)
]
