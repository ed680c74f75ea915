-- ===== src/LogFilter/Redis/Removed.antt =====
-- The heights that `RedisPendingPool.PopConfirmed` takes out of the index
-- (go/logfilter/logfilter.go).
use eip_toolkit.Prelude.{ℕ, ◌≡◌, sym, subst, ◌≢◌, inl, inr, true, List, ◌∷◌, Elem, Bytes, ok}
use eip_toolkit.Decimal.{format_uint, parse_uint}
use eip_toolkit.LogFilter.Log.{LogResult}
use eip_toolkit.LogFilter.Pool.{is_confirmed}
use eip_toolkit.LogFilter.Redis.{Redis, Client, Json, srem, pop_confirmed}
use eip_toolkit.LogFilter.Redis.Pipeline.{Elem-exec}
use eip_toolkit.LogFilter.Redis.Gather.{Elem-gather}
use eip_toolkit.LogFilter.Redis.Spec.{entry_commands, entry_commands_to, commands_only_remove}
use eip_toolkit.LogFilter.Redis.Popped.{commands_out, pop_ok}

module _ (json : Json) (prefix : Bytes) (client : Client) (latest confirm : ℕ) (r : Redis) where
  -- Where `PopConfirmed` hands out a log, the index behind it holds only heights that it held
  -- before, and none that is the decimal text of a confirmed height which the index was read to
  -- hold.
  pub handed_out_leaves_the_index :
      (l : LogResult) (out : List LogResult)
      → (pop_confirmed json prefix client latest confirm r).0 ≡ ok (l ∷ out)
      → (k : Bytes) → Elem k (pop_confirmed json prefix client latest confirm r).1.index
      → Elem k r.index
        × ((m : Bytes) (h : ℕ)
            → Elem m (client.visit r.index)
            → parse_uint m ≡ ok h
            → is_confirmed latest confirm h ≡ true
            → k ≢ format_uint h)
  handed_out_leaves_the_index l out e k held =
      elim (pop_ok json prefix client latest confirm r (l ∷ out) e).1 [
        | inl (empty, same) ↦ cc
        | inr ran ↦
            let gone =
              Elem-exec k (commands_out json prefix client latest confirm r) r
                (commands_only_remove json prefix latest confirm r (client.visit r.index))
                (subst (λ (z : Redis). Elem k z.index) ran held) in
            (
              gone.0,
              λ m h there read deep same. gone.1 (
                  Elem-gather (entry_commands json prefix latest confirm r) (client.visit r.index) m
                    (srem k) there
                    (subst (λ z. Elem (srem z) (entry_commands json prefix latest confirm r m))
                      (sym same) (entry_commands_to json prefix latest confirm r m h read deep))),
            )
      ]
