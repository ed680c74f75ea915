-- ===== src/LogFilter/Redis/Interface.antt =====
-- `RedisPendingPool` as an implementation of the interface `PendingPool` (go/logfilter/logfilter.go).
use eip_toolkit.Prelude.{Bytes}
use eip_toolkit.LogFilter.Pool.{IsPendingPool}
use eip_toolkit.LogFilter.Redis.{Client, Json, redis_pending_pool}
use eip_toolkit.LogFilter.Redis.Held.{IsCanonical, ReadsBack, HeldIn, add-IsCanonical, HeldIn-add}
use eip_toolkit.LogFilter.Redis.Laws.{ListsMembers, pop-Elem, pop-HeldIn, pop-IsCanonical}

abbrev pub redis_pending_pool_laws :
    (json : Json) (prefix : Bytes) (client : Client)
    → ReadsBack json
    → ListsMembers client
    → IsPendingPool (redis_pending_pool json prefix client)
redis_pending_pool_laws json prefix client back lists = record {
  IsValid = IsCanonical;
  Held = HeldIn json prefix;
  add-IsValid = λ h logs r fits v. add-IsCanonical json prefix client h logs r fits v;
  Held-add = λ h logs r j l fits v e. HeldIn-add json prefix client h logs r j l back fits e;
  pop-IsValid = λ latest confirm r v. pop-IsCanonical json prefix client lists latest confirm r v;
  Held-pop = λ latest confirm r out j l v e.
      pop-HeldIn json prefix client lists latest confirm r v out j l e;
  Elem-pop =
      λ latest confirm r out l v e. pop-Elem json prefix client lists latest confirm r v out l e;
}
