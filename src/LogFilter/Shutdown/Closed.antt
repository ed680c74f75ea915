-- ===== src/LogFilter/Shutdown/Closed.antt =====
-- When the stop channel of `NewShutdownContext` is closed (go/logfilter/logfilter.go).
use eip_toolkit.Prelude.{
  ℕ, suc, ◌+◌, ◌≡◌, refl, ◌⊎◌, inl, inr, Bool, true, false, arith, if◌then◌else◌,
}
use eip_toolkit.LogFilter.Shutdown.{
  Shutdown, new_shutdown_context, signal, parent_ends, stop_watching, now, later, Happened,
}

-- How often a sequence has taken the branch of a signal.
unfoldable pub signals : {s t : Shutdown} → Happened s t → ℕ
signals now = 0
signals (later r (signal w)) = suc (signals r)
signals (later r parent_ends) = signals r
signals (later r (stop_watching w d)) = signals r

-- How often it has taken the branch of the context.
unfoldable pub leaves : {s t : Shutdown} → Happened s t → ℕ
leaves now = 0
leaves (later r (signal w)) = leaves r
leaves (later r parent_ends) = leaves r
leaves (later r (stop_watching w d)) = suc (leaves r)

-- Whatever happens in whatever order, the goroutine takes one branch at most, and has ended when it
-- has taken one; the stop channel is closed just when that was the branch of a signal, so once at
-- most, and never behind a context that has ended the wait without a signal; and when it is closed
-- the context is done.
pub one_branch_is_taken :
    (parent_done : Bool) {s : Shutdown} (r : Happened (new_shutdown_context parent_done) s)
    → (signals r + leaves r ≡ (if s.watching then 0 else 1))
      × (signals r ≡ (if s.stop_closed then 1 else 0))
      × ((s.stop_closed ≡ false) ⊎ (s.ctx_done ≡ true))
unfolding signals leaves
one_branch_is_taken parent_done now = (refl, refl, inl refl)
one_branch_is_taken parent_done (later {t = t} r (signal w)) =
    let (one, closed, done) = one_branch_is_taken parent_done r in
    let none_yet : signals r + leaves r ≡ 0 = rw w at one in (omega arith, omega arith, inr refl)
one_branch_is_taken parent_done (later r parent_ends) =
    let (one, closed, done) = one_branch_is_taken parent_done r in (one, closed, inr refl)
one_branch_is_taken parent_done (later {t = t} r (stop_watching w d)) =
    let (one, closed, done) = one_branch_is_taken parent_done r in
    let none_yet : signals r + leaves r ≡ 0 = rw w at one in (omega arith, closed, inr d)
