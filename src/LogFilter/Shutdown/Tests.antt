-- ===== src/LogFilter/Shutdown/Tests.antt =====
-- A shutdown by a signal and one without, and the witness of what closes the channel.
use eip_toolkit.Prelude.{◌+◌, ◌≡◌, refl, ◌⊎◌, Bool, true, false}
use eip_toolkit.LogFilter.Shutdown.{
  Shutdown, new_shutdown_context, signal, parent_ends, stop_watching, now, later, Happened,
}
use eip_toolkit.LogFilter.Shutdown.Closed.{signals, leaves, one_branch_is_taken}

abbrev ended : Bool → Shutdown
ended stop = record { ctx_done = true; stop_closed = stop; watching = false }

by_parent : Happened (new_shutdown_context false) (ended false)
by_parent = later (later now parent_ends) (stop_watching refl refl)

abbrev by_signal : Happened (new_shutdown_context false) (ended true)
by_signal = later (later now parent_ends) (signal refl)

one_branch_is_taken_example :
    (signals by_signal + leaves by_signal ≡ 1)
    × (signals by_signal ≡ 1)
    × ((true ≡ false) ⊎ (true ≡ true))
one_branch_is_taken_example = one_branch_is_taken false by_signal
