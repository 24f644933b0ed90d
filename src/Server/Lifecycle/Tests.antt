-- ===== src/Server/Lifecycle/Tests.antt =====
-- A server that is started, and shut down while it binds.
use aero_nyx_private_ed.Base.{refl}
use aero_nyx_private_ed.Server.Lifecycle.{
  starting, shutting_down, Core, start_called, listener_made, shutdown_called, new, may_start,
  may_shut_down, one_less, step,
}
use aero_nyx_private_ed.Server.Lifecycle.Reach.{Reach, here, next, IsSound, Reach-new-IsSound}
use aero_nyx_private_ed.Server.Lifecycle.Shutdown.{IsIdle, Reach-new-CanIdle}

abbrev begun : Core
begun = record { state = starting; preparing = 1; binding = 0; accepting = 0; closing = 0 }

abbrev made : Core
made = record { state = starting; preparing = 0; binding = 1; accepting = 0; closing = 0 }

abbrev closing : Core
closing = record { state = shutting_down; preparing = 0; binding = 1; accepting = 0; closing = 1 }

reaches_closing : Reach new closing
unfolding step new may_start may_shut_down one_less
reaches_closing =
    next {d = made} (next {d = begun} (next {d = new} here start_called refl) listener_made refl)
      shutdown_called refl

Reach-new-IsSound_example : IsSound closing
Reach-new-IsSound_example = Reach-new-IsSound reaches_closing

Reach-new-CanIdle_example : (u : Core) × Reach closing u × IsIdle u
Reach-new-CanIdle_example = Reach-new-CanIdle reaches_closing
