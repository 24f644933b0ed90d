-- ===== src/Server/Lifecycle.antt =====
-- src/server/core.rs: the state of `VpnServer` that `start`, the task of the listener and `shutdown`
-- share. A call or a task is counted in the part that it has come to, and an event moves one of them
-- on; between two events any other may come. The tasks that a start makes, and what a shutdown
-- closes, are left out.
pub mod Reach
pub mod Shutdown
mod Tests
use aero_nyx_private_ed.Base.{
  ℕ, zero, suc, ◌+◌, ◌-◌, Bool, true, false, Option, none, some, if◌then◌else◌,
}

pub data ServerState : Type 0 where
  created starting running shutting_down stopped : ServerState

pub record Core : Type 0 where
  pub state : ServerState
  pub preparing : ℕ  -- calls of `start` before their listener is made
  pub binding : ℕ  -- listeners that have not bound their address yet
  pub accepting : ℕ  -- listeners in the accept loop
  pub closing : ℕ  -- calls of `shutdown` that close sessions and tasks

pub data Event : Type 0 where
  start_called start_failed listener_made bound bind_failed : Event
  accept_ended shutdown_called shutdown_done : Event

unfoldable pub new : Core
new = record { state = created; preparing = 0; binding = 0; accepting = 0; closing = 0 }

-- The test of `start`.
unfoldable pub may_start : ServerState → Bool
may_start created = true
may_start stopped = true
may_start _ = false

-- The test of `shutdown`, which returns at once when the server is down or on its way.
unfoldable pub may_shut_down : ServerState → Bool
may_shut_down shutting_down = false
may_shut_down stopped = false
may_shut_down _ = true

unfoldable pub is_starting : ServerState → Bool
is_starting starting = true
is_starting _ = false

unfoldable pub is_running : ServerState → Bool
is_running running = true
is_running _ = false

-- One less of a count, if there is one.
unfoldable pub one_less : ℕ → Option ℕ
one_less zero = none
one_less (suc n) = some n

-- A listener that has bound its address starts to accept only if the server is still starting.
after_bind : Core → ℕ → Core
after_bind c rest =
    if is_starting c.state
    then record c { state = running; binding = rest; accepting = c.accepting + 1 }
    else record c { binding = rest }

-- `none` where nothing can do so.
unfoldable pub step : Core → Event → Option Core
unfolding after_bind
step c start_called =
    if may_start c.state
    then some (record c { state = starting; preparing = c.preparing + 1 })
    else none
-- A start that asks for TLS without an acceptor returns its error, and leaves the state as it is.
step c start_failed = elim (one_less c.preparing) [
  | none ↦ none
  | some rest ↦ some (record c { preparing = rest })
]
step c listener_made = elim (one_less c.preparing) [
  | none ↦ none
  | some rest ↦ some (record c { preparing = rest; binding = c.binding + 1 })
]
step c bound = elim (one_less c.binding) [ none ↦ none | some rest ↦ some (after_bind c rest) ]
step c bind_failed = elim (one_less c.binding) [
  | none ↦ none
  | some rest ↦ some (record c { state = stopped; binding = rest })
]
step c accept_ended = elim (one_less c.accepting) [
  | none ↦ none
  | some rest ↦ if is_running c.state then none else some (record c { accepting = rest })
]
step c shutdown_called =
    if may_shut_down c.state
    then some (record c { state = shutting_down; closing = c.closing + 1 })
    else none
step c shutdown_done = elim (one_less c.closing) [
  | none ↦ none
  | some rest ↦ some (record c { state = stopped; closing = rest })
]
