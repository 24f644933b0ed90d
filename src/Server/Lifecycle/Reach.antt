-- ===== src/Server/Lifecycle/Reach.antt =====
-- Which states a server comes to.
use aero_nyx_private_ed.Base.{◌<◌, ◌≡◌, some, arith}
use aero_nyx_private_ed.Server.Lifecycle.{
  running, shutting_down, Core, Event, start_called, start_failed, listener_made, bound,
  bind_failed, accept_ended, shutdown_called, shutdown_done, new, may_start, may_shut_down,
  is_starting, is_running, one_less, step,
}

-- What a sequence of events leads to.
pub data Reach (c : Core) : Core → Type 0 where
  here : Reach c c
  next : {d u : Core} → Reach c d → (e : Event) → step d e ≡ some u → Reach c u

-- A server that runs has a listener that accepts, and one that shuts down has a call that will end.
pub record IsSound (c : Core) : Type 0 where
  pub served : c.state ≡ running → 0 < c.accepting
  pub ends : c.state ≡ shutting_down → 0 < c.closing

new-IsSound : IsSound new
unfolding new
new-IsSound = record { served = λ h. cc; ends = λ h. cc }

step-IsSound : (c u : Core) (e : Event) → step c e ≡ some u → IsSound c → IsSound u
unfolding step may_start may_shut_down is_starting is_running one_less
step-IsSound c u start_called h s = ground arith
step-IsSound c u start_failed h s = ground arith
step-IsSound c u listener_made h s = ground arith
step-IsSound c u bound h s = ground arith
step-IsSound c u bind_failed h s = ground arith
step-IsSound c u accept_ended h s = ground arith
step-IsSound c u shutdown_called h s = ground arith
step-IsSound c u shutdown_done h s = ground arith

pub Reach-IsSound : {c u : Core} → IsSound c → Reach c u → IsSound u
Reach-IsSound s here = s
Reach-IsSound {c} s (next {d} {u} r e h) = step-IsSound d u e h (Reach-IsSound s r)

-- However starts, listeners and shutdowns interleave: a server that says it runs has a listener that
-- accepts connections, and one that says it shuts down has a shutdown in progress.
pub Reach-new-IsSound : {u : Core} → Reach new u → IsSound u
Reach-new-IsSound r = Reach-IsSound new-IsSound r
