-- ===== src/Server/Lifecycle/Shutdown.antt =====
-- A shutdown comes to its end.
use mathlib.Core.Path.{◌≡◌, refl}
use aero_nyx_private_ed.Base.{ℕ, zero, suc, ◌+◌, ◌*◌, ◌≤◌, ◌<◌, ◌⊎◌, inl, inr, true, some, arith}
use aero_nyx_private_ed.Server.Lifecycle.{
  ServerState, created, starting, running, shutting_down, stopped, Core, Event, listener_made,
  bound, accept_ended, shutdown_called, shutdown_done, new, start_called, bind_failed, may_start,
  may_shut_down, is_starting, is_running, one_less, step,
}
use aero_nyx_private_ed.Server.Lifecycle.Reach.{Reach, here, next, IsSound, Reach-new-IsSound}

append-Reach : {c d u : Core} → Reach c d → Reach d u → Reach c u
append-Reach r here = r
append-Reach r (next s e h) = next (append-Reach r s) e h

-- Stopped, with nothing on its way.
pub record IsIdle (c : Core) : Type 0 where
  pub down : c.state ≡ stopped
  pub none_preparing : c.preparing ≡ 0
  pub none_binding : c.binding ≡ 0
  pub none_accepting : c.accepting ≡ 0
  pub none_closing : c.closing ≡ 0

-- What is still on its way.
abbrev work : Core → ℕ
work c = 2 * c.preparing + c.binding + c.accepting + c.closing

abbrev CanIdle : Core → Type 0
CanIdle c = (u : Core) × Reach c u × IsIdle u

first : (c d : Core) (e : Event) → step c e ≡ some d → CanIdle d → CanIdle c
first c d e h (u, r, idle) = (u, append-Reach (next here e h) r, idle)

zero-or-suc : (n : ℕ) → (n ≡ 0) ⊎ ((m : ℕ) × (n ≡ suc m))
zero-or-suc zero = inl refl
zero-or-suc (suc n) = inr (n, refl)

-- A server that is stopped comes to rest: what is on its way finds it stopped.
stopped-CanIdle : (fuel : ℕ) (c : Core) → work c ≤ fuel → c.state ≡ stopped → CanIdle c
unfolding step is_starting is_running one_less
stopped-CanIdle zero c h s = (
  c,
  here,
  record {
    down = s;
    none_preparing = omega arith;
    none_binding = omega arith;
    none_accepting = omega arith;
    none_closing = omega arith;
  },
)
stopped-CanIdle (suc fuel) c h s = elim (zero-or-suc c.preparing) [
  | inr (n, e) ↦
      first c (record c { preparing = n; binding = c.binding + 1 }) listener_made
        (ground (arith, e))
        (stopped-CanIdle fuel (record c { preparing = n; binding = c.binding + 1 })
          (omega (arith, e)) s)
  | inl p ↦ elim (zero-or-suc c.binding) [
    | inr (n, e) ↦
        first c (record c { binding = n }) bound (ground (arith, e, s))
          (stopped-CanIdle fuel (record c { binding = n }) (omega (arith, e)) s)
    | inl b ↦ elim (zero-or-suc c.accepting) [
      | inr (n, e) ↦
          first c (record c { accepting = n }) accept_ended (ground (arith, e, s))
            (stopped-CanIdle fuel (record c { accepting = n }) (omega (arith, e)) s)
      | inl a ↦ elim (zero-or-suc c.closing) [
        | inr (n, e) ↦
            first c (record c { state = stopped; closing = n }) shutdown_done (ground (arith, e, s))
              (stopped-CanIdle fuel (record c { state = stopped; closing = n }) (omega (arith, e))
                refl)
        | inl l ↦ (
          c,
          here,
          record {
            down = s;
            none_preparing = p;
            none_binding = b;
            none_accepting = a;
            none_closing = l;
          },
        )
      ]
    ]
  ]
]

-- A call that shuts down, and its end.
shut_down : (c : Core) → may_shut_down c.state ≡ true → CanIdle c
unfolding step one_less
shut_down c h =
    let closing = record c { state = shutting_down; closing = c.closing + 1 } in
    let down = record c { state = stopped; closing = c.closing } in
    first c closing shutdown_called (ground (arith, h)) (
      first closing down shutdown_done (ground arith)
        (stopped-CanIdle (work down) down (omega arith) refl))

from_state : (c : Core) (s : ServerState) → c.state ≡ s → IsSound c → CanIdle c
unfolding step may_shut_down one_less
from_state c stopped e sound = stopped-CanIdle (work c) c (omega arith) e
from_state c shutting_down e sound = elim (zero-or-suc c.closing) [
  | inl z ↦ absurd (let p = sound.ends e in omega (arith, z))
  | inr (n, q) ↦
      let down = record c { state = stopped; closing = n } in
      first c down shutdown_done (ground (arith, q))
        (stopped-CanIdle (work down) down (omega arith) refl)
]
from_state c created e sound = shut_down c (rw e)
from_state c starting e sound = shut_down c (rw e)
from_state c running e sound = shut_down c (rw e)

-- From every state that a server comes to, it can be shut down: some further events stop it with no
-- start, no listener and no shutdown left.
pub Reach-new-CanIdle : {c : Core} → Reach new c → (u : Core) × Reach c u × IsIdle u
Reach-new-CanIdle {c} r = from_state c c.state refl (Reach-new-IsSound r)

-- A bind that fails while the server shuts down marks it stopped: it can be started again, and then
-- the shutdown that is still in progress marks the running server stopped.
pub bind_failed_restart :
    (c : Core)
    → c.state ≡ shutting_down
    → 0 < c.binding
    → 0 < c.closing
    → (d u : Core) × Reach c d
      × (d.state ≡ running)
      × (step d shutdown_done ≡ some u)
      × (u.state ≡ stopped)
      × (0 < u.accepting)
unfolding step may_start is_starting one_less
bind_failed_restart c s b k = elim (zero-or-suc c.binding) [
  | inl z ↦ absurd (omega (arith, z))
  | inr (n, e) ↦ elim (zero-or-suc c.closing) [
    | inl z ↦ absurd (omega (arith, z))
    | inr (l, q) ↦
        let failed = record c { state = stopped; binding = n } in
        let started = record failed { state = starting; preparing = c.preparing + 1 } in
        let made = record started { preparing = c.preparing; binding = n + 1 } in
        let d = record made { state = running; binding = n; accepting = c.accepting + 1 } in
        (
          d,
          record d { state = stopped; closing = l },
          next {d = made}
              (next {d = started}
                (next {d = failed} (next {d = c} here bind_failed (ground (arith, e))) start_called
                  (ground arith))
                listener_made (ground arith))
              bound (ground arith),
          refl,
          ground (arith, q),
          refl,
          omega arith,
        )
  ]
]
