-- ===== src/Registration/Connection/Timeout.antt =====
-- How long a server may be silent.
use aero_nyx_private_ed.Base.{
  ℕ, ◌+◌, ◌-◌, ◌%◌, ◌^◌, ◌≤◌, ◌<◌, ◌≡◌, ◌⊎◌, Bool, true, List, [], ◌∷◌, length, leb, err, arith,
  Bool-cases, inl, inr,
}
use aero_nyx_private_ed.Registration.Messages.{RegistrationManager}
use aero_nyx_private_ed.Registration.Connection.{
  HeartbeatConfig, ConnectionState, connection_lost, missed_after, handle_heartbeat,
  determine_exit_reason, Event, heartbeat_tick, left, running, after_heartbeat, step, continue_with,
  run_event_loop,
}

u32_small : (n : ℕ) → n < 2 ^ 32 → n % 2 ^ 32 ≡ n
u32_small n h = omega arith

-- The server has been silent for longer than the timeout and the grace period.
abbrev pub IsSilent : HeartbeatConfig → ConnectionState → ℕ → Type 0
IsSilent config s now = config.timeout + config.grace_period < now - s.last_heartbeat_ack

abbrev pub one_more : ConnectionState → ConnectionState
one_more s = record s { missed_heartbeats = s.missed_heartbeats + 1 }

exit_silent :
    (config : HeartbeatConfig) (s : ConnectionState) (now : ℕ)
    → s.authenticated ≡ true
    → IsSilent config s now
    → determine_exit_reason config s now ≡ err connection_lost
unfolding determine_exit_reason
exit_silent config s now known silent = ground (arith, known, silent)

missed_after-silent :
    (config : HeartbeatConfig) (s : ConnectionState) (now : ℕ)
    → IsSilent config s now
    → s.missed_heartbeats + 1 < 2 ^ 32
    → missed_after config s now ≡ s.missed_heartbeats + 1
unfolding missed_after
missed_after-silent config s now silent small =
    ground (arith, silent, u32_small (s.missed_heartbeats + 1) small)

-- A tick while the server is silent ends the loop, or counts one more.
tick_silent :
    (config : HeartbeatConfig) (r : RegistrationManager) (s : ConnectionState) (sends : Bool)
    (now : ℕ)
    → s.authenticated ≡ true
    → IsSilent config s now
    → s.missed_heartbeats + 1 < 2 ^ 32
    → (step config r s (heartbeat_tick sends now) ≡ left (err connection_lost))
      ⊎ ((step config r s (heartbeat_tick sends now) ≡ running r (one_more s))
          × (s.missed_heartbeats + 1 < config.max_missed))
unfolding step handle_heartbeat after_heartbeat
tick_silent config r s sends now known silent small =
    let counted = missed_after-silent config s now silent small in
    let exit = exit_silent config (one_more s) now known silent in
    elim (Bool-cases (leb config.max_missed (s.missed_heartbeats + 1))) [
      | inl late ↦ inl (ground (arith, known, counted, late, silent, exit))
      | inr early ↦ elim (Bool-cases sends) [
        | inl sent ↦ inr (ground (arith, known, counted, early, sent), ground (arith, early))
        | inr unsent ↦ inl (ground (arith, known, counted, early, unsent, exit))
      ]
    ]

-- Ticks, each with whether the heartbeat can be written.
abbrev pub ticks : List (Bool × ℕ) → List Event
ticks [] = []
ticks ((sends, now) ∷ ts) = heartbeat_tick sends now ∷ ticks ts

abbrev pub AllSilent : HeartbeatConfig → ConnectionState → List (Bool × ℕ) → Type 0
AllSilent config s [] = Unit
AllSilent config s ((sends, now) ∷ ts) = IsSilent config s now × AllSilent config s ts

one_more-AllSilent :
    (config : HeartbeatConfig) (s : ConnectionState) (ts : List (Bool × ℕ))
    → AllSilent config s ts
    → AllSilent config (one_more s) ts
one_more-AllSilent config s [] h = tt
one_more-AllSilent config s ((sends, now) ∷ ts) (h, hs) = (h, one_more-AllSilent config s ts hs)

-- An authenticated node whose server stays silent beyond the timeout and the grace period leaves the
-- loop as soon as the missed heartbeats and these ticks together reach the limit.
pub run_event_loop-silent :
    (config : HeartbeatConfig) (r : RegistrationManager) (s : ConnectionState)
    (ts : List (Bool × ℕ))
    → s.authenticated ≡ true
    → AllSilent config s ts
    → 0 < length ts
    → config.max_missed ≤ s.missed_heartbeats + length ts
    → s.missed_heartbeats + length ts < 2 ^ 32
    → run_event_loop config r s (ticks ts) ≡ left (err connection_lost)
unfolding run_event_loop continue_with
run_event_loop-silent config r s [] known silent some_tick enough small = absurd (omega arith)
run_event_loop-silent config r s ((sends, now) ∷ ts) known (first, rest) some_tick enough small =
    let room : s.missed_heartbeats + 1 < 2 ^ 32 = omega arith in
    elim (tick_silent config r s sends now known first room) [
      | inl lost ↦ rw lost
      | inr (counted, below) ↦ rw counted (
          run_event_loop-silent config r (one_more s) ts known (one_more-AllSilent config s ts rest)
            (omega arith) (omega arith) (omega arith))
    ]
