-- ===== src/Registration/Connection/Exit.antt =====
-- The result with which the loop is left.
use mathlib.Core.Path.{subst}
use aero_nyx_private_ed.Base.{
  ℕ, ◌-◌, ◌≡◌, ◌∙◌, refl, Bool, true, false, ◌&&◌, List, [], ◌∷◌, ltb, if◌then◌else◌, Result, ok,
  err, arith, Bool-cases, inl, inr,
}
use aero_nyx_private_ed.Registration.Messages.{
  ServerMessage, connected, connection_established, auth_success, auth_response, remote_command,
  remote_auth, init_terminal, input_terminal, resize_terminal, close_terminal, challenge_request,
  challenge_response_ack, heartbeat_ack, server_error, unknown, RegistrationManager, Env,
}
use aero_nyx_private_ed.Registration.Connection.{
  HeartbeatConfig, ConnectionState, new, LoopError, connection_lost, no_initial_message,
  auth_timeout, handle_heartbeat, determine_exit_reason, Message, text, close, ping, pong, other,
  broken, acknowledged, noted, handle_incoming_message, Event, incoming, heartbeat_tick,
  auth_expired, Progress, left, running, after_message, after_heartbeat, step, continue_with,
  run_event_loop,
}

-- The loop was left with an error, or goes on with `auth_sent` unset.
abbrev IsUnsent : Progress → Type 0
IsUnsent (left result) = (e : LoopError) × (result ≡ err e)
IsUnsent (running r s) = s.auth_sent ≡ false

determine_exit_reason-err :
    (config : HeartbeatConfig) (s : ConnectionState) (now : ℕ)
    → s.auth_sent ≡ false
    → (e : LoopError) × (determine_exit_reason config s now ≡ err e)
unfolding determine_exit_reason
determine_exit_reason-err config s now h =
    elim (Bool-cases (s.authenticated && ltb config.timeout (now - s.last_heartbeat_ack))) [
      | inl lost ↦ (connection_lost, rw lost)
      | inr kept ↦ (no_initial_message, ground (arith, kept, h))
    ]

noted-auth_sent :
    (msg : ServerMessage) (now : ℕ) (s : ConnectionState)
    → (noted msg now s).auth_sent ≡ s.auth_sent
unfolding noted acknowledged
noted-auth_sent (connected m) now s = refl
noted-auth_sent connection_established now s = refl
noted-auth_sent (auth_success interval) now s = refl
noted-auth_sent (auth_response success m) now s = refl
noted-auth_sent (remote_command id command session) now s = refl
noted-auth_sent (remote_auth token) now s = refl
noted-auth_sent (init_terminal id rows cols cwd vars user) now s = refl
noted-auth_sent (input_terminal id input) now s = refl
noted-auth_sent (resize_terminal id rows cols) now s = refl
noted-auth_sent (close_terminal id) now s = refl
noted-auth_sent (challenge_request id given) now s = refl
noted-auth_sent (challenge_response_ack id status m) now s = refl
noted-auth_sent (heartbeat_ack received_at next_interval) now s = refl
noted-auth_sent (server_error code m) now s = refl
noted-auth_sent unknown now s = refl

handle_incoming_message-auth_sent :
    (env : Env) (r : RegistrationManager) (s : ConnectionState) (now : ℕ) (m : Message)
    → (handle_incoming_message env r s now m).2.auth_sent ≡ s.auth_sent
unfolding handle_incoming_message acknowledged
handle_incoming_message-auth_sent env r s now (text msg) = noted-auth_sent msg now s
handle_incoming_message-auth_sent env r s now close = refl
handle_incoming_message-auth_sent env r s now ping = refl
handle_incoming_message-auth_sent env r s now pong = refl
handle_incoming_message-auth_sent env r s now other = refl
handle_incoming_message-auth_sent env r s now broken = refl

after_message-IsUnsent :
    (config : HeartbeatConfig) (now : ℕ)
    (p : Result LoopError Bool × RegistrationManager × ConnectionState)
    → p.2.auth_sent ≡ false
    → IsUnsent (after_message config now p)
unfolding after_message
after_message-IsUnsent config now (ok true, r, s) h = h
after_message-IsUnsent config now (ok false, r, s) h = determine_exit_reason-err config s now h
after_message-IsUnsent config now (err e, r, s) h = (e, refl)

after_heartbeat-IsUnsent :
    (config : HeartbeatConfig) (now : ℕ) (r : RegistrationManager)
    (p : Result LoopError (Unit {0}) × ConnectionState)
    → p.1.auth_sent ≡ false
    → IsUnsent (after_heartbeat config now r p)
unfolding after_heartbeat
after_heartbeat-IsUnsent config now r (ok u, s) h = h
after_heartbeat-IsUnsent config now r (err e, s) h = determine_exit_reason-err config s now h

handle_heartbeat-auth_sent :
    (config : HeartbeatConfig) (sends : Bool) (s : ConnectionState) (now : ℕ)
    → (handle_heartbeat config sends s now).1.auth_sent ≡ s.auth_sent
unfolding handle_heartbeat
handle_heartbeat-auth_sent config sends s now = ground arith

either-IsUnsent :
    (b : Bool) (p q : Progress) → IsUnsent p → IsUnsent q → IsUnsent (if b then p else q)
either-IsUnsent true p q h k = h
either-IsUnsent false p q h k = k

step-IsUnsent :
    (config : HeartbeatConfig) (r : RegistrationManager) (s : ConnectionState) (e : Event)
    → s.auth_sent ≡ false
    → IsUnsent (step config r s e)
unfolding step
step-IsUnsent config r s (incoming env now msg) h =
    after_message-IsUnsent config now (handle_incoming_message env r s now msg)
      (handle_incoming_message-auth_sent env r s now msg ∙ h)
step-IsUnsent config r s (heartbeat_tick sends now) h =
    either-IsUnsent s.authenticated _ _
      (after_heartbeat-IsUnsent config now r (handle_heartbeat config sends s now)
        (handle_heartbeat-auth_sent config sends s now ∙ h))
      h
step-IsUnsent config r s auth_expired h = either-IsUnsent s.authenticated _ _ h (auth_timeout, refl)

continue_with-IsUnsent :
    (f : RegistrationManager → ConnectionState → Progress) (p : Progress)
    → ((r : RegistrationManager) (s : ConnectionState) → s.auth_sent ≡ false → IsUnsent (f r s))
    → IsUnsent p
    → IsUnsent (continue_with f p)
unfolding continue_with
continue_with-IsUnsent f (left result) kept h = h
continue_with-IsUnsent f (running r s) kept h = kept r s h

run_event_loop-IsUnsent :
    (config : HeartbeatConfig) (r : RegistrationManager) (s : ConnectionState) (es : List Event)
    → s.auth_sent ≡ false
    → IsUnsent (run_event_loop config r s es)
unfolding run_event_loop
run_event_loop-IsUnsent config r s [] h = h
run_event_loop-IsUnsent config r s (e ∷ es) h =
    continue_with-IsUnsent _ (step config r s e)
      (λ r' s' h'. run_event_loop-IsUnsent config r' s' es h') (step-IsUnsent config r s e h)

-- Whatever the events, also where the server closed the connection of an authenticated node that
-- answered in time: a loop that is left returns an error.
pub run_event_loop-new-fails :
    (config : HeartbeatConfig) (r : RegistrationManager) (now : ℕ) (es : List Event)
    (result : Result LoopError (Unit {0}))
    → run_event_loop config r (new now) es ≡ left result
    → (e : LoopError) × (result ≡ err e)
unfolding new
run_event_loop-new-fails config r now es result h =
    subst IsUnsent h (run_event_loop-IsUnsent config r (new now) es refl)
