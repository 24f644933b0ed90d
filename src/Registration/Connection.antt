-- ===== src/Registration/Connection.antt =====
-- src/registration/websocket/connection.rs: `run_event_loop`, `handle_incoming_message`,
-- `handle_heartbeat` and `determine_exit_reason`. Times are in milliseconds. A text that is no
-- `ServerMessage` goes another way and has no event here.
pub mod Exit
pub mod Timeout
use aero_nyx_private_ed.Base.{
  ℕ, ◌+◌, ◌-◌, ◌*◌, ◌%◌, ◌^◌, Bool, true, false, not, ◌&&◌, List, [], ◌∷◌, if◌then◌else◌, leb, ltb,
  Result, ok, err,
}
use aero_nyx_private_ed.Registration.Messages.{
  ServerMessage, heartbeat_ack, MessageError, RegistrationManager, Env, Outcome,
  handle_server_message,
}

pub record HeartbeatConfig : Type 0 where
  pub interval : ℕ
  pub timeout : ℕ
  pub max_missed : ℕ
  pub grace_period : ℕ

-- `HeartbeatConfig::default`.
abbrev pub default_config : HeartbeatConfig
default_config = record {
  interval = 30 * 1000;
  timeout = 180 * 1000;
  max_missed = 3;
  grace_period = 30 * 1000;
}

pub record ConnectionState : Type 0 where
  pub authenticated : Bool
  pub auth_sent : Bool
  pub last_heartbeat_ack : ℕ
  pub missed_heartbeats : ℕ

unfoldable pub new : ℕ → ConnectionState
new now = record {
  authenticated = false;
  auth_sent = false;
  last_heartbeat_ack = now;
  missed_heartbeats = 0;
}

pub data LoopError : Type 0 where
  message_failed : MessageError → LoopError
  heartbeat_timeout heartbeat_unsent pong_unsent websocket_error auth_timeout : LoopError
  connection_lost closed_unauthenticated no_initial_message : LoopError

-- The count of missed heartbeats is a `u32`.
unfoldable pub missed_after : HeartbeatConfig → ConnectionState → ℕ → ℕ
missed_after config s now =
    if ltb config.timeout (now - s.last_heartbeat_ack)
    then (s.missed_heartbeats + 1) % 2 ^ 32
    else s.missed_heartbeats

-- The urgent ping that is sent in the grace period is left out: its failure is not looked at.
unfoldable pub handle_heartbeat :
    HeartbeatConfig → Bool → ConnectionState → ℕ → Result LoopError (Unit {0}) × ConnectionState
unfolding missed_after
handle_heartbeat config sends s now =
    let elapsed = now - s.last_heartbeat_ack in
    let missed = missed_after config s now in
    let s' = record s { missed_heartbeats = missed } in
    if ltb config.timeout elapsed
      && leb config.max_missed missed
      && ltb (config.timeout + config.grace_period) elapsed
    then (err heartbeat_timeout, s')
    else if sends
    then (ok tt, s')
    else (err heartbeat_unsent, s')

unfoldable pub determine_exit_reason :
    HeartbeatConfig → ConnectionState → ℕ → Result LoopError (Unit {0})
determine_exit_reason config s now =
    if s.authenticated && ltb config.timeout (now - s.last_heartbeat_ack)
    then err connection_lost
    else if not s.authenticated && s.auth_sent
    then err closed_unauthenticated
    else if not s.auth_sent
    then err no_initial_message
    else ok tt

pub data Message : Type 0 where
  text : ServerMessage → Message
  close ping pong other broken : Message

unfoldable pub acknowledged : ℕ → ConnectionState → ConnectionState
acknowledged now s = record s { last_heartbeat_ack = now; missed_heartbeats = 0 }

unfoldable pub noted : ServerMessage → ℕ → ConnectionState → ConnectionState
unfolding acknowledged
noted (heartbeat_ack received_at next_interval) now s = acknowledged now s
noted _ now s = s

abbrev pub goes_on : Result MessageError (Unit {0}) → Result LoopError Bool
goes_on (ok _) = ok true
goes_on (err e) = err (message_failed e)

-- Whether the loop goes on, or an error, with the manager and the state of the connection.
unfoldable pub handle_incoming_message :
    Env
    → RegistrationManager
    → ConnectionState
    → ℕ
    → Message
    → Result LoopError Bool × RegistrationManager × ConnectionState
unfolding noted acknowledged
handle_incoming_message env r s now (text msg) =
    let s' = noted msg now s in
    let o = handle_server_message env r s'.authenticated msg in
    (goes_on o.result, o.manager, record s' { authenticated = o.authenticated })
handle_incoming_message env r s now close = (ok false, r, s)
handle_incoming_message env r s now ping = (if env.sends then ok true else err pong_unsent, r, s)
handle_incoming_message env r s now pong = (ok true, r, acknowledged now s)
handle_incoming_message env r s now other = (ok true, r, s)
handle_incoming_message env r s now broken = (err websocket_error, r, s)

pub data Event : Type 0 where
  incoming : Env → ℕ → Message → Event
  heartbeat_tick : Bool → ℕ → Event
  auth_expired : Event

-- The loop is left with its result, or goes on.
pub data Progress : Type 0 where
  left : Result LoopError (Unit {0}) → Progress
  running : RegistrationManager → ConnectionState → Progress

unfoldable pub after_message :
    HeartbeatConfig → ℕ → Result LoopError Bool × RegistrationManager × ConnectionState → Progress
after_message config now (ok true, r, s) = running r s
after_message config now (ok false, r, s) = left (determine_exit_reason config s now)
after_message config now (err e, r, s) = left (err e)

unfoldable pub after_heartbeat :
    HeartbeatConfig
    → ℕ
    → RegistrationManager
    → Result LoopError (Unit {0}) × ConnectionState
    → Progress
after_heartbeat config now r (ok _, s) = running r s
after_heartbeat config now r (err e, s) = left (determine_exit_reason config s now)

-- A branch of `select!`.
unfoldable pub step : HeartbeatConfig → RegistrationManager → ConnectionState → Event → Progress
unfolding after_message after_heartbeat
step config r s (incoming env now msg) =
    after_message config now (handle_incoming_message env r s now msg)
step config r s (heartbeat_tick sends now) =
    if s.authenticated
    then after_heartbeat config now r (handle_heartbeat config sends s now)
    else running r s
step config r s auth_expired = if s.authenticated then running r s else left (err auth_timeout)

unfoldable pub continue_with :
    (RegistrationManager → ConnectionState → Progress) → Progress → Progress
continue_with f (left result) = left result
continue_with f (running r s) = f r s

unfoldable pub run_event_loop :
    HeartbeatConfig → RegistrationManager → ConnectionState → List Event → Progress
unfolding continue_with
run_event_loop config r s [] = running r s
run_event_loop config r s (e ∷ es) =
    continue_with (λ r' s'. run_event_loop config r' s' es) (step config r s e)
