-- ===== src/Registration/Messages/Gate.antt =====
-- What a node does while remote management is disabled, and what enables it.
use aero_nyx_private_ed.Base.{
  ◌≡◌, refl, if◌then◌else◌, Bool, true, false, List, [], ◌∷◌, ◌++◌, Option, none, some, Text,
}
use aero_nyx_private_ed.Remote.Command.{Effect, RemoteCommandData}
use aero_nyx_private_ed.Remote.Command.Dispatch.{RemoteCommandResponse, handle_command}
use aero_nyx_private_ed.Terminals.Pty.{ShellEffect}
use aero_nyx_private_ed.Registration.Messages.{
  ServerMessage, connected, connection_established, auth_success, auth_response, remote_command,
  remote_auth, init_terminal, input_terminal, resize_terminal, close_terminal, challenge_request,
  challenge_response_ack, heartbeat_ack, server_error, unknown, RegistrationManager, Env, Outcome,
  send, authenticate, respond, run_command, prove_hardware, or_else, handle_server_message,
}

-- Messages one after another, each with the machine as it is then: the manager, whether the node is
-- authenticated, all effects of commands, and all that is done to shells.
unfoldable pub run :
    RegistrationManager
    → Bool
    → List (Env × ServerMessage)
    → RegistrationManager × Bool × List Effect × List ShellEffect
run r a [] = (r, a, [], [])
run r a ((env, msg) ∷ ms) =
    let o = handle_server_message env r a msg in
    let (r', a', effects, shells) = run o.manager o.authenticated ms in
    (r', a', o.effects ++ effects, o.shells ++ shells)

abbrev NotRemoteAuth : ServerMessage → Type 0
NotRemoteAuth (remote_auth t) = ⊥
NotRemoteAuth _ = Unit

-- No message is a `remote_auth`.
abbrev pub NoRemoteAuth : List (Env × ServerMessage) → Type 0
NoRemoteAuth [] = Unit
NoRemoteAuth ((env, msg) ∷ ms) = NotRemoteAuth msg × NoRemoteAuth ms

abbrev IsInert : RegistrationManager → Outcome → Type 0
IsInert r o = (o.manager ≡ r) × (o.effects ≡ []) × (o.shells ≡ [])

authenticate-IsInert :
    (env : Env) (r : RegistrationManager) (a : Bool) (code : Option Text)
    → IsInert r (authenticate env r a code)
unfolding authenticate send
authenticate-IsInert env r a none = (refl, refl, refl)
authenticate-IsInert env r a (some code) = (refl, refl, refl)

prove_hardware-IsInert :
    (env : Env) (r : RegistrationManager) (a : Bool) (id : Text) (proof : Option Text)
    → IsInert r (prove_hardware env r a id proof)
unfolding prove_hardware send
prove_hardware-IsInert env r a id none = (refl, refl, refl)
prove_hardware-IsInert env r a id (some proof) = (refl, refl, refl)

-- What stands behind the flag is not reached.
guarded-IsInert :
    (enabled : Bool) {r : RegistrationManager} (o o' : Outcome)
    → enabled ≡ false
    → IsInert r o'
    → IsInert r (if enabled then o else o')
guarded-IsInert true o o' h inert = cc
guarded-IsInert false o o' h inert = inert

handle_server_message-IsInert :
    (env : Env) (r : RegistrationManager) (a : Bool) (msg : ServerMessage)
    → r.remote_management_enabled ≡ false
    → NotRemoteAuth msg
    → IsInert r (handle_server_message env r a msg)
unfolding handle_server_message send
handle_server_message-IsInert env r a (connected m) h n =
    authenticate-IsInert env r a (or_else r.reference_code r.registration_code)
handle_server_message-IsInert env r a connection_established h n =
    authenticate-IsInert env r a (or_else r.reference_code r.registration_code)
handle_server_message-IsInert env r a (auth_success interval) h n = (refl, refl, refl)
handle_server_message-IsInert env r a (auth_response true m) h n = (refl, refl, refl)
handle_server_message-IsInert env r a (auth_response false m) h n = (refl, refl, refl)
handle_server_message-IsInert env r a (remote_command request_id command from_session) h n =
    guarded-IsInert r.remote_management_enabled _ _ h (refl, refl, refl)
handle_server_message-IsInert env r a (remote_auth t) h n = absurd n
handle_server_message-IsInert env r a (init_terminal id rows cols cwd vars user) h n =
    guarded-IsInert r.remote_management_enabled _ _ h (refl, refl, refl)
handle_server_message-IsInert env r a (input_terminal id text) h n =
    guarded-IsInert r.remote_management_enabled _ _ h (refl, refl, refl)
handle_server_message-IsInert env r a (resize_terminal id rows cols) h n =
    guarded-IsInert r.remote_management_enabled _ _ h (refl, refl, refl)
handle_server_message-IsInert env r a (close_terminal id) h n =
    guarded-IsInert r.remote_management_enabled _ _ h (refl, refl, refl)
handle_server_message-IsInert env r a (challenge_request id given) h n =
    prove_hardware-IsInert env r a id env.prove
handle_server_message-IsInert env r a (challenge_response_ack id status m) h n = (refl, refl, refl)
handle_server_message-IsInert env r a (heartbeat_ack received_at next_interval) h n =
    (refl, refl, refl)
handle_server_message-IsInert env r a (server_error code m) h n = (refl, refl, refl)
handle_server_message-IsInert env r a unknown h n = (refl, refl, refl)

-- While remote management is disabled and no `remote_auth` comes, no sequence of messages opens,
-- changes or closes a terminal or enables remote management: no command does anything to the machine,
-- and no shell is started, given input, resized or killed.
pub run-disabled :
    (r : RegistrationManager) (a : Bool) (ms : List (Env × ServerMessage))
    → r.remote_management_enabled ≡ false
    → NoRemoteAuth ms
    → ((run r a ms).0 ≡ r) × ((run r a ms).2 ≡ []) × ((run r a ms).3 ≡ [])
unfolding run
run-disabled r a [] h n = (refl, refl, refl)
run-disabled r a ((env, msg) ∷ ms) h (n, ns) =
    let (same, idle, quiet) = handle_server_message-IsInert env r a msg h n in
    let a' = (handle_server_message env r a msg).authenticated in
    let (same', idle', quiet') = run-disabled r a' ms h ns in
    (rw same same', rw (idle, same) idle', rw (quiet, same) quiet')

respond-effects :
    (env : Env) (r : RegistrationManager) (a : Bool)
    (p : Option RemoteCommandResponse × List Effect)
    → (respond env r a p).effects ≡ p.1
unfolding respond send
respond-effects env r a (none, effects) = refl
respond-effects env r a (some response, effects) = refl

-- The message that comes next.
abbrev pub next : Env → Outcome → ServerMessage → Outcome
next env o msg = handle_server_message env o.manager o.authenticated msg

-- Any `remote_auth` enables it, whatever its token, also on a connection that is not authenticated: a
-- command that follows does to the machine what the command handler makes of it.
pub remote_auth_opens :
    (env env' : Env) (r : RegistrationManager) (token id command session : Text)
    (c : RemoteCommandData)
    → env'.parse_command command ≡ some c
    → (next env'
        (handle_server_message env r false (remote_auth token))
        (remote_command id command session)).effects
      ≡ (handle_command env'.share env'.base64 env'.system_info r.config env'.machine id c).1
unfolding handle_server_message run_command send
remote_auth_opens env env' r token id command session c parsed =
    rw parsed (respond-effects env' _ false _)
