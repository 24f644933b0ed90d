-- ===== src/Registration/Messages.antt =====
-- src/registration/websocket/handlers.rs: `handle_server_message`, with the types of
-- src/websocket_protocol.rs and the security modes of src/registration.rs. JSON is read and written
-- outside: `parse_command` reads the value of a remote command.
pub mod Gate
pub mod Allowed
pub mod Composition
pub mod Modes
use aero_nyx_private_ed.Base.{
  ℕ, Bool, true, false, List, [], ◌∷◌, ◌++◌, Option, none, some, Text, codes, if◌then◌else◌, Result,
  ok, err,
}
use aero_nyx_private_ed.Remote.Command.{
  SecurityMode, full_access, restricted, RemoteCommandConfig, full_access_config,
  restricted_with_paths, RemoteCommandData, ErrorCode, Machine, Effect,
}
use aero_nyx_private_ed.Remote.Command.Files.{Base64}
use aero_nyx_private_ed.Remote.Command.Dispatch.{RemoteCommandResponse, handle_command}
use aero_nyx_private_ed.Terminals.Pty.{
  TerminalSessionManager, TerminalError, TerminalMessage, Host, term_init, term_input, term_resize,
  term_close, handle_terminal_message, ShellEffect, shell_effects,
}

pub data ServerMessage : Type 0 where
  connected : Option Text → ServerMessage
  connection_established : ServerMessage
  auth_success : Option ℕ → ServerMessage
  auth_response : Bool → Option Text → ServerMessage
  remote_command : Text → Text → Text → ServerMessage
  remote_auth : Text → ServerMessage
  init_terminal : Text → ℕ → ℕ → Text → List (Text × Text) → Text → ServerMessage
  input_terminal : Text → Text → ServerMessage
  resize_terminal : Text → ℕ → ℕ → ServerMessage
  close_terminal : Text → ServerMessage
  challenge_request : Text → Option Text → ServerMessage
  challenge_response_ack : Text → Text → Option Text → ServerMessage
  heartbeat_ack : Option ℕ → Option ℕ → ServerMessage
  server_error : Text → Text → ServerMessage
  unknown : ServerMessage

-- What the node writes to the connection.
pub data Sent : Type 0 where
  auth : Text → Sent
  command_response : RemoteCommandResponse → Sent
  command_invalid command_disabled : Text → Sent
  remote_auth_success : Sent
  challenge_response : Text → Text → Sent
  terminal_reply : TerminalMessage → Sent
  terminal_failed : Text → TerminalError → Sent
  terminal_disabled terminal_closed : Text → Sent

pub data MessageError : Type 0 where
  no_auth_code auth_failed send_failed panicked : MessageError

-- The fields of `RegistrationManager` that a message reads or writes.
pub record RegistrationManager : Type 0 where
  pub reference_code : Option Text
  pub registration_code : Option Text
  pub remote_management_enabled : Bool
  pub terminal_manager : TerminalSessionManager
  pub config : RemoteCommandConfig

-- What is outside: whether the connection takes a message, the JSON of commands, the proof of the
-- hardware, the bytes of a text, base64, and the machine.
pub record Env : Type 0 where
  pub sends : Bool
  pub parse_command : Text → Option RemoteCommandData
  pub prove : Option Text
  pub text_bytes : Text → List ℕ
  pub base64 : Base64
  pub share : ℕ → ℕ → ℕ
  pub system_info : RemoteCommandData → Result ErrorCode Text
  pub machine : Machine
  pub host : Host

-- What a call returns, the fields it may have changed, what it sent, what its command did to the
-- machine, and what it did to the shells of terminals.
pub record Outcome : Type 0 where
  pub result : Result MessageError (Unit {0})
  pub manager : RegistrationManager
  pub authenticated : Bool
  pub sent : List Sent
  pub effects : List Effect
  pub shells : List ShellEffect

abbrev pub silent : RegistrationManager → Bool → Outcome
silent r authenticated = record {
  result = ok tt;
  manager = r;
  authenticated = authenticated;
  sent = [];
  effects = [];
  shells = [];
}

abbrev pub failed : RegistrationManager → Bool → MessageError → Outcome
failed r authenticated e = record (silent r authenticated) { result = err e }

-- A message that is written, or the error of the connection.
unfoldable pub send : Env → RegistrationManager → Bool → List Effect → Sent → Outcome
send env r authenticated effects message = record {
  result = if env.sends then ok tt else err send_failed;
  manager = r;
  authenticated = authenticated;
  sent = if env.sends then message ∷ [] else [];
  effects = effects;
  shells = [];
}

abbrev pub or_else : Option Text → Option Text → Option Text
or_else (some a) b = some a
or_else none b = b

unfoldable pub authenticate : Env → RegistrationManager → Bool → Option Text → Outcome
unfolding send
authenticate env r authenticated none = failed r authenticated no_auth_code
authenticate env r authenticated (some code) = send env r authenticated [] (auth code)

-- The response of the command handler, unless it panicked.
unfoldable pub respond :
    Env → RegistrationManager → Bool → Option RemoteCommandResponse × List Effect → Outcome
unfolding send
respond env r authenticated (none, effects) = record (failed r authenticated panicked) {
  effects = effects;
}
respond env r authenticated (some response, effects) =
    send env r authenticated effects (command_response response)

unfoldable pub run_command :
    Env → RegistrationManager → Bool → Text → Option RemoteCommandData → Outcome
unfolding respond send
run_command env r authenticated request_id none =
    send env r authenticated [] (command_invalid request_id)
run_command env r authenticated request_id (some command) =
    respond env r authenticated
      (handle_command env.share env.base64 env.system_info r.config env.machine request_id command)

unfoldable pub prove_hardware : Env → RegistrationManager → Bool → Text → Option Text → Outcome
unfolding send
prove_hardware env r authenticated challenge_id none = silent r authenticated
prove_hardware env r authenticated challenge_id (some proof) =
    send env r authenticated [] (challenge_response challenge_id proof)

abbrev pub with_terminals : RegistrationManager → TerminalSessionManager → RegistrationManager
with_terminals r terminals = record r { terminal_manager = terminals }

-- The answer to the opening of a terminal.
unfoldable pub terminal_answered :
    Env
    → RegistrationManager
    → Bool
    → Text
    → Result TerminalError (Option TerminalMessage) × TerminalSessionManager
    → Outcome
unfolding send
terminal_answered env r authenticated session_id (ok (some reply), t) =
    send env (with_terminals r t) authenticated [] (terminal_reply reply)
terminal_answered env r authenticated session_id (ok none, t) =
    silent (with_terminals r t) authenticated
terminal_answered env r authenticated session_id (err e, t) =
    send env (with_terminals r t) authenticated [] (terminal_failed session_id e)

-- Input that is not base64 is taken as it is.
abbrev pub input_bytes : Env → Text → Option (List ℕ) → List ℕ
input_bytes env text none = env.text_bytes text
input_bytes env text (some decoded) = decoded

-- The terminals read base64 as the rest of the node does.
abbrev pub terminal_host : Env → Host
terminal_host env = record (env.host) { decode = env.base64.decode }

-- The call of `handle_terminal_message` with this message, as the shells see it.
abbrev pub with_shells : Env → RegistrationManager → TerminalMessage → Outcome → Outcome
with_shells env r msg o = record o {
  shells = shell_effects r.terminal_manager (terminal_host env) msg;
}

-- The manager after that call.
abbrev pub terminals_after : Env → RegistrationManager → TerminalMessage → RegistrationManager
terminals_after env r msg =
    with_terminals r (handle_terminal_message r.terminal_manager (terminal_host env) msg).1

-- A call whose answer the node only logs.
abbrev pub logged : Env → RegistrationManager → Bool → TerminalMessage → Outcome
logged env r a msg = with_shells env r msg (silent (terminals_after env r msg) a)

-- The calls whose answer goes to the server.
abbrev pub opened : Env → RegistrationManager → Bool → Text → TerminalMessage → Outcome
opened env r a id msg = with_shells env r msg (
    terminal_answered env r a id
      (handle_terminal_message r.terminal_manager (terminal_host env) msg))

abbrev pub closed : Env → RegistrationManager → Bool → Text → TerminalMessage → Outcome
closed env r a id msg =
    with_shells env r msg (send env (terminals_after env r msg) a [] (terminal_closed id))

unfoldable pub handle_server_message : Env → RegistrationManager → Bool → ServerMessage → Outcome
unfolding authenticate run_command send prove_hardware terminal_answered
handle_server_message env r a (connected m) =
    authenticate env r a (or_else r.reference_code r.registration_code)
handle_server_message env r a connection_established =
    authenticate env r a (or_else r.reference_code r.registration_code)
handle_server_message env r a (auth_success interval) = silent r true
handle_server_message env r a (auth_response success m) =
    if success then silent r true else failed r a auth_failed
handle_server_message env r a (remote_command request_id command from_session) =
    if r.remote_management_enabled
    then run_command env r a request_id (env.parse_command command)
    else send env r a [] (command_disabled request_id)
handle_server_message env r a (remote_auth jwt_token) =
    send env (record r { remote_management_enabled = true }) a [] remote_auth_success
handle_server_message env r a (init_terminal id rows cols cwd vars from_user) =
    if r.remote_management_enabled
    then opened env r a id (term_init id rows cols (some cwd) (some vars))
    else send env r a [] (terminal_disabled id)
handle_server_message env r a (input_terminal id text) =
    if r.remote_management_enabled
    then logged env r a
        (term_input id (env.base64.encode (input_bytes env text (env.base64.decode text))))
    else silent r a
handle_server_message env r a (resize_terminal id rows cols) =
    if r.remote_management_enabled then logged env r a (term_resize id rows cols) else silent r a
handle_server_message env r a (close_terminal id) =
    if r.remote_management_enabled
    then closed env r a id (term_close id (some (codes "Session closed by user")))
    else silent r a
handle_server_message env r a (challenge_request challenge_id given) =
    prove_hardware env r a challenge_id env.prove
handle_server_message env r a (challenge_response_ack challenge_id status m) = silent r a
handle_server_message env r a (heartbeat_ack received_at next_interval) = silent r a
handle_server_message env r a (server_error code m) = silent r a
handle_server_message env r a unknown = silent r a

-- `set_remote_security_mode`.
unfoldable pub set_remote_security_mode :
    RegistrationManager → Text → SecurityMode → RegistrationManager
set_remote_security_mode r data_dir full_access = record r { config = full_access_config }
set_remote_security_mode r data_dir restricted = record r {
  config = restricted_with_paths (
      codes "/"
      ∷ codes "/home"
      ∷ codes "/var"
      ∷ codes "/var/log"
      ∷ codes "/tmp"
      ∷ codes "/etc"
      ∷ codes "/usr"
      ∷ codes "/opt"
      ∷ data_dir
      ∷ []);
}
