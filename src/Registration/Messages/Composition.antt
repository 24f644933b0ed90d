-- ===== src/Registration/Messages/Composition.antt =====
-- What the messages keep: the terminals' limits and the confinement of commands.
use mathlib.Core.Path.{subst}
use aero_nyx_private_ed.Base.{
  ◌≡◌, inl, inr, refl, if◌then◌else◌, Bool, true, false, List, [], ◌∷◌, Option, none, some, Text,
  ok, err, Result,
}
use aero_nyx_private_ed.Remote.Command.{Effect, RemoteCommandData}
use aero_nyx_private_ed.Remote.Command.Dispatch.{RemoteCommandResponse, handle_command}
use aero_nyx_private_ed.Remote.Command.Confinement.{AllEffects, Confined, handle_command-Confined}
use aero_nyx_private_ed.Terminals.Pty.{
  TerminalSessionManager, TerminalError, TerminalMessage, term_init, term_input, term_resize,
  term_close, handle_terminal_message,
}
use aero_nyx_private_ed.Terminals.Pty.Shells.{AllBounded, shell_effects-AllBounded}
use aero_nyx_private_ed.Terminals.Pty.Sizes.{IsSound, handle_terminal_message-IsSound}
use aero_nyx_private_ed.Registration.Messages.{
  ServerMessage, connected, connection_established, auth_success, auth_response, remote_command,
  remote_auth, init_terminal, input_terminal, resize_terminal, close_terminal, challenge_request,
  challenge_response_ack, heartbeat_ack, server_error, unknown, RegistrationManager, Env, Outcome,
  send, authenticate, respond, run_command, prove_hardware, or_else, handle_server_message,
  terminal_answered, terminal_host, input_bytes, with_shells, logged,
}
use aero_nyx_private_ed.Registration.Messages.Gate.{run}
use aero_nyx_private_ed.Registration.Messages.Allowed.{
  ForCommand, FromMessage, Allowed, AllEffects-mono, AllEffects-append, AllBounded-append,
}

record IsSafe (P : Effect → Type 0) (r : RegistrationManager) (o : Outcome) : Type 0 where
  config_kept : o.manager.config ≡ r.config
  terminals : IsSound o.manager.terminal_manager
  allowed : AllEffects P o.effects
  bounded : AllBounded o.shells

module _ (env : Env) (r : RegistrationManager) (a : Bool) where
  respond-IsSafe :
      (P : Effect → Type 0) (p : Option RemoteCommandResponse × List Effect)
      → IsSound r.terminal_manager
      → AllEffects P p.1
      → IsSafe P r (respond env r a p)
  unfolding respond send
  respond-IsSafe P (none, effects) sound h = record {
    config_kept = refl;
    terminals = sound;
    allowed = h;
    bounded = tt;
  }
  respond-IsSafe P (some response, effects) sound h = record {
    config_kept = refl;
    terminals = sound;
    allowed = h;
    bounded = tt;
  }

  run_command-IsSafe :
      (id : Text) (c : Option RemoteCommandData)
      → IsSound r.terminal_manager
      → IsSafe (ForCommand r.config env c) r (run_command env r a id c)
  unfolding run_command send
  run_command-IsSafe id none sound = record {
    config_kept = refl;
    terminals = sound;
    allowed = tt;
    bounded = tt;
  }
  run_command-IsSafe id (some c) sound =
      respond-IsSafe (ForCommand r.config env (some c))
        (handle_command env.share env.base64 env.system_info r.config env.machine id c) sound
        (AllEffects-mono (Confined r.config env.machine c) (ForCommand r.config env (some c)) _
          (λ e h. (c, refl, h))
          (handle_command-Confined env.share env.base64 env.system_info r.config env.machine id c))

  terminal_answered-IsSafe :
      (P : Effect → Type 0) (id : Text)
      (p : Result TerminalError (Option TerminalMessage) × TerminalSessionManager)
      → IsSound p.1
      → IsSafe P r (terminal_answered env r a id p)
  unfolding terminal_answered send
  terminal_answered-IsSafe P id (ok (some reply), t) sound = record {
    config_kept = refl;
    terminals = sound;
    allowed = tt;
    bounded = tt;
  }
  terminal_answered-IsSafe P id (ok none, t) sound = record {
    config_kept = refl;
    terminals = sound;
    allowed = tt;
    bounded = tt;
  }
  terminal_answered-IsSafe P id (err e, t) sound = record {
    config_kept = refl;
    terminals = sound;
    allowed = tt;
    bounded = tt;
  }

  either-IsSafe :
      (P : Effect → Type 0) (enabled : Bool) (o o' : Outcome)
      → IsSafe P r o
      → IsSafe P r o'
      → IsSafe P r (if enabled then o else o')
  either-IsSafe P true o o' h h' = h
  either-IsSafe P false o o' h h' = h'

  -- What a message for the terminals does to shells is within the limits.
  with_shells-IsSafe :
      (P : Effect → Type 0) (msg : TerminalMessage) (o : Outcome)
      → IsSafe P r o
      → IsSafe P r (with_shells env r msg o)
  with_shells-IsSafe P msg o s = record {
    config_kept = s.config_kept;
    terminals = s.terminals;
    allowed = s.allowed;
    bounded = shell_effects-AllBounded r.terminal_manager (terminal_host env) msg;
  }

  terminals-IsSound :
      (msg : TerminalMessage)
      → IsSound r.terminal_manager
      → IsSound (handle_terminal_message r.terminal_manager (terminal_host env) msg).1
  terminals-IsSound msg = handle_terminal_message-IsSound r.terminal_manager (terminal_host env) msg

  -- A call that sends, or is silent, with nothing done to the machine or to shells.
  quiet-IsSafe :
      (P : Effect → Type 0) (o : Outcome)
      → o.manager.config ≡ r.config
      → IsSound o.manager.terminal_manager
      → o.effects ≡ []
      → o.shells ≡ []
      → IsSafe P r o
  quiet-IsSafe P o same sound idle calm = record {
    config_kept = same;
    terminals = sound;
    allowed = rw idle tt;
    bounded = rw calm tt;
  }

  logged-IsSafe :
      (P : Effect → Type 0) (msg : TerminalMessage)
      → IsSound r.terminal_manager
      → IsSafe P r (logged env r a msg)
  logged-IsSafe P msg sound =
      with_shells-IsSafe P msg _ (quiet-IsSafe P _ refl (terminals-IsSound msg sound) refl refl)

  authenticate-IsSafe :
      (P : Effect → Type 0) (code : Option Text)
      → IsSound r.terminal_manager
      → IsSafe P r (authenticate env r a code)
  unfolding authenticate send
  authenticate-IsSafe P none sound = quiet-IsSafe _ _ refl sound refl refl
  authenticate-IsSafe P (some code) sound = quiet-IsSafe _ _ refl sound refl refl

  prove_hardware-IsSafe :
      (P : Effect → Type 0) (id : Text) (proof : Option Text)
      → IsSound r.terminal_manager
      → IsSafe P r (prove_hardware env r a id proof)
  unfolding prove_hardware send
  prove_hardware-IsSafe P id none sound = quiet-IsSafe _ _ refl sound refl refl
  prove_hardware-IsSafe P id (some proof) sound = quiet-IsSafe _ _ refl sound refl refl

  handle_server_message-IsSafe :
      (msg : ServerMessage)
      → IsSound r.terminal_manager
      → IsSafe (FromMessage r.config env msg) r (handle_server_message env r a msg)
  unfolding handle_server_message send
  handle_server_message-IsSafe (connected m) sound =
      authenticate-IsSafe _ (or_else r.reference_code r.registration_code) sound
  handle_server_message-IsSafe connection_established sound =
      authenticate-IsSafe _ (or_else r.reference_code r.registration_code) sound
  handle_server_message-IsSafe (auth_success interval) sound = quiet-IsSafe _ _ refl sound refl refl
  handle_server_message-IsSafe (auth_response success m) sound =
      either-IsSafe _ success _ _ (quiet-IsSafe _ _ refl sound refl refl)
        (quiet-IsSafe _ _ refl sound refl refl)
  handle_server_message-IsSafe (remote_command id command session) sound =
      either-IsSafe _ r.remote_management_enabled _ _
        (run_command-IsSafe id (env.parse_command command) sound)
        (quiet-IsSafe _ _ refl sound refl refl)
  handle_server_message-IsSafe (remote_auth t) sound = quiet-IsSafe _ _ refl sound refl refl
  handle_server_message-IsSafe (init_terminal id rows cols cwd vars user) sound =
      either-IsSafe _ r.remote_management_enabled _ _
        (with_shells-IsSafe _ _ _ (
          terminal_answered-IsSafe _ id _
            (terminals-IsSound (term_init id rows cols (some cwd) (some vars)) sound)))
        (quiet-IsSafe _ _ refl sound refl refl)
  handle_server_message-IsSafe (input_terminal id text) sound =
      either-IsSafe _ r.remote_management_enabled _ _
        (logged-IsSafe _
          (term_input id (env.base64.encode (input_bytes env text (env.base64.decode text)))) sound)
        (quiet-IsSafe _ _ refl sound refl refl)
  handle_server_message-IsSafe (resize_terminal id rows cols) sound =
      either-IsSafe _ r.remote_management_enabled _ _
        (logged-IsSafe _ (term_resize id rows cols) sound) (quiet-IsSafe _ _ refl sound refl refl)
  handle_server_message-IsSafe (close_terminal id) sound =
      either-IsSafe _ r.remote_management_enabled _ _
        (with_shells-IsSafe _ _ _
          (quiet-IsSafe _ _ refl (terminals-IsSound (term_close id _) sound) refl refl))
        (quiet-IsSafe _ _ refl sound refl refl)
  handle_server_message-IsSafe (challenge_request id given) sound =
      prove_hardware-IsSafe _ id env.prove sound
  handle_server_message-IsSafe (challenge_response_ack id status m) sound =
      quiet-IsSafe _ _ refl sound refl refl
  handle_server_message-IsSafe (heartbeat_ack received_at next_interval) sound =
      quiet-IsSafe _ _ refl sound refl refl
  handle_server_message-IsSafe (server_error code m) sound = quiet-IsSafe _ _ refl sound refl refl
  handle_server_message-IsSafe unknown sound = quiet-IsSafe _ _ refl sound refl refl

-- From a manager whose terminals are within their limits, any sequence of messages keeps them so; each
-- file, directory or process that commands write, set, make or start is due to the command of one of
-- the messages, and within what the command handler confines that command to, on the machine of that
-- message, by the configuration that the manager had at the start; and shells are started and resized
-- only within the limits of size, and given at most 4096 bytes at a time.
pub run-IsSafe :
    (r : RegistrationManager) (a : Bool) (ms : List (Env × ServerMessage))
    → IsSound r.terminal_manager
    → IsSound (run r a ms).0.terminal_manager
      × AllEffects (Allowed r.config ms) (run r a ms).2
      × AllBounded (run r a ms).3
unfolding run
run-IsSafe r a [] sound = (sound, tt, tt)
run-IsSafe r a ((env, msg) ∷ ms) sound =
    let o = handle_server_message env r a msg in
    let s = handle_server_message-IsSafe env r a msg sound in
    let (sound', rest, bounded) = run-IsSafe o.manager o.authenticated ms s.terminals in
    let first =
      AllEffects-mono (FromMessage r.config env msg) (Allowed r.config ((env, msg) ∷ ms)) o.effects
        (λ e h. inl h) s.allowed in
    let later =
      AllEffects-mono (Allowed r.config ms) (Allowed r.config ((env, msg) ∷ ms)) _ (λ e h. inr h)
        (subst (λ config. AllEffects (Allowed config ms) (run o.manager o.authenticated ms).2)
          s.config_kept rest) in
    (
      sound',
      AllEffects-append (Allowed r.config ((env, msg) ∷ ms)) o.effects _ first later,
      AllBounded-append o.shells _ s.bounded bounded,
    )
