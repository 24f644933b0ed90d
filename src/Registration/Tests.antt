-- ===== src/Registration/Tests.antt =====
-- A node on a machine where every file can be written.
use aero_nyx_private_ed.Base.{
  ◌≡◌, refl, true, false, List, [], ◌∷◌, none, some, text_eq, codes, ok, err, arith, Result,
}
use aero_nyx_private_ed.Remote.Path.{is_absolute}
use aero_nyx_private_ed.Remote.Command.{
  RemoteCommandData, default_config, Machine, failed, restricted, resolved, validate_path,
}
use aero_nyx_private_ed.Remote.Command.Dispatch.{handle_command}
use aero_nyx_private_ed.Remote.Command.Confinement.{AllEffects}
use aero_nyx_private_ed.Terminals.Pty.Shells.{AllBounded}
use aero_nyx_private_ed.Terminals.Pty.Sizes.{IsSound, empty-IsSound}
use aero_nyx_private_ed.Registration.Messages.{
  ServerMessage, connected, auth_success, remote_command, remote_auth, init_terminal,
  input_terminal, close_terminal, RegistrationManager, Env, handle_server_message,
  set_remote_security_mode,
}
use aero_nyx_private_ed.Registration.Messages.Gate.{run, next, run-disabled, remote_auth_opens}
use aero_nyx_private_ed.Registration.Messages.Allowed.{Allowed}
use aero_nyx_private_ed.Registration.Messages.Composition.{run-IsSafe}
use aero_nyx_private_ed.Registration.Messages.Modes.{restricted_permits_all}
use aero_nyx_private_ed.Registration.Connection
use aero_nyx_private_ed.Registration.Connection.{
  ConnectionState, LoopError, connection_lost, text, close, Event, incoming, left,
  determine_exit_reason, run_event_loop,
}
use aero_nyx_private_ed.Registration.Connection.Exit.{run_event_loop-new-fails}
use aero_nyx_private_ed.Registration.Connection.Timeout.{ticks, run_event_loop-silent}

abbrev machine : Machine
machine = record {
  canonicalize = some;
  exists = λ p. true;
  metadata = λ p. none;
  read = λ p. none;
  create_dir_all = λ d. true;
  write = λ p bytes. true;
  read_dir = λ p. none;
  run = λ p. failed;
}

abbrev upload : RemoteCommandData
upload = record {
  command_type = codes "upload";
  cmd = none;
  args = none;
  cwd = none;
  timeout = none;
  env = none;
  path = some (codes "/home/a");
  content = some (codes "hi");
  mode = none;
  overwrite = some true;
  max_size = none;
  include_hidden = none;
  recursive = none;
  categories = none;
}

abbrev env : Env
env = record {
  sends = true;
  parse_command = λ s. some upload;
  prove = none;
  text_bytes = λ s. s;
  base64 = record { encode = λ bytes. bytes; decode = λ s. some s; decode-encode = λ bytes. refl };
  share = λ a b. a;
  system_info = λ c. ok [];
  machine = machine;
  host = record {
    exists_path = λ p. true;
    spawned = true;
    written = true;
    resized = true;
    now = 5;
    decode = λ s. none;
  };
}

abbrev node : RegistrationManager
node = record {
  reference_code = some (codes "ref");
  registration_code = none;
  remote_management_enabled = false;
  terminal_manager = [];
  config = default_config;
}

abbrev opened : RegistrationManager
opened = record node { remote_management_enabled = true }

abbrev messages : List (Env × ServerMessage)
messages =
    (env, connected none)
    ∷ (env, auth_success (some 30))
    ∷ (env, remote_command (codes "1") (codes "{}") (codes "s"))
    ∷ (env, init_terminal (codes "t") 24 80 (codes "/home") [] (codes "ann"))
    ∷ (env, input_terminal (codes "t") (codes "ls"))
    ∷ (env, close_terminal (codes "t"))
    ∷ []

run-disabled_example :
    ((run node false messages).0 ≡ node)
    × ((run node false messages).2 ≡ [])
    × ((run node false messages).3 ≡ [])
run-disabled_example = run-disabled node false messages refl (tt, (tt, (tt, (tt, (tt, (tt, tt))))))

remote_auth_opens_example :
    (next env
      (handle_server_message env node false (remote_auth (codes "any")))
      (remote_command (codes "1") (codes "{}") (codes "s"))).effects
    ≡ (handle_command env.share env.base64 env.system_info node.config env.machine
        (codes "1")
        upload).1
remote_auth_opens_example =
    remote_auth_opens env env node (codes "any") (codes "1") (codes "{}") (codes "s") upload refl

run-IsSafe_example :
    IsSound (run opened true messages).0.terminal_manager
    × AllEffects (Allowed default_config messages) (run opened true messages).2
    × AllBounded (run opened true messages).3
run-IsSafe_example = run-IsSafe opened true messages empty-IsSound

shadow_absolute :
    is_absolute (
      resolved
        (set_remote_security_mode node (codes "data") restricted).config
        machine
        (codes "/etc/shadow"))
    ≡ true
unfolding is_absolute resolved set_remote_security_mode
shadow_absolute = refl

restricted_permits_all_example :
    validate_path
      (set_remote_security_mode node (codes "data") restricted).config
      machine
      (codes "/etc/shadow")
    ≡ ok (
        resolved
          (set_remote_security_mode node (codes "data") restricted).config
          machine
          (codes "/etc/shadow"))
restricted_permits_all_example =
    restricted_permits_all node (codes "data") machine (codes "/etc/shadow") shadow_absolute

abbrev closed_by_server : List Event
closed_by_server =
    incoming env 1 (text (connected none))
    ∷ incoming env 2 (text (auth_success (some 30)))
    ∷ incoming env 3 close
    ∷ []

closed_result :
    run_event_loop Connection.default_config node (Connection.new 0) closed_by_server
    ≡ left (err Connection.no_initial_message)
unfolding run_event_loop Connection.step Connection.new Connection.handle_incoming_message
    Connection.after_message Connection.continue_with Connection.noted handle_server_message
    determine_exit_reason
closed_result = refl

run_event_loop-new-fails_example :
    (e : LoopError) × (◌≡◌ {A = Result LoopError (Unit {0})}
      (err Connection.no_initial_message)
      (err e))
run_event_loop-new-fails_example =
    run_event_loop-new-fails Connection.default_config node 0 closed_by_server
      (err Connection.no_initial_message) closed_result

abbrev authenticated : ConnectionState
authenticated = record {
  authenticated = true;
  auth_sent = false;
  last_heartbeat_ack = 0;
  missed_heartbeats = 1;
}

run_event_loop-silent_example :
    run_event_loop Connection.default_config node authenticated
      (ticks ((true, 240000) ∷ (false, 270000) ∷ []))
    ≡ left (err connection_lost)
run_event_loop-silent_example =
    run_event_loop-silent Connection.default_config node authenticated
      ((true, 240000) ∷ (false, 270000) ∷ []) refl (omega arith, (omega arith, tt)) (omega arith)
      (omega arith) (omega arith)
