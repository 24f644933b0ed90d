-- ===== src/Remote/Management/Dispatch.antt =====
-- src/remote_management.rs: `handle_command`. `now` is the clock reading of the limiter's test, `ended`
-- that of the record in the history, and `took` the time in between. Commands that only read
-- (directories, processes, logs, the state of the system) are the parameter `observe`.
use aero_nyx_private_ed.Base.{
  ℕ, Bool, true, false, List, [], Option, none, some, Text, codes, if◌then◌else◌, Result, ok, err,
}
use aero_nyx_private_ed.Remote.Command.Files.{Base64}
use aero_nyx_private_ed.Remote.Management.{
  SecurityPolicy, RemoteManagementHandler, check_and_update, record_command_execution,
}
use aero_nyx_private_ed.Remote.Management.Actions.{
  Code, not_implemented, System, Effect, FileContent, read_file, delete_file, upload_file,
  download_file, execute_command, restart_service,
}

pub data RemoteCommand : Type 0 where
  list_directory_command : Text → Bool → Bool → RemoteCommand
  read_file_command : Text → Option ℕ → Option ℕ → RemoteCommand
  delete_file_command : Text → Bool → RemoteCommand
  execute_command_command :
      Text → List Text → Option Text → Option ℕ → Option (List (Text × Text)) → RemoteCommand
  get_system_info_command : Bool → Bool → RemoteCommand
  get_process_list_command : Option Text → Option Text → RemoteCommand
  upload_file_command : Text → Text → Option ℕ → Bool → RemoteCommand
  download_file_command : Text → Bool → RemoteCommand
  get_logs_command : Option Text → Option ℕ → Option Text → RemoteCommand
  restart_service_command : Text → Bool → RemoteCommand
  update_config_command : Text → Bool → RemoteCommand

unfoldable pub get_command_type : RemoteCommand → Text
get_command_type (list_directory_command _ _ _) = codes "list_directory"
get_command_type (read_file_command _ _ _) = codes "read_file"
get_command_type (delete_file_command _ _) = codes "delete_file"
get_command_type (execute_command_command _ _ _ _ _) = codes "execute_command"
get_command_type (get_system_info_command _ _) = codes "get_system_info"
get_command_type (get_process_list_command _ _) = codes "get_process_list"
get_command_type (upload_file_command _ _ _ _) = codes "upload_file"
get_command_type (download_file_command _ _) = codes "download_file"
get_command_type (get_logs_command _ _ _) = codes "get_logs"
get_command_type (restart_service_command _ _) = codes "restart_service"
get_command_type (update_config_command _ _) = codes "update_config"

pub data Reply : Type 0 where
  read : FileContent → Reply
  deleted : Text → Reply
  uploaded : ℕ → Reply
  downloaded : List ℕ → Reply
  observed : Text → Reply
  done : Reply

abbrev reply {ℓ} : {A : Type ℓ} → (A → Reply) → Result Code A → Result Code Reply
reply f (ok a) = ok (f a)
reply f (err e) = err e

-- An upload that panics has no reply.
abbrev upload_reply : Option (Result Code ℕ) → Option (Result Code Reply)
upload_reply none = none
upload_reply (some r) = some (reply uploaded r)

module _ (b : Base64) (observe : RemoteCommand → Result Code Text) (s : System) where
  unfoldable pub perform : SecurityPolicy → RemoteCommand → Option (Result Code Reply) × List Effect
  perform policy (read_file_command path offset limit) =
      (some (reply read (read_file policy s path offset limit)), [])
  perform policy (delete_file_command path confirm) =
      let r = delete_file policy s path confirm in (some (reply deleted r.0), r.1)
  perform policy (execute_command_command command args working_dir timeout_seconds env_vars) =
      let r = execute_command policy s command args working_dir env_vars in
      (some (reply (λ _. done) r.0), r.1)
  perform policy (upload_file_command path content mode overwrite) =
      let r = upload_file b policy s path content mode overwrite in (upload_reply r.0, r.1)
  perform policy (download_file_command path compress) =
      (some (reply downloaded (download_file policy s path)), [])
  perform policy (restart_service_command service_name force) =
      let r = restart_service policy s service_name force in (some (reply (λ _. done) r.0), r.1)
  perform policy (update_config_command section restart_required) = (some (err not_implemented), [])
  perform policy c = (some (reply observed (observe c)), [])

is_success : Result Code Reply → Bool
is_success (ok r) = true
is_success (err e) = false

pub data Response : Type 0 where
  rate_limit_exceeded : Response
  answered : Result Code Reply → ℕ → Response

-- The history is written once a reply is there.
unfoldable pub recorded :
    RemoteManagementHandler
    → Text
    → ℕ
    → ℕ
    → Option (Result Code Reply)
    → Option Response × RemoteManagementHandler
unfolding is_success
recorded h command_type ended took none = (none, h)
recorded h command_type ended took (some r) = (
  some (answered r took),
  record h {
    command_history = record_command_execution h.command_history (record {
      timestamp = ended;
      command_type = command_type;
      success = is_success r;
      execution_time_ms = took;
    });
  },
)

module _ (b : Base64) (observe : RemoteCommand → Result Code Text) (s : System) where
  unfoldable pub handle_command :
      RemoteManagementHandler
      → RemoteCommand
      → ℕ
      → ℕ
      → ℕ
      → (Option Response × RemoteManagementHandler) × List Effect
  unfolding perform recorded
  handle_command h command now ended took =
      let command_type = get_command_type command in
      let test = check_and_update h.rate_limiter command_type now in
      let h' = record h { rate_limiter = test.1 } in
      let r = perform b observe s h.policy command in
      if test.0
      then (recorded h' command_type ended took r.0, r.1)
      else ((some rate_limit_exceeded, h'), [])
