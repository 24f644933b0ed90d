-- ===== src/Remote/Management/Actions.antt =====
-- src/remote_management.rs: what the commands do to files, processes and services. The crate base64
-- is a parameter. Reading commands return only what the source reads: directories, processes and the
-- state of the system are read by the parameter `observe` of Dispatch.
use aero_nyx_private_ed.Base.{
  ℕ, Bool, true, false, not, ◌&&◌, ◌||◌, List, [], ◌∷◌, Option, none, some, Text, text_eq, nat_eq,
  codes, list_beq, ltb, if◌then◌else◌, any, length, take, drop, Result, ok, err, ◌>>=◌, ◌>>◌,
  reject_if, ok_or, is_prefix, contains_text,
}
use aero_nyx_private_ed.Remote.Path.{starts_with, parent_path, file_name, join_path}
use aero_nyx_private_ed.Remote.Command.{Metadata}
use aero_nyx_private_ed.Remote.Command.Files.{Base64}
use aero_nyx_private_ed.Remote.Management.{SecurityPolicy}

-- The error codes.
pub data Code : Type 0 where
  access_denied file_too_large not_a_file file_not_found read_error : Code
  operation_disabled confirmation_required is_directory delete_error : Code
  invalid_path file_exists invalid_content write_error : Code
  command_not_allowed invalid_arguments execution_error command_failed : Code
  service_not_allowed command_error service_error not_implemented : Code

-- What `Command` is told to start.
pub record Launch : Type 0 where
  pub program : Text
  pub args : List Text
  pub current_dir : Option Text
  pub env : List (Text × Text)

pub data Ending : Type 0 where
  succeeded failed unstarted : Ending

pub record System : Type 0 where
  pub canonicalize : Text → Option Text
  pub exists : Text → Bool
  pub metadata : Text → Option Metadata
  pub read : Text → Option (List ℕ)
  pub write : Text → List ℕ → Bool
  pub remove : Text → Bool
  pub run : Launch → Ending

pub data Effect : Type 0 where
  write_file : Text → List ℕ → Effect
  set_permissions : Text → ℕ → Effect
  remove_file : Text → Effect
  start : Launch → Effect

unfoldable pub is_path_allowed : SecurityPolicy → System → Text → Result Code Text
is_path_allowed policy s path = do
  canonical_path ← ok_or (s.canonicalize path) access_denied
  reject_if (any (λ f. starts_with canonical_path f) policy.forbidden_paths) access_denied
  reject_if (not (any (λ a. starts_with canonical_path a) policy.allowed_paths)) access_denied
  ok canonical_path

unfoldable pub is_command_allowed : SecurityPolicy → Text → Bool
is_command_allowed policy command = any (λ c. list_beq c command) policy.allowed_commands

pub record FileContent : Type 0 where
  pub content : List ℕ
  pub total_size : ℕ

abbrev pub limit_or : Option ℕ → ℕ → ℕ
limit_or none d = d
limit_or (some n) d = n

smaller : ℕ → ℕ → ℕ
smaller a b = if ltb a b then a else b

-- `read_file_with_options`: what a read that is not cut short gives.
unfoldable pub read_file_with_options : ℕ → Option ℕ → Option ℕ → List ℕ → FileContent
unfolding smaller
read_file_with_options max_file_size offset limit bytes = record {
  content =
      take (smaller (limit_or limit max_file_size) max_file_size) (drop (limit_or offset 0) bytes);
  total_size = length bytes;
}

-- `read_file`, before its content is written as text or base64.
unfoldable pub read_file :
    SecurityPolicy → System → Text → Option ℕ → Option ℕ → Result Code FileContent
read_file policy s path offset limit = do
  canonical_path ← is_path_allowed policy s path
  metadata ← ok_or (s.metadata canonical_path) file_not_found
  reject_if (ltb policy.max_file_size metadata.len) file_too_large
  reject_if (not metadata.is_file) not_a_file
  bytes ← ok_or (s.read canonical_path) read_error
  ok (read_file_with_options policy.max_file_size offset limit bytes)

-- The tests before a file is deleted.
unfoldable pub delete_request : SecurityPolicy → System → Text → Bool → Result Code Text
delete_request policy s path confirm = do
  reject_if (not policy.allow_dangerous_operations) operation_disabled
  reject_if (not confirm) confirmation_required
  canonical_path ← is_path_allowed policy s path
  metadata ← ok_or (s.metadata canonical_path) file_not_found
  reject_if metadata.is_dir is_directory
  ok canonical_path

unfoldable pub delete_checked : System → Result Code Text → Result Code Text × List Effect
delete_checked s (err e) = (err e, [])
delete_checked s (ok p) = (if s.remove p then ok p else err delete_error, remove_file p ∷ [])

unfoldable pub delete_file : SecurityPolicy → System → Text → Bool → Result Code Text × List Effect
delete_file policy s path confirm = delete_checked s (delete_request policy s path confirm)

abbrev pub parent_or_root : Option Text → Text
parent_or_root none = codes "/"
parent_or_root (some p) = p

-- The path of a file in a directory.
abbrev pub named_in : Text → Option Text → Option Text
named_in dir none = none
named_in dir (some name) = some (join_path dir name)

-- The path that an upload writes; the inner `none` is the panic of `unwrap` on a path without a name.
unfoldable pub upload_target : SecurityPolicy → System → Text → Result Code (Option Text)
upload_target policy s path = do
  _ ← is_path_allowed policy s (parent_or_root (parent_path path))
  parent ← ok_or (parent_path path) invalid_path
  canonical_parent ← ok_or (s.canonicalize parent) invalid_path
  ok (named_in canonical_parent (file_name path))

unfoldable pub upload_content :
    Base64 → SecurityPolicy → System → Text → Text → Bool → Result Code (List ℕ)
upload_content b policy s p content overwrite = do
  reject_if (s.exists p && not overwrite) file_exists
  decoded ← ok_or (b.decode content) invalid_content
  reject_if (ltb policy.max_file_size (length decoded)) file_too_large
  ok decoded

unfoldable pub permissions : Text → Option ℕ → List Effect
permissions p none = []
permissions p (some mode) = set_permissions p mode ∷ []

unfoldable pub write_checked :
    System → Text → Option ℕ → Result Code (List ℕ) → Result Code ℕ × List Effect
write_checked s p mode (err e) = (err e, [])
write_checked s p mode (ok decoded) =
    if s.write p decoded
    then (ok (length decoded), write_file p decoded ∷ permissions p mode)
    else (err write_error, write_file p decoded ∷ [])

unfoldable pub upload_checked :
    Base64
    → SecurityPolicy
    → System
    → Text
    → Option ℕ
    → Bool
    → Result Code (Option Text)
    → Option (Result Code ℕ) × List Effect
upload_checked b policy s content mode overwrite (err e) = (some (err e), [])
upload_checked b policy s content mode overwrite (ok none) = (none, [])
upload_checked b policy s content mode overwrite (ok (some p)) =
    let r = write_checked s p mode (upload_content b policy s p content overwrite) in
    (some r.0, r.1)

unfoldable pub upload_file :
    Base64
    → SecurityPolicy
    → System
    → Text
    → Text
    → Option ℕ
    → Bool
    → Option (Result Code ℕ) × List Effect
upload_file b policy s path content mode overwrite =
    upload_checked b policy s content mode overwrite (upload_target policy s path)

-- `download_file`, before its content is compressed or encoded.
unfoldable pub download_file : SecurityPolicy → System → Text → Result Code (List ℕ)
download_file policy s path = do
  canonical_path ← is_path_allowed policy s path
  metadata ← ok_or (s.metadata canonical_path) file_not_found
  reject_if (not metadata.is_file) not_a_file
  reject_if (ltb policy.max_file_size metadata.len) file_too_large
  ok_or (s.read canonical_path) read_error

-- An argument in which a shell would see more than a word.
unfoldable pub is_suspicious : Text → Bool
is_suspicious arg =
    contains_text (codes "&&") arg
    || contains_text (codes "||") arg
    || contains_text (codes ";") arg
    || contains_text (codes "|") arg
    || contains_text (codes "$") arg
    || contains_text (codes "`") arg

is_ok : Result Code Text → Bool
is_ok (ok p) = true
is_ok (err e) = false

unfoldable pub directory_for : SecurityPolicy → System → Option Text → Option Text
unfolding is_ok
directory_for policy s none = none
directory_for policy s (some dir) = if is_ok (is_path_allowed policy s dir) then some dir else none

unfoldable pub is_safe_variable : Text → Bool
is_safe_variable key =
    is_prefix (codes "AERONYX_") key || list_beq key (codes "PATH") || list_beq key (codes "HOME")

unfoldable pub safe_variables : List (Text × Text) → List (Text × Text)
safe_variables [] = []
safe_variables ((key, value) ∷ vars) =
    let rest = safe_variables vars in if is_safe_variable key then (key, value) ∷ rest else rest

abbrev pub variables_or_none : Option (List (Text × Text)) → List (Text × Text)
variables_or_none none = []
variables_or_none (some vars) = vars

-- The tests before a process is started, and the process.
unfoldable pub launch_request :
    SecurityPolicy
    → System
    → Text
    → List Text
    → Option Text
    → Option (List (Text × Text))
    → Result Code Launch
launch_request policy s command args working_dir env_vars = do
  reject_if (not policy.allow_dangerous_operations) operation_disabled
  reject_if (not (is_command_allowed policy command)) command_not_allowed
  reject_if (any is_suspicious args) invalid_arguments
  ok (record {
    program = command;
    args = args;
    current_dir = directory_for policy s working_dir;
    env = safe_variables (variables_or_none env_vars);
  })

started : Ending → Code → Code → Result Code (Unit {0})
started succeeded code unable = ok tt
started failed code unable = err code
started unstarted code unable = err unable

-- The two codes are for a process that fails and for one that cannot be started.
unfoldable pub launch_checked :
    System → Code → Code → Result Code Launch → Result Code (Unit {0}) × List Effect
unfolding started
launch_checked s code unable (err e) = (err e, [])
launch_checked s code unable (ok l) = (started (s.run l) code unable, start l ∷ [])

-- `execute_command`. The process has ended before the time limit is set, so the limit cuts none short.
unfoldable pub execute_command :
    SecurityPolicy
    → System
    → Text
    → List Text
    → Option Text
    → Option (List (Text × Text))
    → Result Code (Unit {0}) × List Effect
unfolding launch_checked
execute_command policy s command args working_dir env_vars =
    launch_checked s command_failed execution_error
      (launch_request policy s command args working_dir env_vars)

abbrev pub allowed_services : List Text
allowed_services = codes "aeronyx-vpn" ∷ codes "aeronyx-node" ∷ codes "nginx" ∷ codes "docker" ∷ []

unfoldable pub restart_request : SecurityPolicy → Text → Bool → Result Code Launch
restart_request policy service_name force = do
  reject_if (not policy.allow_dangerous_operations) operation_disabled
  reject_if (not (any (λ a. list_beq a service_name) allowed_services)) service_not_allowed
  ok (record {
    program = codes "systemctl";
    args = (if force then codes "restart" else codes "reload") ∷ service_name ∷ [];
    current_dir = none;
    env = [];
  })

unfoldable pub restart_service :
    SecurityPolicy → System → Text → Bool → Result Code (Unit {0}) × List Effect
unfolding launch_checked
restart_service policy s service_name force =
    launch_checked s service_error command_error (restart_request policy service_name force)
