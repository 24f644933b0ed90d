-- ===== src/Remote/Command.antt =====
-- src/remote_command_handler.rs: the configuration and the tests that stand before a command. The
-- answers of the operating system during a call are the record Machine; what a handler asks it to
-- change is the list of effects that it returns. The texts of errors are left out, and so are the
-- times of a response.
pub mod Execute
pub mod Files
pub mod Listing
pub mod Dispatch
pub mod Permits
pub mod Levels
pub mod Output
mod Tests
pub mod Confinement
use aero_nyx_private_ed.Base.{
  ℕ, ◌*◌, Bool, true, false, not, ◌&&◌, List, [], ◌∷◌, ◌++◌, Option, none, some, Text, text_eq,
  codes, list_beq, if◌then◌else◌, any, join, contains_text, Result, ok, err,
}
use aero_nyx_private_ed.Remote.Path.{is_absolute, join_path, starts_with}

pub data SecurityMode : Type 0 where
  full_access restricted : SecurityMode

pub record RemoteCommandConfig : Type 0 where
  pub security_mode : SecurityMode
  pub max_file_size : ℕ
  pub command_timeout : ℕ
  pub allowed_paths : List Text
  pub forbidden_commands : List Text
  pub enable_command_whitelist : Bool
  pub command_whitelist : List Text
  pub working_dir : Text

-- `RemoteCommandConfig::default`.
abbrev pub default_config : RemoteCommandConfig
default_config = record {
  security_mode = restricted;
  max_file_size = 50 * 1024 * 1024;
  command_timeout = 60;
  allowed_paths = codes "/home" ∷ codes "/var/log/aeronyx" ∷ codes "/tmp" ∷ [];
  forbidden_commands = codes "rm -rf /" ∷ codes "format" ∷ codes "dd" ∷ codes "mkfs" ∷ [];
  enable_command_whitelist = false;
  command_whitelist =
      codes "ls"
      ∷ codes "cat"
      ∷ codes "grep"
      ∷ codes "tail"
      ∷ codes "ps"
      ∷ codes "df"
      ∷ codes "free"
      ∷ codes "uptime"
      ∷ codes "whoami"
      ∷ codes "pwd"
      ∷ codes "echo"
      ∷ codes "date"
      ∷ codes "sh"
      ∷ codes "bash"
      ∷ codes "head"
      ∷ [];
  working_dir = codes "/var/aeronyx";
}

-- `RemoteCommandConfig::full_access`.
abbrev pub full_access_config : RemoteCommandConfig
full_access_config = record {
  security_mode = full_access;
  max_file_size = 100 * 1024 * 1024;
  command_timeout = 300;
  allowed_paths = [];
  forbidden_commands = codes "rm -rf /" ∷ codes "rm -rf /*" ∷ codes ":(){:|:&};:" ∷ [];
  enable_command_whitelist = false;
  command_whitelist = [];
  working_dir = codes "/";
}

-- `RemoteCommandConfig::restricted_with_paths`.
abbrev pub restricted_with_paths : List Text → RemoteCommandConfig
restricted_with_paths paths = record default_config { allowed_paths = paths }

pub record RemoteCommandData : Type 0 where
  pub command_type : Text
  pub cmd : Option Text
  pub args : Option (List Text)
  pub cwd : Option Text
  pub timeout : Option ℕ
  pub env : Option (List (Text × Text))
  pub path : Option Text
  pub content : Option Text
  pub mode : Option Text
  pub overwrite : Option Bool
  pub max_size : Option ℕ
  pub include_hidden : Option Bool
  pub recursive : Option Bool
  pub categories : Option (List Text)

-- The codes that `create_error` is called with.
pub data ErrorCode : Type 0 where
  invalid_command permission_denied unsupported_command system_error : ErrorCode
  timed_out file_too_large file_exists file_not_found invalid_path unknown_command : ErrorCode

-- A process as `Command` is told to start it. `env` is what is set on top of the inherited
-- environment.
pub record Process : Type 0 where
  pub program : Text
  pub args : List Text
  pub current_dir : Text
  pub env : List (Text × Text)
  pub timeout : ℕ

-- What a process wrote: the number of bytes, and the text that `from_utf8_lossy` makes of them.
pub record Stream : Type 0 where
  pub size : ℕ
  pub text : Text

pub data Ending : Type 0 where
  finished : Stream → Stream → Option ℕ → Ending
  failed overdue : Ending

pub record Metadata : Type 0 where
  pub is_file : Bool
  pub is_dir : Bool
  pub len : ℕ

-- An entry of a directory; its metadata does not follow a symbolic link.
pub record DirEntry : Type 0 where
  pub name : Text
  pub metadata : Option Metadata

pub record Machine : Type 0 where
  pub canonicalize : Text → Option Text
  pub exists : Text → Bool
  pub metadata : Text → Option Metadata
  pub read : Text → Option (List ℕ)
  pub create_dir_all : List Text → Bool
  pub write : Text → List ℕ → Bool
  pub read_dir : Text → Option (List DirEntry)
  pub run : Process → Ending

pub data Effect : Type 0 where
  create_dir : List Text → Effect
  write_file : Text → List ℕ → Effect
  set_permissions : Text → ℕ → Effect
  spawn : Process → Effect

abbrev pub critical_paths : List Text
critical_paths = codes "/proc" ∷ codes "/sys" ∷ codes "/dev" ∷ codes "/boot/grub" ∷ []

abbrev pub value_or : Option Text → Text → Text
value_or none d = d
value_or (some x) d = x

-- The path that `validate_path` tests: canonical, where the system can make it so.
unfoldable pub resolved : RemoteCommandConfig → Machine → Text → Text
resolved config m path =
    let absolute = if is_absolute path then path else join_path config.working_dir path in
    value_or (m.canonicalize absolute) absolute

-- Whether the mode lets a resolved path pass.
path_passes : SecurityMode → List Text → Text → Bool
path_passes full_access allowed p = not (any (λ c. starts_with p c) critical_paths)
path_passes restricted allowed p = any (λ a. starts_with p a) allowed

unfoldable pub validate_path : RemoteCommandConfig → Machine → Text → Result ErrorCode Text
unfolding resolved path_passes
validate_path config m path =
    let p = resolved config m path in
    if path_passes config.security_mode config.allowed_paths p then ok p else err permission_denied

whitelisted : SecurityMode → List Text → Text → Bool
whitelisted full_access list cmd = true
whitelisted restricted list cmd = any (λ w. list_beq w cmd) list

unfoldable pub is_command_whitelisted : RemoteCommandConfig → Text → Bool
unfolding whitelisted
is_command_whitelisted config cmd = whitelisted config.security_mode config.command_whitelist cmd

unfoldable pub full_command : Text → Option (List Text) → Text
full_command cmd none = cmd
full_command cmd (some args) = cmd ++ codes " " ++ join (codes " ") args

unfoldable pub is_command_forbidden : RemoteCommandConfig → Text → Option (List Text) → Bool
unfolding full_command
is_command_forbidden config cmd args =
    any (λ f. contains_text f (full_command cmd args)) config.forbidden_commands
