-- ===== src/Remote/Management.antt =====
-- src/remote_management.rs: the policy, the limiter of requests and the history of
-- `RemoteManagementHandler`. Times are in nanoseconds. The answers of the operating system during a
-- call are the record System, and what a command asks it to change is a list of effects. Messages
-- are left out.
pub mod Window
pub mod Actions
pub mod Dispatch
pub mod Permitted
pub mod Policy
pub mod History
pub mod Upload
mod Tests
use aero_nyx_private_ed.Base.HashMap
use aero_nyx_private_ed.Base.HashMap.{HashMap}
use aero_nyx_private_ed.Base.{
  ℕ, ◌+◌, ◌-◌, ◌*◌, ◌^◌, Bool, true, false, List, [], ◌∷◌, ◌++◌, Option, none, some, Text, text_eq,
  codes, list_beq, leb, ltb, if◌then◌else◌, any, length, drop, Result, ok, err, ◌>>=◌, ◌>>◌,
  reject_if, ok_or,
}
use aero_nyx_private_ed.Remote.Path.{starts_with}

pub record SecurityPolicy : Type 0 where
  pub allowed_paths : List Text
  pub forbidden_paths : List Text
  pub allowed_commands : List Text
  pub max_file_size : ℕ
  pub max_execution_time : ℕ
  pub allow_dangerous_operations : Bool

-- `SecurityPolicy::default`.
abbrev pub default_policy : SecurityPolicy
default_policy = record {
  allowed_paths = codes "/home" ∷ codes "/tmp" ∷ codes "/var/log" ∷ codes "/opt/aeronyx" ∷ [];
  forbidden_paths =
      codes "/etc/shadow"
      ∷ codes "/etc/passwd"
      ∷ codes "/root/.ssh"
      ∷ codes "/etc/aeronyx/private"
      ∷ [];
  allowed_commands =
      codes "ls"
      ∷ codes "ps"
      ∷ codes "df"
      ∷ codes "free"
      ∷ codes "uptime"
      ∷ codes "whoami"
      ∷ codes "date"
      ∷ codes "cat"
      ∷ codes "grep"
      ∷ codes "tail"
      ∷ codes "head"
      ∷ codes "systemctl"
      ∷ codes "journalctl"
      ∷ codes "netstat"
      ∷ codes "ss"
      ∷ codes "ip"
      ∷ [];
  max_file_size = 50 * 1024 * 1024;
  max_execution_time = 30;
  allow_dangerous_operations = false;
}

pub record RateLimiter : Type 0 where
  pub requests : HashMap Text (List ℕ)
  pub max_requests_per_minute : ℕ

unfoldable pub new_limiter : ℕ → RateLimiter
new_limiter max_requests = record {
  requests = HashMap.empty;
  max_requests_per_minute = max_requests;
}

abbrev pub minute : ℕ
minute = 60 * 10 ^ 9

-- `retain` on the times of a key.
unfoldable pub retain_after : ℕ → List ℕ → List ℕ
retain_after start [] = []
retain_after start (t ∷ ts) =
    let rest = retain_after start ts in if ltb start t then t ∷ rest else rest

abbrev pub entries_or_new : Option (List ℕ) → List ℕ
entries_or_new none = []
entries_or_new (some ts) = ts

unfoldable pub check_and_update : RateLimiter → Text → ℕ → Bool × RateLimiter
check_and_update l key now =
    let entries = retain_after (now - minute) (entries_or_new (HashMap.get l.requests key)) in
    if leb l.max_requests_per_minute (length entries)
    then (false, record l { requests = HashMap.insert l.requests key entries })
    else (true, record l { requests = HashMap.insert l.requests key (entries ++ now ∷ []) })

pub record CommandHistoryEntry : Type 0 where
  pub timestamp : ℕ
  pub command_type : Text
  pub success : Bool
  pub execution_time_ms : ℕ

pub record RemoteManagementHandler : Type 0 where
  pub policy : SecurityPolicy
  pub command_history : List CommandHistoryEntry
  pub rate_limiter : RateLimiter

-- `with_policy`: sixty requests of a type in a minute.
unfoldable pub with_policy : SecurityPolicy → RemoteManagementHandler
unfolding new_limiter
with_policy policy = record { policy = policy; command_history = []; rate_limiter = new_limiter 60 }

unfoldable pub record_command_execution :
    List CommandHistoryEntry → CommandHistoryEntry → List CommandHistoryEntry
record_command_execution history entry =
    let longer = history ++ entry ∷ [] in
    if ltb 1000 (length longer) then drop 100 longer else longer
