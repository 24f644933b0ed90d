-- ===== src/Terminals/Manager.antt =====
-- src/terminal_manager.rs: `TerminalManager`. The pseudo-terminal and its process are outside: whether
-- they could be made, and whether a write or a resize worked, are arguments. Times are in
-- milliseconds; `now` is the clock reading.
pub mod Environment
pub mod Limit
pub mod Race
pub mod Cleanup
mod Tests
use aero_nyx_private_ed.Base.HashMap
use aero_nyx_private_ed.Base.HashMap.{HashMap}
use aero_nyx_private_ed.Base.{
  ℕ, ◌-◌, ◌*◌, Bool, true, false, ◌||◌, List, [], ◌∷◌, Option, none, some, Text, text_eq, nat_eq,
  codes, list_beq, leb, ltb, if◌then◌else◌, any, map, Result, ok, err, ◌>>=◌, ◌>>◌, reject_if,
  ok_or, is_prefix,
}

pub record TerminalSession : Type 0 where
  pub user : Text
  pub rows : ℕ
  pub cols : ℕ
  pub created_at : ℕ
  pub last_activity : ℕ

pub record TerminalManager : Type 0 where
  pub sessions : HashMap Text TerminalSession
  pub max_sessions_per_user : ℕ
  pub session_timeout : ℕ

pub data TerminalError : Type 0 where
  too_many_sessions already_exists not_found pty_failed : TerminalError

unfoldable pub new : ℕ → ℕ → TerminalManager
new max_sessions_per_user session_timeout_minutes = record {
  sessions = HashMap.empty;
  max_sessions_per_user = max_sessions_per_user;
  session_timeout = session_timeout_minutes * 60 * 1000;
}

unfoldable pub count_user_sessions : TerminalManager → Text → ℕ
count_user_sessions m user = HashMap.count_values (λ s. list_beq s.user user) m.sessions

-- The first part of `create_session`: the tests.
unfoldable pub admit : TerminalManager → Text → Text → Result TerminalError (Unit {0})
admit m session_id user = do
  reject_if (leb m.max_sessions_per_user (count_user_sessions m user)) too_many_sessions
  reject_if (HashMap.contains_key m.sessions session_id) already_exists

abbrev pub new_session : Text → ℕ → ℕ → ℕ → TerminalSession
new_session user rows cols now = record {
  user = user;
  rows = rows;
  cols = cols;
  created_at = now;
  last_activity = now;
}

-- The last part, once the process runs.
unfoldable pub store : TerminalManager → Text → Text → ℕ → ℕ → ℕ → TerminalManager
store m session_id user rows cols now = record m {
  sessions = HashMap.insert m.sessions session_id (new_session user rows cols now);
}

-- What a call without others in between does; `spawned` tells whether the process could be started.
unfoldable pub stored_if :
    Bool
    → TerminalManager
    → TerminalManager
    → Result TerminalError (Unit {0})
    → Result TerminalError (Unit {0}) × TerminalManager
stored_if spawned m m' (err e) = (err e, m)
stored_if spawned m m' (ok _) = if spawned then (ok tt, m') else (err pty_failed, m)

unfoldable pub create_session :
    TerminalManager
    → Text
    → Text
    → ℕ
    → ℕ
    → ℕ
    → Bool
    → Result TerminalError (Unit {0}) × TerminalManager
unfolding stored_if
create_session m session_id user rows cols now spawned =
    stored_if spawned m (store m session_id user rows cols now) (admit m session_id user)

abbrev safe_env_vars : List Text
safe_env_vars =
    codes "TERM"
    ∷ codes "LANG"
    ∷ codes "LC_ALL"
    ∷ codes "LC_CTYPE"
    ∷ codes "TZ"
    ∷ codes "USER"
    ∷ codes "HOME"
    ∷ codes "SHELL"
    ∷ codes "EDITOR"
    ∷ codes "VISUAL"
    ∷ codes "PAGER"
    ∷ []

unfoldable pub is_safe_env_var : Text → Bool
is_safe_env_var key = any (λ s. list_beq s key) safe_env_vars || is_prefix (codes "AERONYX_") key

-- The variables that `create_session` sets, in order, on a map that keeps the last value of each.
unfoldable pub set_safe : HashMap Text Text → List (Text × Text) → HashMap Text Text
set_safe m [] = m
set_safe m ((key, value) ∷ vars) =
    set_safe (if is_safe_env_var key then HashMap.insert m key value else m) vars

abbrev pub given_or_none : Option (List (Text × Text)) → List (Text × Text)
given_or_none none = []
given_or_none (some vars) = vars

unfoldable pub command_env : Option (List (Text × Text)) → HashMap Text Text
unfolding set_safe
command_env env =
    HashMap.insert
      (HashMap.insert (set_safe HashMap.empty (given_or_none env)) (codes "TERM")
        (codes "xterm-256color"))
      (codes "LANG") (codes "en_US.UTF-8")

unfoldable pub touched : ℕ → TerminalSession → TerminalSession
touched now s = record s { last_activity = now }

unfoldable pub resized : ℕ → ℕ → ℕ → TerminalSession → TerminalSession
resized rows cols now s = record s { rows = rows; cols = cols; last_activity = now }

-- The activity is noted before the terminal is written.
unfoldable pub write_input :
    TerminalManager → Text → ℕ → Bool → Result TerminalError (Unit {0}) × TerminalManager
unfolding touched
write_input m session_id now written = elim (HashMap.get m.sessions session_id) [
  | none ↦ (err not_found, m)
  | some s ↦ (
    if written then ok tt else err pty_failed,
    record m { sessions = HashMap.modify m.sessions session_id (touched now) },
  )
]

-- A size is stored once the terminal has it.
unfoldable pub resize_terminal :
    TerminalManager → Text → ℕ → ℕ → ℕ → Bool → Result TerminalError (Unit {0}) × TerminalManager
unfolding resized
resize_terminal m session_id rows cols now resized_there =
    elim (HashMap.get m.sessions session_id) [
      | none ↦ (err not_found, m)
      | some s ↦
          if resized_there
          then (
            ok tt,
            record m { sessions = HashMap.modify m.sessions session_id (resized rows cols now) },
          )
          else (err pty_failed, m)
    ]

-- Output that is read notes the activity, too.
unfoldable pub output_read : TerminalManager → Text → ℕ → TerminalManager
unfolding touched
output_read m session_id now = record m {
  sessions = HashMap.modify m.sessions session_id (touched now);
}

-- The reading task ends with the process: it drops the session.
unfoldable pub reading_ended : TerminalManager → Text → TerminalManager
reading_ended m session_id = record m { sessions = HashMap.remove m.sessions session_id }

unfoldable pub close_session :
    TerminalManager → Text → Result TerminalError (Unit {0}) × TerminalManager
close_session m session_id = elim (HashMap.get m.sessions session_id) [
  | none ↦ (err not_found, m)
  | some s ↦ (ok tt, record m { sessions = HashMap.remove m.sessions session_id })
]

unfoldable pub inactive_ids : HashMap Text TerminalSession → ℕ → ℕ → List Text
inactive_ids [] timeout now = []
inactive_ids ((id, s) ∷ m) timeout now =
    let rest = inactive_ids m timeout now in
    if ltb timeout (now - s.last_activity) then id ∷ rest else rest

unfoldable pub close_sessions : TerminalManager → List Text → TerminalManager
close_sessions m [] = m
close_sessions m (id ∷ ids) = close_sessions (close_session m id).1 ids

unfoldable pub cleanup_inactive_sessions : TerminalManager → ℕ → TerminalManager
cleanup_inactive_sessions m now = close_sessions m (inactive_ids m.sessions m.session_timeout now)

unfoldable pub get_session_info : TerminalManager → Text → Result TerminalError (Text × ℕ × ℕ)
get_session_info m session_id = do
  s ← ok_or (HashMap.get m.sessions session_id) not_found
  ok (s.user, s.rows, s.cols)

unfoldable pub list_sessions : TerminalManager → ℕ → List (Text × Text × ℕ)
list_sessions m now = map (λ e. (e.0, e.1.user, now - e.1.created_at)) m.sessions
