-- ===== src/Terminals/Pty.antt =====
-- src/terminal/mod.rs: `TerminalSessionManager` and `handle_terminal_message`. What the machine
-- answers during a call is the record Host; `decode` is the reading of base64. Times are in
-- milliseconds.
pub mod Sizes
pub mod Replies
pub mod Shells
pub mod Reader
mod Tests
use aero_nyx_private_ed.Base.HashMap
use aero_nyx_private_ed.Base.HashMap.{HashMap}
use aero_nyx_private_ed.Base.{
  ℕ, ◌-◌, Bool, true, false, ◌||◌, not, List, [], ◌∷◌, Option, none, some, Text, text_eq, codes,
  leb, ltb, if◌then◌else◌, length, Result, ok, err, ◌>>=◌, ◌>>◌, reject_if,
}

pub record TerminalSession : Type 0 where
  pub rows : ℕ
  pub cols : ℕ
  pub created_at : ℕ

abbrev pub TerminalSessionManager : Type 0
TerminalSessionManager = HashMap Text TerminalSession

pub data TerminalError : Type 0 where
  invalid_rows invalid_cols limit_exceeded already_exists no_directory pty_failed : TerminalError
  not_found decode_failed input_too_large unexpected_message : TerminalError

pub data TerminalMessage : Type 0 where
  term_init : Text → ℕ → ℕ → Option Text → Option (List (Text × Text)) → TerminalMessage
  term_input : Text → Text → TerminalMessage
  term_output : Text → Text → TerminalMessage
  term_resize : Text → ℕ → ℕ → TerminalMessage
  term_close : Text → Option Text → TerminalMessage
  term_ready : Text → TerminalMessage
  term_error : Text → TerminalError → TerminalMessage

-- `exists` of the file system, whether the shell was spawned, the input written and the terminal
-- resized, and the clock.
pub record Host : Type 0 where
  pub exists_path : Text → Bool
  pub spawned : Bool
  pub written : Bool
  pub resized : Bool
  pub now : ℕ
  pub decode : Text → Option (List ℕ)

-- What is done to the shell of a terminal: it is started, given bytes, resized, or killed.
pub data ShellEffect : Type 0 where
  spawn_shell : Text → ℕ → ℕ → Option Text → Option (List (Text × Text)) → ShellEffect
  write_shell : Text → List ℕ → ShellEffect
  resize_shell : Text → ℕ → ℕ → ShellEffect
  kill_shell : Text → ShellEffect

unfoldable pub check_size : ℕ → ℕ → Result TerminalError (Unit {0})
check_size rows cols = do
  reject_if (ltb rows 10 || ltb 200 rows) invalid_rows
  reject_if (ltb cols 40 || ltb 400 cols) invalid_cols

unfoldable pub is_missing : Host → Option Text → Bool
is_missing host none = false
is_missing host (some cwd) = not (host.exists_path cwd)

-- The tests of `create_session`, in its order, and the start of the shell.
unfoldable pub admit :
    TerminalSessionManager → Host → Text → ℕ → ℕ → Option Text → Result TerminalError (Unit {0})
unfolding check_size is_missing
admit m host session_id rows cols cwd = do
  check_size rows cols
  reject_if (leb 10 (length m)) limit_exceeded
  reject_if (HashMap.contains_key m session_id) already_exists
  reject_if (is_missing host cwd) no_directory
  reject_if (not host.spawned) pty_failed

unfoldable pub stored_if :
    TerminalSessionManager
    → TerminalSessionManager
    → Result TerminalError (Unit {0})
    → Result TerminalError (Unit {0}) × TerminalSessionManager
stored_if m m' (err e) = (err e, m)
stored_if m m' (ok _) = (ok tt, m')

unfoldable pub create_session :
    TerminalSessionManager
    → Host
    → Text
    → ℕ
    → ℕ
    → Option Text
    → Result TerminalError (Unit {0}) × TerminalSessionManager
unfolding stored_if
create_session m host session_id rows cols cwd =
    stored_if m
      (HashMap.insert m session_id (record { rows = rows; cols = cols; created_at = host.now }))
      (admit m host session_id rows cols cwd)

abbrev pub present : TerminalSessionManager → Text → Result TerminalError (Unit {0})
present m session_id = reject_if (not (HashMap.contains_key m session_id)) not_found

unfoldable pub write_to_terminal :
    TerminalSessionManager → Host → Text → List ℕ → Result TerminalError (Unit {0})
write_to_terminal m host session_id bytes = do
  present m session_id
  reject_if (not host.written) pty_failed

unfoldable pub may_resize :
    TerminalSessionManager → Host → Text → ℕ → ℕ → Result TerminalError (Unit {0})
unfolding check_size
may_resize m host session_id rows cols = do
  check_size rows cols
  present m session_id
  reject_if (not host.resized) pty_failed

unfoldable pub resized_to : ℕ → ℕ → TerminalSession → TerminalSession
resized_to rows cols s = record s { rows = rows; cols = cols }

-- The size is stored once the terminal has it.
unfoldable pub resize_terminal :
    TerminalSessionManager
    → Host
    → Text
    → ℕ
    → ℕ
    → Result TerminalError (Unit {0}) × TerminalSessionManager
unfolding stored_if resized_to
resize_terminal m host session_id rows cols =
    stored_if m (HashMap.modify m session_id (resized_to rows cols))
      (may_resize m host session_id rows cols)

-- The session is taken off the table first; a process that cannot be killed is only logged.
unfoldable pub close_session :
    TerminalSessionManager → Text → Result TerminalError (Unit {0}) × TerminalSessionManager
close_session m session_id = (present m session_id, HashMap.remove m session_id)

unfoldable pub stale_ids : TerminalSessionManager → ℕ → ℕ → List Text
stale_ids [] max_age now = []
stale_ids ((id, s) ∷ m) max_age now =
    let rest = stale_ids m max_age now in
    if ltb max_age (now - s.created_at) then id ∷ rest else rest

unfoldable pub close_sessions : TerminalSessionManager → List Text → TerminalSessionManager
close_sessions m [] = m
close_sessions m (id ∷ ids) = close_sessions (close_session m id).1 ids

unfoldable pub cleanup_stale_sessions : TerminalSessionManager → ℕ → ℕ → TerminalSessionManager
cleanup_stale_sessions m max_age now = close_sessions m (stale_ids m max_age now)

-- The answer to a message whose operation failed names the error.
unfoldable pub answer :
    Text → Option TerminalMessage → Result TerminalError (Unit {0}) → Option TerminalMessage
answer session_id good (ok _) = good
answer session_id good (err e) = some (term_error session_id e)

unfoldable pub handle_input :
    TerminalSessionManager
    → Host
    → Text
    → Option (List ℕ)
    → Result TerminalError (Option TerminalMessage)
unfolding answer
handle_input m host session_id none = err decode_failed
handle_input m host session_id (some decoded) =
    if ltb 4096 (length decoded)
    then ok (some (term_error session_id input_too_large))
    else ok (answer session_id none (write_to_terminal m host session_id decoded))

unfoldable pub handle_terminal_message :
    TerminalSessionManager
    → Host
    → TerminalMessage
    → Result TerminalError (Option TerminalMessage) × TerminalSessionManager
unfolding answer
handle_terminal_message m host (term_init session_id rows cols cwd env) =
    let (r, m') = create_session m host session_id rows cols cwd in
    (ok (answer session_id (some (term_ready session_id)) r), m')
handle_terminal_message m host (term_input session_id encoded) =
    (handle_input m host session_id (host.decode encoded), m)
handle_terminal_message m host (term_resize session_id rows cols) =
    let (r, m') = resize_terminal m host session_id rows cols in (ok (answer session_id none r), m')
handle_terminal_message m host (term_close session_id reason) =
    let (r, m') = close_session m session_id in (ok (answer session_id none r), m')
handle_terminal_message m host _ = (err unexpected_message, m)

-- An effect behind the tests that stand before it.
unfoldable pub done_if : Result TerminalError (Unit {0}) → ShellEffect → List ShellEffect
done_if (ok _) e = e ∷ []
done_if (err _) e = []

unfoldable pub input_effects : TerminalSessionManager → Text → Option (List ℕ) → List ShellEffect
unfolding done_if
input_effects m session_id none = []
input_effects m session_id (some decoded) =
    if ltb 4096 (length decoded)
    then []
    else done_if (present m session_id) (write_shell session_id decoded)

-- What `handle_terminal_message` does to shells. Each call of the pty stands behind the tests that the
-- operations make before it, and counts also where it fails.
unfoldable pub shell_effects : TerminalSessionManager → Host → TerminalMessage → List ShellEffect
unfolding admit check_size done_if input_effects
shell_effects m host (term_init session_id rows cols cwd env) =
    done_if (admit m (record host { spawned = true }) session_id rows cols cwd)
      (spawn_shell session_id rows cols cwd env)
shell_effects m host (term_input session_id encoded) =
    input_effects m session_id (host.decode encoded)
shell_effects m host (term_resize session_id rows cols) =
    done_if (check_size rows cols >> present m session_id) (resize_shell session_id rows cols)
shell_effects m host (term_close session_id reason) =
    done_if (present m session_id) (kill_shell session_id)
shell_effects m host _ = []
