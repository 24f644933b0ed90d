-- ===== src/Server/Sessions.antt =====
-- src/server/session.rs: `SessionManager`, and the state of a `ClientSession`. The clones of a session
-- share their cells, so a session's state is kept once, in the table; the connection itself is left
-- out. `now` is the clock reading. The scan and the removals of `cleanup_expired_sessions` are one
-- step here, though the source takes its locks anew between them.
pub mod Addresses
pub mod History
pub mod Cleanup
mod Tests
use aero_nyx_private_ed.Base.HashMap
use aero_nyx_private_ed.Base.HashMap.{HashMap, apply_to}
use aero_nyx_private_ed.Base.{
  ℕ, ◌-◌, Bool, true, false, not, List, [], ◌∷◌, Option, none, some, Text, text_eq, codes, ◌==◌,
  ltb, if◌then◌else◌, length, Result, ok, err,
}

pub record ClientSession : Type 0 where
  pub id : Text
  pub client_id : Text
  pub ip_address : Text
  pub peer_ip : Text
  pub last_activity : ℕ
  pub stream_taken : Bool
  pub encryption_algorithm : Text
  pub current_room : Option Text
  pub display_name : Option Text
  pub fallback_enabled : Bool

pub data SessionError : Type 0 where
  not_found : Text → SessionError

pub record SessionManager : Type 0 where
  pub sessions : HashMap Text ClientSession
  pub ip_sessions : HashMap Text Text
  pub session_timeout : ℕ

abbrev algorithm_or_default : Option Text → Text
algorithm_or_default none = codes "chacha20poly1305"
algorithm_or_default (some a) = a

pub new_session : Text → Text → Text → Text → Option Text → ℕ → ClientSession
new_session id client_id ip_address peer_ip encryption_algorithm now = record {
  id = id;
  client_id = client_id;
  ip_address = ip_address;
  peer_ip = peer_ip;
  last_activity = now;
  stream_taken = false;
  encryption_algorithm = algorithm_or_default encryption_algorithm;
  current_room = none;
  display_name = none;
  fallback_enabled = true;
}

abbrev pub update_activity : ClientSession → ℕ → ClientSession
update_activity s now = record s { last_activity = now }

abbrev pub idle_time : ClientSession → ℕ → ℕ
idle_time s now = now - s.last_activity

-- `mark_stream_taken`: true for the first caller.
pub mark_stream_taken : ClientSession → Bool × ClientSession
mark_stream_taken s = (not s.stream_taken, record s { stream_taken = true })

pub set_current_room : ClientSession → Option Text → ClientSession
set_current_room s room_id = record s { current_room = room_id }

pub set_fallback_enabled : ClientSession → Bool → ClientSession
set_fallback_enabled s enabled = record s { fallback_enabled = enabled }

pub new : ℕ → SessionManager
new session_timeout = record {
  sessions = HashMap.empty;
  ip_sessions = HashMap.empty;
  session_timeout = session_timeout;
}

pub add_session : SessionManager → ClientSession → SessionManager
add_session m s = record m {
  sessions = HashMap.insert m.sessions s.id s;
  ip_sessions = HashMap.insert m.ip_sessions s.ip_address s.id;
}

pub remove_session : SessionManager → Text → SessionManager
remove_session m session_id = elim (HashMap.get m.sessions session_id) [
  | none ↦ m
  | some s ↦ record m {
    sessions = HashMap.remove m.sessions session_id;
    ip_sessions = HashMap.remove m.ip_sessions s.ip_address;
  }
]

pub touch_session : SessionManager → Text → ℕ → Result SessionError (Unit {0}) × SessionManager
touch_session m session_id now = elim (HashMap.get m.sessions session_id) [
  | none ↦ (err (not_found session_id), m)
  | some _ ↦ (
    ok tt,
    record m { sessions = HashMap.modify m.sessions session_id (λ s. update_activity s now) },
  )
]

unfoldable pub get_session : SessionManager → Text → Option ClientSession
get_session m session_id = HashMap.get m.sessions session_id

unfoldable pub get_session_by_ip : SessionManager → Text → Option ClientSession
get_session_by_ip m ip = elim (HashMap.get m.ip_sessions ip) [
  | none ↦ none
  | some session_id ↦ HashMap.get m.sessions session_id
]

pub has_session : SessionManager → Text → Bool
has_session m session_id = HashMap.contains_key m.sessions session_id

pub all_sessions : SessionManager → List ClientSession
all_sessions m = HashMap.values m.sessions

pub session_count : SessionManager → ℕ
session_count m = length m.sessions

pub count_sessions_by_ip : SessionManager → Text → ℕ
count_sessions_by_ip m ip = HashMap.count_values (λ s. s.peer_ip == ip) m.sessions

-- `close_all_sessions`, behind the notices to the clients.
pub close_all_sessions : SessionManager → SessionManager
close_all_sessions m = record m { sessions = HashMap.empty; ip_sessions = HashMap.empty }

-- The scan of `cleanup_expired_sessions`.
expired_ids : HashMap Text ClientSession → ℕ → ℕ → List Text
expired_ids [] timeout now = []
expired_ids ((id, s) ∷ m) timeout now =
    let rest = expired_ids m timeout now in
    if ltb timeout (idle_time s now) then id ∷ rest else rest

-- Its loop over the expired sessions, whose body is that of `remove_session`.
pub remove_sessions : SessionManager → List Text → SessionManager
remove_sessions m [] = m
remove_sessions m (id ∷ ids) = remove_sessions (remove_session m id) ids

pub cleanup_expired_sessions : SessionManager → ℕ → ℕ × SessionManager
unfolding expired_ids remove_sessions
cleanup_expired_sessions m now =
    let ids = expired_ids m.sessions m.session_timeout now in (length ids, remove_sessions m ids)

filter_values : (ClientSession → Bool) → HashMap Text ClientSession → List ClientSession
filter_values p [] = []
filter_values p ((_, s) ∷ m) = let rest = filter_values p m in if p s then s ∷ rest else rest

pub get_sessions_by_algorithm : SessionManager → Text → List ClientSession
unfolding filter_values
get_sessions_by_algorithm m algorithm =
    filter_values (λ s. s.encryption_algorithm == algorithm) m.sessions

in_room : Text → Option Text → Bool
in_room room_id none = false
in_room room_id (some r) = r == room_id

pub get_sessions_by_room : SessionManager → Text → List ClientSession
unfolding filter_values in_room
get_sessions_by_room m room_id = filter_values (λ s. in_room room_id s.current_room) m.sessions

second : Option (Text × ClientSession) → Option ClientSession
second none = none
second (some (_, s)) = some s

pub get_session_by_client_id : SessionManager → Text → Option ClientSession
unfolding second
get_session_by_client_id m client_id =
    second (HashMap.find_value (λ s. s.client_id == client_id) m.sessions)
