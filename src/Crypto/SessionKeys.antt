-- ===== src/Crypto/SessionKeys.antt =====
-- src/crypto/session.rs: `SessionKeyManager`. `now` is the clock reading; an instant's `elapsed` at
-- `now` is the difference, which a monotonic clock keeps at zero or more. `generate_key` draws the key
-- that `rotate_key` takes as an argument.
pub mod Rotation
use aero_nyx_private_ed.Base.HashMap
use aero_nyx_private_ed.Base.HashMap.{HashMap}
use aero_nyx_private_ed.Base.{
  ℕ, ◌-◌, Bool, true, false, ◌&&◌, ◌||◌, List, Option, none, some, Text, text_eq, ltb, leb,
  if◌then◌else◌, length, add_u64, map,
}

pub record SessionKeyEntry : Type 0 where
  pub key : List ℕ
  pub created_at : ℕ
  pub last_used : ℕ
  pub usage_count : ℕ

pub record SessionKeyManager : Type 0 where
  pub session_keys : HashMap Text SessionKeyEntry
  pub rotation_interval : ℕ
  pub max_key_usages : ℕ

abbrev pub new_entry : List ℕ → ℕ → SessionKeyEntry
new_entry key now = record { key = key; created_at = now; last_used = now; usage_count = 0 }

abbrev pub touch : SessionKeyEntry → ℕ → SessionKeyEntry
touch e now = record e { last_used = now; usage_count = add_u64 e.usage_count 1 }

abbrev pub should_rotate : SessionKeyEntry → ℕ → ℕ → ℕ → Bool
should_rotate e now max_age max_usage =
    ltb max_age (now - e.created_at) || (ltb 0 max_usage && ltb max_usage e.usage_count)

pub new : ℕ → ℕ → SessionKeyManager
new rotation_interval max_key_usages = record {
  session_keys = HashMap.empty;
  rotation_interval = rotation_interval;
  max_key_usages = max_key_usages;
}

pub store_key : SessionKeyManager → Text → List ℕ → ℕ → SessionKeyManager
store_key m client_id key now = record m {
  session_keys = HashMap.insert m.session_keys client_id (new_entry key now);
}

unfoldable pub get_key : SessionKeyManager → Text → ℕ → Option (List ℕ) × SessionKeyManager
get_key m client_id now = elim (HashMap.get m.session_keys client_id) [
  | none ↦ (none, m)
  | some e ↦ (
    some e.key,
    record m { session_keys = HashMap.modify m.session_keys client_id (λ e. touch e now) },
  )
]

pub needs_rotation : SessionKeyManager → Text → ℕ → Bool
needs_rotation m client_id now = elim (HashMap.get m.session_keys client_id) [
  | none ↦ false
  | some e ↦ should_rotate e now m.rotation_interval m.max_key_usages
]

pub rotate_key : SessionKeyManager → Text → List ℕ → ℕ → Option (List ℕ) × SessionKeyManager
rotate_key m client_id new_key now =
    if HashMap.contains_key m.session_keys client_id
    then (
      some new_key,
      record m { session_keys = HashMap.insert m.session_keys client_id (new_entry new_key now) },
    )
    else (none, m)

pub remove_key : SessionKeyManager → Text → SessionKeyManager
remove_key m client_id = record m { session_keys = HashMap.remove m.session_keys client_id }

-- `get_stats`: the age and the use count of each key.
pub get_stats : SessionKeyManager → ℕ → HashMap Text (ℕ × ℕ)
get_stats m now = map (λ (id, e). (id, (now - e.created_at, e.usage_count))) m.session_keys

pub cleanup_old_sessions : SessionKeyManager → ℕ → ℕ → ℕ × SessionKeyManager
cleanup_old_sessions m inactive_timeout now =
    let kept = HashMap.retain (λ _ e. leb (now - e.last_used) inactive_timeout) m.session_keys in
    (length m.session_keys - length kept, record m { session_keys = kept })

pub session_count : SessionKeyManager → ℕ
session_count m = length m.session_keys
