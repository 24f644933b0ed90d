-- ===== src/Crypto/SessionKeys/Rotation.antt =====
-- When a key is due for rotation, and which keys a clean-up keeps.
use aero_nyx_private_ed.Base.HashMap
use aero_nyx_private_ed.Base.HashMap.{
  HashMap, Distinct, get-insert, get-modify, get-remove, get-retain,
}
use aero_nyx_private_ed.Base.{
  ℕ, ◌+◌, ◌-◌, ◌^◌, ◌<◌, ◌≡◌, refl, false, ◌&&◌, ◌||◌, List, [], ◌∷◌, Option, none, some, Text,
  text_eq, text_iff, text_self, ◌==◌, ltb, leb, if◌then◌else◌, length, arith,
}
use aero_nyx_private_ed.Crypto.SessionKeys.{
  SessionKeyEntry, SessionKeyManager, new_entry, touch, store_key, get_key, needs_rotation,
  rotate_key, cleanup_old_sessions,
}

-- The key, without the bookkeeping.
abbrev pub key_of : Option SessionKeyEntry → Option (List ℕ)
key_of none = none
key_of (some e) = some e.key

abbrev pub view : SessionKeyManager → Text → Option (List ℕ)
view m id = key_of (HashMap.get m.session_keys id)

-- `get_key` returns the stored key and changes none.
pub get_key-view :
    (m : SessionKeyManager) (id other : Text) (now : ℕ)
    → ((get_key m id now).0 ≡ view m id) × (view (get_key m id now).1 other ≡ view m other)
unfolding get_key
get_key-view m id other now =
    ground (arith, get-modify m.session_keys id other (λ e. touch e now), text_iff id other)

-- One `get_key` for each clock reading.
pub get_keys : SessionKeyManager → Text → List ℕ → SessionKeyManager
get_keys m id [] = m
get_keys m id (t ∷ ts) = get_keys (get_key m id t).1 id ts

abbrev used : SessionKeyEntry → List ℕ → SessionKeyEntry
used e [] = e
used e (t ∷ ts) = used (touch e t) ts

get_keys-entry :
    (m : SessionKeyManager) (id : Text) (e : SessionKeyEntry) (ts : List ℕ)
    → HashMap.get m.session_keys id ≡ some e
    → HashMap.get (get_keys m id ts).session_keys id ≡ some (used e ts)
unfolding get_keys get_key
get_keys-entry m id e [] h = h
get_keys-entry m id e (t ∷ ts) h =
    get_keys-entry (get_key m id t).1 id (touch e t) ts
      (ground (arith, get-modify m.session_keys id id (λ x. touch x t), text_self id))

get_keys-settings :
    (m : SessionKeyManager) (id : Text) (ts : List ℕ)
    → ((get_keys m id ts).rotation_interval ≡ m.rotation_interval)
      × ((get_keys m id ts).max_key_usages ≡ m.max_key_usages)
unfolding get_keys get_key
get_keys-settings m id [] = (refl, refl)
get_keys-settings m id (t ∷ ts) = ground (arith, get_keys-settings (get_key m id t).1 id ts)

used-count :
    (e : SessionKeyEntry) (ts : List ℕ)
    → e.usage_count + length ts < 2 ^ 64
    → ((used e ts).usage_count ≡ e.usage_count + length ts)
      × ((used e ts).created_at ≡ e.created_at)
      × ((used e ts).key ≡ e.key)
used-count e [] h = (omega arith, refl, refl)
used-count e (t ∷ ts) h = ground (arith, used-count (touch e t) ts)

-- After a key is stored and fetched at the times of a list, it is due for rotation just when it is
-- older than the interval, or has been fetched more often than the limit allows, where there is one.
pub needs_rotation-get_keys :
    (m : SessionKeyManager) (id : Text) (key : List ℕ) (t now : ℕ) (ts : List ℕ)
    → length ts < 2 ^ 64
    → needs_rotation (get_keys (store_key m id key t) id ts) id now ≡ (
        ltb m.rotation_interval (now - t)
        || (ltb 0 m.max_key_usages && ltb m.max_key_usages (length ts)))
unfolding needs_rotation store_key
needs_rotation-get_keys m id key t now ts h =
    let stored = store_key m id key t in
    let e = new_entry key t in
    let held : HashMap.get stored.session_keys id ≡ some e =
      ground (arith, get-insert m.session_keys id id e, text_self id) in
    ground
      (arith, get_keys-entry stored id e ts held, get_keys-settings stored id ts, used-count e ts)

-- A rotation gives a key to the clients that have one and to no other; it replaces that key, starts
-- its age and its uses afresh, and touches no other client.
pub rotate_key-view :
    (m : SessionKeyManager) (id other : Text) (new_key : List ℕ) (now : ℕ)
    → ((rotate_key m id new_key now).0
        ≡ (if HashMap.contains_key m.session_keys id then some new_key else none))
      × (view (rotate_key m id new_key now).1 other ≡ (
          if HashMap.contains_key m.session_keys id && id == other
          then some new_key
          else view m other))
      × (needs_rotation (rotate_key m id new_key now).1 id now ≡ false)
unfolding rotate_key needs_rotation
rotate_key-view m id other new_key now = ground (
  arith,
  get-insert m.session_keys id other (new_entry new_key now),
  get-insert m.session_keys id id (new_entry new_key now),
  text_iff id other,
  text_self id,
)

-- A clean-up keeps just the keys that were used within the timeout, and counts the others.
pub cleanup_old_sessions-exact :
    (m : SessionKeyManager) (timeout now : ℕ) (id : Text)
    → Distinct m.session_keys
    → (HashMap.get (cleanup_old_sessions m timeout now).1.session_keys id
        ≡ HashMap.keep_if
            (λ _ e. leb (now - e.last_used) timeout)
            id
            (HashMap.get m.session_keys id))
      × ((cleanup_old_sessions m timeout now).0
            + length (cleanup_old_sessions m timeout now).1.session_keys
          ≡ length m.session_keys)
unfolding cleanup_old_sessions
cleanup_old_sessions-exact m timeout now id d =
    let keep = λ (k : Text) (e : SessionKeyEntry). leb (now - e.last_used) timeout in
    (
      get-retain keep m.session_keys id d,
      ground (arith, HashMap.length-retain-le keep m.session_keys),
    )
