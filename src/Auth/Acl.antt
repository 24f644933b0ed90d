-- ===== src/Auth/Acl.antt =====
-- src/auth/acl.rs: `AccessControlList`. `now` is the clock reading in milliseconds that the call
-- stores in `updated_at`.
pub mod Laws
use aero_nyx_private_ed.Base.{
  ℕ, Bool, true, false, not, List, [], ◌∷◌, Option, none, some, Text, text_eq, codes, ◌==◌, ltb,
  if◌then◌else◌, length, Result, ok, err, ◌||◌,
}

pub data AclError : Type 0 where
  io_error json_error : AclError
  not_found : Text → AclError
  permission_denied : Text → AclError

pub record AccessControlEntry : Type 0 where
  pub public_key : Text
  pub access_level : ℕ
  pub is_allowed : Bool
  pub bandwidth_limit : ℕ
  pub max_session_duration : ℕ
  pub static_ip : Option Text
  pub notes : Option Text

pub record AccessControlList : Type 0 where
  pub default_policy : Text
  pub entries : List AccessControlEntry
  pub updated_at : ℕ

abbrev pub allow : Text
allow = codes "allow"

abbrev pub deny : Text
deny = codes "deny"

pub new : ℕ → AccessControlList
new now = record { default_policy = allow; entries = []; updated_at = now }

unfoldable pub find_entry : List AccessControlEntry → Text → Option AccessControlEntry
find_entry [] key = none
find_entry (e ∷ es) key = if e.public_key == key then some e else find_entry es key

unfoldable pub get_entry : AccessControlList → Text → Option AccessControlEntry
get_entry acl key = find_entry acl.entries key

-- The loop of `is_allowed`, with the policy that applies behind it.
allowed_loop : List AccessControlEntry → Text → Bool → Bool
allowed_loop [] key policy = policy
allowed_loop (e ∷ es) key policy =
    if e.public_key == key then e.is_allowed else allowed_loop es key policy

pub is_allowed : AccessControlList → Text → Bool
unfolding allowed_loop
is_allowed acl key =
    allowed_loop acl.entries key (if acl.default_policy == allow then true else false)

put_entry : List AccessControlEntry → AccessControlEntry → List AccessControlEntry
put_entry [] entry = entry ∷ []
put_entry (e ∷ es) entry =
    let rest = put_entry es entry in
    if e.public_key == entry.public_key then entry ∷ es else e ∷ rest

pub add_entry : AccessControlList → AccessControlEntry → ℕ → AccessControlList
unfolding put_entry
add_entry acl entry now = record acl { entries = put_entry acl.entries entry; updated_at = now }

-- `retain(|e| e.public_key != public_key)`.
drop_entries : List AccessControlEntry → Text → List AccessControlEntry
drop_entries [] key = []
drop_entries (e ∷ es) key =
    let rest = drop_entries es key in if not (e.public_key == key) then e ∷ rest else rest

-- The error leaves the list as it was, since nothing was dropped.
pub remove_entry : AccessControlList → Text → ℕ → Result AclError AccessControlList
unfolding drop_entries
remove_entry acl key now =
    let kept = drop_entries acl.entries key in
    if ltb (length kept) (length acl.entries)
    then ok (record acl { entries = kept; updated_at = now })
    else err (not_found key)

pub set_default_policy : AccessControlList → Text → ℕ → Result AclError AccessControlList
set_default_policy acl policy now =
    if policy == allow || policy == deny
    then ok (record acl { default_policy = policy; updated_at = now })
    else err (permission_denied policy)

pub create_allow_entry : Text → AccessControlEntry
create_allow_entry key = record {
  public_key = key;
  access_level = 100;
  is_allowed = true;
  bandwidth_limit = 0;
  max_session_duration = 86400;
  static_ip = none;
  notes = some (codes "Auto-created entry");
}

pub create_deny_entry : Text → Option Text → AccessControlEntry
create_deny_entry key reason = record {
  public_key = key;
  access_level = 0;
  is_allowed = false;
  bandwidth_limit = 0;
  max_session_duration = 0;
  static_ip = none;
  notes = reason;
}
