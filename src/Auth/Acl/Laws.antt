-- ===== src/Auth/Acl/Laws.antt =====
-- The list as a map from keys to entries, and the decision that follows from it.
use aero_nyx_private_ed.Base.{
  ℕ, ◌≤◌, ◌≡◌, refl, ◌↔◌, Bool, true, false, List, [], ◌∷◌, Option, none, some, Text, text_eq,
  text_iff, ◌==◌, ltb, if◌then◌else◌, length, ok, err, arith,
}
use aero_nyx_private_ed.Auth.Acl.{
  AccessControlList, AccessControlEntry, not_found, allow, find_entry, get_entry, allowed_loop,
  is_allowed, put_entry, add_entry, drop_entries, remove_entry, set_default_policy,
}

find-put_entry :
    (es : List AccessControlEntry) (entry : AccessControlEntry) (key : Text)
    → find_entry (put_entry es entry) key
      ≡ (if entry.public_key == key then some entry else find_entry es key)
unfolding find_entry put_entry
find-put_entry [] entry key = refl
find-put_entry (e ∷ es) entry key = ground (
  arith,
  find-put_entry es entry key,
  text_iff e.public_key entry.public_key,
  text_iff e.public_key key,
  text_iff entry.public_key key,
)

find-drop_entries :
    (es : List AccessControlEntry) (key j : Text)
    → find_entry (drop_entries es key) j ≡ (if key == j then none else find_entry es j)
unfolding find_entry drop_entries
find-drop_entries [] key j = ground arith
find-drop_entries (e ∷ es) key j = ground (
  arith,
  find-drop_entries es key j,
  text_iff e.public_key key,
  text_iff e.public_key j,
  text_iff key j,
)

length-drop_entries-le :
    (es : List AccessControlEntry) (key : Text) → length (drop_entries es key) ≤ length es
unfolding drop_entries
length-drop_entries-le [] key = omega arith
length-drop_entries-le (e ∷ es) key = ground (arith, length-drop_entries-le es key)

-- Something is dropped exactly when an entry has the key.
drop_entries-shorter :
    (es : List AccessControlEntry) (key : Text)
    → ltb (length (drop_entries es key)) (length es)
      ≡ elim (find_entry es key) [ none ↦ false | some _ ↦ true ]
unfolding find_entry drop_entries
drop_entries-shorter [] key = refl
drop_entries-shorter (e ∷ es) key =
    ground (arith, drop_entries-shorter es key, length-drop_entries-le es key)

abbrev decided : Option AccessControlEntry → Bool → Bool
decided none policy = policy
decided (some e) policy = e.is_allowed

allowed_loop-decided :
    (es : List AccessControlEntry) (key : Text) (policy : Bool)
    → allowed_loop es key policy ≡ decided (find_entry es key) policy
unfolding allowed_loop find_entry
allowed_loop-decided [] key policy = refl
allowed_loop-decided (e ∷ es) key policy = ground (arith, allowed_loop-decided es key policy)

-- The decision is that of the entry, or of the policy where there is none.
pub is_allowed-get_entry :
    (acl : AccessControlList) (key : Text)
    → is_allowed acl key ≡ decided (get_entry acl key) (acl.default_policy == allow)
unfolding is_allowed get_entry
is_allowed-get_entry acl key = ground (
  arith,
  allowed_loop-decided acl.entries key (if acl.default_policy == allow then true else false),
)

-- After an entry was added, its key has that entry's decision, and every other key the decision
-- that it had.
pub is_allowed-add_entry :
    (acl : AccessControlList) (entry : AccessControlEntry) (now : ℕ) (key : Text)
    → is_allowed (add_entry acl entry now) key
      ≡ (if entry.public_key == key then entry.is_allowed else is_allowed acl key)
unfolding is_allowed add_entry
is_allowed-add_entry acl entry now key =
    let policy = if acl.default_policy == allow then true else false in
    ground (
      arith,
      allowed_loop-decided acl.entries key policy,
      allowed_loop-decided (put_entry acl.entries entry) key policy,
      find-put_entry acl.entries entry key,
    )

get_entry-dropped :
    (acl : AccessControlList) (key j : Text) (now : ℕ)
    → get_entry (record acl { entries = drop_entries acl.entries key; updated_at = now }) j
      ≡ (if key == j then none else get_entry acl j)
unfolding get_entry
get_entry-dropped acl key j now = find-drop_entries acl.entries key j

removed-eq :
    (acl acl' : AccessControlList) (key : Text) (now : ℕ)
    → remove_entry acl key now ≡ ok acl'
    → record acl { entries = drop_entries acl.entries key; updated_at = now } ≡ acl'
unfolding remove_entry
removed-eq acl acl' key now h = ground arith

-- A removal that succeeds leaves the removed key to the policy, and every other key as it was.
pub is_allowed-remove_entry :
    (acl acl' : AccessControlList) (key j : Text) (now : ℕ)
    → remove_entry acl key now ≡ ok acl'
    → is_allowed acl' j ≡ (if key == j then acl.default_policy == allow else is_allowed acl j)
is_allowed-remove_entry acl acl' key j now h = rw (← removed-eq acl acl' key now h) (
    ground (
      arith,
      get_entry-dropped acl key j now,
      is_allowed-get_entry acl j,
      is_allowed-get_entry (record acl { entries = drop_entries acl.entries key; updated_at = now })
          j,
    ))

-- Removal fails exactly on a key that has no entry.
pub remove_entry-fails_iff :
    (acl : AccessControlList) (key : Text) (now : ℕ)
    → (remove_entry acl key now ≡ err (not_found key)) ↔ (get_entry acl key ≡ none)
unfolding remove_entry get_entry
remove_entry-fails_iff acl key now = (
  λ h. ground (arith, drop_entries-shorter acl.entries key),
  λ h. ground (arith, drop_entries-shorter acl.entries key),
)

-- The new policy decides the keys with no entry, and a text that is no policy is refused.
pub set_default_policy-ok :
    (acl acl' : AccessControlList) (policy key : Text) (now : ℕ)
    → set_default_policy acl policy now ≡ ok acl'
    → is_allowed acl' key ≡ decided (get_entry acl key) (policy == allow)
unfolding set_default_policy get_entry
set_default_policy-ok acl acl' policy key now h =
    let next = record acl { default_policy = policy; updated_at = now } in
    let same : next ≡ acl' = ground arith in rw (← same) (is_allowed-get_entry next key)
