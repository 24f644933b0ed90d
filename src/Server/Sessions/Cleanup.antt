-- ===== src/Server/Sessions/Cleanup.antt =====
-- Which sessions a clean-up removes.
use aero_nyx_private_ed.Base.HashMap
use aero_nyx_private_ed.Base.HashMap.{HashMap, Distinct, get-remove}
use aero_nyx_private_ed.Base.{
  ℕ, ◌≡◌, refl, List, [], ◌∷◌, none, some, Text, text_eq, text_iff, list_beq, ◌==◌, ltb, not, any,
  if◌then◌else◌, false, Bool, arith, Option-cases, inl, inr,
}
use aero_nyx_private_ed.Server.Sessions.{
  ClientSession, SessionManager, remove_session, remove_sessions, expired_ids,
  cleanup_expired_sessions, idle_time,
}

remove_session-get :
    (m : SessionManager) (id k : Text)
    → HashMap.get (remove_session m id).sessions k
      ≡ (if id == k then none else HashMap.get m.sessions k)
unfolding remove_session
remove_session-get m id k = elim (Option-cases (HashMap.get m.sessions id)) [
  | inl absent ↦ ground (arith, absent, text_iff id k)
  | inr (s, found) ↦ ground (arith, found, get-remove m.sessions id k)
]

abbrev is_in : Text → List Text → Bool
is_in k = any (λ id. list_beq id k)

remove_sessions-get :
    (m : SessionManager) (ids : List Text) (k : Text)
    → HashMap.get (remove_sessions m ids).sessions k
      ≡ (if is_in k ids then none else HashMap.get m.sessions k)
unfolding remove_sessions
remove_sessions-get m [] k = refl
remove_sessions-get m (id ∷ ids) k =
    ground (arith, remove_sessions-get (remove_session m id) ids k, remove_session-get m id k)

expired_ids-absent :
    (m : HashMap Text ClientSession) (timeout now : ℕ) (k : Text)
    → HashMap.get m k ≡ none
    → is_in k (expired_ids m timeout now) ≡ false
unfolding expired_ids HashMap.get
expired_ids-absent [] timeout now k h = refl
expired_ids-absent ((id, s) ∷ m) timeout now k h =
    ground (arith, expired_ids-absent m timeout now k)

expired_ids-in :
    (m : HashMap Text ClientSession) (timeout now : ℕ) (k : Text) (s : ClientSession)
    → Distinct m
    → HashMap.get m k ≡ some s
    → is_in k (expired_ids m timeout now) ≡ ltb timeout (idle_time s now)
unfolding expired_ids HashMap.get
expired_ids-in [] timeout now k s d h = cc
expired_ids-in ((id, t) ∷ m) timeout now k s d h = ground (
  arith,
  expired_ids-in m timeout now k s d.1,
  expired_ids-absent m timeout now id d.0,
  text_iff id k,
)

-- A clean-up removes just the sessions that have been idle for longer than the timeout.
pub cleanup_expired_sessions-exact :
    (m : SessionManager) (now : ℕ) (k : Text)
    → Distinct m.sessions
    → HashMap.get (cleanup_expired_sessions m now).1.sessions k
      ≡ HashMap.keep_if
          (λ _ s. not (ltb m.session_timeout (idle_time s now)))
          k
          (HashMap.get m.sessions k)
unfolding cleanup_expired_sessions
cleanup_expired_sessions-exact m now k d =
    let ids = expired_ids m.sessions m.session_timeout now in
    elim (Option-cases (HashMap.get m.sessions k)) [
      | inl absent ↦ ground (arith, absent, remove_sessions-get m ids k)
      | inr (s, found) ↦ ground (
        arith,
        found,
        remove_sessions-get m ids k,
        expired_ids-in m.sessions m.session_timeout now k s d found,
      )
    ]
