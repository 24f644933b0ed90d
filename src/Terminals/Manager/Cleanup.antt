-- ===== src/Terminals/Manager/Cleanup.antt =====
-- Which terminals a clean-up closes.
use aero_nyx_private_ed.Base.HashMap
use aero_nyx_private_ed.Base.HashMap.{HashMap, Distinct, get-remove}
use aero_nyx_private_ed.Base.{
  ℕ, ◌-◌, ◌≡◌, refl, Bool, false, not, List, [], ◌∷◌, none, some, Text, text_eq, text_iff, list_beq,
  ltb, any, if◌then◌else◌, arith, Option-cases, inl, inr,
}
use aero_nyx_private_ed.Terminals.Manager.{
  TerminalSession, TerminalManager, close_session, close_sessions, inactive_ids,
  cleanup_inactive_sessions,
}

close_session-get :
    (m : TerminalManager) (id k : Text)
    → HashMap.get (close_session m id).1.sessions k
      ≡ (if list_beq id k then none else HashMap.get m.sessions k)
unfolding close_session
close_session-get m id k = elim (Option-cases (HashMap.get m.sessions id)) [
  | inl absent ↦ ground (arith, absent, text_iff id k)
  | inr (s, found) ↦ ground (arith, found, get-remove m.sessions id k)
]

abbrev named : Text → List Text → Bool
named k = any (λ id. list_beq id k)

close_sessions-get :
    (m : TerminalManager) (ids : List Text) (k : Text)
    → HashMap.get (close_sessions m ids).sessions k
      ≡ (if named k ids then none else HashMap.get m.sessions k)
unfolding close_sessions
close_sessions-get m [] k = refl
close_sessions-get m (id ∷ ids) k =
    ground (arith, close_sessions-get (close_session m id).1 ids k, close_session-get m id k)

inactive_ids-absent :
    (m : HashMap Text TerminalSession) (timeout now : ℕ) (k : Text)
    → HashMap.get m k ≡ none
    → named k (inactive_ids m timeout now) ≡ false
unfolding inactive_ids HashMap.get
inactive_ids-absent [] timeout now k h = refl
inactive_ids-absent ((id, s) ∷ m) timeout now k h =
    ground (arith, inactive_ids-absent m timeout now k)

inactive_ids-named :
    (m : HashMap Text TerminalSession) (timeout now : ℕ) (k : Text) (s : TerminalSession)
    → Distinct m
    → HashMap.get m k ≡ some s
    → named k (inactive_ids m timeout now) ≡ ltb timeout (now - s.last_activity)
unfolding inactive_ids HashMap.get
inactive_ids-named [] timeout now k s d h = cc
inactive_ids-named ((id, t) ∷ m) timeout now k s d h = ground (
  arith,
  inactive_ids-named m timeout now k s d.1,
  inactive_ids-absent m timeout now id d.0,
  text_iff id k,
)

-- A clean-up closes just the terminals that had neither input nor output, nor a new size, for longer
-- than the timeout.
pub cleanup_inactive_sessions-exact :
    (m : TerminalManager) (now : ℕ) (k : Text)
    → Distinct m.sessions
    → HashMap.get (cleanup_inactive_sessions m now).sessions k
      ≡ HashMap.keep_if
          (λ _ s. not (ltb m.session_timeout (now - s.last_activity)))
          k
          (HashMap.get m.sessions k)
unfolding cleanup_inactive_sessions
cleanup_inactive_sessions-exact m now k d =
    let ids = inactive_ids m.sessions m.session_timeout now in
    elim (Option-cases (HashMap.get m.sessions k)) [
      | inl absent ↦ ground (arith, absent, close_sessions-get m ids k)
      | inr (s, found) ↦ ground (
        arith,
        found,
        close_sessions-get m ids k,
        inactive_ids-named m.sessions m.session_timeout now k s d found,
      )
    ]
