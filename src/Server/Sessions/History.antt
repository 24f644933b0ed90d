-- ===== src/Server/Sessions/History.antt =====
-- Sequences of calls on the session table.
use aero_nyx_private_ed.Base.HashMap
use aero_nyx_private_ed.Base.{
  ℕ, ◌≡◌, ◌≢◌, ◌↔◌, List, [], ◌∷◌, none, some, Text, text_eq, text_iff, text_self, arith,
}
use aero_nyx_private_ed.Server.Sessions.{
  ClientSession, SessionManager, new, add_session, remove_session, remove_sessions, expired_ids,
  touch_session, get_session_by_ip, close_all_sessions, cleanup_expired_sessions,
}
use aero_nyx_private_ed.Server.Sessions.Addresses.{
  IsConsistent, IsReachable, IsFresh, new-IsConsistent, add_session-IsConsistent,
  remove_session-IsConsistent, remove_sessions-IsConsistent, touch_session-IsConsistent,
  add_session-IsReachable, remove_session-IsReachable, remove_sessions-IsReachable,
  touch_session-IsReachable, get_session_by_ip-address,
}

pub data Call : Type 0 where
  add_call : ClientSession → Call
  remove_call : Text → Call
  touch_call : Text → ℕ → Call
  cleanup_call : ℕ → Call
  close_all_call : Call

unfoldable pub step : SessionManager → Call → SessionManager
step m (add_call s) = add_session m s
step m (remove_call id) = remove_session m id
step m (touch_call id now) = (touch_session m id now).1
step m (cleanup_call now) = (cleanup_expired_sessions m now).1
step m close_all_call = close_all_sessions m

pub run : SessionManager → List Call → SessionManager
run m [] = m
run m (c ∷ cs) = run (step m c) cs

-- Each session that is added has an identifier and an address of its own at that time, as the random
-- identifiers and the address pool provide them.
abbrev pub AreFresh : SessionManager → List Call → Type 0
AreFresh m [] = Unit
AreFresh m (add_call s ∷ cs) = IsFresh m s × AreFresh (step m (add_call s)) cs
AreFresh m (c ∷ cs) = AreFresh (step m c) cs

-- The two invariants together.
abbrev Both : SessionManager → Type 0
Both m = IsConsistent m × IsReachable m

new-Both : (timeout : ℕ) → Both (new timeout)
unfolding new HashMap.get
new-Both timeout = (new-IsConsistent timeout, λ id s h. cc)

close_all_sessions-Both : (m : SessionManager) → Both (close_all_sessions m)
unfolding close_all_sessions HashMap.get
close_all_sessions-Both m =
    (record { distinct = tt; identified = λ id s h. cc; leads = λ ip id h. cc }, λ id s h. cc)

run-Both : (m : SessionManager) (cs : List Call) → Both m → AreFresh m cs → Both (run m cs)
unfolding run step cleanup_expired_sessions
run-Both m [] b f = b
run-Both m (add_call s ∷ cs) b f =
    run-Both (add_session m s) cs
      (add_session-IsConsistent m s b.0 f.0.id_free, add_session-IsReachable m s b.1 f.0) f.1
run-Both m (remove_call id ∷ cs) b f =
    run-Both (remove_session m id) cs
      (remove_session-IsConsistent m id b.0, remove_session-IsReachable m id b.1) f
run-Both m (touch_call id now ∷ cs) b f =
    run-Both (touch_session m id now).1 cs
      (touch_session-IsConsistent m id now b.0, touch_session-IsReachable m id now b.1) f
run-Both m (cleanup_call now ∷ cs) b f =
    let ids = expired_ids m.sessions m.session_timeout now in
    run-Both (remove_sessions m ids) cs
      (remove_sessions-IsConsistent m ids b.0, remove_sessions-IsReachable m ids b.1) f
run-Both m (close_all_call ∷ cs) b f =
    run-Both (close_all_sessions m) cs (close_all_sessions-Both m) f

-- After every sequence of calls that adds sessions with identifiers and addresses of their own, the
-- lookup by address finds just the live session that has the address.
pub get_session_by_ip-run_iff :
    (timeout : ℕ) (cs : List Call) (ip : Text) (s : ClientSession)
    → AreFresh (new timeout) cs
    → (get_session_by_ip (run (new timeout) cs) ip ≡ some s)
      ↔ ((HashMap.get (run (new timeout) cs).sessions s.id ≡ some s) × (s.ip_address ≡ ip))
unfolding get_session_by_ip
get_session_by_ip-run_iff timeout cs ip s f =
    let m = run (new timeout) cs in
    let (c, r) = run-Both (new timeout) cs (new-Both timeout) f in
    (
      (λ h. let (has, live) = get_session_by_ip-address m ip s c h in (live, has)),
      λ (live, has). ground (arith, r s.id s live, has),
    )

-- Two sessions with one address: when the older one goes, the address leads nowhere, though the newer
-- one is live.
pub remove_session_shadowed :
    (m : SessionManager) (older newer : ClientSession)
    → newer.ip_address ≡ older.ip_address
    → older.id ≢ newer.id
    → (get_session_by_ip
          (remove_session (add_session (add_session m older) newer) older.id)
          newer.ip_address
        ≡ none)
      × (HashMap.get
            (remove_session (add_session (add_session m older) newer) older.id).sessions
            newer.id
          ≡ some newer)
unfolding get_session_by_ip remove_session add_session
remove_session_shadowed m older newer same apart =
    let one = HashMap.insert m.sessions older.id older in
    let two = HashMap.insert one newer.id newer in
    let ips =
      HashMap.insert (HashMap.insert m.ip_sessions older.ip_address older.id) newer.ip_address
        newer.id in
    ground (
      arith,
      HashMap.get-insert m.sessions older.id older.id older,
      HashMap.get-insert one newer.id older.id newer,
      HashMap.get-insert one newer.id newer.id newer,
      HashMap.get-remove two older.id newer.id,
      HashMap.get-remove ips older.ip_address newer.ip_address,
      text_iff older.id newer.id,
      text_iff newer.id older.id,
      text_self older.id,
      text_self newer.id,
      text_iff older.ip_address newer.ip_address,
    )
