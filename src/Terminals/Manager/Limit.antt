-- ===== src/Terminals/Manager/Limit.antt =====
-- How many terminals a user has.
use aero_nyx_private_ed.Base.HashMap
use aero_nyx_private_ed.Base.HashMap.{HashMap, is_some, get-insert}
use aero_nyx_private_ed.Base.{
  ℕ, ◌+◌, ◌≤◌, ◌<◌, ◌≡◌, refl, ap, ◌∙◌, Bool, true, false, List, [], ◌∷◌, none, Text, text_eq,
  text_iff, list_beq, leb, if◌then◌else◌, ok, arith, Bool-cases, Option-cases, Result-cases, inl,
  inr, reject_if, reject_if-false, >>-eq-ok,
}
use aero_nyx_private_ed.Terminals.Manager.{
  TerminalSession, TerminalManager, too_many_sessions, already_exists, new, count_user_sessions,
  admit, store, stored_if, create_session, touched, resized, write_input, resize_terminal,
  output_read, reading_ended, close_session, close_sessions, inactive_ids,
  cleanup_inactive_sessions,
}

module _ {ℓ} {V : Type ℓ} (p : V → Bool) where
  count-insert :
      (m : HashMap Text V) (k : Text) (v : V)
      → HashMap.get m k ≡ none
      → HashMap.count_values p (HashMap.insert m k v)
        ≡ HashMap.count_values p m + (if p v then 1 else 0)
  unfolding HashMap.get HashMap.insert HashMap.count_values
  count-insert [] k v h = omega arith
  count-insert ((j, w) ∷ m) k v h = ground (arith, count-insert m k v)

  count-remove-le :
      (m : HashMap Text V) (k : Text)
      → HashMap.count_values p (HashMap.remove m k) ≤ HashMap.count_values p m
  unfolding HashMap.remove HashMap.count_values
  count-remove-le [] k = omega arith
  count-remove-le ((j, w) ∷ m) k = ground (arith, count-remove-le m k)

  count-modify :
      (m : HashMap Text V) (k : Text) (f : V → V)
      → ((v : V) → p (f v) ≡ p v)
      → HashMap.count_values p (HashMap.modify m k f) ≡ HashMap.count_values p m
  unfolding HashMap.modify HashMap.count_values
  count-modify [] k f same = refl
  count-modify ((j, w) ∷ m) k f same = ground (arith, count-modify m k f same, same w)

-- Every user is within the limit.
abbrev pub IsWithin : TerminalManager → Type 0
IsWithin m = (user : Text) → count_user_sessions m user ≤ m.max_sessions_per_user

admit-ok :
    (m : TerminalManager) (id user : Text)
    → admit m id user ≡ ok tt
    → (count_user_sessions m user < m.max_sessions_per_user) × (HashMap.get m.sessions id ≡ none)
unfolding admit
admit-ok m id user h =
    let full = leb m.max_sessions_per_user (count_user_sessions m user) in
    let (free, h1) = >>-eq-ok (reject_if full too_many_sessions) _ h in
    (
      ground (arith, reject_if-false full too_many_sessions free),
      ground (arith, reject_if-false (HashMap.contains_key m.sessions id) already_exists h1),
    )

pub store-count :
    (m : TerminalManager) (id user other : Text) (rows cols now : ℕ)
    → HashMap.get m.sessions id ≡ none
    → count_user_sessions (store m id user rows cols now) other
      ≡ count_user_sessions m other + (if list_beq user other then 1 else 0)
unfolding count_user_sessions store
store-count m id user other rows cols now h =
    count-insert (λ (s : TerminalSession). list_beq s.user other) m.sessions id _ h

store-IsWithin :
    (m : TerminalManager) (id user : Text) (rows cols now : ℕ)
    → admit m id user ≡ ok tt
    → IsWithin m
    → IsWithin (store m id user rows cols now)
store-IsWithin m id user rows cols now passed w other =
    let (free, absent) = admit-ok m id user passed in
    let c = store-count m id user other rows cols now absent in
    elim (Bool-cases (list_beq user other)) [
      | inl same ↦
          let q = (text_iff user other).0 same in
          unfold store in ground (arith, same, c, ap (count_user_sessions m) q, free)
      | inr not_same ↦ unfold store in ground (arith, not_same, c, w other)
    ]

create_session-IsWithin :
    (m : TerminalManager) (id user : Text) (rows cols now : ℕ) (spawned : Bool)
    → IsWithin m
    → IsWithin (create_session m id user rows cols now spawned).1
unfolding create_session stored_if
create_session-IsWithin m id user rows cols now false w other =
    elim (Result-cases (admit m id user)) [
      | inr (e, refused) ↦ rw (refused, stored_if) (w other)
      | inl (tt, passed) ↦ rw (passed, stored_if) (w other)
    ]
create_session-IsWithin m id user rows cols now true w other =
    elim (Result-cases (admit m id user)) [
      | inr (e, refused) ↦ rw (refused, stored_if) (w other)
      | inl (tt, passed) ↦
          rw (passed, stored_if) (store-IsWithin m id user rows cols now passed w other)
    ]

change-IsWithin :
    (m : TerminalManager) (id : Text) (f : TerminalSession → TerminalSession)
    → ((s : TerminalSession) → (f s).user ≡ s.user)
    → IsWithin m
    → IsWithin (record m { sessions = HashMap.modify m.sessions id f })
unfolding count_user_sessions
change-IsWithin m id f same w other =
    rw
      (count-modify (λ (s : TerminalSession). list_beq s.user other) m.sessions id f
        (λ s. ap (λ u. list_beq u other) (same s)))
      (w other)

remove-IsWithin :
    (m : TerminalManager) (id : Text)
    → IsWithin m
    → IsWithin (record m { sessions = HashMap.remove m.sessions id })
unfolding count_user_sessions
remove-IsWithin m id w other =
    let fewer = count-remove-le (λ (s : TerminalSession). list_beq s.user other) m.sessions id in
    omega (arith, fewer, w other)

close_session-IsWithin :
    (m : TerminalManager) (id : Text) → IsWithin m → IsWithin (close_session m id).1
unfolding close_session
close_session-IsWithin m id w other = elim (Option-cases (HashMap.get m.sessions id)) [
  | inl absent ↦ rw (absent, close_session) (w other)
  | inr (s, found) ↦ rw (found, close_session) (remove-IsWithin m id w other)
]

close_sessions-IsWithin :
    (m : TerminalManager) (ids : List Text) → IsWithin m → IsWithin (close_sessions m ids)
unfolding close_sessions
close_sessions-IsWithin m [] w = w
close_sessions-IsWithin m (id ∷ ids) w =
    close_sessions-IsWithin (close_session m id).1 ids (close_session-IsWithin m id w)

write_input-IsWithin :
    (m : TerminalManager) (id : Text) (now : ℕ) (written : Bool)
    → IsWithin m
    → IsWithin (write_input m id now written).1
unfolding write_input
write_input-IsWithin m id now written w other = elim (Option-cases (HashMap.get m.sessions id)) [
  | inl absent ↦ rw (absent, write_input) (w other)
  | inr (s, found) ↦
      rw (found, write_input) (change-IsWithin m id (touched now) (λ s. refl) w other)
]

resize_terminal-IsWithin :
    (m : TerminalManager) (id : Text) (rows cols now : ℕ) (there : Bool)
    → IsWithin m
    → IsWithin (resize_terminal m id rows cols now there).1
unfolding resize_terminal
resize_terminal-IsWithin m id rows cols now false w other =
    elim (Option-cases (HashMap.get m.sessions id)) [
      | inl absent ↦ rw (absent, resize_terminal) (w other)
      | inr (s, found) ↦ rw (found, resize_terminal) (w other)
    ]
resize_terminal-IsWithin m id rows cols now true w other =
    elim (Option-cases (HashMap.get m.sessions id)) [
      | inl absent ↦ rw (absent, resize_terminal) (w other)
      | inr (s, found) ↦
          rw (found, resize_terminal)
            (change-IsWithin m id (resized rows cols now) (λ s. refl) w other)
    ]

-- The calls, each of them without others in between.
pub data Call : Type 0 where
  create_call : Text → Text → ℕ → ℕ → ℕ → Bool → Call
  write_call : Text → ℕ → Bool → Call
  resize_call : Text → ℕ → ℕ → ℕ → Bool → Call
  output_call : Text → ℕ → Call
  ended_call close_call : Text → Call
  cleanup_call : ℕ → Call

unfoldable pub step : TerminalManager → Call → TerminalManager
step m (create_call id user rows cols now spawned) =
    (create_session m id user rows cols now spawned).1
step m (write_call id now written) = (write_input m id now written).1
step m (resize_call id rows cols now there) = (resize_terminal m id rows cols now there).1
step m (output_call id now) = output_read m id now
step m (ended_call id) = reading_ended m id
step m (close_call id) = (close_session m id).1
step m (cleanup_call now) = cleanup_inactive_sessions m now

unfoldable pub run : TerminalManager → List Call → TerminalManager
run m [] = m
run m (c ∷ cs) = run (step m c) cs

step-IsWithin : (m : TerminalManager) (c : Call) → IsWithin m → IsWithin (step m c)
unfolding step output_read reading_ended cleanup_inactive_sessions
step-IsWithin m (create_call id user rows cols now spawned) w =
    create_session-IsWithin m id user rows cols now spawned w
step-IsWithin m (write_call id now written) w = write_input-IsWithin m id now written w
step-IsWithin m (resize_call id rows cols now there) w =
    resize_terminal-IsWithin m id rows cols now there w
step-IsWithin m (output_call id now) w = change-IsWithin m id (touched now) (λ s. refl) w
step-IsWithin m (ended_call id) w = remove-IsWithin m id w
step-IsWithin m (close_call id) w = close_session-IsWithin m id w
step-IsWithin m (cleanup_call now) w =
    close_sessions-IsWithin m (inactive_ids m.sessions m.session_timeout now) w

run-IsWithin : (m : TerminalManager) (cs : List Call) → IsWithin m → IsWithin (run m cs)
unfolding run
run-IsWithin m [] w = w
run-IsWithin m (c ∷ cs) w = run-IsWithin (step m c) cs (step-IsWithin m c w)

new-IsWithin : (max timeout : ℕ) → IsWithin (new max timeout)
unfolding new count_user_sessions HashMap.count_values
new-IsWithin max timeout user = omega arith

close_session-max :
    (m : TerminalManager) (id : Text)
    → (close_session m id).1.max_sessions_per_user ≡ m.max_sessions_per_user
unfolding close_session
close_session-max m id = ground arith

close_sessions-max :
    (m : TerminalManager) (ids : List Text)
    → (close_sessions m ids).max_sessions_per_user ≡ m.max_sessions_per_user
unfolding close_sessions
close_sessions-max m [] = refl
close_sessions-max m (id ∷ ids) =
    close_sessions-max (close_session m id).1 ids ∙ close_session-max m id

create_session-max :
    (m : TerminalManager) (id user : Text) (rows cols now : ℕ) (spawned : Bool)
    → (create_session m id user rows cols now spawned).1.max_sessions_per_user
      ≡ m.max_sessions_per_user
unfolding create_session stored_if store
create_session-max m id user rows cols now spawned = elim (Result-cases (admit m id user)) [
  | inr (e, refused) ↦ rw (refused, stored_if)
  | inl (tt, passed) ↦ elim (Bool-cases spawned) [
    | inl yes_spawned ↦ rw (passed, yes_spawned)
    | inr not_spawned ↦ rw (passed, not_spawned)
  ]
]

step-max :
    (m : TerminalManager) (c : Call) → (step m c).max_sessions_per_user ≡ m.max_sessions_per_user
unfolding step output_read reading_ended cleanup_inactive_sessions write_input resize_terminal
step-max m (create_call id user rows cols now spawned) =
    create_session-max m id user rows cols now spawned
step-max m (write_call id now written) = ground arith
step-max m (resize_call id rows cols now there) = ground arith
step-max m (output_call id now) = refl
step-max m (ended_call id) = refl
step-max m (close_call id) = close_session-max m id
step-max m (cleanup_call now) = close_sessions-max m (inactive_ids m.sessions m.session_timeout now)

run-max :
    (m : TerminalManager) (cs : List Call)
    → (run m cs).max_sessions_per_user ≡ m.max_sessions_per_user
unfolding run
run-max m [] = refl
run-max m (c ∷ cs) = run-max (step m c) cs ∙ step-max m c

-- After any sequence of calls of which none runs while a terminal is being created, no user has more
-- terminals than the limit.
pub run-new-limit :
    (max timeout : ℕ) (cs : List Call) (user : Text)
    → count_user_sessions (run (new max timeout) cs) user ≤ max
run-new-limit max timeout cs user =
    let within = run-IsWithin (new max timeout) cs (new-IsWithin max timeout) user in
    let same = run-max (new max timeout) cs in unfold new in omega (arith, within, same)
