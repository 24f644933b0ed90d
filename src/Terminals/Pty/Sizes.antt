-- ===== src/Terminals/Pty/Sizes.antt =====
-- What holds of the table of terminals at any time.
use mathlib.Core.Path.{subst}
use aero_nyx_private_ed.Base.HashMap
use aero_nyx_private_ed.Base.HashMap.{
  Distinct, get-insert, get-modify, get-remove, insert-Distinct, modify-Distinct, remove-Distinct,
  length-insert, length-modify, length-remove-le,
}
use aero_nyx_private_ed.Base.{
  ℕ, ◌+◌, ◌≤◌, ◌≡◌, length, refl, sym, ◌∙◌, if◌then◌else◌, list_beq, Bool, true, false, List, [],
  ◌∷◌, Option, some, Text, text_eq, ok, >>-eq-ok, reject_if, reject_if-false, leb, arith,
  Result-cases, Option-cases, inl, inr,
}
use aero_nyx_private_ed.Terminals.Pty.{
  TerminalSession, TerminalSessionManager, TerminalMessage, Host, check_size, admit, stored_if,
  create_session, may_resize, resized_to, resize_terminal, close_session, stale_ids, close_sessions,
  cleanup_stale_sessions, handle_terminal_message, term_init, term_input, term_output, term_resize,
  term_close, term_ready, term_error, limit_exceeded,
}

pub record HasSize (s : TerminalSession) : Type 0 where
  pub rows_least : 10 ≤ s.rows
  pub rows_most : s.rows ≤ 200
  pub cols_least : 40 ≤ s.cols
  pub cols_most : s.cols ≤ 400

-- At most ten terminals, each with a size that may be asked for.
pub record IsSound (m : TerminalSessionManager) : Type 0 where
  pub distinct : Distinct m
  pub few : length m ≤ 10
  pub sized : (k : Text) (s : TerminalSession) → HashMap.get m k ≡ some s → HasSize s

pub check_size-ok :
    (rows cols : ℕ)
    → check_size rows cols ≡ ok tt
    → (10 ≤ rows) × (rows ≤ 200) × (40 ≤ cols) × (cols ≤ 400)
unfolding check_size
check_size-ok rows cols h = ground arith

insert-IsSound :
    (m : TerminalSessionManager) (id : Text) (s : TerminalSession)
    → IsSound m
    → length m + 1 ≤ 10
    → HasSize s
    → IsSound (HashMap.insert m id s)
insert-IsSound m id s sound room size = record {
  distinct = insert-Distinct m id s sound.distinct;
  few = ground (arith, length-insert m id s, room, sound.few);
  sized = λ k t found. ground (arith, get-insert m id k s, found, sound.sized k t, size);
}

remove-IsSound :
    (m : TerminalSessionManager) (id : Text) → IsSound m → IsSound (HashMap.remove m id)
remove-IsSound m id sound = record {
  distinct = remove-Distinct m id sound.distinct;
  few = omega (arith, length-remove-le m id, sound.few);
  sized = λ k t found. ground (arith, get-remove m id k, found, sound.sized k t);
}

some_injective : {s t : TerminalSession} → some s ≡ some t → s ≡ t
some_injective h = cc

resized-HasSize :
    (named : Bool) (rows cols : ℕ) (s t : TerminalSession)
    → (10 ≤ rows) × (rows ≤ 200) × (40 ≤ cols) × (cols ≤ 400)
    → HasSize s
    → (if named then some (resized_to rows cols s) else some s) ≡ some t
    → HasSize t
unfolding resized_to
resized-HasSize true rows cols s t (a, b, c, d) size h =
    subst HasSize (some_injective h)
      (record { rows_least = a; rows_most = b; cols_least = c; cols_most = d })
resized-HasSize false rows cols s t bounds size h = subst HasSize (some_injective h) size

resize-IsSound :
    (m : TerminalSessionManager) (id : Text) (rows cols : ℕ)
    → IsSound m
    → (10 ≤ rows) × (rows ≤ 200) × (40 ≤ cols) × (cols ≤ 400)
    → IsSound (HashMap.modify m id (resized_to rows cols))
resize-IsSound m id rows cols sound bounds = record {
  distinct = modify-Distinct m id (resized_to rows cols) sound.distinct;
  few = omega (arith, length-modify m id (resized_to rows cols), sound.few);
  sized = λ k t found.
      let got = sym (get-modify m id k (resized_to rows cols)) ∙ found in
      elim (Option-cases (HashMap.get m k)) [
        | inl absent ↦ ground (arith, got, absent)
        | inr (s, there) ↦
            resized-HasSize (list_beq id k) rows cols s t bounds (sound.sized k s there)
              (sym (rw there refl) ∙ got)
      ];
}

admit-ok :
    (m : TerminalSessionManager) (host : Host) (id : Text) (rows cols : ℕ) (cwd : Option Text)
    → admit m host id rows cols cwd ≡ ok tt
    → (check_size rows cols ≡ ok tt) × (length m + 1 ≤ 10)
unfolding admit
admit-ok m host id rows cols cwd h =
    let (size, rest) = >>-eq-ok (check_size rows cols) _ h in
    let few = (>>-eq-ok (reject_if (leb 10 (length m)) limit_exceeded) _ rest).0 in
    (size, ground (arith, reject_if-false (leb 10 (length m)) limit_exceeded few))

pub create_session-IsSound :
    (m : TerminalSessionManager) (host : Host) (id : Text) (rows cols : ℕ) (cwd : Option Text)
    → IsSound m
    → IsSound (create_session m host id rows cols cwd).1
unfolding create_session
create_session-IsSound m host id rows cols cwd sound =
    elim (Result-cases (admit m host id rows cols cwd)) [
      | inr (e, refused) ↦ rw (refused, stored_if) sound
      | inl (tt, passed) ↦
          let (size, room) = admit-ok m host id rows cols cwd passed in
          let (a, b, c, d) = check_size-ok rows cols size in
          rw (passed, stored_if)
            (insert-IsSound m id (record { rows = rows; cols = cols; created_at = host.now }) sound
              room (record { rows_least = a; rows_most = b; cols_least = c; cols_most = d }))
    ]

may_resize-ok :
    (m : TerminalSessionManager) (host : Host) (id : Text) (rows cols : ℕ)
    → may_resize m host id rows cols ≡ ok tt
    → check_size rows cols ≡ ok tt
unfolding may_resize
may_resize-ok m host id rows cols h = (>>-eq-ok (check_size rows cols) _ h).0

pub resize_terminal-IsSound :
    (m : TerminalSessionManager) (host : Host) (id : Text) (rows cols : ℕ)
    → IsSound m
    → IsSound (resize_terminal m host id rows cols).1
unfolding resize_terminal
resize_terminal-IsSound m host id rows cols sound =
    elim (Result-cases (may_resize m host id rows cols)) [
      | inr (e, refused) ↦ rw (refused, stored_if) sound
      | inl (tt, passed) ↦
          rw (passed, stored_if)
            (resize-IsSound m id rows cols sound
              (check_size-ok rows cols (may_resize-ok m host id rows cols passed)))
    ]

pub close_session-IsSound :
    (m : TerminalSessionManager) (id : Text) → IsSound m → IsSound (close_session m id).1
unfolding close_session
close_session-IsSound m id sound = remove-IsSound m id sound

pub close_sessions-IsSound :
    (m : TerminalSessionManager) (ids : List Text) → IsSound m → IsSound (close_sessions m ids)
unfolding close_sessions
close_sessions-IsSound m [] sound = sound
close_sessions-IsSound m (id ∷ ids) sound =
    close_sessions-IsSound (close_session m id).1 ids (close_session-IsSound m id sound)

pub handle_terminal_message-IsSound :
    (m : TerminalSessionManager) (host : Host) (msg : TerminalMessage)
    → IsSound m
    → IsSound (handle_terminal_message m host msg).1
unfolding handle_terminal_message
handle_terminal_message-IsSound m host (term_init id rows cols cwd env) sound =
    create_session-IsSound m host id rows cols cwd sound
handle_terminal_message-IsSound m host (term_input id encoded) sound = sound
handle_terminal_message-IsSound m host (term_output id encoded) sound = sound
handle_terminal_message-IsSound m host (term_resize id rows cols) sound =
    resize_terminal-IsSound m host id rows cols sound
handle_terminal_message-IsSound m host (term_close id reason) sound =
    close_session-IsSound m id sound
handle_terminal_message-IsSound m host (term_ready id) sound = sound
handle_terminal_message-IsSound m host (term_error id e) sound = sound

pub data Event : Type 0 where
  message : Host → TerminalMessage → Event
  cleanup : ℕ → ℕ → Event

unfoldable pub run : TerminalSessionManager → List Event → TerminalSessionManager
run m [] = m
run m (message host msg ∷ es) = run (handle_terminal_message m host msg).1 es
run m (cleanup max_age now ∷ es) = run (cleanup_stale_sessions m max_age now) es

run-IsSound : (m : TerminalSessionManager) (es : List Event) → IsSound m → IsSound (run m es)
unfolding run cleanup_stale_sessions
run-IsSound m [] sound = sound
run-IsSound m (message host msg ∷ es) sound =
    run-IsSound (handle_terminal_message m host msg).1 es
      (handle_terminal_message-IsSound m host msg sound)
run-IsSound m (cleanup max_age now ∷ es) sound =
    run-IsSound (close_sessions m (stale_ids m max_age now)) es
      (close_sessions-IsSound m (stale_ids m max_age now) sound)

pub empty-IsSound : IsSound []
unfolding HashMap.get
empty-IsSound = record { distinct = tt; few = omega arith; sized = λ k s h. cc }

-- From an empty table, messages and clean-ups one after another, whatever the machine answers, leave
-- at most ten terminals, under names that differ, each of 10 to 200 rows and 40 to 400 columns.
pub run-empty-IsSound : (es : List Event) → IsSound (run [] es)
run-empty-IsSound es = run-IsSound [] es empty-IsSound
