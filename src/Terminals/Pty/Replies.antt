-- ===== src/Terminals/Pty/Replies.antt =====
-- What the answers to messages tell.
use aero_nyx_private_ed.Base.HashMap
use aero_nyx_private_ed.Base.HashMap.{remove_absent}
use aero_nyx_private_ed.Base.{
  ℕ, ◌≤◌, ◌≡◌, ◌↔◌, ◌⊎◌, ok_injective, refl, true, List, Option, none, some, Text, text_eq, ok, err,
  length, arith, Result, Option-cases, inl, inr,
}
use aero_nyx_private_ed.Terminals.Pty.{
  TerminalSessionManager, TerminalError, TerminalMessage, Host, admit, answer, stored_if,
  create_session, may_resize, resize_terminal, close_session, handle_input, handle_terminal_message,
  term_init, term_input, term_output, term_resize, term_close, term_ready, term_error,
  write_to_terminal,
}

-- An operation that stores its result if its tests pass, and answers.
stored_if-error :
    (m m' : TerminalSessionManager) (r : Result TerminalError (Unit {0})) (id id' : Text)
    (good : Option TerminalMessage) (e : TerminalError)
    → answer id good (stored_if m m' r).0 ≡ some (term_error id' e)
    → (k : Text) → (good ≡ none) ⊎ (good ≡ some (term_ready k))
    → (stored_if m m' r).1 ≡ m
unfolding answer stored_if
stored_if-error m m' (ok tt) id id' good e h k (inl silent) = cc
stored_if-error m m' (ok tt) id id' good e h k (inr ready) = cc
stored_if-error m m' (err f) id id' good e h k kind = refl

close_session-error :
    (m : TerminalSessionManager) (id id' : Text) (e : TerminalError)
    → answer id none (close_session m id).0 ≡ some (term_error id' e)
    → (close_session m id).1 ≡ m
unfolding answer close_session
close_session-error m id id' e h = elim (Option-cases (HashMap.get m id)) [
  | inl absent ↦ remove_absent m id absent
  | inr (s, found) ↦ ground (arith, found, h)
]

-- A message that is answered with an error leaves the table of terminals as it was.
pub handle_terminal_message-error :
    (m : TerminalSessionManager) (host : Host) (msg : TerminalMessage) (id : Text)
    (e : TerminalError)
    → (handle_terminal_message m host msg).0 ≡ ok (some (term_error id e))
    → (handle_terminal_message m host msg).1 ≡ m
unfolding handle_terminal_message create_session resize_terminal
handle_terminal_message-error m host (term_init id rows cols cwd env) id' e h =
    stored_if-error m _ (admit m host id rows cols cwd) id id' (some (term_ready id)) e
      (ok_injective h) id (inr refl)
handle_terminal_message-error m host (term_input id encoded) id' e h = refl
handle_terminal_message-error m host (term_output id encoded) id' e h = refl
handle_terminal_message-error m host (term_resize id rows cols) id' e h =
    stored_if-error m _ (may_resize m host id rows cols) id id' none e (ok_injective h) id
      (inl refl)
handle_terminal_message-error m host (term_close id reason) id' e h =
    close_session-error m id id' e (ok_injective h)
handle_terminal_message-error m host (term_ready id) id' e h = refl
handle_terminal_message-error m host (term_error id f) id' e h = refl

handle_input-ok :
    (m : TerminalSessionManager) (host : Host) (id : Text) (o : Option (List ℕ))
    → handle_input m host id o ≡ ok none
    → (decoded : List ℕ) × (o ≡ some decoded)
      × (length decoded ≤ 4096)
      × (HashMap.contains_key m id ≡ true)
      × (host.written ≡ true)
unfolding handle_input write_to_terminal answer
handle_input-ok m host id none h = cc
handle_input-ok m host id (some decoded) h =
    (decoded, refl, ground arith, ground arith, ground arith)

handle_input-fits :
    (m : TerminalSessionManager) (host : Host) (id : Text) (decoded : List ℕ)
    → length decoded ≤ 4096
    → HashMap.contains_key m id ≡ true
    → host.written ≡ true
    → handle_input m host id (some decoded) ≡ ok none
unfolding handle_input write_to_terminal answer
handle_input-fits m host id decoded fits there written = ground (arith, there, written)

-- Input is written silently just if its base64 can be read, it has at most 4096 bytes, the terminal
-- is there and takes it.
pub handle_terminal_message-written_iff :
    (m : TerminalSessionManager) (host : Host) (id encoded : Text)
    → ((handle_terminal_message m host (term_input id encoded)).0 ≡ ok none) ↔ (
        (decoded : List ℕ) × (host.decode encoded ≡ some decoded)
        × (length decoded ≤ 4096)
        × (HashMap.contains_key m id ≡ true)
        × (host.written ≡ true))
unfolding handle_terminal_message
handle_terminal_message-written_iff m host id encoded = (
  λ h. handle_input-ok m host id (host.decode encoded) h,
  λ (decoded, read, fits, there, written).
      rw read (handle_input-fits m host id decoded fits there written),
)
