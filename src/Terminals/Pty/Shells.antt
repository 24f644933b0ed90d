-- ===== src/Terminals/Pty/Shells.antt =====
-- What the terminal messages do to shells: how it goes with their answers, and how far it goes.
use aero_nyx_private_ed.Base.{
  ℕ, ◌≤◌, ◌≡◌, refl, true, List, [], ◌∷◌, Option, none, some, Text, text_eq, ok, err, ltb, length,
  arith, Result, >>-eq-ok, Bool-cases, inl, inr,
}
use aero_nyx_private_ed.Terminals.Pty.{
  TerminalSessionManager, TerminalError, TerminalMessage, Host, ShellEffect, spawn_shell,
  write_shell, resize_shell, kill_shell, check_size, admit, present, done_if, input_effects,
  shell_effects, handle_terminal_message, handle_input, answer, write_to_terminal, term_init,
  term_input, term_output, term_resize, term_close, term_ready, term_error,
}
use aero_nyx_private_ed.Terminals.Pty.Sizes.{check_size-ok}

-- Sizes and inputs within the limits.
abbrev pub IsInSize : ℕ → ℕ → Type 0
IsInSize rows cols = (10 ≤ rows) × (rows ≤ 200) × (40 ≤ cols) × (cols ≤ 400)

abbrev pub IsBounded : ShellEffect → Type 0
IsBounded (spawn_shell id rows cols cwd env) = IsInSize rows cols
IsBounded (write_shell id bytes) = length bytes ≤ 4096
IsBounded (resize_shell id rows cols) = IsInSize rows cols
IsBounded (kill_shell id) = Unit

abbrev pub AllBounded : List ShellEffect → Type 0
AllBounded [] = Unit
AllBounded (e ∷ es) = IsBounded e × AllBounded es

done_if-AllBounded :
    (r : Result TerminalError (Unit {0})) (e : ShellEffect)
    → (r ≡ ok tt → IsBounded e)
    → AllBounded (done_if r e)
unfolding done_if
done_if-AllBounded (ok tt) e bounded = (bounded refl, tt)
done_if-AllBounded (err f) e bounded = tt

input_effects-AllBounded :
    (m : TerminalSessionManager) (id : Text) (o : Option (List ℕ))
    → AllBounded (input_effects m id o)
unfolding input_effects
input_effects-AllBounded m id none = tt
input_effects-AllBounded m id (some decoded) = elim (Bool-cases (ltb 4096 (length decoded))) [
  | inl long ↦ rw long tt
  | inr fits ↦
      rw fits
        (done_if-AllBounded (present m id) (write_shell id decoded) (λ _. ground (arith, fits)))
]

-- No message goes beyond the limits.
pub shell_effects-AllBounded :
    (m : TerminalSessionManager) (host : Host) (msg : TerminalMessage)
    → AllBounded (shell_effects m host msg)
unfolding shell_effects admit
shell_effects-AllBounded m host (term_init id rows cols cwd env) =
    done_if-AllBounded (admit m (record host { spawned = true }) id rows cols cwd)
      (spawn_shell id rows cols cwd env)
      (λ h. check_size-ok rows cols (>>-eq-ok (check_size rows cols) _ h).0)
shell_effects-AllBounded m host (term_input id encoded) =
    input_effects-AllBounded m id (host.decode encoded)
shell_effects-AllBounded m host (term_output id encoded) = tt
shell_effects-AllBounded m host (term_resize id rows cols) =
    done_if-AllBounded _ (resize_shell id rows cols)
      (λ h. check_size-ok rows cols (>>-eq-ok (check_size rows cols) _ h).0)
shell_effects-AllBounded m host (term_close id reason) =
    done_if-AllBounded (present m id) (kill_shell id) (λ _. tt)
shell_effects-AllBounded m host (term_ready id) = tt
shell_effects-AllBounded m host (term_error id e) = tt

input_effects-written :
    (m : TerminalSessionManager) (host : Host) (id : Text) (o : Option (List ℕ))
    → handle_input m host id o ≡ ok none
    → (decoded : List ℕ) × (o ≡ some decoded) × (input_effects m id o ≡ write_shell id decoded ∷ [])
unfolding handle_input input_effects write_to_terminal answer done_if
input_effects-written m host id none h = cc
input_effects-written m host id (some decoded) h = (decoded, refl, ground arith)

-- Input that is taken silently has been given to the shell, just as it was sent.
pub shell_effects-written :
    (m : TerminalSessionManager) (host : Host) (id encoded : Text)
    → (handle_terminal_message m host (term_input id encoded)).0 ≡ ok none
    → (decoded : List ℕ) × (host.decode encoded ≡ some decoded)
      × (shell_effects m host (term_input id encoded) ≡ write_shell id decoded ∷ [])
unfolding handle_terminal_message shell_effects
shell_effects-written m host id encoded h = input_effects-written m host id (host.decode encoded) h
