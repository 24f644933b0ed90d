-- ===== src/Remote/Management/History.antt =====
-- The audit history of the management commands.
use aero_nyx_private_ed.Base.{
  ℕ, zero, suc, ◌+◌, ◌-◌, ◌≤◌, ◌<◌, ◌≡◌, inl, inr, List, [], ◌∷◌, ◌++◌, Option, none, some, Text,
  ltb, if◌then◌else◌, length, drop, Result, arith, Bool-cases, length-append,
}
use aero_nyx_private_ed.Remote.Command.Files.{Base64}
use aero_nyx_private_ed.Remote.Management.{
  SecurityPolicy, RemoteManagementHandler, CommandHistoryEntry, check_and_update,
  record_command_execution, with_policy,
}
use aero_nyx_private_ed.Remote.Management.Actions.{Code, System}
use aero_nyx_private_ed.Remote.Management.Dispatch.{
  RemoteCommand, Reply, perform, recorded, handle_command, get_command_type,
}

-- A command with the answers of the system and the three clock readings of its call.
pub record Call : Type 0 where
  pub system : System
  pub command : RemoteCommand
  pub now : ℕ
  pub ended : ℕ
  pub took : ℕ

module _ (b : Base64) (observe : RemoteCommand → Result Code Text) where
  unfoldable pub run : RemoteManagementHandler → List Call → RemoteManagementHandler
  run h [] = h
  run h (c ∷ cs) = run (handle_command b observe c.system h c.command c.now c.ended c.took).0.1 cs

length-drop {ℓ} : {A : Type ℓ} (n : ℕ) (xs : List A) → length (drop n xs) ≡ length xs - n
length-drop zero xs = omega arith
length-drop (suc n) [] = omega arith
length-drop (suc n) (x ∷ xs) = omega (arith, length-drop n xs)

-- Cutting a list that is one too long.
trimmed :
    (most cut : ℕ) (xs : List CommandHistoryEntry)
    → 0 < cut
    → length xs ≤ most + 1
    → length (if ltb most (length xs) then drop cut xs else xs) ≤ most
trimmed most cut xs some_cut h = elim (Bool-cases (ltb most (length xs))) [
  | inl long ↦ rw long (omega (arith, length-drop cut xs))
  | inr fine ↦ rw fine (ground (arith, fine))
]

record_command_execution-bound :
    (history : List CommandHistoryEntry) (entry : CommandHistoryEntry)
    → length history ≤ 1000
    → length (record_command_execution history entry) ≤ 1000
unfolding record_command_execution
record_command_execution-bound history entry h =
    trimmed 1000 100 (history ++ entry ∷ []) (omega arith)
      (omega (arith, length-append history (entry ∷ [])))

recorded-bound :
    (h : RemoteManagementHandler) (command_type : Text) (ended took : ℕ)
    (r : Option (Result Code Reply))
    → length h.command_history ≤ 1000
    → length (recorded h command_type ended took r).1.command_history ≤ 1000
unfolding recorded
recorded-bound h command_type ended took none b = b
recorded-bound h command_type ended took (some r) b =
    record_command_execution-bound h.command_history _ b

module _ (b : Base64) (observe : RemoteCommand → Result Code Text) where
  handle_command-bound :
      (s : System) (h : RemoteManagementHandler) (c : RemoteCommand) (now ended took : ℕ)
      → length h.command_history ≤ 1000
      → length (handle_command b observe s h c now ended took).0.1.command_history ≤ 1000
  unfolding handle_command
  handle_command-bound s h c now ended took k =
      let test = check_and_update h.rate_limiter (get_command_type c) now in
      elim (Bool-cases test.0) [
        | inl passed ↦ rw passed (
            recorded-bound (record h { rate_limiter = test.1 }) (get_command_type c) ended took
              (perform b observe s h.policy c).0 k)
        | inr refused ↦ rw refused k
      ]

  run-bound :
      (h : RemoteManagementHandler) (cs : List Call)
      → length h.command_history ≤ 1000
      → length (run b observe h cs).command_history ≤ 1000
  unfolding run
  run-bound h [] k = k
  run-bound h (c ∷ cs) k =
      run-bound (handle_command b observe c.system h c.command c.now c.ended c.took).0.1 cs
        (handle_command-bound c.system h c.command c.now c.ended c.took k)

  -- Whatever commands a new handler gets, its history never holds more than a thousand entries.
  pub run-with_policy_bound :
      (policy : SecurityPolicy) (cs : List Call)
      → length (run b observe (with_policy policy) cs).command_history ≤ 1000
  unfolding with_policy
  run-with_policy_bound policy cs = run-bound (with_policy policy) cs (omega arith)
