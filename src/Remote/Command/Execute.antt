-- ===== src/Remote/Command/Execute.antt =====
-- src/remote_command_handler.rs: `handle_execute`. The lengths that `handle_execute` computes in
-- floating point are the parameter `share`, of a stream's size and the total. The texts of the
-- notices, of the suggestion and of the alternatives are left out; `none` is the panic of `truncate`
-- inside a character.
use aero_nyx_private_ed.Base.{
  ℕ, ◌+◌, ◌*◌, Bool, true, false, not, ◌&&◌, ◌||◌, List, [], ◌∷◌, ◌++◌, Option, none, some, Text,
  text_eq, codes, list_beq, leb, ltb, if◌then◌else◌, any, length, take, drop, Result, ok, err,
  ◌>>=◌, ◌>>◌, reject_if, ok_or, is_prefix, nat_eq,
}
use aero_nyx_private_ed.Remote.Command.{
  RemoteCommandConfig, RemoteCommandData, ErrorCode, invalid_command, permission_denied,
  unsupported_command, system_error, timed_out, Process, Stream, Ending, finished, failed, overdue,
  Machine, Effect, spawn, validate_path, is_command_whitelisted, is_command_forbidden,
}

abbrev pub or_empty : Option (List Text) → List Text
or_empty none = []
or_empty (some xs) = xs

abbrev env_or_empty : Option (List (Text × Text)) → List (Text × Text)
env_or_empty none = []
env_or_empty (some xs) = xs

abbrev nat_or : Option ℕ → ℕ → ℕ
nat_or none d = d
nat_or (some n) d = n

in_args : Text → List Text → Bool
in_args a args = any (λ x. list_beq x a) args

top_args : List Text → List Text
unfolding in_args
top_args args =
    let batch = if in_args (codes "-b") args then args else codes "-b" ∷ args in
    if any (λ x. is_prefix (codes "-n") x) batch
    then batch
    else batch ++ codes "-n" ∷ codes "1" ∷ []

ps_args : List Text → List Text
ps_args [] = codes "aux" ∷ []
ps_args (a ∷ args) = a ∷ args

-- The arguments of the commands that are interactive or write much.
pub adjusted_args : Text → List Text → Result ErrorCode (List Text)
unfolding top_args ps_args
adjusted_args cmd args =
    if list_beq cmd (codes "top")
    then ok (top_args args)
    else if list_beq cmd (codes "ps")
    then ok (ps_args args)
    else if list_beq cmd (codes "htop")
    then err unsupported_command
    else ok args

unfoldable pub working_directory :
    RemoteCommandConfig → Machine → Option Text → Result ErrorCode Text
working_directory config m none = ok config.working_dir
working_directory config m (some cwd) = validate_path config m cwd

-- Everything up to the start of the process.
unfoldable pub prepare :
    RemoteCommandConfig → Machine → RemoteCommandData → Result ErrorCode Process
unfolding adjusted_args working_directory
prepare config m c = do
  cmd ← ok_or c.cmd invalid_command
  reject_if (is_command_forbidden config cmd c.args) permission_denied
  reject_if (config.enable_command_whitelist && not (is_command_whitelisted config cmd))
      permission_denied
  args ← adjusted_args cmd (or_empty c.args)
  cwd ← working_directory config m c.cwd
  ok (record {
    program = cmd;
    args = args;
    current_dir = cwd;
    env = env_or_empty c.env;
    timeout = nat_or c.timeout 30;
  })

-- A byte that goes on with a character.
continues : ℕ → Bool
continues b = leb 128 b && ltb b 192

unfoldable pub starts_inside : Text → Bool
unfolding continues
starts_inside [] = false
starts_inside (b ∷ s) = continues b

-- `truncate`.
unfoldable pub truncate : Text → ℕ → Option Text
unfolding starts_inside
truncate s n =
    if ltb (length s) n then some s else if starts_inside (drop n s) then none else some (take n s)

pub data Notice : Type 0 where
  whole whole_limit : Notice
  original_size : ℕ → Notice

pub record Shown : Type 0 where
  pub text : Text
  pub notice : Notice

abbrev pub max_output_size : ℕ
max_output_size = 32 * 1024

abbrev pub max_total_size : ℕ
max_total_size = 50 * 1024

cut_to : Notice → Text → ℕ → Option Shown
unfolding truncate
cut_to n s limit = elim (truncate s limit) [
  | none ↦ none
  | some t ↦ some (record { text = t; notice = n })
]

-- One stream, where both together pass the total.
shown_of_large : (ℕ → ℕ → ℕ) → ℕ → Stream → Option Shown
unfolding cut_to
shown_of_large share total s =
    if ltb (share s.size total) s.size
    then cut_to (original_size s.size) s.text (share s.size total)
    else some (record { text = s.text; notice = whole })

unfoldable pub shown_within : ℕ → Stream → Option Shown
unfolding cut_to
shown_within limit s =
    if ltb limit (length s.text)
    then cut_to whole_limit s.text limit
    else some (record { text = s.text; notice = whole })

unfoldable pub shown : (ℕ → ℕ → ℕ) → ℕ → Stream → Option Shown
unfolding shown_of_large
shown share total s =
    if ltb max_total_size total
    then shown_of_large share total s
    else shown_within max_output_size s

is_cut : Notice → Bool
is_cut whole = false
is_cut _ = true

pub record Executed : Type 0 where
  pub stdout : Shown
  pub stderr : Shown
  pub exit_code : Option ℕ
  pub truncated : Bool
  pub total_output_size : ℕ

executed : Shown → Shown → Option ℕ → ℕ → Executed
unfolding is_cut
executed out err_out code total = record {
  stdout = out;
  stderr = err_out;
  exit_code = code;
  truncated = is_cut out.notice || is_cut err_out.notice;
  total_output_size = total;
}

answer_of : (ℕ → ℕ → ℕ) → Ending → Option (Result ErrorCode Executed)
unfolding executed
answer_of share failed = some (err system_error)
answer_of share overdue = some (err timed_out)
answer_of share (finished out err_out code) =
    let total = out.size + err_out.size in
    elim (shown share total out) [
      | none ↦ none
      | some o ↦ elim (shown share total err_out) [
        | none ↦ none
        | some e ↦ some (ok (executed o e code total))
      ]
    ]

unfoldable pub handle_execute :
    (ℕ → ℕ → ℕ)
    → RemoteCommandConfig
    → Machine
    → RemoteCommandData
    → Option (Result ErrorCode Executed) × List Effect
unfolding answer_of
handle_execute share config m c = elim (prepare config m c) [
  | err e ↦ (some (err e), [])
  | ok p ↦ (answer_of share (m.run p), spawn p ∷ [])
]
