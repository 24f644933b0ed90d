-- ===== src/Remote/Command/Confinement.antt =====
-- What the effects of a remote command reach: the paths that the mode permits, and processes that pass
-- the tests.
use aero_nyx_private_ed.Base.{
  ℕ, ◌≤◌, ◌≡◌, ◌⊎◌, inl, inr, refl, Bool, true, false, not, ◌&&◌, List, [], ◌∷◌, ◌++◌, codes, join,
  OneOf, HoldsNone, any_beq-OneOf, any_contains-HoldsNone, Option, none, some, Text, text_eq, ltb,
  length, Result, ok, err, reject_if, ok_or, >>=-eq-ok, >>-eq-ok, ok_injective, ok_or-some,
  reject_if-false, arith, Bool-cases, Option-cases, Result-cases,
}
use mathlib.Core.Path.{subst}
use aero_nyx_private_ed.Remote.Path.{parent}
use aero_nyx_private_ed.Remote.Command.{
  SecurityMode, full_access, restricted, whitelisted, full_command, RemoteCommandConfig,
  RemoteCommandData, ErrorCode, permission_denied, invalid_command, file_too_large, file_exists,
  Process, Machine, Effect, create_dir, write_file, set_permissions, spawn, validate_path,
  is_command_forbidden, is_command_whitelisted,
}
use aero_nyx_private_ed.Remote.Command.Execute.{
  prepare, adjusted_args, or_empty, working_directory, handle_execute,
}
use aero_nyx_private_ed.Remote.Command.Files.{
  Base64, Uploaded, permissions, write_to, below, upload_to, from_octal, upload_request,
  upload_checked, handle_upload, flag,
}
use aero_nyx_private_ed.Remote.Command.Dispatch.{handle_command}
use aero_nyx_private_ed.Remote.Command.Permits.{Reaches, validate_path_iff}

-- What a request that passes the tests of an upload has passed.
pub record Accepted (config : RemoteCommandConfig) (m : Machine) (c : RemoteCommandData) (p : Text)
    (bytes : List ℕ) : Type 0 where
  pub permitted : Reaches config m c.path p
  pub fits : length bytes ≤ config.max_file_size
  pub fresh : (m.exists p ≡ false) ⊎ (c.overwrite ≡ some true)

fresh_of :
    (there : Bool) (overwrite : Option Bool)
    → reject_if (there && not (flag overwrite)) file_exists ≡ ok tt
    → (there ≡ false) ⊎ (overwrite ≡ some true)
fresh_of false o h = inl refl
fresh_of true none h = cc
fresh_of true (some true) h = inr refl
fresh_of true (some false) h = cc

accepted :
    {config : RemoteCommandConfig} {m : Machine} {c : RemoteCommandData} {p : Text} {bytes : List ℕ}
    (q : Text) (bytes' : List ℕ)
    → Reaches config m c.path q
    → length bytes' ≤ config.max_file_size
    → (m.exists q ≡ false) ⊎ (c.overwrite ≡ some true)
    → ◌≡◌ {A = Result ErrorCode (Text × List ℕ)} (ok (q, bytes')) (ok (p, bytes))
    → Accepted config m c p bytes
accepted {config} {m} {c} {p} {bytes} q bytes' permitted fits fresh e =
    let e1 : q ≡ p = cc in
    let e2 : bytes' ≡ bytes = cc in
    subst (λ x. Accepted config m c x bytes) e1
      (subst (λ x. Accepted config m c q x) e2
        (record { permitted = permitted; fits = fits; fresh = fresh }))

upload_request-Accepted :
    (b : Base64) (config : RemoteCommandConfig) (m : Machine) (c : RemoteCommandData) {p : Text}
    {bytes : List ℕ}
    → upload_request b config m c ≡ ok (p, bytes)
    → Accepted config m c p bytes
unfolding upload_request
upload_request-Accepted b config m c h =
    let (path, asked, h1) = >>=-eq-ok (ok_or c.path invalid_command) _ h in
    let (content, _, h2) = >>=-eq-ok (ok_or c.content invalid_command) _ h1 in
    let (q, valid, h3) = >>=-eq-ok (validate_path config m path) _ h2 in
    let (bytes', _, h4) = >>=-eq-ok (ok_or (b.decode content) invalid_command) _ h3 in
    let (fits, h5) =
      >>-eq-ok (reject_if (ltb config.max_file_size (length bytes')) file_too_large) _ h4 in
    let (fresh, h6) =
      >>-eq-ok (reject_if (m.exists q && not (flag c.overwrite)) file_exists) _ h5 in
    let asked' = ok_or-some c.path invalid_command asked in
    let (resolves, permitted) = (validate_path_iff config m path q).0 valid in
    accepted q bytes' (path, asked', resolves, permitted) (ground (arith, fits))
      (fresh_of (m.exists q) c.overwrite fresh) h6

-- The command with its arguments, a space between each.
abbrev pub whole_line : Text → Option (List Text) → Text
whole_line cmd none = cmd
whole_line cmd (some args) = cmd ++ codes " " ++ join (codes " ") args

not_forbidden_of :
    (config : RemoteCommandConfig) (cmd : Text) (args : Option (List Text))
    → is_command_forbidden config cmd args ≡ false
    → HoldsNone config.forbidden_commands (whole_line cmd args)
unfolding is_command_forbidden full_command
not_forbidden_of config cmd none h = any_contains-HoldsNone config.forbidden_commands cmd h
not_forbidden_of config cmd (some args) h =
    any_contains-HoldsNone config.forbidden_commands (whole_line cmd (some args)) h

whitelisted-OneOf :
    (mode : SecurityMode) (list : List Text) (cmd : Text)
    → whitelisted mode list cmd ≡ true
    → mode ≡ restricted
    → OneOf cmd list
unfolding whitelisted
whitelisted-OneOf full_access list cmd h r = cc r
whitelisted-OneOf restricted list cmd h r = any_beq-OneOf cmd list h

-- What a process that is started has passed.
pub record Launched (config : RemoteCommandConfig) (m : Machine) (c : RemoteCommandData)
    (p : Process) : Type 0 where
  pub named : c.cmd ≡ some p.program
  pub not_forbidden : HoldsNone config.forbidden_commands (whole_line p.program c.args)
  pub listed :
      config.enable_command_whitelist ≡ true
      → config.security_mode ≡ restricted
      → OneOf p.program config.command_whitelist
  pub directory :
      ((c.cwd ≡ none) × (p.current_dir ≡ config.working_dir)) ⊎ Reaches config m c.cwd p.current_dir

working_directory-Reaches :
    (config : RemoteCommandConfig) (m : Machine) (cwd : Option Text) (d : Text)
    → working_directory config m cwd ≡ ok d
    → ((cwd ≡ none) × (d ≡ config.working_dir)) ⊎ Reaches config m cwd d
unfolding working_directory
working_directory-Reaches config m none d h = inl (refl, cc)
working_directory-Reaches config m (some cwd) d h =
    let (resolves, permitted) = (validate_path_iff config m cwd d).0 h in
    inr (cwd, refl, resolves, permitted)

listed_of :
    (enabled whitelisted : Bool)
    → reject_if (enabled && not whitelisted) permission_denied ≡ ok tt
    → enabled ≡ true
    → whitelisted ≡ true
listed_of true true h e = refl
listed_of true false h e = cc
listed_of false w h e = cc

prepare-Launched :
    (config : RemoteCommandConfig) (m : Machine) (c : RemoteCommandData) (p : Process)
    → prepare config m c ≡ ok p
    → Launched config m c p
unfolding prepare is_command_whitelisted
prepare-Launched config m c p h =
    let (cmd, named, h1) = >>=-eq-ok (ok_or c.cmd invalid_command) _ h in
    let (free, h2) =
      >>-eq-ok (reject_if (is_command_forbidden config cmd c.args) permission_denied) _ h1 in
    let (list, h3) =
      >>-eq-ok
        (reject_if (config.enable_command_whitelist && not (is_command_whitelisted config cmd))
          permission_denied)
        _ h2 in
    let (args, _, h4) = >>=-eq-ok (adjusted_args cmd (or_empty c.args)) _ h3 in
    let (d, inside, h5) = >>=-eq-ok (working_directory config m c.cwd) _ h4 in
    subst (Launched config m c) (ok_injective h5) (record {
      named = ok_or-some c.cmd invalid_command named;
      not_forbidden =
          not_forbidden_of config cmd c.args
            (reject_if-false (is_command_forbidden config cmd c.args) permission_denied free);
      listed = λ on mode.
          whitelisted-OneOf config.security_mode config.command_whitelist cmd
            (listed_of config.enable_command_whitelist (is_command_whitelisted config cmd) list on)
            mode;
      directory = working_directory-Reaches config m c.cwd d inside;
    })

-- What may be done with a request.
abbrev pub Confined : RemoteCommandConfig → Machine → RemoteCommandData → Effect → Type 0
Confined config m c (write_file p bytes) = Accepted config m c p bytes
Confined config m c (create_dir dir) =
    (p : Text) × (parent p ≡ some dir) × Reaches config m c.path p
Confined config m c (set_permissions p n) = Reaches config m c.path p
Confined config m c (spawn p) = Launched config m c p

abbrev pub AllEffects : (Effect → Type 0) → List Effect → Type 0
AllEffects P [] = Unit
AllEffects P (e ∷ es) = P e × AllEffects P es

module _ (config : RemoteCommandConfig) (m : Machine) (c : RemoteCommandData) where
  permissions-Confined :
      (p : Text) (mode : Option Text)
      → Reaches config m c.path p
      → AllEffects (Confined config m c) (permissions p mode)
  unfolding permissions
  permissions-Confined p none h = tt
  permissions-Confined p (some mode) h = elim (Option-cases (from_octal mode)) [
    | inl bad ↦ rw (bad, AllEffects) tt
    | inr (n, good) ↦ rw (good, AllEffects) (h, tt)
  ]

  write_to-Confined :
      (p : Text) (bytes : List ℕ) (mode : Option Text)
      → Accepted config m c p bytes
      → AllEffects (Confined config m c) (write_to m p bytes mode).1
  unfolding write_to
  write_to-Confined p bytes mode a = elim (Bool-cases (m.write p bytes)) [
    | inl done ↦ rw (done, AllEffects) (a, permissions-Confined p mode a.permitted)
    | inr failed ↦ rw (failed, AllEffects) (a, tt)
  ]

  below-Confined :
      (p : Text) (dir : List Text) (rest : Result ErrorCode Uploaded × List Effect)
      → parent p ≡ some dir
      → Reaches config m c.path p
      → AllEffects (Confined config m c) rest.1
      → AllEffects (Confined config m c) (below m dir rest).1
  unfolding below
  below-Confined p dir rest inside h all = elim (Bool-cases (m.create_dir_all dir)) [
    | inl done ↦ rw (done, AllEffects) ((p, inside, h), all)
    | inr failed ↦ rw (failed, AllEffects) ((p, inside, h), tt)
  ]

  upload_checked-Confined :
      (r : Result ErrorCode (Text × List ℕ))
      → ((p : Text) (bytes : List ℕ) → r ≡ ok (p, bytes) → Accepted config m c p bytes)
      → AllEffects (Confined config m c) (upload_checked m c.mode r).1
  unfolding upload_checked
  upload_checked-Confined (err e) all = tt
  upload_checked-Confined (ok (p, bytes)) all =
      let a = all p bytes refl in
      let w = write_to-Confined p bytes c.mode a in
      elim (Option-cases (parent p)) [
        | inl alone ↦ rw (alone, upload_to) w
        | inr (dir, inside) ↦
            rw (inside, upload_to)
              (below-Confined p dir (write_to m p bytes c.mode) inside a.permitted w)
      ]

handle_upload-Confined :
    (b : Base64) (config : RemoteCommandConfig) (m : Machine) (c : RemoteCommandData)
    → AllEffects (Confined config m c) (handle_upload b config m c).1
unfolding handle_upload
handle_upload-Confined b config m c =
    upload_checked-Confined config m c (upload_request b config m c)
      (λ p bytes h. upload_request-Accepted b config m c h)

handle_execute-Confined :
    (share : ℕ → ℕ → ℕ) (config : RemoteCommandConfig) (m : Machine) (c : RemoteCommandData)
    → AllEffects (Confined config m c) (handle_execute share config m c).1
unfolding handle_execute
handle_execute-Confined share config m c = elim (Result-cases (prepare config m c)) [
  | inr (e, refused) ↦ rw (refused, handle_execute) tt
  | inl (p, passed) ↦ rw (passed, handle_execute) (prepare-Launched config m c p passed, tt)
]

-- Whatever the command, a file is written, and its permissions are set, only at what the path of the
-- request resolves to, and only where the mode permits that by its components; a directory is made
-- only as the parent of it, what is written is within the size limit and replaces a file only on the
-- request to overwrite; and a process is started only for the command of the request, whose line holds
-- no forbidden text, which in restricted mode is on the list where a list is asked for, in the working
-- directory of the configuration or in what the directory of the request resolves to, where the mode
-- permits that. A path resolves to its canonical form, or, where the system has none, to itself as it
-- is written, its `..` included.
pub handle_command-Confined :
    (share : ℕ → ℕ → ℕ) (b : Base64) (system_info : RemoteCommandData → Result ErrorCode Text)
    (config : RemoteCommandConfig) (m : Machine) (request_id : Text) (c : RemoteCommandData)
    → AllEffects (Confined config m c) (handle_command share b system_info config m request_id c).1
unfolding handle_command
handle_command-Confined share b system_info config m request_id c =
    ground (arith, handle_execute-Confined share config m c, handle_upload-Confined b config m c)
