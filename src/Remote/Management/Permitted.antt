-- ===== src/Remote/Management/Permitted.antt =====
-- What a security policy permits, apart from the code that asks it, and the tests that show it.
use mathlib.Core.Path.{subst}
use aero_nyx_private_ed.Base.{
  ◌≤◌, ◌≡◌, ◌⊎◌, true, false, not, List, [], ◌∷◌, some, Text, text_eq, codes, any, length, ok,
  arith, OneOf, HoldsNone, any_beq-OneOf, contains_text_iff, reject_if, ok_or, >>=-eq-ok, >>-eq-ok,
  ok_injective, ok_or-some, reject_if-false,
}
use aero_nyx_private_ed.Remote.Path.{starts_with, join_path}
use aero_nyx_private_ed.Remote.Path.Names.{IsName}
use aero_nyx_private_ed.Remote.Command.Permits.{BelowSome, any-starts_with_iff}
use aero_nyx_private_ed.Remote.Management.{SecurityPolicy}
use aero_nyx_private_ed.Remote.Management.Actions.{
  access_denied, Launch, System, Effect, write_file, set_permissions, remove_file, start,
  is_path_allowed, is_command_allowed, is_suspicious, allowed_services,
}

-- In an allowed directory, and in no forbidden one.
abbrev pub Allowed : SecurityPolicy → Text → Type 0
Allowed policy p = BelowSome p policy.allowed_paths × ¬ BelowSome p policy.forbidden_paths

pub is_path_allowed-Allowed :
    (policy : SecurityPolicy) (s : System) (path p : Text)
    → is_path_allowed policy s path ≡ ok p
    → (s.canonicalize path ≡ some p) × Allowed policy p
unfolding is_path_allowed
is_path_allowed-Allowed policy s path p h =
    let (q, known, h1) = >>=-eq-ok (ok_or (s.canonicalize path) access_denied) _ h in
    let inside = any (λ a. starts_with q a) policy.allowed_paths in
    let outside = any (λ f. starts_with q f) policy.forbidden_paths in
    let (free, h2) = >>-eq-ok (reject_if outside access_denied) _ h1 in
    let (in_one, h3) = >>-eq-ok (reject_if (not inside) access_denied) _ h2 in
    let free' = reject_if-false outside access_denied free in
    subst (λ x. (s.canonicalize path ≡ some x) × Allowed policy x) (ok_injective h3)
      (
        ok_or-some (s.canonicalize path) access_denied known,
        (
          (any-starts_with_iff q policy.allowed_paths).0 (ground (arith, in_one)),
          λ below. ground (arith, free', (any-starts_with_iff q policy.forbidden_paths).1 below),
        ),
      )

-- A canonical path that the policy allows.
abbrev pub AllowedOn : SecurityPolicy → System → Text → Type 0
AllowedOn policy s p = (path : Text) × (s.canonicalize path ≡ some p) × Allowed policy p

-- The path of a file by its directory, which is canonical and which the policy allows, and a name.
abbrev pub InAllowed : SecurityPolicy → System → Text → Type 0
InAllowed policy s p =
    (dir : Text) × (name : Text) × AllowedOn policy s dir × IsName name × (p ≡ join_path dir name)

-- What a shell would read as more than a word.
abbrev pub shell_texts : List Text
shell_texts = codes "&&" ∷ codes "||" ∷ codes ";" ∷ codes "|" ∷ codes "$" ∷ codes "`" ∷ []

abbrev pub ArePlain : List Text → Type 0
ArePlain [] = Unit
ArePlain (arg ∷ args) = HoldsNone shell_texts arg × ArePlain args

is_suspicious-HoldsNone : (arg : Text) → is_suspicious arg ≡ false → HoldsNone shell_texts arg
unfolding is_suspicious
is_suspicious-HoldsNone arg h =
    let has = λ (part : Text). contains_text_iff part arg in
    (
      λ held. ground (arith, h, (has (codes "&&")).1 held),
      (
        λ held. ground (arith, h, (has (codes "||")).1 held),
        (
          λ held. ground (arith, h, (has (codes ";")).1 held),
          (
            λ held. ground (arith, h, (has (codes "|")).1 held),
            (
              λ held. ground (arith, h, (has (codes "$")).1 held),
              (λ held. ground (arith, h, (has (codes "`")).1 held), tt),
            ),
          ),
        ),
      ),
    )

pub any_suspicious-ArePlain : (args : List Text) → any is_suspicious args ≡ false → ArePlain args
any_suspicious-ArePlain [] h = tt
any_suspicious-ArePlain (arg ∷ args) h = (
  is_suspicious-HoldsNone arg (ground (arith, h)),
  any_suspicious-ArePlain args (ground (arith, h)),
)

pub is_command_allowed-OneOf :
    (policy : SecurityPolicy) (command : Text)
    → is_command_allowed policy command ≡ true
    → OneOf command policy.allowed_commands
unfolding is_command_allowed
is_command_allowed-OneOf policy command h = any_beq-OneOf command policy.allowed_commands h

-- A command of the list with plain arguments, or the restart or reload of a service of the list.
abbrev pub MayStart : SecurityPolicy → Launch → Type 0
MayStart policy l =
    (OneOf l.program policy.allowed_commands × ArePlain l.args)
    ⊎ ((service : Text) × (action : Text) × OneOf service allowed_services
        × OneOf action (codes "restart" ∷ codes "reload" ∷ [])
        × (l.program ≡ codes "systemctl")
        × (l.args ≡ action ∷ service ∷ []))

abbrev pub Sound : SecurityPolicy → System → Effect → Type 0
Sound policy s (write_file p bytes) = InAllowed policy s p × (length bytes ≤ policy.max_file_size)
Sound policy s (set_permissions p mode) = InAllowed policy s p
Sound policy s (remove_file p) = (policy.allow_dangerous_operations ≡ true) × AllowedOn policy s p
Sound policy s (start l) = (policy.allow_dangerous_operations ≡ true) × MayStart policy l
