-- ===== src/Terminals/Manager/Environment.antt =====
-- The environment of a terminal's process.
use aero_nyx_private_ed.Base.HashMap
use aero_nyx_private_ed.Base.HashMap.{HashMap, get-insert}
use aero_nyx_private_ed.Base.{
  ◌≡◌, refl, ap, ◌∙◌, true, List, [], ◌∷◌, Option, some, Text, text_eq, text_iff, codes, list_beq,
  if◌then◌else◌, arith, Bool-cases, inl, inr,
}
use aero_nyx_private_ed.Terminals.Manager.{is_safe_env_var, set_safe, given_or_none, command_env}

-- Every variable of the map may be set.
abbrev AllSafe : HashMap Text Text → Type 0
AllSafe m = (k v : Text) → HashMap.get m k ≡ some v → is_safe_env_var k ≡ true

insert-AllSafe :
    (m : HashMap Text Text) (key value : Text)
    → is_safe_env_var key ≡ true
    → AllSafe m
    → AllSafe (HashMap.insert m key value)
insert-AllSafe m key value safe all k v h = elim (Bool-cases (list_beq key k)) [
  | inl same ↦
      ground (arith, safe, (text_iff key k).0 same, ap is_safe_env_var ((text_iff key k).0 same))
  | inr other ↦ all k v (ground (arith, h, other, get-insert m key k value))
]

set_safe-AllSafe :
    (m : HashMap Text Text) (vars : List (Text × Text)) → AllSafe m → AllSafe (set_safe m vars)
unfolding set_safe
set_safe-AllSafe m [] all = all
set_safe-AllSafe m ((key, value) ∷ vars) all = elim (Bool-cases (is_safe_env_var key)) [
  | inl safe ↦
      rw safe
        (set_safe-AllSafe (HashMap.insert m key value) vars (insert-AllSafe m key value safe all))
  | inr unsafe ↦ rw unsafe (set_safe-AllSafe m vars all)
]

none-AllSafe : AllSafe HashMap.empty
unfolding HashMap.get
none-AllSafe k v h = cc

term_safe : is_safe_env_var (codes "TERM") ≡ true
unfolding is_safe_env_var list_beq
term_safe = refl

lang_safe : is_safe_env_var (codes "LANG") ≡ true
unfolding is_safe_env_var list_beq
lang_safe = refl

lang_other :
    (o : Option Text)
    → (if list_beq (codes "LANG") (codes "TERM") then some (codes "en_US.UTF-8") else o) ≡ o
unfolding list_beq
lang_other o = refl

term_same :
    (o : Option Text)
    → (if list_beq (codes "TERM") (codes "TERM") then some (codes "xterm-256color") else o)
      ≡ some (codes "xterm-256color")
unfolding list_beq
term_same o = refl

lang_same :
    (o : Option Text)
    → (if list_beq (codes "LANG") (codes "LANG") then some (codes "en_US.UTF-8") else o)
      ≡ some (codes "en_US.UTF-8")
unfolding list_beq
lang_same o = refl

-- Whatever is asked for, a variable that the process is given may be set, and the terminal's type and
-- the language have the fixed values.
pub command_env-safe :
    (env : Option (List (Text × Text))) (k v : Text)
    → HashMap.get (command_env env) k ≡ some v
    → (is_safe_env_var k ≡ true)
      × (HashMap.get (command_env env) (codes "TERM") ≡ some (codes "xterm-256color"))
      × (HashMap.get (command_env env) (codes "LANG") ≡ some (codes "en_US.UTF-8"))
unfolding command_env
command_env-safe env k v h =
    let base = set_safe HashMap.empty (given_or_none env) in
    let typed = HashMap.insert base (codes "TERM") (codes "xterm-256color") in
    let all : AllSafe base = set_safe-AllSafe HashMap.empty (given_or_none env) none-AllSafe in
    (
      insert-AllSafe typed (codes "LANG") (codes "en_US.UTF-8") lang_safe
          (insert-AllSafe base (codes "TERM") (codes "xterm-256color") term_safe all) k v h,
      get-insert typed (codes "LANG") (codes "TERM") (codes "en_US.UTF-8")
          ∙ lang_other (HashMap.get typed (codes "TERM"))
          ∙ get-insert base (codes "TERM") (codes "TERM") (codes "xterm-256color")
          ∙ term_same (HashMap.get base (codes "TERM")),
      get-insert typed (codes "LANG") (codes "LANG") (codes "en_US.UTF-8")
          ∙ lang_same (HashMap.get typed (codes "LANG")),
    )
