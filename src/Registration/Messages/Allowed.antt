-- ===== src/Registration/Messages/Allowed.antt =====
-- What the messages may have commands do, and lists of effects.
use aero_nyx_private_ed.Base.{◌≡◌, ◌⊎◌, List, [], ◌∷◌, ◌++◌, Option, some}
use aero_nyx_private_ed.Remote.Command.{RemoteCommandConfig, Effect, RemoteCommandData}
use aero_nyx_private_ed.Remote.Command.Confinement.{AllEffects, Confined}
use aero_nyx_private_ed.Terminals.Pty.{ShellEffect}
use aero_nyx_private_ed.Terminals.Pty.Shells.{AllBounded}
use aero_nyx_private_ed.Registration.Messages.{ServerMessage, remote_command, Env}

-- What the command of a message may do: what the command handler confines it to, on the machine as it
-- is then, where the command is read.
abbrev pub ForCommand : RemoteCommandConfig → Env → Option RemoteCommandData → Effect → Type 0
ForCommand config env parsed e =
    (c : RemoteCommandData) × (parsed ≡ some c) × Confined config env.machine c e

abbrev pub FromMessage : RemoteCommandConfig → Env → ServerMessage → Effect → Type 0
FromMessage config env (remote_command id command session) e =
    ForCommand config env (env.parse_command command) e
FromMessage config env _ e = ⊥

-- What a message of the list may do.
abbrev pub Allowed : RemoteCommandConfig → List (Env × ServerMessage) → Effect → Type 0
Allowed config [] e = ⊥
Allowed config ((env, msg) ∷ ms) e = FromMessage config env msg e ⊎ Allowed config ms e

pub AllEffects-mono :
    (P Q : Effect → Type 0) (es : List Effect)
    → ((e : Effect) → P e → Q e)
    → AllEffects P es
    → AllEffects Q es
AllEffects-mono P Q [] f h = tt
AllEffects-mono P Q (e ∷ es) f (h, hs) = (f e h, AllEffects-mono P Q es f hs)

pub AllEffects-append :
    (P : Effect → Type 0) (es fs : List Effect)
    → AllEffects P es
    → AllEffects P fs
    → AllEffects P (es ++ fs)
AllEffects-append P [] fs h hs = hs
AllEffects-append P (e ∷ es) fs (h, rest) hs = (h, AllEffects-append P es fs rest hs)

pub AllBounded-append :
    (es fs : List ShellEffect) → AllBounded es → AllBounded fs → AllBounded (es ++ fs)
AllBounded-append [] fs h hs = hs
AllBounded-append (e ∷ es) fs (h, rest) hs = (h, AllBounded-append es fs rest hs)
