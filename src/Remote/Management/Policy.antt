-- ===== src/Remote/Management/Policy.antt =====
-- What the effects of the management commands reach.
use aero_nyx_private_ed.Base.{List, [], ◌∷◌, text_eq}
use aero_nyx_private_ed.Remote.Command.Permits.{}
use aero_nyx_private_ed.Remote.Management.Actions.{Effect}

abbrev pub AllEffects : (Effect → Type 0) → List Effect → Type 0
AllEffects P [] = Unit
AllEffects P (e ∷ es) = P e × AllEffects P es
