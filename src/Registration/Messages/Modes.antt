-- ===== src/Registration/Messages/Modes.antt =====
-- What the security modes of a registered node permit.
use aero_nyx_private_ed.Base.{◌≡◌, true, Text, ok, inl}
use aero_nyx_private_ed.Remote.Path.{is_absolute, components-absolute}
use aero_nyx_private_ed.Remote.Command.{Machine, restricted, resolved, validate_path}
use aero_nyx_private_ed.Remote.Command.Permits.{resolved-ResolvesTo, validate_path_iff}
use aero_nyx_private_ed.Registration.Messages.{RegistrationManager, set_remote_security_mode}

-- The restricted mode that a node is set to permits every absolute path, since `/` is one of its
-- directories.
pub restricted_permits_all :
    (r : RegistrationManager) (data_dir : Text) (m : Machine) (path : Text)
    → is_absolute (resolved (set_remote_security_mode r data_dir restricted).config m path) ≡ true
    → validate_path (set_remote_security_mode r data_dir restricted).config m path
      ≡ ok (resolved (set_remote_security_mode r data_dir restricted).config m path)
unfolding set_remote_security_mode
restricted_permits_all r data_dir m path rooted =
    let config = (set_remote_security_mode r data_dir restricted).config in
    let p = resolved config m path in
    (validate_path_iff config m path p).1
      (resolved-ResolvesTo config m path, inl (components-absolute p rooted))
