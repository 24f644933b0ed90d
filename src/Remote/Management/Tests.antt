-- ===== src/Remote/Management/Tests.antt =====
-- Requests on a machine with a protected file.
use aero_nyx_private_ed.Base.{◌≤◌, refl, true, false, [], ◌∷◌, some, Text, codes, arith}
use aero_nyx_private_ed.Remote.Command.Files.{Base64}
use aero_nyx_private_ed.Remote.Management.{SecurityPolicy, default_policy, new_limiter}
use aero_nyx_private_ed.Remote.Management.Window.{count_in, passed, passed-minute}
use aero_nyx_private_ed.Remote.Management.Actions.{System, succeeded}
use aero_nyx_private_ed.Remote.Management.Dispatch.{RemoteCommand, delete_file_command}

abbrev plain_base64 : Base64
plain_base64 = record {
  encode = λ bytes. bytes;
  decode = λ s. some s;
  decode-encode = λ bytes. refl;
}

abbrev secret : Text
secret = codes "/srv/key"

-- `/srv` is allowed but for one file.
abbrev srv_policy : SecurityPolicy
srv_policy = record default_policy {
  allowed_paths = codes "/srv" ∷ [];
  forbidden_paths = secret ∷ [];
  allow_dangerous_operations = true;
}

abbrev host : System
host = record {
  canonicalize = λ p. some p;
  exists = λ p. true;
  metadata = λ p. some (record { is_file = true; is_dir = false; len = 1 });
  read = λ p. some (7 ∷ []);
  write = λ p bytes. true;
  remove = λ p. true;
  run = λ l. succeeded;
}

abbrev delete_notes : RemoteCommand
delete_notes = delete_file_command (codes "/srv/notes") true

passed-minute_example :
    count_in 0
      (passed (codes "a") (new_limiter 1) ((codes "a", 5) ∷ (codes "b", 6) ∷ (codes "a", 7) ∷ []))
    ≤ 1
passed-minute_example =
    passed-minute 1 0 (codes "a") ((codes "a", 5) ∷ (codes "b", 6) ∷ (codes "a", 7) ∷ [])
      (omega arith)
