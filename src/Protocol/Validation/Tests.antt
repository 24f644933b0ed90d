-- ===== src/Protocol/Validation/Tests.antt =====
-- A ping.
use aero_nyx_private_ed.Base.{◌≡◌, ◌↔◌, ok, ◌<◌}
use aero_nyx_private_ed.Protocol.Types.{ping}
use aero_nyx_private_ed.Protocol.Validation.{validate_message}
use aero_nyx_private_ed.Protocol.Validation.Rules.{validate_message_iff}
use aero_nyx_private_ed.Fixtures.{sol}

validate_message_iff_example : (validate_message sol (ping 5 1) ≡ ok tt) ↔ (0 < 5)
validate_message_iff_example = validate_message_iff sol (ping 5 1)
