-- ===== src/Protocol/Types.antt =====
-- src/protocol/types.rs: the errors and the packets. A constructor's arguments are the fields in the
-- source's order.
use aero_nyx_private_ed.Base.{ℕ, Bool, List, Option, Text}

pub data MessageError : Type 0 where
  invalid_format missing_field invalid_value : Text → MessageError
  message_too_large serialization : MessageError

pub data PacketType : Type 0 where
  -- `public_key`, `version`, `features`, `encryption_algorithm`, `nonce`.
  auth : Text → Text → List Text → Option Text → Text → PacketType
  -- `data`, `server_key`, `expires_at`, `id`.
  challenge : List ℕ → Text → ℕ → Text → PacketType
  -- `signature`, `public_key`, `challenge_id`.
  challenge_response : Text → Text → Text → PacketType
  -- `ip_address`, `lease_duration`, `session_id`, `encrypted_session_key`, `key_nonce`,
  -- `encryption_algorithm`.
  ip_assign : Text → ℕ → Text → List ℕ → List ℕ → Text → PacketType
  -- `encrypted`, `nonce`, `counter`, `padding`, `encryption_algorithm`.
  data_packet : List ℕ → List ℕ → ℕ → Option (List ℕ) → Option Text → PacketType
  -- `timestamp`, `sequence`.
  ping : ℕ → ℕ → PacketType
  -- `echo_timestamp`, `server_timestamp`, `sequence`.
  pong : ℕ → ℕ → ℕ → PacketType
  -- `encrypted_new_key`, `nonce`, `key_id`, `signature`.
  key_rotation : List ℕ → List ℕ → Text → Text → PacketType
  -- `session_id`, `ip_address`.
  ip_renewal : Text → Text → PacketType
  -- `session_id`, `expires_at`, `success`.
  ip_renewal_response : Text → ℕ → Bool → PacketType
  -- `reason`, `message`.
  disconnect : ℕ → Text → PacketType
  -- `code`, `message`.
  error : ℕ → Text → PacketType
