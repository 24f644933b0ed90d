-- ===== src/Protocol/Validation.antt =====
-- src/protocol/validation.rs. A `String` is its bytes; a byte of a character outside ASCII is at least
-- 128, so a test of the characters for ASCII ranges is one of the bytes.
pub mod Rules
mod Tests
use aero_nyx_private_ed.Base.{
  ℕ, ◌+◌, Bool, true, false, not, ◌&&◌, ◌||◌, List, [], ◌∷◌, Option, none, some, Text, codes, ltb,
  leb, nat_beq, if◌then◌else◌, length, all, any, Result, ok, err, reject_if, ◌>>=◌, ◌>>◌,
}
use aero_nyx_private_ed.Base.HashMap.{is_some}
use aero_nyx_private_ed.Auth.Solana.{Solana}
use aero_nyx_private_ed.Protocol.Types.{
  MessageError, missing_field, invalid_value, message_too_large, PacketType, auth, challenge,
  challenge_response, ip_assign, data_packet, ping, pong, key_rotation, ip_renewal,
  ip_renewal_response, disconnect, error,
}

-- `MAX_MESSAGE_SIZE` of src/protocol/serialization.rs.
abbrev pub max_message_size : ℕ
max_message_size = 1048576

is_alphanumeric : ℕ → Bool
is_alphanumeric c =
    (leb b'A' c && leb c b'Z') || (leb b'a' c && leb c b'z') || (leb b'1' c && leb c b'9')

abbrev pub is_empty {ℓ} : {A : Type ℓ} → List A → Bool
is_empty [] = true
is_empty (_ ∷ _) = false

abbrev pub has_dot : Text → Bool
has_dot = any (λ c. nat_beq c b'.')

-- `split('.').count()`.
unfoldable pub split_count : Text → ℕ
split_count [] = 1
split_count (c ∷ s) = (if nat_beq c b'.' then 1 else 0) + split_count s

module _ (sol : Solana) where
  unfoldable pub is_valid_solana_pubkey : Text → Bool
  unfolding is_alphanumeric
  is_valid_solana_pubkey key =
      if not (nat_beq (length key) 44) && not (nat_beq (length key) 43)
      then false
      else all is_alphanumeric key && is_some (sol.pubkey_from_str key)

  validate_auth : Text → Text → List Text → Text → Result MessageError (Unit {0})
  validate_auth public_key version features nonce = do
    reject_if (not (is_valid_solana_pubkey public_key)) (invalid_value public_key)
    reject_if (not (has_dot version) || ltb (length version) 3) (invalid_value version)
    reject_if (is_empty features) (missing_field (codes "features"))
    reject_if (ltb (length nonce) 8 || ltb 64 (length nonce)) (invalid_value (codes "nonce"))

  validate_challenge_response : Text → Text → Text → Result MessageError (Unit {0})
  validate_challenge_response signature public_key challenge_id = do
    reject_if (ltb (length signature) 64 || ltb 128 (length signature))
        (invalid_value (codes "signature"))
    reject_if (not (is_valid_solana_pubkey public_key)) (invalid_value public_key)
    reject_if (is_empty challenge_id || ltb 64 (length challenge_id))
        (invalid_value (codes "challenge_id"))

  validate_data : List ℕ → List ℕ → Result MessageError (Unit {0})
  validate_data encrypted nonce = do
    reject_if (is_empty encrypted) (missing_field (codes "encrypted data"))
    reject_if (ltb max_message_size (length encrypted)) message_too_large
    reject_if (not (nat_beq (length nonce) 12)) (invalid_value (codes "nonce"))

  -- The values in an error's text are left out, where the source prints a length.
  unfoldable pub validate_message : PacketType → Result MessageError (Unit {0})
  unfolding validate_auth validate_challenge_response validate_data
  validate_message (auth public_key version features _ nonce) =
      validate_auth public_key version features nonce
  validate_message (challenge payload server_key expires_at id) = do
    reject_if (is_empty payload) (missing_field (codes "challenge data"))
    reject_if (not (is_valid_solana_pubkey server_key)) (invalid_value server_key)
    reject_if (nat_beq expires_at 0) (invalid_value (codes "expires_at cannot be zero"))
    reject_if (is_empty id) (missing_field (codes "challenge id"))
  validate_message (challenge_response signature public_key challenge_id) =
      validate_challenge_response signature public_key challenge_id
  validate_message (ip_assign ip_address lease_duration session_id key key_nonce _) = do
    reject_if (not (has_dot ip_address) || not (nat_beq (split_count ip_address) 4))
        (invalid_value ip_address)
    reject_if (nat_beq lease_duration 0) (invalid_value (codes "lease_duration cannot be zero"))
    reject_if (is_empty session_id) (missing_field (codes "session_id"))
    reject_if (is_empty key) (missing_field (codes "encrypted_session_key"))
    reject_if (not (nat_beq (length key_nonce) 12)) (invalid_value (codes "key nonce"))
  validate_message (data_packet encrypted nonce _ _ _) = validate_data encrypted nonce
  validate_message (ping timestamp _) =
      reject_if (nat_beq timestamp 0) (invalid_value (codes "timestamp cannot be zero"))
  validate_message (pong echo_timestamp server_timestamp _) = do
    reject_if (nat_beq echo_timestamp 0) (invalid_value (codes "echo_timestamp cannot be zero"))
    reject_if (nat_beq server_timestamp 0) (invalid_value (codes "server_timestamp cannot be zero"))
  validate_message (key_rotation encrypted_new_key nonce key_id signature) = do
    reject_if (is_empty encrypted_new_key) (missing_field (codes "encrypted_new_key"))
    reject_if (not (nat_beq (length nonce) 12)) (invalid_value (codes "nonce"))
    reject_if (is_empty key_id) (missing_field (codes "key_id"))
    reject_if (is_empty signature) (missing_field (codes "signature"))
  validate_message (ip_renewal session_id ip_address) = do
    reject_if (is_empty session_id) (missing_field (codes "session_id"))
    reject_if (is_empty ip_address) (missing_field (codes "ip_address"))
  validate_message (ip_renewal_response session_id expires_at _) = do
    reject_if (is_empty session_id) (missing_field (codes "session_id"))
    reject_if (nat_beq expires_at 0) (invalid_value (codes "expires_at cannot be zero"))
  validate_message (disconnect _ message) =
      reject_if (is_empty message) (missing_field (codes "message"))
  validate_message (error _ message) =
      reject_if (is_empty message) (missing_field (codes "message"))
