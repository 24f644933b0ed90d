-- ===== src/Protocol/Validation/Rules.antt =====
-- The rules of each packet, as the fields' ranges, and that the tests decide them.
use aero_nyx_private_ed.Base.{
  ◌≤◌, ◌<◌, ◌≡◌, ◌↔◌, true, false, List, [], ◌∷◌, Text, length, ok, arith,
}
use aero_nyx_private_ed.Auth.Solana.{Solana}
use aero_nyx_private_ed.Protocol.Types.{
  PacketType, auth, challenge, challenge_response, ip_assign, data_packet, ping, pong, key_rotation,
  ip_renewal, ip_renewal_response, disconnect, error,
}
use aero_nyx_private_ed.Protocol.Validation.{
  max_message_size, is_empty, has_dot, split_count, is_valid_solana_pubkey, validate_auth,
  validate_challenge_response, validate_data, validate_message,
}

pub is_empty_iff {ℓ} : {A : Type ℓ} (xs : List A) → (is_empty xs ≡ false) ↔ (0 < length xs)
is_empty_iff [] = ground arith
is_empty_iff (x ∷ xs) = ground arith

-- A text has one part more than it has dots.
split_count-dot : (s : Text) → 1 < split_count s → has_dot s ≡ true
unfolding split_count
split_count-dot [] h = absurd (omega arith)
split_count-dot (c ∷ s) h = ground (arith, split_count-dot s)

module _ (sol : Solana) where
  -- What a packet's fields must be.
  abbrev pub IsValid : PacketType → Type 0
  IsValid (auth public_key version features _ nonce) =
      (is_valid_solana_pubkey sol public_key ≡ true)
      × (has_dot version ≡ true)
      × (3 ≤ length version)
      × (0 < length features)
      × (8 ≤ length nonce)
      × (length nonce ≤ 64)
  IsValid (challenge payload server_key expires_at id) =
      (0 < length payload)
      × (is_valid_solana_pubkey sol server_key ≡ true)
      × (0 < expires_at)
      × (0 < length id)
  IsValid (challenge_response signature public_key challenge_id) =
      (64 ≤ length signature)
      × (length signature ≤ 128)
      × (is_valid_solana_pubkey sol public_key ≡ true)
      × (0 < length challenge_id)
      × (length challenge_id ≤ 64)
  IsValid (ip_assign ip_address lease_duration session_id key key_nonce _) =
      (split_count ip_address ≡ 4)
      × (0 < lease_duration)
      × (0 < length session_id)
      × (0 < length key)
      × (length key_nonce ≡ 12)
  IsValid (data_packet encrypted nonce _ _ _) =
      (0 < length encrypted) × (length encrypted ≤ max_message_size) × (length nonce ≡ 12)
  IsValid (ping timestamp _) = 0 < timestamp
  IsValid (pong echo_timestamp server_timestamp _) = (0 < echo_timestamp) × (0 < server_timestamp)
  IsValid (key_rotation encrypted_new_key nonce key_id signature) =
      (0 < length encrypted_new_key)
      × (length nonce ≡ 12)
      × (0 < length key_id)
      × (0 < length signature)
  IsValid (ip_renewal session_id ip_address) = (0 < length session_id) × (0 < length ip_address)
  IsValid (ip_renewal_response session_id expires_at _) = (0 < length session_id) × (0 < expires_at)
  IsValid (disconnect _ message) = 0 < length message
  IsValid (error _ message) = 0 < length message

  -- `validate_message` accepts the packets whose fields are valid, and no other.
  pub validate_message_iff : (p : PacketType) → (validate_message sol p ≡ ok tt) ↔ IsValid p
  unfolding validate_message validate_auth validate_challenge_response validate_data
  validate_message_iff (auth public_key version features _ nonce) =
      ground (arith, is_empty_iff features)
  validate_message_iff (challenge payload server_key expires_at id) =
      ground (arith, is_empty_iff payload, is_empty_iff id)
  validate_message_iff (challenge_response signature public_key challenge_id) =
      ground (arith, is_empty_iff challenge_id)
  validate_message_iff (ip_assign ip_address lease_duration session_id key key_nonce _) =
      ground (arith, is_empty_iff session_id, is_empty_iff key, split_count-dot ip_address)
  validate_message_iff (data_packet encrypted nonce _ _ _) = ground (arith, is_empty_iff encrypted)
  validate_message_iff (ping timestamp _) = ground arith
  validate_message_iff (pong echo_timestamp server_timestamp _) = ground arith
  validate_message_iff (key_rotation encrypted_new_key nonce key_id signature) =
      ground (arith, is_empty_iff encrypted_new_key, is_empty_iff key_id, is_empty_iff signature)
  validate_message_iff (ip_renewal session_id ip_address) =
      ground (arith, is_empty_iff session_id, is_empty_iff ip_address)
  validate_message_iff (ip_renewal_response session_id expires_at _) =
      ground (arith, is_empty_iff session_id)
  validate_message_iff (disconnect _ message) = ground (arith, is_empty_iff message)
  validate_message_iff (error _ message) = ground (arith, is_empty_iff message)
