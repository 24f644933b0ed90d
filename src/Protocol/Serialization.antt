-- ===== src/Protocol/Serialization.antt =====
-- src/protocol/serialization.rs. The JSON text of a packet comes from `serde_json`, a parameter whose
-- reader undoes its writer.
mod Tests
use aero_nyx_private_ed.Base.{
  ℕ, ◌≤◌, ◌≡◌, true, false, List, Option, none, some, Text, codes, ltb, length, Result, ok, err,
  reject_if, ok_or, ◌>>=◌, ◌>>◌, if◌then◌else◌, Bool, arith, Result-cases, Option-cases, refl, inl,
  inr,
}
use aero_nyx_private_ed.Auth.Solana.{Solana}
use aero_nyx_private_ed.Protocol.Types.{
  MessageError, message_too_large, serialization, invalid_format, PacketType, disconnect, error,
  ip_renewal_response,
}
use aero_nyx_private_ed.Protocol.Validation.{max_message_size, validate_message}

pub record SerdeJson : Type 0 where
  pub to_string : PacketType → Option Text
  pub from_str : Text → Option PacketType
  pub from_str_to_string : (p : PacketType) (s : Text) → to_string p ≡ some s → from_str s ≡ some p

-- The messages of a WebSocket: a text, bytes, or one of the control frames.
pub data WsMessage : Type 0 where
  text : Text → WsMessage
  binary : List ℕ → WsMessage
  control : WsMessage

pub create_error_packet : ℕ → Text → PacketType
create_error_packet code message = error code message

unfoldable pub create_disconnect_packet : ℕ → Text → PacketType
create_disconnect_packet reason message = disconnect reason message

module _ (sol : Solana) (json : SerdeJson) where
  pub serialize_packet : PacketType → Result MessageError Text
  serialize_packet packet = do
    validate_message sol packet
    s ← ok_or (json.to_string packet) serialization
    reject_if (ltb max_message_size (length s)) message_too_large
    ok s

  pub packet_to_ws_message : PacketType → Result MessageError WsMessage
  packet_to_ws_message packet = do s ← serialize_packet packet; ok (text s)

  unfoldable pub deserialize_packet : Text → Result MessageError PacketType
  deserialize_packet s = do
    reject_if (ltb max_message_size (length s)) message_too_large
    packet ← ok_or (json.from_str s) serialization
    validate_message sol packet
    ok packet

  unfoldable pub ws_message_to_packet : WsMessage → Result MessageError PacketType
  ws_message_to_packet (text s) = deserialize_packet s
  ws_message_to_packet (binary _) = err (invalid_format (codes "Binary messages not supported"))
  ws_message_to_packet control = err (invalid_format (codes "Unsupported message type"))

  serialize_packet-ok :
      (packet : PacketType) (s : Text)
      → serialize_packet packet ≡ ok s
      → (validate_message sol packet ≡ ok tt)
        × (json.to_string packet ≡ some s)
        × (length s ≤ max_message_size)
  unfolding serialize_packet
  serialize_packet-ok packet s h = elim (Result-cases (validate_message sol packet)) [
    | inl (tt, valid) ↦ elim (Option-cases (json.to_string packet)) [
      | inl failed ↦ absurd (ground arith)
      | inr (t, written) ↦ (valid, ground (arith, written), ground arith)
    ]
    | inr (e, bad) ↦ absurd (ground arith)
  ]

  deserialize_packet-ok :
      (packet : PacketType) (s : Text)
      → deserialize_packet s ≡ ok packet
      → (length s ≤ max_message_size)
        × (json.from_str s ≡ some packet)
        × (validate_message sol packet ≡ ok tt)
  unfolding deserialize_packet
  deserialize_packet-ok packet s h = elim (Option-cases (json.from_str s)) [
    | inl failed ↦ absurd (ground arith)
    | inr (p, read) ↦ elim (Result-cases (validate_message sol p)) [
      | inl (tt, valid) ↦ (ground arith, ground (arith, read), ground (arith, valid))
      | inr (e, bad) ↦ absurd (ground arith)
    ]
  ]

  -- A packet that is sent is received: the message that `packet_to_ws_message` makes is read back as
  -- the packet.
  pub ws_message_to_packet-packet_to_ws_message :
      (packet : PacketType) (m : WsMessage)
      → packet_to_ws_message packet ≡ ok m
      → ws_message_to_packet m ≡ ok packet
  unfolding packet_to_ws_message ws_message_to_packet deserialize_packet
  ws_message_to_packet-packet_to_ws_message packet m h =
      elim (Result-cases (serialize_packet packet)) [
        | inr (e, bad) ↦ absurd (ground arith)
        | inl (s, made) ↦
            let (valid, written, short) = serialize_packet-ok packet s made in
            let sent : m ≡ text s = ground arith in
            ground (arith, sent, short, valid, json.from_str_to_string packet s written)
      ]

  -- What is received is a text within the size limit, whose packet is valid.
  pub ws_message_to_packet-valid :
      (packet : PacketType) (m : WsMessage)
      → ws_message_to_packet m ≡ ok packet
      → (s : Text) × (m ≡ text s)
        × (length s ≤ max_message_size)
        × (json.from_str s ≡ some packet)
        × (validate_message sol packet ≡ ok tt)
  unfolding ws_message_to_packet
  ws_message_to_packet-valid packet (text s) h =
      let (short, read, valid) = deserialize_packet-ok packet s h in (s, refl, short, read, valid)
  ws_message_to_packet-valid packet (binary _) h = cc
  ws_message_to_packet-valid packet control h = cc

  -- Only a valid packet is sent.
  pub packet_to_ws_message-valid :
      (packet : PacketType) (m : WsMessage)
      → packet_to_ws_message packet ≡ ok m
      → validate_message sol packet ≡ ok tt
  unfolding packet_to_ws_message
  packet_to_ws_message-valid packet m h = elim (Result-cases (serialize_packet packet)) [
    | inl (s, made) ↦ let (valid, written, short) = serialize_packet-ok packet s made in valid
    | inr (e, bad) ↦ absurd (ground arith)
  ]
