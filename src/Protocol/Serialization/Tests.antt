-- ===== src/Protocol/Serialization/Tests.antt =====
-- A ping on its way.
use aero_nyx_private_ed.Base.{◌≡◌, refl, [], ◌∷◌, ok}
use aero_nyx_private_ed.Protocol.Types.{ping}
use aero_nyx_private_ed.Protocol.Validation.{validate_message}
use aero_nyx_private_ed.Protocol.Serialization.{
  WsMessage, text, serialize_packet, packet_to_ws_message, ws_message_to_packet,
  ws_message_to_packet-packet_to_ws_message,
}
use aero_nyx_private_ed.Fixtures.{sol, json, write_packet}

abbrev wire : WsMessage
wire = text (0 ∷ 5 ∷ 1 ∷ [])

ping_sent : packet_to_ws_message sol json (ping 5 1) ≡ ok wire
unfolding packet_to_ws_message serialize_packet validate_message write_packet
ping_sent = refl

ws_message_to_packet-packet_to_ws_message_example :
    ws_message_to_packet sol json wire ≡ ok (ping 5 1)
ws_message_to_packet-packet_to_ws_message_example =
    ws_message_to_packet-packet_to_ws_message sol json (ping 5 1) wire ping_sent
