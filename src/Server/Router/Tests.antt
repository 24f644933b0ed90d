-- ===== src/Server/Router/Tests.antt =====
-- A packet of twenty bytes.
use aero_nyx_private_ed.Base.{
  ℕ, ◌≡◌, ◌≤◌, refl, true, false, [], ◌∷◌, none, some, List, Text, codes, ok, length, arith,
  add_u64, list_beq,
}
use aero_nyx_private_ed.Crypto.Encryption.{encrypt_aes_gcm}
use aero_nyx_private_ed.Crypto.Flexible.{encrypt_packet, encrypt_flexible, from_str, as_str}
use aero_nyx_private_ed.Protocol.Types.{PacketType, data_packet}
use aero_nyx_private_ed.Server.Router.{
  PacketRouter, padded, unpadded, route_outbound_packet, numbered, decrypt_inbound,
}
use aero_nyx_private_ed.Server.Router.Delivery.{
  Arrives, unpadded-padded, route_outbound_packet-delivered,
}
use aero_nyx_private_ed.Fixtures.{plain}

abbrev router : PacketRouter
router = record { max_packet_size = 2048; enable_padding = true; packet_counter = 4 }

abbrev packet : List ℕ
packet = 69 ∷ 0 ∷ 0 ∷ 20 ∷ 0 ∷ 0 ∷ 0 ∷ 0 ∷ 64 ∷ 6 ∷ 0 ∷ 0 ∷ 10 ∷ 7 ∷ 0 ∷ 3 ∷ 10 ∷ 7 ∷ 0 ∷ 2 ∷ []

unpadded-padded_example : unpadded router (padded router packet (some (1 ∷ 2 ∷ []))) ≡ packet
unpadded-padded_example =
    unpadded-padded router packet (some (1 ∷ 2 ∷ [])) refl (omega arith)
      (λ bytes e. ground (arith, e))

abbrev key : List ℕ
key = codes "0123456789abcdef0123456789abcdef"

abbrev drawn : List ℕ
drawn = codes "0123456789ab"

abbrev sent : PacketType
sent = data_packet packet drawn 4 none (some (codes "aes256gcm"))

abbrev next_router : PacketRouter
next_router = record router { packet_counter = 5 }

sent-made :
    route_outbound_packet plain plain router packet key (codes "AES") none drawn
    ≡ (ok sent, next_router)
unfolding route_outbound_packet numbered padded encrypt_packet encrypt_flexible encrypt_aes_gcm
    from_str as_str list_beq
sent-made = refl

route_outbound_packet-delivered_example :
    (encrypted : List ℕ) × (nonce : List ℕ) × (name : Text) × (sent
      ≡ data_packet encrypted nonce router.packet_counter none (some name))
    × (next_router ≡ record router { packet_counter = add_u64 router.packet_counter 1 })
    × (length packet ≤ router.max_packet_size)
    × (decrypt_inbound plain plain encrypted nonce key (codes "chacha") false (some name)
        ≡ ok (padded router packet none))
    × Arrives router (padded router packet none) packet
route_outbound_packet-delivered_example =
    route_outbound_packet-delivered plain plain router next_router packet key drawn (codes "AES")
      (codes "chacha") none false sent refl refl (omega arith) (λ bytes e. cc e) sent-made
