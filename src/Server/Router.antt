-- ===== src/Server/Router.antt =====
-- src/server/routing.rs: `PacketRouter`. The random choice of padding, with its bytes, and the nonce
-- are arguments; `serde_json` and the chat messages behind a JSON payload are left out. What is
-- written to the TUN device is the result, since the device is outside.
pub mod Delivery
mod Tests
use aero_nyx_private_ed.Base.{
  ℕ, ◌+◌, ◌/◌, ◌%◌, Bool, true, false, not, ◌&&◌, List, [], ◌∷◌, Option, none, some, Text, ltb,
  nat_beq, if◌then◌else◌, length, Result, ok, err, reject_if, map_err, ◌>>=◌, ◌>>◌, add_u64,
}
use aero_nyx_private_ed.Network.Ipv4.{show_octets}
use aero_nyx_private_ed.Utils.Patterns.{detect_attack_patterns}
use aero_nyx_private_ed.Crypto.Padding.{add_padding, remove_padding}
use aero_nyx_private_ed.Crypto.Encryption.{Aead}
use aero_nyx_private_ed.Crypto.Flexible.{
  EncryptionAlgorithm, from_str, as_str, unwrap_or_default, FlexibleEncryptionError,
  EncryptedPacket, encrypt_packet, decrypt_packet,
}
use aero_nyx_private_ed.Protocol.Types.{PacketType, data_packet}

pub data RoutingError : Type 0 where
  encryption decryption : FlexibleEncryptionError → RoutingError
  invalid_packet : ℕ → ℕ → RoutingError
  security_risk : Text → RoutingError

pub record PacketRouter : Type 0 where
  pub max_packet_size : ℕ
  pub enable_padding : Bool
  pub packet_counter : ℕ

pub new : ℕ → Bool → PacketRouter
new max_packet_size enable_padding = record {
  max_packet_size = max_packet_size;
  enable_padding = enable_padding;
  packet_counter = 0;
}

-- The byte at an index that the length test has shown to be there.
abbrev pub byte_at : List ℕ → ℕ → ℕ
byte_at [] n = 0
byte_at (b ∷ bs) ℕ.zero = b
byte_at (b ∷ bs) (ℕ.suc n) = byte_at bs n

unfoldable pub process_packet : PacketRouter → List ℕ → Option (Text × List ℕ)
process_packet r packet =
    if ltb (length packet) 20
    then none
    else if not (nat_beq (byte_at packet 0 / 16) 4)
    then none
    else some (
      show_octets (byte_at packet 16) (byte_at packet 17) (byte_at packet 18) (byte_at packet 19),
      packet,
    )

-- The padding of one packet: the drawn bytes, or none where the probability said no.
pub padded : PacketRouter → List ℕ → Option (List ℕ) → List ℕ
padded r packet none = packet
padded r packet (some padding) = if r.enable_padding then add_padding packet padding else packet

-- Where padding is on, a packet that it can be removed from loses it, and any other stays.
pub unpadded : PacketRouter → List ℕ → List ℕ
unpadded r packet =
    if r.enable_padding
    then elim (remove_padding packet) [ ok clean ↦ clean | err _ ↦ packet ]
    else packet

-- `write_to_tun_device`, up to the bytes that the device is given.
pub tun_bytes : PacketRouter → List ℕ → Result RoutingError (List ℕ)
unfolding unpadded
tun_bytes r bytes =
    if ltb r.max_packet_size (length bytes)
    then err (invalid_packet (length bytes) r.max_packet_size)
    else elim (detect_attack_patterns bytes) [
      | some reason ↦ err (security_risk reason)
      | none ↦ ok (unpadded r bytes)
    ]

module _ (chacha gcm : Aead) where
  numbered :
      PacketRouter
      → Result FlexibleEncryptionError EncryptedPacket
      → Result RoutingError PacketType × PacketRouter
  numbered r (err e) = (err (encryption e), r)
  numbered r (ok p) = (
    ok (data_packet p.payload p.nonce r.packet_counter none (some (as_str p.algorithm))),
    record r { packet_counter = add_u64 r.packet_counter 1 },
  )

  -- `route_outbound_packet`, up to the packet that the session sends, and the router after it.
  unfoldable pub route_outbound_packet :
      PacketRouter
      → List ℕ
      → List ℕ
      → Text
      → Option (List ℕ)
      → List ℕ
      → Result RoutingError PacketType × PacketRouter
  unfolding padded numbered
  route_outbound_packet r packet session_key session_algorithm padding drawn =
      if ltb r.max_packet_size (length packet)
      then (err (invalid_packet (length packet) r.max_packet_size), r)
      else let algorithm = unwrap_or_default (from_str session_algorithm) in
        numbered r
          (encrypt_packet chacha gcm (padded r packet padding) session_key (some algorithm) drawn)

  -- The algorithm of an inbound packet: the one it names, if it is known, or else the session's.
  choose_algorithm : Option Text → Text → EncryptionAlgorithm
  choose_algorithm none session_algorithm = unwrap_or_default (from_str session_algorithm)
  choose_algorithm (some name) session_algorithm = elim (from_str name) [
    | none ↦ unwrap_or_default (from_str session_algorithm)
    | some a ↦ a
  ]

  -- `handle_inbound_packet`, up to the decrypted bytes, which are parsed next.
  pub decrypt_inbound :
      List ℕ → List ℕ → List ℕ → Text → Bool → Option Text → Result RoutingError (List ℕ)
  unfolding choose_algorithm
  decrypt_inbound encrypted nonce session_key session_algorithm enable_fallback name =
      map_err decryption (
        decrypt_packet chacha gcm encrypted session_key nonce
          (choose_algorithm name session_algorithm) enable_fallback)
