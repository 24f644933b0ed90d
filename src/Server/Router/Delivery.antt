-- ===== src/Server/Router/Delivery.antt =====
-- What one router sends and what a router with the same settings recovers.
use aero_nyx_private_ed.Base.{
  ℕ, ◌+◌, ◌*◌, ◌/◌, ◌≤◌, ◌<◌, ◌≡◌, ◌⊎◌, inl, inr, Bool-cases, Option-cases, refl, Bool, false, List,
  [], ◌∷◌, Option, none, some, Text, ltb, length, Result, ok, err, add_u64, arith,
}
use aero_nyx_private_ed.Network.Ipv4.{parse_ipv4, parse-show_octets}
use aero_nyx_private_ed.Crypto.Padding.{
  remove_padding, remove_padding-add_padding, remove_padding_long,
}
use aero_nyx_private_ed.Crypto.Encryption.{Aead}
use aero_nyx_private_ed.Crypto.Flexible.{
  from_str, as_str, unwrap_or_default, FlexibleEncryptionError, EncryptedPacket, encrypt_packet,
}
use aero_nyx_private_ed.Crypto.Flexible.Fallback.{from_str-as_str, decrypt_packet-encrypt_packet}
use aero_nyx_private_ed.Protocol.Types.{PacketType, data_packet}
use aero_nyx_private_ed.Utils.Patterns.{detect_attack_patterns}
use aero_nyx_private_ed.Server.Router.{
  invalid_packet, security_risk, PacketRouter, byte_at, process_packet, padded, unpadded, tun_bytes,
  numbered, route_outbound_packet, choose_algorithm, decrypt_inbound,
}

-- A packet of version 4 with at most 16385 bytes is never taken for a padded one: the length that its
-- first two bytes would stand for is larger than the packet.
unpadded_plain :
    (r : PacketRouter) (packet : List ℕ)
    → byte_at packet 0 / 16 ≡ 4
    → length packet ≤ 16385
    → unpadded r packet ≡ packet
unfolding unpadded remove_padding
unpadded_plain r [] v l = ground arith
unpadded_plain r (b ∷ []) v l = ground arith
unpadded_plain r (high ∷ low ∷ rest) v l =
    let short : length rest < high * 256 + low = omega (arith, v, l) in
    ground (arith, remove_padding_long high low rest short)

-- Whether a packet of version 4 was padded or not, taking the padding away gives the packet.
pub unpadded-padded :
    (r : PacketRouter) (packet : List ℕ) (padding : Option (List ℕ))
    → byte_at packet 0 / 16 ≡ 4
    → length packet ≤ 16385
    → ((bytes : List ℕ) → padding ≡ some bytes → length bytes < 65536)
    → unpadded r (padded r packet padding) ≡ packet
unfolding padded unpadded
unpadded-padded r packet none v l small = unpadded_plain r packet v l
unpadded-padded r packet (some bytes) v l small =
    let clean = remove_padding-add_padding packet bytes (small bytes refl) in ground (arith, clean)

-- What a receiver does with decrypted bytes that stand for a packet: it refuses them for their size or
-- for the attack pattern in them, or writes the packet.
abbrev pub Arrives : PacketRouter → List ℕ → List ℕ → Type 0
Arrives r wire packet =
    ((r.max_packet_size < length wire)
      × (tun_bytes r wire ≡ err (invalid_packet (length wire) r.max_packet_size)))
    ⊎ ((reason : Text) × (detect_attack_patterns wire ≡ some reason)
        × (tun_bytes r wire ≡ err (security_risk reason)))
    ⊎ ((length wire ≤ r.max_packet_size)
        × (detect_attack_patterns wire ≡ none)
        × (tun_bytes r wire ≡ ok packet))

tun_bytes-Arrives :
    (r : PacketRouter) (wire packet : List ℕ) → unpadded r wire ≡ packet → Arrives r wire packet
unfolding tun_bytes
tun_bytes-Arrives r wire packet clean = elim (Bool-cases (ltb r.max_packet_size (length wire))) [
  | inl long ↦ inl (ground (arith, long), rw long)
  | inr fits ↦ elim (Option-cases (detect_attack_patterns wire)) [
    | inr (reason, found) ↦ inr (inl (reason, found, rw (fits, found)))
    | inl harmless ↦ inr (inr (ground (arith, fits), harmless, rw (fits, harmless, clean)))
  ]
]

-- A packet is routed to the address in its bytes 16 to 19, whole, and only with version 4 and a full
-- header.
pub process_packet-destination :
    (r : PacketRouter) (packet out : List ℕ) (ip : Text)
    → byte_at packet 16 < 256
    → byte_at packet 17 < 256
    → byte_at packet 18 < 256
    → byte_at packet 19 < 256
    → process_packet r packet ≡ some (ip, out)
    → (out ≡ packet)
      × (20 ≤ length packet)
      × (byte_at packet 0 / 16 ≡ 4)
      × (parse_ipv4 ip
          ≡ some (
              byte_at packet 16 * 16777216
              + byte_at packet 17 * 65536
              + byte_at packet 18 * 256
              + byte_at packet 19))
unfolding process_packet
process_packet-destination r packet out ip a b c d h =
    let address =
      parse-show_octets (byte_at packet 16) (byte_at packet 17) (byte_at packet 18)
        (byte_at packet 19) a b c d in
    (ground arith, ground arith, ground arith, ground (arith, address))

module _ (chacha gcm : Aead) where
  numbered-ok :
      (r t : PacketRouter) (made : Result FlexibleEncryptionError EncryptedPacket) (p : PacketType)
      → numbered chacha gcm r made ≡ (ok p, t)
      → (e : EncryptedPacket) × (made ≡ ok e)
        × (p ≡ data_packet e.payload e.nonce r.packet_counter none (some (as_str e.algorithm)))
        × (t ≡ record r { packet_counter = add_u64 r.packet_counter 1 })
  unfolding numbered
  numbered-ok r t (ok e) p h = (e, refl, ground arith, ground arith)
  numbered-ok r t (err e) p h = cc

  -- A packet of version 4 with at most 16385 bytes, with padding of less than 65536 bytes or none and
  -- a nonce of twelve, that is routed fits the size, carries the counter of the router, which moves on
  -- by one, and is decrypted to the padded packet, whatever the receiver's own algorithm and with the
  -- fallback or without. A receiver with the same settings that takes these bytes for no envelope then
  -- refuses them for their size or for an attack pattern in them, or writes just the packet to its TUN
  -- device.
  pub route_outbound_packet-delivered :
      (r t : PacketRouter) (packet session_key drawn : List ℕ) (algorithm own : Text)
      (padding : Option (List ℕ)) (fallback : Bool) (p : PacketType)
      → length drawn ≡ 12
      → byte_at packet 0 / 16 ≡ 4
      → length packet ≤ 16385
      → ((bytes : List ℕ) → padding ≡ some bytes → length bytes < 65536)
      → route_outbound_packet chacha gcm r packet session_key algorithm padding drawn ≡ (ok p, t)
      → (encrypted : List ℕ) × (nonce : List ℕ) × (name : Text) × (p
          ≡ data_packet encrypted nonce r.packet_counter none (some name))
        × (t ≡ record r { packet_counter = add_u64 r.packet_counter 1 })
        × (length packet ≤ r.max_packet_size)
        × (decrypt_inbound chacha gcm encrypted nonce session_key own fallback (some name)
            ≡ ok (padded r packet padding))
        × Arrives r (padded r packet padding) packet
  unfolding route_outbound_packet decrypt_inbound choose_algorithm
  route_outbound_packet-delivered r t packet session_key drawn algorithm own padding fallback p l v
        small pad h =
      let a = unwrap_or_default (from_str algorithm) in
      let wire = padded r packet padding in
      let fits : ltb r.max_packet_size (length packet) ≡ false = ground arith in
      let made : numbered chacha gcm r (encrypt_packet chacha gcm wire session_key (some a) drawn)
          ≡ (ok p, t) =
        ground (arith, fits) in
      let (e, sealed, sent, next) =
        numbered-ok r t (encrypt_packet chacha gcm wire session_key (some a) drawn) p made in
      (
        e.payload,
        e.nonce,
        as_str e.algorithm,
        sent,
        next,
        ground arith,
        ground (
          arith,
          from_str-as_str e.algorithm,
          decrypt_packet-encrypt_packet chacha gcm wire session_key drawn (some a) e fallback l
              sealed,
        ),
        tun_bytes-Arrives r wire packet (unpadded-padded r packet padding v small pad),
      )
