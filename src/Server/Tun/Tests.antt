-- ===== src/Server/Tun/Tests.antt =====
-- A packet for the one session.
use aero_nyx_private_ed.Base.HashMap
use aero_nyx_private_ed.Base.{
  ℕ, ◌+◌, ◌*◌, ◌/◌, ◌≤◌, ◌≡◌, length, refl, true, false, List, [], ◌∷◌, none, some, text_eq,
  text_iff, codes, list_beq, ok, arith,
}
use aero_nyx_private_ed.Network.Ipv4.{parse_ipv4, show_octets, show_octet}
use aero_nyx_private_ed.Crypto.Encryption.{encrypt_aes_gcm}
use aero_nyx_private_ed.Crypto.Flexible.{encrypt_packet, encrypt_flexible, from_str, as_str}
use aero_nyx_private_ed.Crypto.SessionKeys.{SessionKeyManager, get_key}
use aero_nyx_private_ed.Crypto.SessionKeys.Rotation.{view}
use aero_nyx_private_ed.Protocol.Types.{PacketType, data_packet}
use aero_nyx_private_ed.Server.Sessions.{ClientSession, SessionManager, get_session_by_ip}
use aero_nyx_private_ed.Server.Sessions.Addresses.{IsConsistent}
use aero_nyx_private_ed.Server.Router.{byte_at, process_packet, route_outbound_packet}
use aero_nyx_private_ed.Server.Tun.{
  TunState, process_tun_packet, to_session, with_key, routed_to, process_tun_packet-recipient,
}
use aero_nyx_private_ed.Fixtures.{plain}

abbrev packet : List ℕ
packet = 69 ∷ 0 ∷ 0 ∷ 20 ∷ 0 ∷ 0 ∷ 0 ∷ 0 ∷ 64 ∷ 6 ∷ 0 ∷ 0 ∷ 10 ∷ 7 ∷ 0 ∷ 3 ∷ 10 ∷ 7 ∷ 0 ∷ 2 ∷ []

abbrev session : ClientSession
session = record {
  id = codes "s1";
  client_id = codes "ann";
  ip_address = codes "10.7.0.2";
  peer_ip = codes "1.2.3.4";
  last_activity = 0;
  stream_taken = false;
  encryption_algorithm = codes "aes";
  current_room = none;
  display_name = none;
  fallback_enabled = true;
}

abbrev table : SessionManager
table = record {
  sessions = (codes "s1", session) ∷ [];
  ip_sessions = (codes "10.7.0.2", codes "s1") ∷ [];
  session_timeout = 10;
}

abbrev key : List ℕ
key = codes "0123456789abcdef0123456789abcdef"

abbrev keys : ℕ → ℕ → SessionKeyManager
keys used uses = record {
  session_keys =
      (codes "ann", record { key = key; created_at = 0; last_used = used; usage_count = uses })
      ∷ [];
  rotation_interval = 100;
  max_key_usages = 0;
}

abbrev before : TunState
before = record {
  sessions = table;
  session_keys = keys 0 0;
  router = record { max_packet_size = 2048; enable_padding = false; packet_counter = 4 };
}

abbrev after : TunState
after = record {
  sessions = table;
  session_keys = keys 6 1;
  router = record { max_packet_size = 2048; enable_padding = false; packet_counter = 5 };
}

abbrev drawn : List ℕ
drawn = codes "0123456789ab"

abbrev sent : PacketType
sent = data_packet packet drawn 4 none (some (codes "aes256gcm"))

table-IsConsistent : IsConsistent table
unfolding HashMap.get
table-IsConsistent = record {
  distinct = (refl, tt);
  identified = λ id s h. ground (arith, h, text_iff (codes "s1") id);
  leads = λ ip id h. (
    session,
    ground (arith, h, text_iff (codes "s1") id, text_iff (codes "10.7.0.2") ip),
    ground (arith, h, text_iff (codes "10.7.0.2") ip),
  );
}

packet-sent :
    process_tun_packet plain plain before packet none drawn 6 ≡ (some (session, sent), after)
unfolding process_tun_packet to_session with_key routed_to get_session_by_ip get_key process_packet
    route_outbound_packet encrypt_packet encrypt_flexible encrypt_aes_gcm from_str as_str
    show_octets show_octet list_beq HashMap.get HashMap.modify
packet-sent = refl

process_tun_packet-recipient_example :
    (session_key : List ℕ) × (20 ≤ length packet)
    × (byte_at packet 0 / 16 ≡ 4)
    × (parse_ipv4 session.ip_address
        ≡ some (
            byte_at packet 16 * 16777216
            + byte_at packet 17 * 65536
            + byte_at packet 18 * 256
            + byte_at packet 19))
    × (HashMap.get table.sessions session.id ≡ some session)
    × (view before.session_keys session.client_id ≡ some session_key)
    × (route_outbound_packet plain plain before.router packet session_key
          session.encryption_algorithm none drawn
        ≡ (ok sent, after.router))
process_tun_packet-recipient_example =
    process_tun_packet-recipient plain plain before after packet drawn none 6 session sent
      table-IsConsistent (omega arith) (omega arith) (omega arith) (omega arith) packet-sent
