-- ===== src/Server/Tun.antt =====
-- src/server/packet.rs: one turn of the loop of `process_tun_packets`, for bytes that the TUN device
-- gave. Its result is the packet that a session sends. The monitor is left out, and so are the waits
-- of the loop and its end when the server stops.
mod Tests
use aero_nyx_private_ed.Base.HashMap
use mathlib.Core.Path.{subst}
use aero_nyx_private_ed.Base.{
  ℕ, ◌+◌, ◌*◌, ◌/◌, ◌≤◌, ◌<◌, ◌≡◌, ap, ◌∙◌, length, Bool, true, false, List, [], ◌∷◌, Option, none,
  some, Text, text_eq, Result, ok, err, arith, Option-cases, Result-cases, inl, inr,
}
use aero_nyx_private_ed.Crypto.Encryption.{Aead}
use aero_nyx_private_ed.Crypto.SessionKeys.{SessionKeyManager, get_key}
use aero_nyx_private_ed.Crypto.SessionKeys.Rotation.{view, get_key-view}
use aero_nyx_private_ed.Protocol.Types.{PacketType}
use aero_nyx_private_ed.Server.Sessions.{ClientSession, SessionManager, get_session_by_ip}
use aero_nyx_private_ed.Server.Sessions.Addresses.{IsConsistent, get_session_by_ip-address}
use aero_nyx_private_ed.Network.Ipv4.{parse_ipv4}
use aero_nyx_private_ed.Server.Router.{
  RoutingError, PacketRouter, byte_at, process_packet, route_outbound_packet,
}
use aero_nyx_private_ed.Server.Router.Delivery.{process_packet-destination}

pub record TunState : Type 0 where
  pub sessions : SessionManager
  pub session_keys : SessionKeyManager
  pub router : PacketRouter

-- The session and the packet that it sends.
abbrev pub Sent : Type 0
Sent = Option (ClientSession × PacketType)

module _ (chacha gcm : Aead) where
  routed_to :
      TunState → ClientSession → Result RoutingError PacketType × PacketRouter → Sent × TunState
  routed_to s session (err _, r) = (none, record s { router = r })
  routed_to s session (ok p, r) = (some (session, p), record s { router = r })

  with_key :
      TunState
      → ClientSession
      → List ℕ
      → Option (List ℕ)
      → List ℕ
      → Option (List ℕ)
      → Sent × TunState
  unfolding routed_to
  with_key s session packet padding drawn none = (none, s)
  with_key s session packet padding drawn (some key) = routed_to s session (
      route_outbound_packet chacha gcm s.router packet key session.encryption_algorithm padding
        drawn)

  to_session :
      TunState → Option ClientSession → List ℕ → Option (List ℕ) → List ℕ → ℕ → Sent × TunState
  unfolding with_key
  to_session s none packet padding drawn now = (none, s)
  to_session s (some session) packet padding drawn now =
      let (key, keys) = get_key s.session_keys session.client_id now in
      with_key (record s { session_keys = keys }) session packet padding drawn key

  pub process_tun_packet : TunState → List ℕ → Option (List ℕ) → List ℕ → ℕ → Sent × TunState
  unfolding to_session
  process_tun_packet s bytes padding drawn now = elim (process_packet s.router bytes) [
    | none ↦ (none, s)
    | some (dest_ip, packet) ↦
        to_session s (get_session_by_ip s.sessions dest_ip) packet padding drawn now
  ]

  to_session-sent :
      (s t : TunState) (o : Option ClientSession) (packet drawn : List ℕ)
      (padding : Option (List ℕ)) (now : ℕ) (session : ClientSession) (p : PacketType)
      → to_session s o packet padding drawn now ≡ (some (session, p), t)
      → (key : List ℕ) × (o ≡ some session)
        × (view s.session_keys session.client_id ≡ some key)
        × (route_outbound_packet chacha gcm s.router packet key session.encryption_algorithm padding
              drawn
            ≡ (ok p, t.router))
        × (t.sessions ≡ s.sessions)
  unfolding to_session with_key routed_to
  to_session-sent s t none packet drawn padding now session p h = cc
  to_session-sent s t (some u) packet drawn padding now session p h =
      let (seen, _) = get_key-view s.session_keys u.client_id u.client_id now in
      elim (Option-cases (get_key s.session_keys u.client_id now).0) [
        | inl no_key ↦ absurd (ground (arith, no_key))
        | inr (key, has) ↦
            let made =
              route_outbound_packet chacha gcm s.router packet key u.encryption_algorithm padding
                drawn in
            elim (Result-cases made.0) [
              | inr (e, failed) ↦ absurd (ground (arith, has, failed))
              | inl (q, done) ↦ (
                key,
                ground (arith, has, done),
                ground (arith, has, done, seen),
                ground (arith, has, done),
                ground (arith, has, done),
              )
            ]
      ]

  -- On a consistent session table, a packet of bytes that is read from the TUN device is sent only if
  -- it has version 4 and a full header, whole, and only to a live session whose address is the one in
  -- the packet's bytes 16 to 19, under the session's own key.
  pub process_tun_packet-recipient :
      (s t : TunState) (bytes drawn : List ℕ) (padding : Option (List ℕ)) (now : ℕ)
      (session : ClientSession) (p : PacketType)
      → IsConsistent s.sessions
      → byte_at bytes 16 < 256
      → byte_at bytes 17 < 256
      → byte_at bytes 18 < 256
      → byte_at bytes 19 < 256
      → process_tun_packet s bytes padding drawn now ≡ (some (session, p), t)
      → (key : List ℕ) × (20 ≤ length bytes)
        × (byte_at bytes 0 / 16 ≡ 4)
        × (parse_ipv4 session.ip_address
            ≡ some (
                byte_at bytes 16 * 16777216
                + byte_at bytes 17 * 65536
                + byte_at bytes 18 * 256
                + byte_at bytes 19))
        × (HashMap.get s.sessions.sessions session.id ≡ some session)
        × (view s.session_keys session.client_id ≡ some key)
        × (route_outbound_packet chacha gcm s.router bytes key session.encryption_algorithm padding
              drawn
            ≡ (ok p, t.router))
  unfolding process_tun_packet
  process_tun_packet-recipient s t bytes drawn padding now session p c b16 b17 b18 b19 h =
      elim (Option-cases (process_packet s.router bytes)) [
        | inl refused ↦ absurd (ground (arith, refused))
        | inr (routing, made) ↦
            let (dest_ip, packet) = routing in
            let (whole, full, version, destination) =
              process_packet-destination s.router bytes packet dest_ip b16 b17 b18 b19 made in
            let (key, found, has, sent, _) =
              to_session-sent s t (get_session_by_ip s.sessions dest_ip) packet drawn padding now
                session p (ground (arith, made)) in
            let (address, live) = get_session_by_ip-address s.sessions dest_ip session c found in
            (
              key,
              full,
              version,
              ap parse_ipv4 address ∙ destination,
              live,
              has,
              subst
                  (λ x.
                    route_outbound_packet chacha gcm s.router x key session.encryption_algorithm
                      padding drawn
                    ≡ (ok p, t.router))
                  whole sent,
            )
      ]
