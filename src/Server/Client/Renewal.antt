-- ===== src/Server/Client/Renewal.antt =====
-- Two corners of the loop: the answer to an address renewal, and the counter zero.
use aero_nyx_private_ed.Base.{
  ℕ, ◌≡◌, refl, Bool, false, List, [], ◌∷◌, Option, none, some, Text, text_eq, text_self, err,
  arith, Result-cases, inl, inr,
}
use aero_nyx_private_ed.Auth.Solana.{Solana}
use aero_nyx_private_ed.Crypto.SessionKeys.{get_key}
use aero_nyx_private_ed.Crypto.SessionKeys.Rotation.{view, get_key-view}
use aero_nyx_private_ed.Protocol.Types.{ip_renewal, ip_renewal_response}
use aero_nyx_private_ed.Protocol.Validation.Rules.{validate_message_iff}
use aero_nyx_private_ed.Protocol.Serialization.{
  SerdeJson, packet_to_ws_message, packet_to_ws_message-valid,
}
use aero_nyx_private_ed.Server.Client.{
  SessionInfo, LoopState, inbound, stop, network, is_replay, inbound_with, handle_data, answer,
  send_packet, handle_packet,
}

zero_passes : (last : Option ℕ) → is_replay last 0 ≡ false
unfolding is_replay
zero_passes none = refl
zero_passes (some last) = ground arith

zero_resets : (counter : ℕ) → is_replay (some 0) counter ≡ false
unfolding is_replay
zero_resets counter = ground arith

-- The counter zero passes the test whatever came before, and sets it back: behind a data packet with
-- the counter zero, a data packet with any counter is routed, be it routed before or not.
pub handle_data_zero :
    (info : SessionInfo) (s : LoopState) (now later : ℕ)
    (zero_encrypted zero_nonce encrypted nonce key : List ℕ) (algorithm : Option Text) (counter : ℕ)
    → view s.session_keys info.client_id ≡ some key
    → (handle_data info
        (handle_data info s now zero_encrypted zero_nonce 0 algorithm).0
        later
        encrypted
        nonce
        counter
        algorithm).1
      ≡ inbound counter encrypted nonce key algorithm ∷ []
unfolding handle_data inbound_with
handle_data_zero info s now later ze zn encrypted nonce key algorithm counter held =
    let (first, rest) = get_key-view s.session_keys info.client_id info.client_id now in
    let (second, _) =
      get_key-view (get_key s.session_keys info.client_id now).1 info.client_id info.client_id
        later in
    ground (arith, zero_passes s.last_counter, zero_resets counter, first, rest, second, held)

module _ (sol : Solana) (json : SerdeJson) where
  -- A client that asks to renew the address it has, in the session it has, loses its session: the
  -- answer has no expiry, so it is not valid and is never sent.
  pub handle_packet_renewal :
      (info : SessionInfo) (s : LoopState) (now : ℕ) (takes : Bool)
      → handle_packet sol json info s now takes (ip_renewal info.session_id info.ip_address)
        ≡ (stop (err network), s, [])
  unfolding handle_packet answer send_packet
  handle_packet_renewal info s now takes =
      let reply = ip_renewal_response info.session_id 0 false in
      elim (Result-cases (packet_to_ws_message sol json reply)) [
        | inl (m, made) ↦ absurd (
            ground (
              arith,
              (validate_message_iff sol reply).0 (packet_to_ws_message-valid sol json reply m made),
            ))
        | inr (e, refused) ↦
            ground (arith, refused, text_self info.session_id, text_self info.ip_address)
      ]
