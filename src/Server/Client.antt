-- ===== src/Server/Client.antt =====
-- src/server/client.rs: the message loop of `process_client_session`. One event is what one turn of the
-- loop meets: the server's state, the outcome of `next_message`, the clock, and whether the connection
-- takes what is sent in that turn. The router and the client's connection are outside; what they are
-- given are the effects. Left out are the monitor, the time of the last activity, and the two
-- background tasks.
pub mod Replay
pub mod Renewal
mod Tests
use aero_nyx_private_ed.Base.{
  ℕ, Bool, true, false, not, ◌&&◌, ◌||◌, List, [], ◌∷◌, ◌++◌, Option, none, some, Text, text_eq,
  codes, ◌==◌, leb, nat_beq, if◌then◌else◌, Result, ok, err,
}
use aero_nyx_private_ed.Auth.Solana.{Solana}
use aero_nyx_private_ed.Crypto.SessionKeys.{SessionKeyManager, get_key}
use aero_nyx_private_ed.Protocol.Types.{
  PacketType, auth, challenge, challenge_response, ip_assign, data_packet, ping, pong, key_rotation,
  ip_renewal, ip_renewal_response, disconnect, error,
}
use aero_nyx_private_ed.Protocol.Serialization.{
  SerdeJson, WsMessage, create_disconnect_packet, packet_to_ws_message, ws_message_to_packet,
}

pub data ServerError : Type 0 where
  internal network web_socket : ServerError

-- What the loop knows of its session.
pub record SessionInfo : Type 0 where
  pub client_id : Text
  pub session_id : Text
  pub ip_address : Text

pub record LoopState : Type 0 where
  pub last_counter : Option ℕ
  pub session_keys : SessionKeyManager

-- A call of `handle_inbound_packet`, or a message put on the connection.
pub data Effect : Type 0 where
  -- `counter`, `encrypted`, `nonce`, the key, `encryption_algorithm`.
  inbound : ℕ → List ℕ → List ℕ → List ℕ → Option Text → Effect
  sent : PacketType → Effect

pub data Outcome : Type 0 where
  carry_on : Outcome
  stop : Result ServerError (Unit {0}) → Outcome

pub data Incoming : Type 0 where
  message : WsMessage → Incoming
  failed closed : Incoming

pub record Event : Type 0 where
  pub running : Bool
  pub incoming : Incoming
  pub now : ℕ
  pub takes : Bool

unfoldable pub is_replay : Option ℕ → ℕ → Bool
is_replay none counter = false
is_replay (some last) counter = leb counter last && not (nat_beq counter 0)

inbound_with : Option (List ℕ) → ℕ → List ℕ → List ℕ → Option Text → List Effect
inbound_with none counter encrypted nonce algorithm = []
inbound_with (some key) counter encrypted nonce algorithm =
    inbound counter encrypted nonce key algorithm ∷ []

pub handle_data :
    SessionInfo → LoopState → ℕ → List ℕ → List ℕ → ℕ → Option Text → LoopState × List Effect
unfolding inbound_with
handle_data info s now encrypted nonce counter algorithm =
    if is_replay s.last_counter counter
    then (s, [])
    else let (key, keys) = get_key s.session_keys info.client_id now in
      (
        record s { last_counter = some counter; session_keys = keys },
        inbound_with key counter encrypted nonce algorithm,
      )

shutdown_notice : PacketType
shutdown_notice = create_disconnect_packet 2 (codes "Server shutting down")

module _ (sol : Solana) (json : SerdeJson) where
  -- `send_packet`: the packet must be valid, and the connection must take it.
  pub send_packet : PacketType → Bool → Bool
  send_packet p takes = elim (packet_to_ws_message sol json p) [ ok _ ↦ takes | err _ ↦ false ]

  -- An answer that must be sent: the session ends if it cannot be.
  answer : PacketType → Bool → LoopState → Outcome × LoopState × List Effect
  answer p takes s =
      if send_packet p takes then (carry_on, s, sent p ∷ []) else (stop (err network), s, [])

  pub handle_packet :
      SessionInfo → LoopState → ℕ → Bool → PacketType → Outcome × LoopState × List Effect
  unfolding answer
  handle_packet info s now takes (data_packet encrypted nonce counter _ algorithm) =
      let (t, effects) = handle_data info s now encrypted nonce counter algorithm in
      (carry_on, t, effects)
  handle_packet info s now takes (ping timestamp sequence) =
      answer (pong timestamp now sequence) takes s
  handle_packet info s now takes (ip_renewal renewal_id renewal_ip) =
      if not (renewal_id == info.session_id) || not (renewal_ip == info.ip_address)
      then (carry_on, s, [])
      else answer (ip_renewal_response info.session_id 0 false) takes s
  handle_packet info s now takes (disconnect _ _) = (stop (ok tt), s, [])
  handle_packet info s now takes _ = (carry_on, s, [])

  handle_incoming :
      SessionInfo → LoopState → ℕ → Bool → Incoming → Outcome × LoopState × List Effect
  handle_incoming info s now takes failed = (stop (err web_socket), s, [])
  handle_incoming info s now takes closed = (stop (ok tt), s, [])
  handle_incoming info s now takes (message m) = elim (ws_message_to_packet sol json m) [
    | err _ ↦ (carry_on, s, [])
    | ok packet ↦ handle_packet info s now takes packet
  ]

  -- One turn, by the test of the server's state.
  turn_while :
      Bool → SessionInfo → LoopState → ℕ → Bool → Incoming → Outcome × LoopState × List Effect
  unfolding handle_incoming shutdown_notice
  turn_while true info s now takes incoming = handle_incoming info s now takes incoming
  turn_while false info s now takes incoming = (
    stop (err internal),
    s,
    if send_packet shutdown_notice takes then sent shutdown_notice ∷ [] else [],
  )

  pub turn : SessionInfo → LoopState → Event → Outcome × LoopState × List Effect
  unfolding turn_while
  turn info s e = turn_while e.running info s e.now e.takes e.incoming

  -- What a turn leaves, and what the turns behind it make of that, if it lets them run.
  followed_by :
      Outcome × LoopState × List Effect
      → Outcome × LoopState × List Effect
      → Outcome × LoopState × List Effect
  followed_by (stop r, t, effects) rest = (stop r, t, effects)
  followed_by (carry_on, t, effects) (outcome, u, more) = (outcome, u, effects ++ more)

  -- The loop over the events met so far: its outcome, its state and all its effects.
  pub process_client_session :
      SessionInfo → LoopState → List Event → Outcome × LoopState × List Effect
  unfolding followed_by
  process_client_session info s [] = (carry_on, s, [])
  process_client_session info s (e ∷ es) =
      followed_by (turn info s e) (process_client_session info (turn info s e).1 es)
