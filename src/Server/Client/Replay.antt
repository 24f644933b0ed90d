-- ===== src/Server/Client/Replay.antt =====
-- The replay test over a whole session.
use mathlib.Core.List.{append-nil}
use aero_nyx_private_ed.Base.{
  ℕ, ◌<◌, ◌≡◌, ◌≢◌, refl, ap, Bool, true, false, not, ◌||◌, List, [], ◌∷◌, ◌++◌, Option, none, some,
  Text, text_eq, ◌==◌, Result, ok, err, arith, Result-cases, Bool-cases, inl, inr,
}
use aero_nyx_private_ed.Auth.Solana.{Solana}
use aero_nyx_private_ed.Crypto.SessionKeys.{get_key}
use aero_nyx_private_ed.Protocol.Types.{
  MessageError, PacketType, data_packet, ping, pong, ip_renewal, ip_renewal_response, disconnect,
}
use aero_nyx_private_ed.Protocol.Serialization.{SerdeJson, WsMessage, ws_message_to_packet}
use aero_nyx_private_ed.Server.Client.{
  SessionInfo, LoopState, Effect, inbound, sent, Outcome, carry_on, stop, Incoming, message, failed,
  closed, Event, is_replay, inbound_with, handle_data, answer, send_packet, handle_packet,
  handle_incoming, turn, turn_while, followed_by, shutdown_notice, process_client_session,
}

-- The counters of the packets that the router is given, in order.
unfoldable pub routed : List Effect → List ℕ
routed [] = []
routed (inbound counter _ _ _ _ ∷ es) = counter ∷ routed es
routed (sent _ ∷ es) = routed es

-- Each counter is above the last one before it.
abbrev pub Increasing : Option ℕ → List ℕ → Type 0
Increasing last [] = Unit
Increasing none (c ∷ cs) = Increasing (some c) cs
Increasing (some last) (c ∷ cs) = (last < c) × Increasing (some c) cs

routed-append : (es fs : List Effect) → routed (es ++ fs) ≡ routed es ++ routed fs
unfolding routed
routed-append [] fs = refl
routed-append (inbound counter _ _ _ _ ∷ es) fs = ap (◌∷◌ counter) (routed-append es fs)
routed-append (sent _ ∷ es) fs = routed-append es fs

-- A list that increases from a counter which the test has let pass increases from the one before.
Increasing-weaken :
    (last : Option ℕ) (c : ℕ) (cs : List ℕ)
    → is_replay last c ≡ false
    → c ≢ 0
    → Increasing (some c) cs
    → Increasing last cs
unfolding is_replay
Increasing-weaken none c [] h z r = tt
Increasing-weaken none c (d ∷ ds) h z r = r.1
Increasing-weaken (some last) c [] h z r = tt
Increasing-weaken (some last) c (d ∷ ds) h z r = (ground (arith, r.0), r.1)

Increasing-cons :
    (last : Option ℕ) (c : ℕ) (cs : List ℕ)
    → is_replay last c ≡ false
    → c ≢ 0
    → Increasing (some c) cs
    → Increasing last (c ∷ cs)
unfolding is_replay
Increasing-cons none c cs h z r = r
Increasing-cons (some last) c cs h z r = (ground arith, r)

inbound_with-Increasing :
    (last : Option ℕ) (key : Option (List ℕ)) (c : ℕ) (encrypted nonce : List ℕ)
    (algorithm : Option Text) (cs : List ℕ)
    → is_replay last c ≡ false
    → c ≢ 0
    → Increasing (some c) cs
    → Increasing last (routed (inbound_with key c encrypted nonce algorithm) ++ cs)
unfolding inbound_with routed
inbound_with-Increasing last none c encrypted nonce algorithm cs h z r =
    Increasing-weaken last c cs h z r
inbound_with-Increasing last (some key) c encrypted nonce algorithm cs h z r =
    Increasing-cons last c cs h z r

handle_data-Increasing :
    (info : SessionInfo) (s : LoopState) (now : ℕ) (encrypted nonce : List ℕ) (c : ℕ)
    (algorithm : Option Text) (cs : List ℕ)
    → c ≢ 0
    → Increasing (handle_data info s now encrypted nonce c algorithm).0.last_counter cs
    → Increasing s.last_counter
        (routed (handle_data info s now encrypted nonce c algorithm).1 ++ cs)
unfolding handle_data routed
handle_data-Increasing info s now encrypted nonce c algorithm cs z =
    elim (Bool-cases (is_replay s.last_counter c)) [
      | inl old ↦ rw (old, handle_data) (λ r. r)
      | inr new ↦
          rw (new, handle_data)
            (inbound_with-Increasing s.last_counter (get_key s.session_keys info.client_id now).0 c
              encrypted nonce algorithm cs new z)
    ]

module _ (sol : Solana) (json : SerdeJson) where
  packet_counter : PacketType → Option ℕ
  packet_counter (data_packet _ _ counter _ _) = some counter
  packet_counter _ = none

  message_counter : Result MessageError PacketType → Option ℕ
  unfolding packet_counter
  message_counter (err _) = none
  message_counter (ok p) = packet_counter p

  -- The counter of the data packet that the event brings, if it brings one.
  unfoldable pub counter_of : Incoming → Option ℕ
  unfolding message_counter
  counter_of failed = none
  counter_of closed = none
  counter_of (message m) = message_counter (ws_message_to_packet sol json m)

  abbrev pub NoZero : List Event → Type 0
  NoZero [] = Unit
  NoZero (e ∷ es) = (counter_of e.incoming ≢ some 0) × NoZero es

  answer-Increasing :
      (p : PacketType) (takes : Bool) (s : LoopState) (cs : List ℕ)
      → Increasing (answer sol json p takes s).1.last_counter cs
      → Increasing s.last_counter (routed (answer sol json p takes s).2 ++ cs)
  unfolding answer routed
  answer-Increasing p takes s cs = elim (Bool-cases (send_packet sol json p takes)) [
    | inl good ↦ rw (good, answer) (λ r. r)
    | inr bad ↦ rw (bad, answer) (λ r. r)
  ]

  handle_packet-Increasing :
      (info : SessionInfo) (s : LoopState) (now : ℕ) (takes : Bool) (p : PacketType) (cs : List ℕ)
      → packet_counter p ≢ some 0
      → Increasing (handle_packet sol json info s now takes p).1.last_counter cs
      → Increasing s.last_counter (routed (handle_packet sol json info s now takes p).2 ++ cs)
  unfolding handle_packet packet_counter routed
  handle_packet-Increasing info s now takes (data_packet encrypted nonce c _ algorithm) cs z =
      handle_data-Increasing info s now encrypted nonce c algorithm cs (λ zero. z (ap some zero))
  handle_packet-Increasing info s now takes (ping timestamp sequence) cs z =
      answer-Increasing (pong timestamp now sequence) takes s cs
  handle_packet-Increasing info s now takes (ip_renewal id ip) cs z =
      elim (Bool-cases (not (id == info.session_id) || not (ip == info.ip_address))) [
        | inl wrong ↦ rw (wrong, handle_packet) (λ r. r)
        | inr right ↦
            rw (right, handle_packet)
              (answer-Increasing (ip_renewal_response info.session_id 0 false) takes s cs)
      ]
  handle_packet-Increasing info s now takes (disconnect _ _) cs z = λ r. r
  handle_packet-Increasing info s now takes _ cs z = λ r. r

  message-Increasing :
      (info : SessionInfo) (s : LoopState) (now : ℕ) (takes : Bool) (m : WsMessage) (cs : List ℕ)
      → counter_of (message m) ≢ some 0
      → Increasing (handle_incoming sol json info s now takes (message m)).1.last_counter cs
      → Increasing s.last_counter
          (routed (handle_incoming sol json info s now takes (message m)).2 ++ cs)
  unfolding handle_incoming counter_of message_counter routed
  message-Increasing info s now takes m cs z =
      elim (Result-cases (ws_message_to_packet sol json m)) [
        | inr (e, bad) ↦ rw (bad, handle_incoming) (λ r. r)
        | inl (p, good) ↦
            rw (good, handle_incoming)
              (handle_packet-Increasing info s now takes p cs (rw (good, counter_of) at z))
      ]

  turn_while-Increasing :
      (running : Bool) (info : SessionInfo) (s : LoopState) (now : ℕ) (takes : Bool)
      (incoming : Incoming) (cs : List ℕ)
      → counter_of incoming ≢ some 0
      → Increasing (turn_while sol json running info s now takes incoming).1.last_counter cs
      → Increasing s.last_counter
          (routed (turn_while sol json running info s now takes incoming).2 ++ cs)
  unfolding turn_while routed handle_incoming
  turn_while-Increasing true info s now takes (message m) cs z =
      message-Increasing info s now takes m cs z
  turn_while-Increasing true info s now takes failed cs z = λ r. r
  turn_while-Increasing true info s now takes closed cs z = λ r. r
  turn_while-Increasing false info s now takes incoming cs z =
      elim (Bool-cases (send_packet sol json shutdown_notice takes)) [
        | inl good ↦ rw (good, turn_while) (λ r. r)
        | inr bad ↦ rw (bad, turn_while) (λ r. r)
      ]

  followed_by-Increasing :
      (last : Option ℕ) (first rest : Outcome × LoopState × List Effect)
      → ((cs : List ℕ)
          → Increasing first.1.last_counter cs
          → Increasing last (routed first.2 ++ cs))
      → Increasing first.1.last_counter (routed rest.2)
      → Increasing last (routed (followed_by sol json first rest).2)
  unfolding followed_by
  followed_by-Increasing last (carry_on, t, effects) (outcome, u, more) step rest =
      rw (routed-append effects more) (step (routed more) rest)
  followed_by-Increasing last (stop r, t, effects) rest step more =
      rw⁻¹ (append-nil (routed effects)) (step [] tt)

  -- In a session in which no data packet carries the counter zero, the counters of the packets that
  -- reach the router increase strictly, from the last counter at the start on: no counter is routed
  -- twice, and none behind a higher one.
  pub process_client_session-Increasing :
      (info : SessionInfo) (s : LoopState) (es : List Event)
      → NoZero es
      → Increasing s.last_counter (routed (process_client_session sol json info s es).2)
  unfolding process_client_session turn routed
  process_client_session-Increasing info s [] z = tt
  process_client_session-Increasing info s (e ∷ es) z =
      followed_by-Increasing s.last_counter (turn sol json info s e)
        (process_client_session sol json info (turn sol json info s e).1 es)
        (λ cs. turn_while-Increasing e.running info s e.now e.takes e.incoming cs z.0)
        (process_client_session-Increasing info (turn sol json info s e).1 es z.1)
