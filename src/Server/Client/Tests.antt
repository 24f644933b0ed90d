-- ===== src/Server/Client/Tests.antt =====
-- A session of three data packets, and its two corners.
use aero_nyx_private_ed.Base.{ℕ, true, List, [], ◌∷◌, none, text_eq, codes, arith}
use aero_nyx_private_ed.Protocol.Validation.{validate_message}
use aero_nyx_private_ed.Protocol.Serialization.{text, ws_message_to_packet, deserialize_packet}
use aero_nyx_private_ed.Server.Client.{
  SessionInfo, LoopState, message, Event, process_client_session,
}
use aero_nyx_private_ed.Server.Client.Replay.{
  routed, Increasing, counter_of, NoZero, process_client_session-Increasing,
}
use aero_nyx_private_ed.Fixtures.{sol, json, read_packet}

abbrev info : SessionInfo
info = record { client_id = codes "ann"; session_id = codes "s1"; ip_address = codes "10.7.0.2" }

abbrev start : LoopState
start = record {
  last_counter = none;
  session_keys = record {
    session_keys =
        (codes "ann", record { key = 5 ∷ []; created_at = 0; last_used = 0; usage_count = 0 }) ∷ [];
    rotation_interval = 100;
    max_key_usages = 0;
  };
}

abbrev ping_event : ℕ → Event
ping_event t = record {
  running = true;
  incoming = message (text (0 ∷ t ∷ 1 ∷ []));
  now = t;
  takes = true;
}

-- A data packet with one byte and this counter.
abbrev data_event : ℕ → Event
data_event c = record {
  running = true;
  incoming = message (text (1 ∷ c ∷ 1 ∷ 9 ∷ codes "0123456789ab"));
  now = 1;
  takes = true;
}

abbrev events : List Event
events = data_event 3 ∷ data_event 3 ∷ ping_event 2 ∷ data_event 7 ∷ []

events-NoZero : NoZero sol json events
unfolding counter_of ws_message_to_packet deserialize_packet validate_message read_packet
events-NoZero = (
  λ e. ground (arith, e),
  (λ e. ground (arith, e), (λ e. ground (arith, e), (λ e. ground (arith, e), tt))),
)

process_client_session-Increasing_example :
    Increasing none (routed (process_client_session sol json info start events).2)
process_client_session-Increasing_example =
    process_client_session-Increasing sol json info start events events-NoZero
