-- ===== src/Protocol/Session.antt =====
-- src/protocol/types.rs: the methods of `Session`. Times are `u64` milliseconds, whose sums wrap.
use aero_nyx_private_ed.Base.{ℕ, ◌+◌, ◌<◌, ◌≡◌, ◌↔◌, Bool, true, Text, ltb, add_u64, u64_mod, arith}

pub record Session : Type 0 where
  pub id : Text
  pub client_key : Text
  pub ip_address : Text
  pub created_at : ℕ
  pub expires_at : ℕ
  pub last_activity : ℕ

pub is_expired : Session → ℕ → Bool
is_expired s current_time = ltb s.expires_at current_time

pub is_inactive : Session → ℕ → ℕ → Bool
is_inactive s current_time timeout_ms = ltb (add_u64 s.last_activity timeout_ms) current_time

pub touch : Session → ℕ → Session
touch s current_time = record s { last_activity = current_time }

pub extend : Session → ℕ → ℕ → Session
extend s duration_ms current_time = record s { expires_at = add_u64 current_time duration_ms }

-- An extended session is expired just at the times behind the extension, and a touched one inactive
-- just at the times behind the timeout, as long as the sums stay below 2^64; neither call changes what
-- the other test reads.
pub session-timing :
    (s : Session) (span now later : ℕ)
    → now + span < u64_mod
    → ((is_expired (extend s span now) later ≡ true) ↔ (now + span < later))
      × ((is_inactive (touch s now) later span ≡ true) ↔ (now + span < later))
      × (is_inactive (extend s span now) later span ≡ is_inactive s later span)
      × (is_expired (touch s now) later ≡ is_expired s later)
unfolding is_expired is_inactive touch extend
session-timing s span now later h = ground arith
