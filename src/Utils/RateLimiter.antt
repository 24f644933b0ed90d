-- ===== src/Utils/RateLimiter.antt =====
-- src/utils/security.rs: `RateLimiter`. The sixteen shards are a function of the index; an address is of
-- a type with an equality, and `last_part` is the last octet or segment of it. `now` is the clock
-- reading, a count wraps as a `usize` of 64 bits. A check takes the lock of the clean-up time and
-- releases it before it takes that of the connections; here it is one step, so that two checks of one
-- shard do not interleave.
pub mod Window
pub mod Bound
mod Tests
use aero_nyx_private_ed.Base.HashMap
use aero_nyx_private_ed.Base.HashMap.{HashMap}
use aero_nyx_private_ed.Base.{
  ℕ, ◌-◌, ◌%◌, Bool, true, false, not, Option, none, some, Equality, ◌==◌, ltb, leb, nat_beq,
  if◌then◌else◌, add_u64,
}

pub record Shard (K : Type 0) : Type 0 where
  -- The count and the time of the first connection.
  pub connections : HashMap K (ℕ × ℕ)
  pub last_cleanup : ℕ

pub record RateLimiter (K : Type 0) : Type 0 where
  pub shards : ℕ → Shard K
  pub max_connections : ℕ
  pub window : ℕ
  pub cleanup_interval : ℕ

abbrev pub shard_count : ℕ
shard_count = 16

-- `cleanup_interval` is one second, in the unit of the clock.
pub new : {K : Type 0} → ℕ → ℕ → ℕ → ℕ → RateLimiter K
new max_connections window second now = record {
  shards = λ _. record { connections = HashMap.empty; last_cleanup = now };
  max_connections = max_connections;
  window = window;
  cleanup_interval = second;
}

-- `entry(ip).or_insert((0, now))`, read.
or_insert : Option (ℕ × ℕ) → ℕ → ℕ × ℕ
or_insert none now = (0, now)
or_insert (some e) now = e

count_of : Option (ℕ × ℕ) → Option ℕ
count_of none = none
count_of (some e) = some e.0

module _ {K : Type 0} where
  set_shard : RateLimiter K → ℕ → Shard K → RateLimiter K
  set_shard m index s = record m { shards = λ i. if nat_beq i index then s else m.shards i }

  -- The clean-up of one shard, when it is due.
  cleaned : RateLimiter K → Shard K → ℕ → Shard K
  cleaned m s now =
      if leb m.cleanup_interval (now - s.last_cleanup)
      then record {
        connections = HashMap.retain (λ _ e. ltb (now - e.1) m.window) s.connections;
        last_cleanup = now;
      }
      else s

  -- The entry after the check, and its answer.
  counted : RateLimiter K → ℕ × ℕ → ℕ → Bool × (ℕ × ℕ)
  counted m (count, first_seen) now =
      if leb m.window (now - first_seen)
      then (true, (1, now))
      else (not (ltb m.max_connections (add_u64 count 1)), (add_u64 count 1, first_seen))

module _ {K : Type 0} ⦃eq : Equality K⦄ (last_part : K → ℕ) where
  pub get_shard_index : K → ℕ
  get_shard_index ip = last_part ip % shard_count

  pub check_rate_limit : RateLimiter K → K → ℕ → Bool × RateLimiter K
  unfolding get_shard_index set_shard cleaned counted or_insert
  check_rate_limit m ip now =
      let index = get_shard_index ip in
      let s = cleaned m (m.shards index) now in
      let (allowed, entry) = counted m (or_insert (HashMap.get s.connections ip) now) now in
      (
        allowed,
        set_shard m index (record s { connections = HashMap.insert s.connections ip entry }),
      )

  pub reset_limit : RateLimiter K → K → RateLimiter K
  unfolding get_shard_index set_shard
  reset_limit m ip =
      let index = get_shard_index ip in
      let s = m.shards index in
      set_shard m index (record s { connections = HashMap.remove s.connections ip })

  pub get_connection_count : RateLimiter K → K → Option ℕ
  unfolding get_shard_index count_of
  get_connection_count m ip = count_of (HashMap.get (m.shards (get_shard_index ip)).connections ip)
