-- ===== src/Utils/RateLimiter/Bound.antt =====
-- How many connections of one address are allowed in one window.
use aero_nyx_private_ed.Base.{
  ℕ, ◌+◌, ◌-◌, ◌≤◌, ◌<◌, ◌≡◌, refl, List, [], ◌∷◌, none, some, Equality, leb, if◌then◌else◌, length,
  u64_mod, arith,
}
use aero_nyx_private_ed.Utils.RateLimiter.{RateLimiter, set_shard, check_rate_limit}
use aero_nyx_private_ed.Utils.RateLimiter.Window.{
  live, count_or_zero, active, IsDistinct, check_rate_limit-active,
}

module _ {K : Type 0} ⦃eq : Equality K⦄ (last_part : K → ℕ) where
  -- How many of the checks of an address at these times are allowed.
  pub allowed : RateLimiter K → K → List ℕ → ℕ
  allowed m ip [] = 0
  allowed m ip (t ∷ ts) =
      let rest = allowed (check_rate_limit last_part m ip t).1 ip ts in
      if (check_rate_limit last_part m ip t).0 then 1 + rest else rest

  -- The times do not go back, and stay in the window that begins with `first`.
  abbrev pub InWindow : ℕ → ℕ → ℕ → List ℕ → Type 0
  InWindow window first now [] = Unit
  InWindow window first now (t ∷ ts) = (now ≤ t) × (t - first < window) × InWindow window first t ts

  settings :
      (m : RateLimiter K) (ip : K) (t : ℕ)
      → ((check_rate_limit last_part m ip t).1.window ≡ m.window)
        × ((check_rate_limit last_part m ip t).1.max_connections ≡ m.max_connections)
  unfolding check_rate_limit set_shard
  settings m ip t = (refl, refl)

  allowed-counted :
      (m : RateLimiter K) (ip : K) (n first now : ℕ) (ts : List ℕ)
      → IsDistinct m
      → 0 < m.window
      → 0 < m.max_connections
      → n + length ts < u64_mod
      → ((t : ℕ) → now ≤ t → active last_part m ip t ≡ live m.window t (some (n, first)))
      → InWindow m.window first now ts
      → allowed m ip ts
        ≡ (if leb (n + length ts) m.max_connections then length ts else m.max_connections - n)
  unfolding allowed
  allowed-counted m ip n first now [] d w p c a i = ground arith
  allowed-counted m ip n first now (t ∷ ts) d w p c a i =
      let m' = (check_rate_limit last_part m ip t).1 in
      let held : active last_part m ip t ≡ some (n, first) = ground (arith, a t i.0, i.1) in
      let room : count_or_zero (active last_part m ip t) + 1 < u64_mod = ground (arith, held, c) in
      let (answer, _, d') =
        check_rate_limit-active last_part m ip ip t t d w p room (omega arith) in
      let (same_window, same_max) = settings m ip t in
      let rest =
        allowed-counted m' ip (n + 1) first t ts d' (rw same_window w) (rw same_max p)
          (omega (arith, c))
          (λ u h. ground (
            arith,
            (check_rate_limit-active last_part m ip ip t u d w p room h).1,
            held,
            same_window,
            eq.equal_iff ip ip,
          ))
          (rw same_window i.2) in
      ground (arith, answer, held, rest, same_max)

  -- In one window of an address, the connections up to the limit are allowed and no other: the first
  -- one begins the window, and those behind it come before the window ends.
  pub allowed-window :
      (m : RateLimiter K) (ip : K) (t : ℕ) (ts : List ℕ)
      → IsDistinct m
      → 0 < m.window
      → 0 < m.max_connections
      → 1 + length ts < u64_mod
      → active last_part m ip t ≡ none
      → InWindow m.window t t ts
      → allowed m ip (t ∷ ts)
        ≡ (if leb (1 + length ts) m.max_connections then 1 + length ts else m.max_connections)
  unfolding allowed
  allowed-window m ip t ts d w p c fresh i =
      let m' = (check_rate_limit last_part m ip t).1 in
      let room : count_or_zero (active last_part m ip t) + 1 < u64_mod = ground (arith, fresh) in
      let (answer, _, d') =
        check_rate_limit-active last_part m ip ip t t d w p room (omega arith) in
      let (same_window, same_max) = settings m ip t in
      let rest =
        allowed-counted m' ip 1 t t ts d' (rw same_window w) (rw same_max p) c
          (λ u h. ground (
            arith,
            (check_rate_limit-active last_part m ip ip t u d w p room h).1,
            fresh,
            same_window,
            eq.equal_iff ip ip,
          ))
          (rw same_window i) in
      ground (arith, answer, fresh, rest, same_max)
