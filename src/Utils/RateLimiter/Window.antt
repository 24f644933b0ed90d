-- ===== src/Utils/RateLimiter/Window.antt =====
-- The limiter as one count for each address and window: shards and clean-ups do not show.
use aero_nyx_private_ed.Base.HashMap
use aero_nyx_private_ed.Base.HashMap.{
  HashMap, Distinct, keep_if, get-insert, get-retain, insert-Distinct, retain-Distinct,
}
use aero_nyx_private_ed.Base.{
  ℕ, ◌+◌, ◌-◌, ◌≤◌, ◌<◌, ◌≡◌, ap, nat_beq_iff, Option, none, some, Equality, ◌==◌, ltb, leb,
  nat_beq, if◌then◌else◌, u64_mod, arith, Option-cases, Bool-cases, inl, inr,
}
use aero_nyx_private_ed.Utils.RateLimiter.{
  Shard, RateLimiter, get_shard_index, set_shard, cleaned, counted, or_insert, check_rate_limit,
}

-- An entry counts while its window lasts.
abbrev pub live : ℕ → ℕ → Option (ℕ × ℕ) → Option (ℕ × ℕ)
live window now none = none
live window now (some e) = if ltb (now - e.1) window then some e else none

abbrev pub count_or_zero : Option (ℕ × ℕ) → ℕ
count_or_zero none = 0
count_or_zero (some e) = e.0

abbrev pub first_or : ℕ → Option (ℕ × ℕ) → ℕ
first_or now none = now
first_or now (some e) = e.1

module _ {K : Type 0} ⦃eq : Equality K⦄ where
  abbrev pub IsDistinct : RateLimiter K → Type 0
  IsDistinct m = (i : ℕ) → Distinct (m.shards i).connections

  cleaned-live :
      (m : RateLimiter K) (s : Shard K) (now later : ℕ) (ip : K)
      → Distinct s.connections
      → now ≤ later
      → live m.window later (HashMap.get (cleaned m s now).connections ip)
        ≡ live m.window later (HashMap.get s.connections ip)
  unfolding cleaned
  cleaned-live m s now later ip d h = elim (Option-cases (HashMap.get s.connections ip)) [
    | inl absent ↦
        ground (arith, absent, get-retain (λ _ e. ltb (now - e.1) m.window) s.connections ip d)
    | inr (e, found) ↦
        ground (arith, found, get-retain (λ _ e. ltb (now - e.1) m.window) s.connections ip d)
  ]

  cleaned-Distinct :
      (m : RateLimiter K) (s : Shard K) (now : ℕ)
      → Distinct s.connections
      → Distinct (cleaned m s now).connections
  unfolding cleaned
  cleaned-Distinct m s now d =
      ground (arith, retain-Distinct (λ _ e. ltb (now - e.1) m.window) s.connections d)

  counted-live :
      (m : RateLimiter K) (o : Option (ℕ × ℕ)) (now : ℕ)
      → 0 < m.window
      → 0 < m.max_connections
      → count_or_zero (live m.window now o) + 1 < u64_mod
      → ((counted m (or_insert o now) now).0
          ≡ leb (count_or_zero (live m.window now o) + 1) m.max_connections)
        × ((counted m (or_insert o now) now).1
            ≡ (count_or_zero (live m.window now o) + 1, first_or now (live m.window now o)))
  unfolding counted or_insert
  counted-live m none now w p c = ground arith
  counted-live m (some e) now w p c = ground arith

module _ {K : Type 0} ⦃eq : Equality K⦄ (last_part : K → ℕ) where
  -- The entry of an address that counts at a time.
  unfoldable pub active : RateLimiter K → K → ℕ → Option (ℕ × ℕ)
  active m ip now =
      live m.window now (HashMap.get (m.shards (get_shard_index last_part ip)).connections ip)

  -- With a limit and a window above zero, a check counts the connection in the window of its address,
  -- which begins with the first connection that counts; it allows it just while the count is within
  -- the limit, and no other address's count changes, at that time or later, whichever shards the
  -- addresses share and whatever a clean-up drops.
  pub check_rate_limit-active :
      (m : RateLimiter K) (ip k : K) (now later : ℕ)
      → IsDistinct m
      → 0 < m.window
      → 0 < m.max_connections
      → count_or_zero (active m ip now) + 1 < u64_mod
      → now ≤ later
      → ((check_rate_limit last_part m ip now).0
          ≡ leb (count_or_zero (active m ip now) + 1) m.max_connections)
        × (active (check_rate_limit last_part m ip now).1 k later ≡ (
            if ip == k
            then live m.window later
                (some (count_or_zero (active m ip now) + 1, first_or now (active m ip now)))
            else active m k later))
        × IsDistinct (check_rate_limit last_part m ip now).1
  unfolding active check_rate_limit set_shard
  check_rate_limit-active m ip k now later d w p c h =
      let index = get_shard_index last_part ip in
      let s = cleaned m (m.shards index) now in
      let held = HashMap.get s.connections ip in
      let same = cleaned-live m (m.shards index) now now ip (d index) (omega arith) in
      let (answer, entry) = counted-live m held now w p (rw same c) in
      let result = counted m (or_insert held now) now in
      (
        ground (arith, answer, same),
        elim (Bool-cases (nat_beq (get_shard_index last_part k) index)) [
          | inl shared ↦ ground (
            arith,
            shared,
            entry,
            same,
            get-insert s.connections ip k result.1,
            cleaned-live m (m.shards index) now later k (d index) h,
            eq.equal_iff ip k,
            ap m.shards ((nat_beq_iff (get_shard_index last_part k) index).0 shared),
          )
          | inr apart ↦ ground (arith, apart, eq.equal_iff ip k)
        ],
        λ i. ground (
          arith,
          d i,
          insert-Distinct s.connections ip result.1
              (cleaned-Distinct m (m.shards index) now (d index)),
        ),
      )
