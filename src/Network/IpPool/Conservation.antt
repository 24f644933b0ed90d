-- ===== src/Network/IpPool/Conservation.antt =====
-- Without static assignments no address is lost and none appears.
use aero_nyx_private_ed.Base.HashMap
use aero_nyx_private_ed.Base.HashMap.{get-insert, get-remove, get-modify}
use aero_nyx_private_ed.Base.{
  ℕ, ◌≡◌, refl, ◌∙◌, List, [], ◌∷◌, some, false, Text, text_eq, arith, Option-cases, inl, inr,
}
use aero_nyx_private_ed.Network.IpPool.{
  IpAllocation, IpPoolManager, allocate_ip, allocate_ip_with_lease, release_ip, create_allocation,
  take_first, renew_ip, renew_ip_with_lease, cleanup_expired, release_all, expired_ips, dynamic,
  with_expiry, lease_end, get_existing_allocation,
}
use aero_nyx_private_ed.Network.IpPool.Held.{
  held, lost_by_release, allocate_ip-held, allocate_ip_with_lease-held, release_ip-held,
  renew_ip_with_lease-held,
}
use aero_nyx_private_ed.Network.IpPool.Valid.{IsValid}
use aero_nyx_private_ed.Network.IpPool.History.{
  Call, allocates, allocates_for, releases, renews, renews_for, assigns, cleans, step, run,
  step-IsValid,
}

-- No allocation is static.
abbrev pub AllDynamic : IpPoolManager → Type 0
AllDynamic s =
    (ip : Text) (a : IpAllocation) → HashMap.get s.allocated_ips ip ≡ some a → a.is_static ≡ false

abbrev pub NoAssignment : List (ℕ × Call) → Type 0
NoAssignment [] = Unit
NoAssignment ((now, assigns ip client) ∷ cs) = ⊥
NoAssignment (c ∷ cs) = NoAssignment cs

take_first-AllDynamic :
    (xs : List Text) (s : IpPoolManager) (client : Text) (now lease : ℕ)
    → AllDynamic s
    → AllDynamic (take_first xs s client now lease).1
unfolding take_first
take_first-AllDynamic [] s client now lease d j a e = d j a e
take_first-AllDynamic (ip ∷ rest) s client now lease d j a e =
    ground (arith, get-insert s.allocated_ips ip j (dynamic ip client now lease), d j a)

release_ip-AllDynamic :
    (s : IpPoolManager) (ip : Text) → AllDynamic s → AllDynamic (release_ip s ip).1
unfolding release_ip
release_ip-AllDynamic s ip d j a e = ground (arith, get-remove s.allocated_ips ip j, d j a)

renew-AllDynamic :
    (s : IpPoolManager) (ip : Text) (now lease : ℕ)
    → AllDynamic s
    → AllDynamic (renew_ip_with_lease s ip now lease).1
unfolding renew_ip_with_lease
renew-AllDynamic s ip now lease d j a e = elim (Option-cases (HashMap.get s.allocated_ips j)) [
  | inl absent ↦ ground (arith, get-modify s.allocated_ips ip j (with_expiry (lease_end now lease)))
  | inr (b, found) ↦
      ground
        (arith, get-modify s.allocated_ips ip j (with_expiry (lease_end now lease)), d j b found)
]

create_allocation-AllDynamic :
    (s : IpPoolManager) (client : Text) (now lease : ℕ)
    → AllDynamic s
    → AllDynamic (create_allocation s client now lease).1
unfolding create_allocation
create_allocation-AllDynamic s client now lease d =
    take_first-AllDynamic s.available_ips s client now lease d

allocate_ip-AllDynamic :
    (s : IpPoolManager) (client : Text) (now : ℕ)
    → AllDynamic s
    → AllDynamic (allocate_ip s client now).1
unfolding allocate_ip
allocate_ip-AllDynamic s client now d = elim (Option-cases (get_existing_allocation s client)) [
  | inl absent ↦
      rw (absent, allocate_ip)
        (create_allocation-AllDynamic s client now s.default_lease_duration d)
  | inr (ip, found) ↦ rw (found, allocate_ip) d
]

allocate_ip_with_lease-AllDynamic :
    (s : IpPoolManager) (client : Text) (now lease : ℕ)
    → AllDynamic s
    → AllDynamic (allocate_ip_with_lease s client now lease).1
unfolding allocate_ip_with_lease
allocate_ip_with_lease-AllDynamic s client now lease d =
    elim (Option-cases (get_existing_allocation s client)) [
      | inl absent ↦
          rw (absent, allocate_ip_with_lease) (create_allocation-AllDynamic s client now lease d)
      | inr (ip, found) ↦ rw (found, allocate_ip_with_lease) d
    ]

-- What a call has to keep.
abbrev Keeps : IpPoolManager → IpPoolManager → Type 0
Keeps s t = AllDynamic t × ((j : Text) → held t j ≡ held s j)

nothing_lost :
    (s : IpPoolManager) (ip : Text)
    → AllDynamic s
    → lost_by_release (HashMap.get s.allocated_ips ip) ≡ 0
nothing_lost s ip d = elim (Option-cases (HashMap.get s.allocated_ips ip)) [
  | inl absent ↦ rw absent
  | inr (a, found) ↦ ground (arith, found, d ip a found)
]

release_ip-Keeps : (s : IpPoolManager) (ip : Text) → AllDynamic s → Keeps s (release_ip s ip).1
release_ip-Keeps s ip d =
    (release_ip-AllDynamic s ip d, λ j. ground (arith, release_ip-held s ip j, nothing_lost s ip d))

release_all-Keeps :
    (ips : List Text) (s : IpPoolManager) → AllDynamic s → Keeps s (release_all ips s)
unfolding release_all
release_all-Keeps [] s d = (d, λ j. refl)
release_all-Keeps (ip ∷ ips) s d =
    let once = release_ip-Keeps s ip d in
    let rest = release_all-Keeps ips (release_ip s ip).1 once.0 in
    (rest.0, λ j. rest.1 j ∙ once.1 j)

NoAssignment-head :
    (now : ℕ) (c : Call) (cs : List (ℕ × Call))
    → NoAssignment ((now, c) ∷ cs)
    → NoAssignment ((now, c) ∷ [])
NoAssignment-head now (assigns ip client) cs n = n
NoAssignment-head now _ cs n = tt

NoAssignment-tail :
    (now : ℕ) (c : Call) (cs : List (ℕ × Call)) → NoAssignment ((now, c) ∷ cs) → NoAssignment cs
NoAssignment-tail now (assigns ip client) cs n = absurd n
NoAssignment-tail now _ cs n = n

step-Keeps :
    (s : IpPoolManager) (now : ℕ) (c : Call)
    → IsValid s
    → AllDynamic s
    → NoAssignment ((now, c) ∷ [])
    → Keeps s (step s (now, c))
unfolding step renew_ip cleanup_expired
step-Keeps s now (allocates client) v d n =
    (allocate_ip-AllDynamic s client now d, λ j. allocate_ip-held s client now j (v.once j))
step-Keeps s now (allocates_for client lease) v d n = (
  allocate_ip_with_lease-AllDynamic s client now lease d,
  λ j. allocate_ip_with_lease-held s client now lease j (v.once j),
)
step-Keeps s now (releases ip) v d n = release_ip-Keeps s ip d
step-Keeps s now (renews ip) v d n = (
  renew-AllDynamic s ip now s.default_lease_duration d,
  renew_ip_with_lease-held s ip now s.default_lease_duration,
)
step-Keeps s now (renews_for ip lease) v d n =
    (renew-AllDynamic s ip now lease d, renew_ip_with_lease-held s ip now lease)
step-Keeps s now (assigns ip client) v d n = absurd n
step-Keeps s now cleans v d n = release_all-Keeps (expired_ips now s.allocated_ips) s d

run-Keeps :
    (s : IpPoolManager) (cs : List (ℕ × Call))
    → IsValid s
    → AllDynamic s
    → NoAssignment cs
    → Keeps s (run s cs)
unfolding run
run-Keeps s [] v d n = (d, λ j. refl)
run-Keeps s ((now, c) ∷ cs) v d n =
    let first = step-Keeps s now c v d (NoAssignment-head now c cs n) in
    let rest =
      run-Keeps (step s (now, c)) cs (step-IsValid s (now, c) v) first.0
        (NoAssignment-tail now c cs n) in
    (rest.0, λ j. rest.1 j ∙ first.1 j)

-- From a valid pool whose allocations are all dynamic, a history of calls that assigns no static
-- address holds every address as often as before: none is lost, and none is made up.
pub held-run :
    (s : IpPoolManager) (cs : List (ℕ × Call)) (ip : Text)
    → IsValid s
    → AllDynamic s
    → NoAssignment cs
    → held (run s cs) ip ≡ held s ip
held-run s cs ip v d n = (run-Keeps s cs v d n).1 ip
