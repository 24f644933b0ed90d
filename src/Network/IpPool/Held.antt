-- ===== src/Network/IpPool/Held.antt =====
-- How often the pool holds an address: as available, or in an allocation.
use aero_nyx_private_ed.Base.HashMap
use aero_nyx_private_ed.Base.HashMap.{get-insert, get-remove, get-modify}
use aero_nyx_private_ed.Base.{
  ℕ, ◌+◌, ◌-◌, ◌≤◌, ◌≡◌, refl, List, [], ◌∷◌, ◌++◌, Option, none, some, Text, ◌==◌, text_eq,
  text_iff, if◌then◌else◌, arith,
}
use aero_nyx_private_ed.Base.HashMap.{HashMap}
use aero_nyx_private_ed.Network.IpPool.{
  IpAllocation, IpPoolManager, create_allocation, allocate_ip, allocate_ip_with_lease, release_ip,
  renew_ip_with_lease, remove_first, assign_found, assign_static_ip, dynamic, with_expiry,
  lease_end, static_lease, make_static, take_first,
}

abbrev pub occurs : Text → List Text → ℕ
occurs ip [] = 0
occurs ip (x ∷ xs) = (if x == ip then 1 else 0) + occurs ip xs

abbrev pub holds : Option IpAllocation → ℕ
holds none = 0
holds (some a) = 1

abbrev pub held : IpPoolManager → Text → ℕ
held s ip = occurs ip s.available_ips + holds (HashMap.get s.allocated_ips ip)

pub occurs-append :
    (ip : Text) (xs ys : List Text) → occurs ip (xs ++ ys) ≡ occurs ip xs + occurs ip ys
occurs-append ip [] ys = omega arith
occurs-append ip (x ∷ xs) ys = omega (arith, occurs-append ip xs ys)

-- Only the searched address becomes rarer, and by one at most.
pub occurs-remove_first :
    (ip j : Text) (xs : List Text)
    → occurs j (remove_first ip xs) ≡ (if ip == j then occurs j xs - 1 else occurs j xs)
unfolding remove_first
occurs-remove_first ip j [] = ground arith
occurs-remove_first ip j (x ∷ xs) =
    ground (arith, occurs-remove_first ip j xs, text_iff x ip, text_iff x j, text_iff ip j)

take_first-held :
    (xs : List Text) (s : IpPoolManager) (client : Text) (now lease : ℕ) (j : Text)
    → s.available_ips ≡ xs
    → held s j ≤ 1
    → held (take_first xs s client now lease).1 j ≡ held s j
unfolding take_first
take_first-held [] s client now lease j e h = refl
take_first-held (ip ∷ rest) s client now lease j e h =
    ground (arith, get-insert s.allocated_ips ip j (dynamic ip client now lease), text_iff ip j)

pub create_allocation-held :
    (s : IpPoolManager) (client : Text) (now lease : ℕ) (j : Text)
    → held s j ≤ 1
    → held (create_allocation s client now lease).1 j ≡ held s j
unfolding create_allocation
create_allocation-held s client now lease j h =
    take_first-held s.available_ips s client now lease j refl h

pub allocate_ip-held :
    (s : IpPoolManager) (client : Text) (now : ℕ) (j : Text)
    → held s j ≤ 1
    → held (allocate_ip s client now).1 j ≡ held s j
unfolding allocate_ip
allocate_ip-held s client now j h =
    ground (arith, create_allocation-held s client now s.default_lease_duration j h)

pub allocate_ip_with_lease-held :
    (s : IpPoolManager) (client : Text) (now lease : ℕ) (j : Text)
    → held s j ≤ 1
    → held (allocate_ip_with_lease s client now lease).1 j ≡ held s j
unfolding allocate_ip_with_lease
allocate_ip_with_lease-held s client now lease j h =
    ground (arith, create_allocation-held s client now lease j h)

-- A dynamic address goes back to the pool; a static one is dropped.
abbrev pub lost_by_release : Option IpAllocation → ℕ
lost_by_release none = 0
lost_by_release (some a) = if a.is_static then 1 else 0

pub release_ip-held :
    (s : IpPoolManager) (ip j : Text)
    → held (release_ip s ip).1 j
        + (if ip == j then lost_by_release (HashMap.get s.allocated_ips ip) else 0)
      ≡ held s j
unfolding release_ip
release_ip-held s ip j = ground (
  arith,
  get-remove s.allocated_ips ip j,
  text_iff ip j,
  occurs-append j s.available_ips (ip ∷ []),
)

pub renew_ip_with_lease-held :
    (s : IpPoolManager) (ip : Text) (now lease : ℕ) (j : Text)
    → held (renew_ip_with_lease s ip now lease).1 j ≡ held s j
unfolding renew_ip_with_lease
renew_ip_with_lease-held s ip now lease j =
    ground
      (arith, get-modify s.allocated_ips ip j (with_expiry (lease_end now lease)), text_iff ip j)

assign_found-held :
    (o : Option IpAllocation) (s : IpPoolManager) (ip client j : Text)
    → HashMap.get s.allocated_ips ip ≡ o
    → held s j ≤ 1
    → held (assign_found o s ip client).1 j ≤ 1
unfolding assign_found
assign_found-held (some a) s ip client j e h =
    ground (arith, get-insert s.allocated_ips ip j (make_static a), text_iff ip j)
assign_found-held none s ip client j e h = ground (
  arith,
  get-insert s.allocated_ips ip j (static_lease ip client),
  text_iff ip j,
  occurs-remove_first ip j s.available_ips,
)

pub assign_static_ip-held :
    (s : IpPoolManager) (ip client j : Text)
    → held s j ≤ 1
    → held (assign_static_ip s ip client).1 j ≤ 1
unfolding assign_static_ip
assign_static_ip-held s ip client j h =
    ground (arith, assign_found-held (HashMap.get s.allocated_ips ip) s ip client j refl h)
