-- ===== src/Network/IpPool/Valid.antt =====
-- The invariant of the pool, over every history of calls.
use aero_nyx_private_ed.Base.HashMap
use aero_nyx_private_ed.Base.HashMap.{
  get-insert, get-remove, get-modify, insert-Distinct, remove-Distinct, modify-Distinct,
}
use aero_nyx_private_ed.Base.{
  ℕ, ◌≤◌, ◌≡◌, refl, List, [], ◌∷◌, Option, none, some, Text, text_iff, text_eq, arith,
  Option-cases, Bool-cases, inl, inr, ◌==◌,
}
use aero_nyx_private_ed.Base.HashMap.{HashMap}
use aero_nyx_private_ed.Network.Ipv4.{parse_ipv4}
use aero_nyx_private_ed.Network.IpPool.{
  IpAllocation, IpPoolManager, create_allocation, allocate_ip, allocate_ip_with_lease, release_ip,
  renew_ip_with_lease, assign_static_ip, cleanup_expired, release_all, assign_found, take_first,
  dynamic, with_expiry, lease_end, static_lease, make_static, expired_ips, get_existing_allocation,
}
use aero_nyx_private_ed.Network.IpPool.Held.{
  held, create_allocation-held, release_ip-held, renew_ip_with_lease-held, assign_static_ip-held,
}

-- The map has no key twice, an allocation stands under its own address, and no address is both
-- available and allocated, or available twice.
pub record IsValid (s : IpPoolManager) : Type 0 where
  pub distinct : HashMap.Distinct s.allocated_ips
  pub keyed :
      (ip : Text) (a : IpAllocation) → HashMap.get s.allocated_ips ip ≡ some a → a.ip_address ≡ ip
  pub once : (ip : Text) → held s ip ≤ 1

-- The first two fields, which speak of the map alone.
abbrev Keyed : HashMap Text IpAllocation → Type 0
Keyed m =
    HashMap.Distinct m
    × ((ip : Text) (a : IpAllocation) → HashMap.get m ip ≡ some a → a.ip_address ≡ ip)

insert-Keyed :
    (m : HashMap Text IpAllocation) (ip : Text) (a : IpAllocation)
    → a.ip_address ≡ ip
    → Keyed m
    → Keyed (HashMap.insert m ip a)
insert-Keyed m ip a own k = (
  insert-Distinct m ip a k.0,
  λ j b e. ground (arith, e, get-insert m ip j a, text_iff ip j, k.1 j b),
)

remove-Keyed : (m : HashMap Text IpAllocation) (ip : Text) → Keyed m → Keyed (HashMap.remove m ip)
remove-Keyed m ip k = (
  remove-Distinct m ip k.0,
  λ j b e. ground (arith, e, get-remove m ip j, text_iff ip j, k.1 j b),
)

with_expiry-Keyed :
    (m : HashMap Text IpAllocation) (ip : Text) (t : ℕ)
    → Keyed m
    → Keyed (HashMap.modify m ip (with_expiry t))
with_expiry-Keyed m ip t k = (
  modify-Distinct m ip (with_expiry t) k.0,
  λ j b e. elim (Option-cases (HashMap.get m j)) [
    | inl absent ↦ ground (arith, e, absent, get-modify m ip j (with_expiry t))
    | inr (a, found) ↦ ground (arith, e, found, get-modify m ip j (with_expiry t), k.1 j a found)
  ],
)

take_first-Keyed :
    (xs : List Text) (s : IpPoolManager) (client : Text) (now lease : ℕ)
    → Keyed s.allocated_ips
    → Keyed (take_first xs s client now lease).1.allocated_ips
unfolding take_first
take_first-Keyed [] s client now lease k = k
take_first-Keyed (ip ∷ rest) s client now lease k =
    insert-Keyed s.allocated_ips ip (dynamic ip client now lease) refl k

assign_found-Keyed :
    (o : Option IpAllocation) (s : IpPoolManager) (ip client : Text)
    → HashMap.get s.allocated_ips ip ≡ o
    → Keyed s.allocated_ips
    → Keyed (assign_found o s ip client).1.allocated_ips
unfolding assign_found
assign_found-Keyed (some a) s ip client e k = elim (Bool-cases (a.client_id == client)) [
  | inl same ↦
      rw (same, assign_found) (insert-Keyed s.allocated_ips ip (make_static a) (k.1 ip a e) k)
  | inr other ↦ rw (other, assign_found) k
]
assign_found-Keyed none s ip client e k =
    insert-Keyed s.allocated_ips ip (static_lease ip client) refl k

module _ (s : IpPoolManager) (v : IsValid s) where
  Keyed-map : Keyed s.allocated_ips
  Keyed-map = (v.distinct, v.keyed)

  create_allocation-IsValid :
      (client : Text) (now lease : ℕ) → IsValid (create_allocation s client now lease).1
  unfolding create_allocation
  create_allocation-IsValid client now lease =
      let k = take_first-Keyed s.available_ips s client now lease Keyed-map in
      record {
        distinct = k.0;
        keyed = k.1;
        once = λ ip.
            omega (arith, v.once ip, create_allocation-held s client now lease ip (v.once ip));
      }

  pub allocate_ip-IsValid : (client : Text) (now : ℕ) → IsValid (allocate_ip s client now).1
  unfolding allocate_ip
  allocate_ip-IsValid client now = elim (Option-cases (get_existing_allocation s client)) [
    | inl absent ↦
        rw (absent, allocate_ip) (create_allocation-IsValid client now s.default_lease_duration)
    | inr (ip, found) ↦ rw (found, allocate_ip) v
  ]

  pub allocate_ip_with_lease-IsValid :
      (client : Text) (now lease : ℕ) → IsValid (allocate_ip_with_lease s client now lease).1
  unfolding allocate_ip_with_lease
  allocate_ip_with_lease-IsValid client now lease =
      elim (Option-cases (get_existing_allocation s client)) [
        | inl absent ↦
            rw (absent, allocate_ip_with_lease) (create_allocation-IsValid client now lease)
        | inr (ip, found) ↦ rw (found, allocate_ip_with_lease) v
      ]

  release_ip-Keyed : (ip : Text) → Keyed (release_ip s ip).1.allocated_ips
  unfolding release_ip
  release_ip-Keyed ip = elim (Option-cases (HashMap.get s.allocated_ips ip)) [
    | inl absent ↦ rw (absent, release_ip) Keyed-map
    | inr (a, found) ↦ rw (found, release_ip) (remove-Keyed s.allocated_ips ip Keyed-map)
  ]

  pub release_ip-IsValid : (ip : Text) → IsValid (release_ip s ip).1
  release_ip-IsValid ip = record {
    distinct = (release_ip-Keyed ip).0;
    keyed = (release_ip-Keyed ip).1;
    once = λ j. omega (arith, v.once j, release_ip-held s ip j);
  }

  renew-Keyed :
      (ip : Text) (now lease : ℕ) → Keyed (renew_ip_with_lease s ip now lease).1.allocated_ips
  unfolding renew_ip_with_lease
  renew-Keyed ip now lease = elim (Option-cases (HashMap.get s.allocated_ips ip)) [
    | inl absent ↦ rw (absent, renew_ip_with_lease) Keyed-map
    | inr (a, found) ↦
        rw (found, renew_ip_with_lease)
          (with_expiry-Keyed s.allocated_ips ip (lease_end now lease) Keyed-map)
  ]

  pub renew_ip_with_lease-IsValid :
      (ip : Text) (now lease : ℕ) → IsValid (renew_ip_with_lease s ip now lease).1
  renew_ip_with_lease-IsValid ip now lease = record {
    distinct = (renew-Keyed ip now lease).0;
    keyed = (renew-Keyed ip now lease).1;
    once = λ j. omega (arith, v.once j, renew_ip_with_lease-held s ip now lease j);
  }

  assign_static_ip-Keyed : (ip client : Text) → Keyed (assign_static_ip s ip client).1.allocated_ips
  unfolding assign_static_ip
  assign_static_ip-Keyed ip client = elim (Option-cases (parse_ipv4 ip)) [
    | inl bad ↦ rw (bad, assign_static_ip) Keyed-map
    | inr (address, parsed) ↦ elim (Bool-cases (s.subnet.contains address)) [
      | inl inside ↦
          rw (parsed, assign_static_ip, inside)
            (assign_found-Keyed (HashMap.get s.allocated_ips ip) s ip client refl Keyed-map)
      | inr outside ↦ rw (parsed, assign_static_ip, outside) Keyed-map
    ]
  ]

  pub assign_static_ip-IsValid : (ip client : Text) → IsValid (assign_static_ip s ip client).1
  assign_static_ip-IsValid ip client = record {
    distinct = (assign_static_ip-Keyed ip client).0;
    keyed = (assign_static_ip-Keyed ip client).1;
    once = λ j. assign_static_ip-held s ip client j (v.once j);
  }

release_all-IsValid :
    (ips : List Text) (s : IpPoolManager) → IsValid s → IsValid (release_all ips s)
unfolding release_all
release_all-IsValid [] s v = v
release_all-IsValid (ip ∷ ips) s v =
    release_all-IsValid ips (release_ip s ip).1 (release_ip-IsValid s v ip)

pub cleanup_expired-IsValid :
    (s : IpPoolManager) (now : ℕ) → IsValid s → IsValid (cleanup_expired s now).1
unfolding cleanup_expired
cleanup_expired-IsValid s now v = release_all-IsValid (expired_ips now s.allocated_ips) s v
