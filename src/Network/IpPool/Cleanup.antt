-- ===== src/Network/IpPool/Cleanup.antt =====
-- `cleanup_expired` takes back exactly the dynamic leases that have run out.
use aero_nyx_private_ed.Base.HashMap
use aero_nyx_private_ed.Base.HashMap.{HashMap, get-remove, keep_if}
use aero_nyx_private_ed.Base.{
  ℕ, ◌≡◌, refl, List, [], ◌∷◌, Option, none, some, Bool, true, false, not, Text, text_iff, text_eq,
  ◌==◌, if◌then◌else◌, arith, any,
}
use aero_nyx_private_ed.Network.IpPool.{
  IpAllocation, IpPoolManager, release_ip, release_all, cleanup_expired, expired_ips, is_due,
}
use aero_nyx_private_ed.Network.IpPool.Held.{held, lost_by_release, release_ip-held}
use aero_nyx_private_ed.Network.IpPool.Valid.{IsValid}

abbrev listed : Text → List Text → Bool
listed j ips = any (λ ip. ip == j) ips

abbrev is_due_at : ℕ → Option IpAllocation → Bool
is_due_at now none = false
is_due_at now (some a) = is_due now a

-- The list holds the addresses whose lease is due, and no other.
listed-expired_ips :
    (now : ℕ) (m : HashMap Text IpAllocation) (j : Text)
    → HashMap.Distinct m
    → listed j (expired_ips now m) ≡ is_due_at now (HashMap.get m j)
unfolding expired_ips HashMap.get
listed-expired_ips now [] j d = refl
listed-expired_ips now ((ip, a) ∷ m) j d =
    ground (arith, listed-expired_ips now m j d.1, text_iff ip j)

get-release_ip :
    (s : IpPoolManager) (ip j : Text)
    → HashMap.get (release_ip s ip).1.allocated_ips j
      ≡ (if ip == j then none else HashMap.get s.allocated_ips j)
unfolding release_ip
get-release_ip s ip j = ground (arith, get-remove s.allocated_ips ip j, text_iff ip j)

get-release_all :
    (ips : List Text) (s : IpPoolManager) (j : Text)
    → HashMap.get (release_all ips s).allocated_ips j
      ≡ (if listed j ips then none else HashMap.get s.allocated_ips j)
unfolding release_all
get-release_all [] s j = refl
get-release_all (ip ∷ ips) s j =
    ground (arith, get-release_all ips (release_ip s ip).1 j, get-release_ip s ip j)

-- None of the listed addresses is static.
abbrev Returnable : List Text → IpPoolManager → Type 0
Returnable ips s =
    (j : Text) → listed j ips ≡ true → lost_by_release (HashMap.get s.allocated_ips j) ≡ 0

release_ip-Returnable :
    (ip : Text) (ips : List Text) (s : IpPoolManager)
    → Returnable (ip ∷ ips) s
    → Returnable ips (release_ip s ip).1
release_ip-Returnable ip ips s r j h = ground (arith, get-release_ip s ip j, r j, h)

release_all-held :
    (ips : List Text) (s : IpPoolManager) (j : Text)
    → Returnable ips s
    → held (release_all ips s) j ≡ held s j
unfolding release_all
release_all-held [] s j r = refl
release_all-held (ip ∷ ips) s j r = ground (
  arith,
  release_all-held ips (release_ip s ip).1 j (release_ip-Returnable ip ips s r),
  release_ip-held s ip j,
  r ip,
  text_iff ip ip,
)

-- From a valid pool, `cleanup_expired` drops exactly the allocations that are dynamic and whose
-- lease ended before `now`, reports exactly their addresses, and gives every one back to the pool:
-- no address is held more or less often than before.
pub cleanup_expired-exact :
    (s : IpPoolManager) (now : ℕ) (j : Text)
    → IsValid s
    → (HashMap.get (cleanup_expired s now).1.allocated_ips j
        ≡ keep_if (λ ip a. not (is_due now a)) j (HashMap.get s.allocated_ips j))
      × (any (λ ip. ip == j) (cleanup_expired s now).0
          ≡ is_due_at now (HashMap.get s.allocated_ips j))
      × (held (cleanup_expired s now).1 j ≡ held s j)
unfolding cleanup_expired
cleanup_expired-exact s now j v = (
  ground (
    arith,
    get-release_all (expired_ips now s.allocated_ips) s j,
    listed-expired_ips now s.allocated_ips j v.distinct,
  ),
  listed-expired_ips now s.allocated_ips j v.distinct,
  release_all-held (expired_ips now s.allocated_ips) s j
      (λ k h. ground (arith, h, listed-expired_ips now s.allocated_ips k v.distinct)),
)
