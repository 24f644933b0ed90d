-- ===== src/Network/IpPool/History.antt =====
-- Histories of calls on one pool, in the order in which they take the lock.
use aero_nyx_private_ed.Base.{ℕ, ◌≡◌, List, [], ◌∷◌, some, Text, text_eq, ok}
use aero_nyx_private_ed.Network.Subnet.{Ipv4Network}
use aero_nyx_private_ed.Network.Subnet.Range.{IsNetwork}
use aero_nyx_private_ed.Network.IpPool.{
  IpPoolManager, new, allocate_ip, allocate_ip_with_lease, release_ip, renew_ip,
  renew_ip_with_lease, assign_static_ip, cleanup_expired,
}
use aero_nyx_private_ed.Network.IpPool.Valid.{
  IsValid, allocate_ip-IsValid, allocate_ip_with_lease-IsValid, release_ip-IsValid,
  renew_ip_with_lease-IsValid, assign_static_ip-IsValid, cleanup_expired-IsValid,
}
use aero_nyx_private_ed.Network.IpPool.Start.{new-IsValid}

pub data Call : Type 0 where
  allocates : Text → Call
  allocates_for : Text → ℕ → Call
  releases : Text → Call
  renews : Text → Call
  renews_for : Text → ℕ → Call
  assigns : Text → Text → Call
  cleans : Call

-- A call at a clock reading.
unfoldable pub step : IpPoolManager → ℕ × Call → IpPoolManager
step s (now, allocates client) = (allocate_ip s client now).1
step s (now, allocates_for client lease) = (allocate_ip_with_lease s client now lease).1
step s (now, releases ip) = (release_ip s ip).1
step s (now, renews ip) = (renew_ip s ip now).1
step s (now, renews_for ip lease) = (renew_ip_with_lease s ip now lease).1
step s (now, assigns ip client) = (assign_static_ip s ip client).1
step s (now, cleans) = (cleanup_expired s now).1

unfoldable pub run : IpPoolManager → List (ℕ × Call) → IpPoolManager
unfolding step
run s [] = s
run s (c ∷ cs) = run (step s c) cs

pub step-IsValid : (s : IpPoolManager) (c : ℕ × Call) → IsValid s → IsValid (step s c)
unfolding step renew_ip
step-IsValid s (now, allocates client) v = allocate_ip-IsValid s v client now
step-IsValid s (now, allocates_for client lease) v =
    allocate_ip_with_lease-IsValid s v client now lease
step-IsValid s (now, releases ip) v = release_ip-IsValid s v ip
step-IsValid s (now, renews ip) v = renew_ip_with_lease-IsValid s v ip now s.default_lease_duration
step-IsValid s (now, renews_for ip lease) v = renew_ip_with_lease-IsValid s v ip now lease
step-IsValid s (now, assigns ip client) v = assign_static_ip-IsValid s v ip client
step-IsValid s (now, cleans) v = cleanup_expired-IsValid s now v

run-IsValid : (s : IpPoolManager) (cs : List (ℕ × Call)) → IsValid s → IsValid (run s cs)
unfolding run
run-IsValid s [] v = v
run-IsValid s (c ∷ cs) v = run-IsValid (step s c) cs (step-IsValid s c v)

-- After any history of calls on a new pool, the map has no address twice, every allocation stands
-- under its own address, and no address is both available and allocated or available twice.
pub run-new-IsValid :
    (n : Ipv4Network) (lease : ℕ) (s : IpPoolManager) (cs : List (ℕ × Call))
    → IsNetwork n
    → new (some n) lease ≡ ok s
    → IsValid (run s cs)
run-new-IsValid n lease s cs w e = run-IsValid s cs (new-IsValid n lease s w e)
