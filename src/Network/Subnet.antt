-- ===== src/Network/Subnet.antt =====
-- src/network/ip_pool.rs: the errors, and the pool of addresses that a subnet gives.
-- `Ipv4Network` is the crate `ipnetwork`: a network is what the pool observes of it.
-- The texts of error messages are left out, the variants and the identifiers in them are kept.
pub mod Range
use aero_nyx_private_ed.Base.{
  ℕ, ◌+◌, ◌-◌, Bool, ◌||◌, List, [], ◌∷◌, ◌++◌, Text, leb, if◌then◌else◌, length, Result, ok, err,
}
use aero_nyx_private_ed.Network.Ipv4.{dotted}

pub data IpPoolError : Type 0 where
  pool_exhausted : IpPoolError
  invalid_subnet : IpPoolError
  not_allocated : Text → IpPoolError
  already_allocated : Text → Text → IpPoolError
  network_error : IpPoolError

-- `iter()`, `size()` and `contains()` of an `Ipv4Network`.
pub record Ipv4Network : Type 0 where
  pub addresses : List ℕ
  pub size : ℕ
  pub contains : ℕ → Bool

-- The loop of `generate_ip_pool`: `host_count` addresses were seen, `pool` was filled from the back.
pool_loop : ℕ → List ℕ → ℕ → List Text → List Text
pool_loop size [] host_count pool = pool
pool_loop size (ip ∷ ips) host_count pool =
    let count = host_count + 1 in
    let skipped = pool_loop size ips count pool in
    let added = pool ++ dotted ip ∷ [] in
    let next = pool_loop size ips count added in
    if leb count 2 || leb (size - 1) count
    then skipped
    else if leb 1000 (length added)
    then added
    else next

non_empty : List Text → Result IpPoolError (List Text)
non_empty [] = err invalid_subnet
non_empty (ip ∷ pool) = ok (ip ∷ pool)

pub generate_ip_pool : Ipv4Network → Result IpPoolError (List Text)
unfolding pool_loop non_empty
generate_ip_pool network = non_empty (pool_loop network.size network.addresses 0 [])
