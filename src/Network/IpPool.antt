-- ===== src/Network/IpPool.antt =====
-- src/network/ip_pool.rs: `IpPoolManager`. The two maps are fields of one record, and a call is one step
-- on it: what another thread does where a method releases the locks between its parts is not
-- modelled. `now` is the clock reading of the call, in milliseconds.
pub mod Held
pub mod Valid
pub mod Start
pub mod History
pub mod Conservation
pub mod Leases
pub mod Cleanup
mod Tests
use aero_nyx_private_ed.Base.HashMap
use aero_nyx_private_ed.Base.{
  ℕ, ◌+◌, ◌-◌, Bool, true, false, not, ◌&&◌, ◌||◌, List, [], ◌∷◌, ◌++◌, Option, none, some, Text,
  ltb, leb, ◌==◌, text_eq, if◌then◌else◌, length, Result, ok, err, add_u64, mul_u64, u64_max,
}
use aero_nyx_private_ed.Base.HashMap.{HashMap}
use aero_nyx_private_ed.Network.Subnet.{
  IpPoolError, pool_exhausted, invalid_subnet, not_allocated, already_allocated, Ipv4Network,
  generate_ip_pool,
}
use aero_nyx_private_ed.Network.Ipv4.{dotted, parse_ipv4}

pub record IpAllocation : Type 0 where
  pub ip_address : Text
  pub client_id : Text
  pub expires_at : ℕ
  pub is_static : Bool

pub record IpPoolManager : Type 0 where
  pub available_ips : List Text
  pub allocated_ips : HashMap Text IpAllocation
  pub subnet : Ipv4Network
  pub default_lease_duration : ℕ

-- `None` is a subnet that does not parse.
pub new : Option Ipv4Network → ℕ → Result IpPoolError IpPoolManager
new none lease = err invalid_subnet
new (some network) lease = elim (generate_ip_pool network) [
  | err e ↦ err e
  | ok pool ↦ ok (record {
    available_ips = pool;
    allocated_ips = [];
    subnet = network;
    default_lease_duration = lease;
  })
]

abbrev pub owned_by : Text → IpAllocation → Bool
owned_by client a = a.client_id == client

abbrev address_of : Option (Text × IpAllocation) → Option Text
address_of none = none
address_of (some (ip, a)) = some ip

pub get_existing_allocation : IpPoolManager → Text → Option Text
get_existing_allocation s client = address_of (HashMap.find_value (owned_by client) s.allocated_ips)

abbrev pub lease_end : ℕ → ℕ → ℕ
lease_end now lease = add_u64 now (mul_u64 lease 1000)

abbrev pub dynamic : Text → Text → ℕ → ℕ → IpAllocation
dynamic ip client now lease = record {
  ip_address = ip;
  client_id = client;
  expires_at = lease_end now lease;
  is_static = false;
}

take_first : List Text → IpPoolManager → Text → ℕ → ℕ → Result IpPoolError Text × IpPoolManager
take_first [] s client now lease = (err pool_exhausted, s)
take_first (ip ∷ rest) s client now lease = (
  ok ip,
  record s {
    available_ips = rest;
    allocated_ips = HashMap.insert s.allocated_ips ip (dynamic ip client now lease);
  },
)

pub create_allocation : IpPoolManager → Text → ℕ → ℕ → Result IpPoolError Text × IpPoolManager
unfolding take_first
create_allocation s client now lease = take_first s.available_ips s client now lease

pub allocate_ip_with_lease : IpPoolManager → Text → ℕ → ℕ → Result IpPoolError Text × IpPoolManager
allocate_ip_with_lease s client now lease = elim (get_existing_allocation s client) [
  | some ip ↦ (ok ip, s)
  | none ↦ create_allocation s client now lease
]

pub allocate_ip : IpPoolManager → Text → ℕ → Result IpPoolError Text × IpPoolManager
allocate_ip s client now = elim (get_existing_allocation s client) [
  | some ip ↦ (ok ip, s)
  | none ↦ create_allocation s client now s.default_lease_duration
]

pub release_ip : IpPoolManager → Text → Result IpPoolError (Unit {0}) × IpPoolManager
release_ip s ip = elim (HashMap.get s.allocated_ips ip) [
  | none ↦ (err (not_allocated ip), s)
  | some a ↦ (
    ok tt,
    record s {
      available_ips = if not a.is_static then s.available_ips ++ ip ∷ [] else s.available_ips;
      allocated_ips = HashMap.remove s.allocated_ips ip;
    },
  )
]

abbrev pub with_expiry : ℕ → IpAllocation → IpAllocation
with_expiry t a = record a { expires_at = t }

pub renew_ip_with_lease : IpPoolManager → Text → ℕ → ℕ → Result IpPoolError ℕ × IpPoolManager
renew_ip_with_lease s ip now lease = elim (HashMap.get s.allocated_ips ip) [
  | none ↦ (err (not_allocated ip), s)
  | some a ↦ (
    ok (lease_end now lease),
    record s {
      allocated_ips = HashMap.modify s.allocated_ips ip (with_expiry (lease_end now lease));
    },
  )
]

pub renew_ip : IpPoolManager → Text → ℕ → Result IpPoolError ℕ × IpPoolManager
renew_ip s ip now = renew_ip_with_lease s ip now s.default_lease_duration

-- `position` and `remove` of the first occurrence.
pub remove_first : Text → List Text → List Text
remove_first ip [] = []
remove_first ip (x ∷ xs) = let rest = remove_first ip xs in if x == ip then xs else x ∷ rest

abbrev pub static_lease : Text → Text → IpAllocation
static_lease ip client = record {
  ip_address = ip;
  client_id = client;
  expires_at = u64_max;
  is_static = true;
}

abbrev pub make_static : IpAllocation → IpAllocation
make_static a = record a { is_static = true }

pub assign_found :
    Option IpAllocation
    → IpPoolManager
    → Text
    → Text
    → Result IpPoolError (Unit {0}) × IpPoolManager
unfolding remove_first
assign_found (some a) s ip client =
    if not (a.client_id == client)
    then (err (already_allocated ip a.client_id), s)
    else (ok tt, record s { allocated_ips = HashMap.insert s.allocated_ips ip (make_static a) })
assign_found none s ip client = (
  ok tt,
  record s {
    available_ips = remove_first ip s.available_ips;
    allocated_ips = HashMap.insert s.allocated_ips ip (static_lease ip client);
  },
)

pub assign_static_ip : IpPoolManager → Text → Text → Result IpPoolError (Unit {0}) × IpPoolManager
unfolding assign_found
assign_static_ip s ip client = elim (parse_ipv4 ip) [
  | none ↦ (err invalid_subnet, s)
  | some address ↦
      if not (s.subnet.contains address)
      then (err invalid_subnet, s)
      else assign_found (HashMap.get s.allocated_ips ip) s ip client
]

abbrev pub is_due : ℕ → IpAllocation → Bool
is_due now a = not a.is_static && ltb a.expires_at now

pub expired_ips : ℕ → HashMap Text IpAllocation → List Text
expired_ips now [] = []
expired_ips now ((ip, a) ∷ m) = if is_due now a then ip ∷ expired_ips now m else expired_ips now m

release_all : List Text → IpPoolManager → IpPoolManager
release_all [] s = s
release_all (ip ∷ ips) s = release_all ips (release_ip s ip).1

pub cleanup_expired : IpPoolManager → ℕ → List Text × IpPoolManager
unfolding release_all
cleanup_expired s now =
    let to_release = expired_ips now s.allocated_ips in (to_release, release_all to_release s)

abbrev value_of : Option (Text × IpAllocation) → Option IpAllocation
value_of none = none
value_of (some (ip, a)) = some a

pub get_client_allocation : IpPoolManager → Text → Option IpAllocation
get_client_allocation s client = value_of (HashMap.find_value (owned_by client) s.allocated_ips)

pub get_client_ip : IpPoolManager → Text → Option Text
get_client_ip s client = address_of (HashMap.find_value (owned_by client) s.allocated_ips)

abbrev client_of : Option IpAllocation → Option Text
client_of none = none
client_of (some a) = some a.client_id

pub get_ip_client : IpPoolManager → Text → Option Text
get_ip_client s ip = client_of (HashMap.get s.allocated_ips ip)

pub get_stats : IpPoolManager → ℕ × ℕ × ℕ
get_stats s = (
  length s.available_ips,
  length s.allocated_ips,
  HashMap.count_values (λ a. a.is_static) s.allocated_ips,
)

pub get_allocations : IpPoolManager → List IpAllocation
get_allocations s = HashMap.values s.allocated_ips
