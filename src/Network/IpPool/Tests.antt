-- ===== src/Network/IpPool/Tests.antt =====
-- The theorems on src/network at concrete inputs.
use aero_nyx_private_ed.Base.HashMap
use aero_nyx_private_ed.Base.{
  ℕ, ◌≡◌, refl, true, any, List, [], ◌∷◌, none, some, Text, text_eq, text_iff, ◌==◌, codes,
  list_beq, arith, ok, leb, ◌&&◌,
}
use aero_nyx_private_ed.Network.Ipv4.{dotted, show_octets, show_octet}
use aero_nyx_private_ed.Network.Subnet.{Ipv4Network, generate_ip_pool}
use aero_nyx_private_ed.Network.Subnet.Range.{IsNetwork, offered, generate_ip_pool-eq-offered}
use aero_nyx_private_ed.Network.IpPool.{
  IpPoolManager, IpAllocation, new, allocate_ip, take_first, create_allocation,
  get_existing_allocation, cleanup_expired, dynamic,
}
use aero_nyx_private_ed.Network.IpPool.Held.{held}
use aero_nyx_private_ed.Network.IpPool.Valid.{IsValid}
use aero_nyx_private_ed.Network.IpPool.Start.{new-IsValid}
use aero_nyx_private_ed.Network.IpPool.History.{Call, allocates, cleans, run, run-new-IsValid}
use aero_nyx_private_ed.Network.IpPool.Conservation.{AllDynamic, held-run}
use aero_nyx_private_ed.Network.IpPool.Leases.{Granted, allocate_ip-Granted}
use aero_nyx_private_ed.Network.IpPool.Cleanup.{cleanup_expired-exact}

abbrev small_network : Ipv4Network
small_network = record {
  addresses = 8 ∷ 9 ∷ 10 ∷ 11 ∷ 12 ∷ 13 ∷ 14 ∷ 15 ∷ [];
  size = 8;
  contains = λ x. leb 8 x && leb x 15;
}

small_network-IsNetwork : IsNetwork small_network
small_network-IsNetwork = record { counted = refl; ascending = ground arith }

generate_ip_pool-eq-offered_example : generate_ip_pool small_network ≡ ok (offered small_network)
generate_ip_pool-eq-offered_example =
    generate_ip_pool-eq-offered small_network small_network-IsNetwork

abbrev small_pool : IpPoolManager
small_pool = record {
  available_ips = offered small_network;
  allocated_ips = [];
  subnet = small_network;
  default_lease_duration = 60;
}

small_pool-new : new (some small_network) 60 ≡ ok small_pool
unfolding new
small_pool-new = ground (arith, generate_ip_pool-eq-offered small_network small_network-IsNetwork)

abbrev history : List (ℕ × Call)
history = (1, allocates (codes "ann")) ∷ (2, allocates (codes "bob")) ∷ (90000, cleans) ∷ []

run-new-IsValid_example : IsValid (run small_pool history)
run-new-IsValid_example =
    run-new-IsValid small_network 60 small_pool history small_network-IsNetwork small_pool-new

small_pool-IsValid : IsValid small_pool
small_pool-IsValid = new-IsValid small_network 60 small_pool small_network-IsNetwork small_pool-new

small_pool-AllDynamic : AllDynamic small_pool
unfolding HashMap.get
small_pool-AllDynamic ip a h = cc

held-run_example :
    held (run small_pool history) (codes "0.0.0.10") ≡ held small_pool (codes "0.0.0.10")
held-run_example =
    held-run small_pool history (codes "0.0.0.10") small_pool-IsValid small_pool-AllDynamic tt

abbrev ann : Text
ann = codes "ann"

abbrev first_ip : Text
first_ip = codes "0.0.0.10"

abbrev after_ann : IpPoolManager
after_ann = (allocate_ip small_pool ann 1).1

allocate_ip-Granted_example : Granted small_pool after_ann ann first_ip
unfolding allocate_ip get_existing_allocation create_allocation take_first HashMap.find_value dotted
    show_octets show_octet
allocate_ip-Granted_example =
    allocate_ip-Granted small_pool after_ann ann first_ip 1 small_pool-IsValid refl

abbrev lent : IpAllocation
lent = dynamic first_ip ann 1 60

abbrev lent_pool : IpPoolManager
lent_pool = record small_pool { available_ips = []; allocated_ips = (first_ip, lent) ∷ [] }

lent_pool-IsValid : IsValid lent_pool
unfolding HashMap.get
lent_pool-IsValid = record {
  distinct = (refl, tt);
  keyed = λ ip a h. ground (arith, text_iff first_ip ip);
  once = λ ip. ground arith;
}

cleanup_expired-exact_example :
    (HashMap.get (cleanup_expired lent_pool 90000).1.allocated_ips first_ip ≡ none)
    × (any (λ ip. ip == first_ip) (cleanup_expired lent_pool 90000).0 ≡ true)
    × (held (cleanup_expired lent_pool 90000).1 first_ip ≡ held lent_pool first_ip)
unfolding HashMap.get list_beq
cleanup_expired-exact_example = cleanup_expired-exact lent_pool 90000 first_ip lent_pool-IsValid
