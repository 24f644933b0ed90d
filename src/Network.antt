-- ===== src/Network.antt =====
-- src/network: addresses and the pool that leases them.
pub mod Ipv4
pub mod Subnet
pub mod IpPool
