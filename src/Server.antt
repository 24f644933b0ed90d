-- ===== src/Server.antt =====
-- src/server: the session table, the packet router, the loop of a client's session, and the loop that
-- reads the TUN device.
pub mod Sessions
pub mod Router
pub mod Client
pub mod Tun
pub mod Lifecycle
