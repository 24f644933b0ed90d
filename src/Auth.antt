-- ===== src/Auth.antt =====
-- src/auth: access control, challenges, and the manager that combines them.
pub mod Solana
pub mod Acl
pub mod Challenge
pub mod Manager
