-- ===== src/Terminals.antt =====
-- src/terminal_manager.rs and src/terminal/mod.rs: the two tables of remote terminals.
pub mod Manager
pub mod Pty
