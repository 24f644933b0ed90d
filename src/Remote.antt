-- ===== src/Remote.antt =====
-- src/remote_command_handler.rs and src/remote_management.rs: commands from the backend.
pub mod Path
pub mod Command
pub mod Management
