-- ===== src/Config.antt =====
-- src/config: the settings of a node.
pub mod Settings
