-- ===== src/Protocol.antt =====
-- src/protocol: the messages, their validation, and their text form.
pub mod Types
pub mod Session
pub mod Validation
pub mod Serialization
