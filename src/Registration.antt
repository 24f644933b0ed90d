-- ===== src/Registration.antt =====
-- src/registration.rs and src/registration/websocket: what a node does with the messages of the
-- server that it is registered at.
pub mod Messages
pub mod Connection
mod Tests
