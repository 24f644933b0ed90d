-- ===== src/Crypto.antt =====
-- src/crypto: padding, authenticated encryption, the choice of the algorithm, session keys and the
-- cache of shared secrets.
pub mod Padding
pub mod Encryption
pub mod Flexible
pub mod SessionKeys
pub mod SecretKeyCache
