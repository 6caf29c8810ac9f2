-- ===== src/Client.antt =====
-- frontend/src: what the browser client keeps and computes.
pub mod Keyring
pub mod AutoLock
pub mod Crypto
pub mod Session
pub mod Rotation
pub mod Search
