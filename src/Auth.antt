-- ===== src/Auth.antt =====
-- backend/src/modules/auth and backend/src/middleware/session.ts: sessions, their guard, backup codes
-- and the second factor.
pub mod Store
pub mod Session
pub mod Guard
pub mod BackupCodes
pub mod Totp
pub mod Login
pub mod Verification
pub mod Registration
pub mod Account
