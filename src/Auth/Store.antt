-- ===== src/Auth/Store.antt =====
-- The tables of backend/src/db/schema.prisma that authentication reads and writes. Digests of tokens
-- and codes are SHA-256, which the runtime provides: a parameter of what computes them.
use safe_pass.Base.{ℕ, Bool, Option, List}
use safe_pass.Envelope.Base64.{Text, Bytes}

pub record Session : Type 0 where
  pub id : ℕ
  pub user_id : ℕ
  pub token_digest : Bytes
  pub device_label : Option Text
  pub expires_at : ℕ
  pub last_seen_at : ℕ
  pub revoked_at : Option ℕ
  pub reauth_required_at : Option ℕ
  pub pending_totp : Bool

pub record BackupCode : Type 0 where
  pub id : ℕ
  pub user_id : ℕ
  pub code_digest : Bytes
  pub used_at : Option ℕ

pub record TotpEnrolment : Type 0 where
  pub user_id : ℕ
  pub wrapped_secret : Bytes
  pub confirmed_at : Option ℕ
  pub last_used_step : Option ℕ

pub record EmailVerification : Type 0 where
  pub id : ℕ
  pub user_id : ℕ
  pub token_digest : Bytes
  pub expires_at : ℕ
  pub used_at : Option ℕ

pub data KdfAlgorithm : Type 0 where
  argon2id pbkdf2 : KdfAlgorithm

-- How the client derives its key from the master password.
pub record KdfParams : Type 0 where
  pub algorithm : KdfAlgorithm
  pub memory_kib : ℕ
  pub iterations : ℕ
  pub parallelism : ℕ

pub record UserKeyring : Type 0 where
  pub user_id : ℕ
  pub wrapped_user_key : Bytes
  pub public_key : Bytes
  pub wrapped_private_key : Bytes

-- The columns of the table of users that authentication reads or writes.
pub record Account : Type 0 where
  pub id : ℕ
  pub email : Text
  pub auth_hash_digest : Bytes
  pub email_verified_at : Option ℕ
  pub kdf : KdfParams

pub record AuthDb : Type 0 where
  pub accounts : List Account
  pub keyrings : List UserKeyring
  pub verifications : List EmailVerification
  pub sessions : List Session
  pub backup_codes : List BackupCode
  pub enrolments : List TotpEnrolment
