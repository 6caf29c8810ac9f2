-- ===== src/Tests/Sessions.antt =====
-- Runs of the session guard, the second factor, backup codes and e-mail verification.
use safe_pass.Base.{
  ℕ, replicate, ◌≤◌, ◌≡◌, ◌≢◌, refl, true, false, ◌&&◌, not, ltb, none, some, List, [], ◌∷◌, All,
  ◌==◌, find, filter, count, update, delete, any, arith,
}
use safe_pass.Envelope.{assert_key_wrap, bytes}
use safe_pass.Tests.{sealed}
use safe_pass.Envelope.Base64.{base64_url_to_bytes, Text, Bytes}
use safe_pass.Errors.{ok, ◌>>=◌, ◌>>◌, guard, required}
use safe_pass.Json.{normalize, natural}
use safe_pass.Tables.{text_eq}
use safe_pass.Auth.Store.{AuthDb, Session, BackupCode, EmailVerification, Account, UserKeyring}
use safe_pass.Auth.Session.{
  issue_session, find_live_session, mark_siblings_for_reauth, touch, is_none,
}
use safe_pass.Auth.Login.{default_params, login, authenticated, change_master_password}
use safe_pass.Auth.Login.Laws.{login-limits, change_master_password-stops}
use safe_pass.Auth.Guard.{codes, session_guard, path_of, starts_with, has}
use safe_pass.Auth.Guard.Laws.{IsAdmitted, session_guard_sound}
use safe_pass.Auth.BackupCodes.Laws.{spend_all, spend_all-le}
use safe_pass.Auth.Totp.{confirmed_enrolment, Proof, step, remove_totp, require_master_password}
use safe_pass.Auth.Totp.Laws.{IsIncreasing, accepted_steps, accepted_steps-IsIncreasing}
use safe_pass.Auth.Verification.{commit_verification, verify_email}
use safe_pass.Auth.Verification.Laws.{IsUsed, verify_email_sound}

-- A digest for the runs below.
abbrev plain : Text → Bytes
plain t = t

abbrev session : ℕ → Text → Session
session id token = record {
  id = id;
  user_id = 1;
  token_digest = token;
  device_label = none;
  expires_at = 1000;
  last_seen_at = 5;
  revoked_at = none;
  reauth_required_at = none;
  pending_totp = false;
}

abbrev phone : Session
phone = session 60 (7 ∷ [])

abbrev laptop : Session
laptop = session 61 (8 ∷ [])

abbrev code_row : BackupCode
code_row = record { id = 70; user_id = 1; code_digest = 4 ∷ []; used_at = none }

abbrev mailed : EmailVerification
mailed = record { id = 80; user_id = 1; token_digest = 6 ∷ []; expires_at = 900; used_at = none }

abbrev account : Account
account = record {
  id = 1;
  email = 64 ∷ [];
  auth_hash_digest = 3 ∷ [];
  email_verified_at = none;
  kdf = default_params;
}

abbrev keyring : UserKeyring
keyring = record { user_id = 1; wrapped_user_key = []; public_key = []; wrapped_private_key = [] }

abbrev db : AuthDb
db = record {
  accounts = account ∷ [];
  keyrings = keyring ∷ [];
  verifications = mailed ∷ [];
  sessions = phone ∷ laptop ∷ [];
  backup_codes = code_row ∷ [];
  enrolments =
      record { user_id = 1; wrapped_secret = []; confirmed_at = some 5; last_used_step = none }
      ∷ [];
}

router : Unit {0}
unfolding ◌>>=◌ ◌>>◌ guard required find filter count update delete any text_eq session_guard
    path_of starts_with has find_live_session touch remove_totp require_master_password verify_email
    commit_verification
router = tt

abbrev vaults_url : Text
vaults_url = codes "/api/v1/vaults?page=2"

session_guard_sound_example : IsAdmitted plain db 9 (path_of vaults_url) (some (7 ∷ [])) phone
unfolding router
session_guard_sound_example =
    session_guard_sound plain db 9 vaults_url (some (7 ∷ [])) (touch db 9 60) phone refl

spend_all-le_example : spend_all (9 ∷ 9 ∷ 10 ∷ []) 70 db ≤ 1
spend_all-le_example = spend_all-le (9 ∷ 9 ∷ 10 ∷ []) 70 db

abbrev raws : List (ℕ × Bytes)
raws = (71, 1 ∷ 2 ∷ 3 ∷ 4 ∷ 5 ∷ []) ∷ (72, 9 ∷ 8 ∷ 7 ∷ 6 ∷ 5 ∷ []) ∷ []

abbrev run : List (ℕ × Session × Proof)
run =
    (90000, phone, step (natural 3))
    ∷ (90001, laptop, step (natural 3))
    ∷ (120000, laptop, step (natural 4))
    ∷ []

accepted_steps-IsIncreasing_example : IsIncreasing (accepted_steps plain run db)
accepted_steps-IsIncreasing_example =
    accepted_steps-IsIncreasing plain 1 run db (refl, (refl, (refl, tt)))

abbrev removed : AuthDb
removed = record db { backup_codes = []; enrolments = [] }

abbrev verified : AuthDb
verified = record db {
  accounts = record account { email_verified_at = some 9 } ∷ [];
  verifications = record mailed { used_at = some 9 } ∷ [];
}

verify_email_sound_example :
    (v : EmailVerification) × (find
        (λ x. (is_none x.used_at && ltb 9 x.expires_at) && text_eq x.token_digest (plain (6 ∷ [])))
        db.verifications
      ≡ some v)
    × IsUsed v verified
    × (any (λ u. u.id == v.user_id && not (is_none u.email_verified_at)) verified.accounts ≡ true)
    × All (λ u. (u.id == v.user_id && is_none u.email_verified_at) ≡ false) verified.accounts
unfolding router
verify_email_sound_example = verify_email_sound plain db 9 (6 ∷ []) {db' = verified} refl

abbrev issued : AuthDb
issued = record db {
  sessions =
      record (session 62 (5 ∷ [])) { last_seen_at = 9; expires_at = 604800009; pending_totp = true }
      ∷ db.sessions;
}

login-limits_example :
    session_guard plain issued 20 vaults_url (some (5 ∷ [])) ≢ ok (issued, some phone)
unfolding router login authenticated confirmed_enrolment issue_session normalize
login-limits_example =
    login-limits plain plain db 9 62 (5 ∷ []) none (64 ∷ []) (3 ∷ []) issued 20 vaults_url issued
      phone refl refl

-- The database after the laptop has changed the master password.
abbrev changed : AuthDb
changed = record db {
  accounts = record account { auth_hash_digest = 9 ∷ [] } ∷ [];
  keyrings = record keyring { wrapped_user_key = 1 ∷ 1 ∷ replicate 28 0 } ∷ [];
  sessions = record phone { reauth_required_at = some 9 } ∷ laptop ∷ [];
}

change_master_password-stops_example :
    session_guard plain changed 20 vaults_url (some (7 ∷ [])) ≢ ok (changed, some phone)
unfolding router change_master_password mark_siblings_for_reauth assert_key_wrap base64_url_to_bytes
    bytes
change_master_password-stops_example =
    change_master_password-stops plain plain db 9 laptop (3 ∷ []) (9 ∷ []) sealed none changed
      (7 ∷ []) phone 20 vaults_url changed phone refl refl refl (omega arith) refl
