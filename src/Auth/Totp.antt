-- ===== src/Auth/Totp.antt =====
-- backend/src/modules/auth/totp.routes.ts: enrolling, verifying and removing a second factor. The
-- mails and the sign-in history are left out.
pub mod Laws
use safe_pass.Base.{
  ℕ, suc, ◌+◌, ◌/◌, Bool, true, false, ◌&&◌, not, Option, none, some, List, ◌∷◌, ◌==◌, find, update,
  delete, any, leb, if◌then◌else◌,
}
use safe_pass.Envelope.{Value, assert_key_wrap, bytes}
use safe_pass.Envelope.Base64.{Text, Bytes}
use safe_pass.Errors.{
  Result, ok, err, api, internal, not_found, auth_failed, validation_failed, totp_invalid, guard,
  required, ◌>>=◌, ◌>>◌,
}
use safe_pass.Json.{Number, natural, negative, not_integer}
use safe_pass.Tables.{text_eq}
use safe_pass.Auth.Store.{AuthDb, Session, TotpEnrolment}
use safe_pass.Auth.Session.{is_none}
use safe_pass.Auth.BackupCodes.{issue_backup_codes, redeem_backup_code}

-- `requireMasterPassword`; `auth_digest` hashes the decoded text of the body.
unfoldable pub require_master_password : (Text → Bytes) → AuthDb → ℕ → Text → Result (Unit {0})
require_master_password auth_digest db user_id auth_hash = do
  user ← required (find (λ u. u.id == user_id) db.accounts) internal
  guard (text_eq (auth_digest auth_hash) user.auth_hash_digest) (api auth_failed)

-- `totpEnrolment.upsert`
unfoldable pub upsert_enrolment : AuthDb → ℕ → ℕ → Bytes → AuthDb
upsert_enrolment db now user_id wrapped_secret =
    if any (λ e. e.user_id == user_id) db.enrolments
    then (record db {
      enrolments =
          update (λ e. e.user_id == user_id)
            (λ e. record e {
              wrapped_secret = wrapped_secret;
              confirmed_at = some now;
              last_used_step = none;
            })
            db.enrolments;
    })
    else (record db {
      enrolments =
          record {
            user_id = user_id;
            wrapped_secret = wrapped_secret;
            confirmed_at = some now;
            last_used_step = none;
          }
          ∷ db.enrolments;
    })

-- `POST /totp/enrol`, with the ids and random bytes of the backup codes: the database and the codes.
unfoldable pub enrol :
    (Text → Bytes) → AuthDb → ℕ → ℕ → Value → Bool → List (ℕ × Bytes) → Result (AuthDb × List Text)
unfolding upsert_enrolment issue_backup_codes
enrol sha256 db now user_id raw confirmed raws = do
  wrapped_secret ← assert_key_wrap raw
  guard confirmed (api validation_failed)
  ok (
      issue_backup_codes sha256 (upsert_enrolment db now user_id (bytes wrapped_secret)) user_id
        raws)

-- An enrolment that has been confirmed.
unfoldable pub confirmed_enrolment : AuthDb → ℕ → Option TotpEnrolment
confirmed_enrolment db user_id = elim (find (λ e. e.user_id == user_id) db.enrolments) [
  | none ↦ none
  | some e ↦ if is_none e.confirmed_at then none else some e
]

-- `Math.floor(Date.now() / 1000 / 30)`
abbrev pub time_step : ℕ → ℕ
time_step now = now / 1000 / 30

-- `step <= last`, false before the first step.
abbrev pub is_spent : Option ℕ → ℕ → Bool
is_spent none step = false
is_spent (some last) step = leb step last

-- The two tests of a step, against the last one and against the clock. A negative step is never
-- within one step of a clock that stands after the first minute of 1970.
unfoldable pub accept_step : Option ℕ → ℕ → Number → Result ℕ
accept_step last now not_integer = err (api totp_invalid)
accept_step last now negative = err (api totp_invalid)
accept_step last now (natural step) = do
  guard (not (is_spent last step)) (api totp_invalid)
  guard (leb step (suc (time_step now)) && leb (time_step now) (suc step)) (api totp_invalid)
  ok step

unfoldable pub record_step : AuthDb → ℕ → ℕ → AuthDb
record_step db user_id step = record db {
  enrolments =
      update (λ e. e.user_id == user_id) (λ e. record e { last_used_step = some step })
        db.enrolments;
}

-- `session.update`: the session is a full one from now on.
unfoldable pub upgrade_session : AuthDb → ℕ → AuthDb
upgrade_session db id = record db {
  sessions = update (λ s. s.id == id) (λ s. record s { pending_totp = false }) db.sessions;
}

-- The body of a verification: a backup code that is not empty, or a step.
pub data Proof : Type 0 where
  backup_code : Text → Proof
  step : Number → Proof

-- `POST /totp/verify`
unfoldable pub verify : (Text → Bytes) → AuthDb → ℕ → Session → Proof → Result AuthDb
unfolding confirmed_enrolment redeem_backup_code record_step upgrade_session
verify sha256 db now session (backup_code code) = do
  _ ← required (confirmed_enrolment db session.user_id) (api not_found)
  let redeemed = redeem_backup_code sha256 db now session.user_id code
  guard redeemed.1 (api totp_invalid)
  ok (upgrade_session redeemed.0 session.id)
verify sha256 db now session (step n) = do
  enrolment ← required (confirmed_enrolment db session.user_id) (api not_found)
  k ← accept_step enrolment.last_used_step now n
  ok (upgrade_session (record_step db session.user_id k) session.id)

-- `DELETE /totp`
unfoldable pub remove_totp : (Text → Bytes) → AuthDb → ℕ → Text → Result AuthDb
unfolding require_master_password
remove_totp auth_digest db user_id auth_hash = do
  _ ← require_master_password auth_digest db user_id auth_hash
  _ ← required (find (λ e. e.user_id == user_id) db.enrolments) (api not_found)
  ok (record db {
    enrolments = delete (λ e. e.user_id == user_id) db.enrolments;
    backup_codes = delete (λ c. c.user_id == user_id) db.backup_codes;
  })

-- `POST /totp/backup-codes`
unfoldable pub renew_backup_codes :
    (Text → Bytes)
    → (Text → Bytes)
    → AuthDb
    → ℕ
    → Text
    → List (ℕ × Bytes)
    → Result (AuthDb × List Text)
unfolding require_master_password confirmed_enrolment issue_backup_codes
renew_backup_codes auth_digest sha256 db user_id auth_hash raws = do
  _ ← require_master_password auth_digest db user_id auth_hash
  _ ← required (confirmed_enrolment db user_id) (api not_found)
  ok (issue_backup_codes sha256 db user_id raws)
