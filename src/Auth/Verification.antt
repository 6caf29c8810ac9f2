-- ===== src/Auth/Verification.antt =====
-- backend/src/modules/auth/verify.routes.ts: proving an e-mail address by a token that was mailed.
pub mod Laws
use safe_pass.Base.{
  ℕ, ◌+◌, ◌*◌, Bool, true, false, ◌&&◌, not, Option, none, some, List, [], ◌∷◌, ◌==◌, find, filter,
  count, update, delete, any, ltb, if◌then◌else◌,
}
use safe_pass.Envelope.Base64.{Text, Bytes}
use safe_pass.Errors.{Result, ok, api, internal, validation_failed, guard, required, ◌>>=◌, ◌>>◌}
use safe_pass.Tables.{text_eq}
use safe_pass.Auth.Store.{AuthDb, EmailVerification}
use safe_pass.Auth.Session.{is_none}

-- `TOKEN_TTL_MS`
abbrev pub token_ttl_ms : ℕ
token_ttl_ms = 24 * 60 * 60 * 1000

-- `issueVerification`, with the id and the token that are drawn at random; the mail is left out.
unfoldable pub issue_verification : (Text → Bytes) → AuthDb → ℕ → ℕ → Text → ℕ → AuthDb
issue_verification digest db now id token user_id = record db {
  verifications =
      record {
        id = id;
        user_id = user_id;
        token_digest = digest token;
        expires_at = now + token_ttl_ms;
        used_at = none;
      }
      ∷ delete (λ v. v.user_id == user_id && is_none v.used_at) db.verifications;
}

-- A token that is neither used nor expired.
abbrev pub is_live : ℕ → EmailVerification → Bool
is_live now v = is_none v.used_at && ltb now v.expires_at

-- The reads of `POST /verify`: the row that the token names.
unfoldable pub select_verification : (Text → Bytes) → AuthDb → ℕ → Text → Result EmailVerification
select_verification digest db now token = do
  guard (not (text_eq token [])) (api validation_failed)
  required
      (find (λ v. text_eq v.token_digest (digest token)) (filter (is_live now) db.verifications))
      (api validation_failed)

-- The transaction: the row is used if it still can be, and the address is verified.
unfoldable pub commit_verification : AuthDb → ℕ → EmailVerification → Result AuthDb
commit_verification db now row = do
  guard (count (λ v. v.id == row.id && is_none v.used_at) db.verifications == 1)
      (api validation_failed)
  guard (any (λ u. u.id == row.user_id) db.accounts) internal
  ok (record db {
    verifications =
        update (λ v. v.id == row.id && is_none v.used_at) (λ v. record v { used_at = some now })
          db.verifications;
    accounts =
        update (λ u. u.id == row.user_id) (λ u. record u { email_verified_at = some now })
          db.accounts;
  })

-- `POST /verify` with nothing between its reads and its transaction.
unfoldable pub verify_email : (Text → Bytes) → AuthDb → ℕ → Text → Result AuthDb
unfolding select_verification commit_verification
verify_email digest db now token = do
  row ← select_verification digest db now token
  commit_verification db now row

-- `POST /verify/resend`
unfoldable pub resend : (Text → Bytes) → AuthDb → ℕ → ℕ → Text → ℕ → Result AuthDb
unfolding issue_verification
resend digest db now id token user_id = do
  user ← required (find (λ u. u.id == user_id) db.accounts) internal
  ok (
      if is_none user.email_verified_at
      then issue_verification digest db now id token user.id
      else db)
