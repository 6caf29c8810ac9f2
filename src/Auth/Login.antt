-- ===== src/Auth/Login.antt =====
-- backend/src/modules/auth/auth.routes.ts: signing in, changing the master password and
-- authenticating again. The floor under the time of a failure, the sign-in history and the mails are
-- left out.
pub mod Laws
use safe_pass.Base.{
  ℕ, Bool, true, false, ◌&&◌, not, Option, none, some, [], ◌==◌, find, update, any, if◌then◌else◌,
}
use safe_pass.Envelope.{Value, assert_key_wrap, bytes}
use safe_pass.Envelope.Base64.{Text, Bytes}
use safe_pass.Errors.{
  Result, ok, api, internal, auth_failed, validation_failed, guard, required, ◌>>=◌, ◌>>◌,
}
use safe_pass.Json.{normalize}
use safe_pass.Tables.{text_eq}
use safe_pass.Auth.Store.{AuthDb, Account, UserKeyring, Session, KdfParams, argon2id}
use safe_pass.Auth.Session.{is_none, issue_session, mark_siblings_for_reauth, revoke_all_except}
use safe_pass.Auth.Totp.{confirmed_enrolment}

-- `DEFAULT_PARAMS`
abbrev pub default_params : KdfParams
default_params = record {
  algorithm = argon2id;
  memory_kib = 65536;
  iterations = 3;
  parallelism = 1;
}

-- What a sign-in answers: the keyring, or that the second factor is due.
pub data LoginReply : Type 0 where
  totp_required : LoginReply
  signed_in : UserKeyring → LoginReply

-- The account that an address and an authentication hash name. Without a hash the code compares 32
-- random bytes, which no stored digest is taken to equal.
unfoldable pub authenticated : (Text → Bytes) → AuthDb → Text → Text → Option Account
authenticated auth_digest db email auth_hash =
    elim (find (λ u. not (text_eq email []) && text_eq u.email email) db.accounts) [
      | none ↦ none
      | some u ↦
          if not (text_eq auth_hash []) && text_eq (auth_digest auth_hash) u.auth_hash_digest
          then some u
          else none
    ]

-- `POST /auth/login`, with the id and the token of the new session.
unfoldable pub login :
    (Text → Bytes)
    → (Text → Bytes)
    → AuthDb
    → ℕ
    → ℕ
    → Text
    → Option Text
    → Text
    → Text
    → Result (AuthDb × LoginReply)
unfolding authenticated confirmed_enrolment issue_session
login auth_digest digest db now id token device_label raw_email auth_hash = do
  user ← required (authenticated auth_digest db (normalize raw_email) auth_hash) (api auth_failed)
  keyring ← required (find (λ k. k.user_id == user.id) db.keyrings) (api auth_failed)
  let pending = not (is_none (confirmed_enrolment db user.id))
  db1 ← issue_session digest db now id token user.id device_label pending
  ok (db1, (if pending then totp_required else signed_in keyring))

-- `PUT /auth/master-password`; the parameters are none if the body has none.
unfoldable pub change_master_password :
    (Text → Bytes) → AuthDb → ℕ → Session → Text → Text → Value → Option KdfParams → Result AuthDb
unfolding mark_siblings_for_reauth
change_master_password auth_digest db now session current new_hash raw params = do
  user ← required (find (λ u. u.id == session.user_id) db.accounts) internal
  guard (text_eq (auth_digest current) user.auth_hash_digest) (api auth_failed)
  guard (not (text_eq new_hash [])) (api validation_failed)
  new_wrapped_user_key ← assert_key_wrap raw
  guard (any (λ k. k.user_id == user.id) db.keyrings) internal
  ok
      (mark_siblings_for_reauth
        (record db {
          accounts =
              update (λ u. u.id == user.id)
                (λ u. record u {
                  auth_hash_digest = auth_digest new_hash;
                  kdf = elim params [ none ↦ default_params | some p ↦ p ];
                })
                db.accounts;
          keyrings =
              update (λ k. k.user_id == user.id)
                (λ k. record k { wrapped_user_key = bytes new_wrapped_user_key }) db.keyrings;
        })
        now user.id session.id).0

-- `POST /auth/reauth`
unfoldable pub reauth : (Text → Bytes) → AuthDb → Session → Text → Result AuthDb
reauth auth_digest db session auth_hash = do
  user ← required (find (λ u. u.id == session.user_id) db.accounts) internal
  guard (text_eq (auth_digest auth_hash) user.auth_hash_digest) (api auth_failed)
  ok (record db {
    sessions =
        update (λ s. s.id == session.id) (λ s. record s { reauth_required_at = none }) db.sessions;
  })

-- `DELETE /auth/sessions`
unfoldable pub delete_sessions : AuthDb → ℕ → Session → AuthDb
unfolding revoke_all_except
delete_sessions db now session = revoke_all_except db now session.user_id session.id
