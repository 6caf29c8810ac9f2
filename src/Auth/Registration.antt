-- ===== src/Auth/Registration.antt =====
-- backend/src/modules/auth/auth.routes.ts: registration, whose transaction writes the tables of the
-- vaults and of authentication together. Mails, the cookie and the acknowledgement's time are left
-- out.
pub mod Laws
use safe_pass.Base.{ℕ, Bool, false, not, Option, none, some, [], ◌∷◌, ◌==◌, any}
use safe_pass.Envelope.{Value, assert_envelope, assert_key_wrap, bytes}
use safe_pass.Envelope.Base64.{Text, Bytes, base64_url_to_bytes}
use safe_pass.Errors.{
  Result, ok, api, internal, validation_failed, last_owner, guard, required, ◌>>=◌, ◌>>◌,
}
use safe_pass.Json.{normalize, includes_at}
use safe_pass.Store.{Db, Vault, personal, User, vault_created, log}
use safe_pass.Tables.{text_eq, insert_vault, insert_membership, insert_wrap}
use safe_pass.Vaults.Lifecycle.{founder}
use safe_pass.Vaults.Invitations.{promote_pending_invitations}
use safe_pass.Auth.Store.{AuthDb, Account, UserKeyring, KdfParams}
use safe_pass.Auth.Session.{issue_session}
use safe_pass.Auth.Verification.{issue_verification}
use safe_pass.Auth.Login.{default_params}

-- The two parts of the database. A user has a row in both: the columns that the vaults read, and
-- those that authentication reads.
pub record System : Type 0 where
  pub tables : Db
  pub auth : AuthDb

-- The body of `POST /auth/register`. `recovery_acknowledged` is whether the field is `true`.
pub record Registration : Type 0 where
  pub recovery_acknowledged : Bool
  pub email : Text
  pub auth_hash : Text
  pub wrapped_user_key : Value
  pub wrapped_private_key : Value
  pub wrapped_vault_key : Value
  pub personal_vault_name : Value
  pub public_key : Text
  pub kdf_params : Option KdfParams

-- The ids and tokens that the database client and the runtime draw.
pub record Drawn : Type 0 where
  pub user_id : ℕ
  pub vault_id : ℕ
  pub membership_id : ℕ
  pub session_id : ℕ
  pub session_token : Text
  pub verification_id : ℕ
  pub verification_token : Text

-- `tx.user.create` with the keyring: the primary keys, and one account for each address.
unfoldable pub create_user : Account → UserKeyring → System → Result System
create_user u k s = do
  guard (not (any (λ x. x.id == u.id) s.auth.accounts)) internal
  guard (not (any (λ x. text_eq x.email u.email) s.auth.accounts)) internal
  guard (not (any (λ x. x.user_id == k.user_id) s.auth.keyrings)) internal
  ok (record {
    tables = record s.tables {
      users =
          record { id = u.id; email = u.email; email_verified_at = u.email_verified_at }
          ∷ s.tables.users;
    };
    auth = record s.auth { accounts = u ∷ s.auth.accounts; keyrings = k ∷ s.auth.keyrings };
  })

abbrev pub personal_vault : ℕ → ℕ → Text → Vault
personal_vault vault_id user_id name = record {
  id = vault_id;
  owner_id = user_id;
  name = bytes name;
  kind = personal;
  key_version = 1;
  name_key_version = 1;
}

-- `body['kdfParams'] ?? DEFAULT_PARAMS`
abbrev pub params_of : Option KdfParams → KdfParams
params_of none = default_params
params_of (some p) = p

abbrev pub new_account : (Text → Bytes) → ℕ → Registration → Account
new_account auth_digest user_id body = record {
  id = user_id;
  email = normalize body.email;
  auth_hash_digest = auth_digest body.auth_hash;
  email_verified_at = none;
  kdf = params_of body.kdf_params;
}

-- The transaction, after the body has been read.
unfoldable pub found_account :
    (Text → Bytes)
    → System
    → ℕ
    → Drawn
    → Option Text
    → Account
    → UserKeyring
    → Text
    → Text
    → Result System
unfolding create_user insert_vault insert_membership insert_wrap log issue_session
found_account digest s now drawn device_label account keyring wrapped_vault_key name = do
  s1 ← create_user account keyring s
  db1 ← insert_vault (personal_vault drawn.vault_id account.id name) s1.tables
  db2 ← insert_membership (founder drawn.membership_id drawn.vault_id account.id now) db1
  db3 ←
      insert_wrap
        (record {
          membership_id = drawn.membership_id;
          key_version = 1;
          wrapped_vault_key = bytes wrapped_vault_key;
        })
        db2
  auth1 ←
      issue_session digest s1.auth now drawn.session_id drawn.session_token account.id device_label
        false
  ok (record {
    tables =
        log
          (record {
            vault_id = drawn.vault_id;
            actor_id = some account.id;
            subject_id = none;
            action = vault_created;
          })
          db3;
    auth = auth1;
  })

-- `POST /auth/register`
unfoldable pub register :
    (Text → Bytes)
    → (Text → Bytes)
    → System
    → ℕ
    → Drawn
    → Option Text
    → Registration
    → Result System
unfolding found_account issue_verification promote_pending_invitations
register auth_digest digest s now drawn device_label body = do
  guard body.recovery_acknowledged (api validation_failed)
  guard (includes_at (normalize body.email)) (api validation_failed)
  guard (not (text_eq body.auth_hash [])) (api validation_failed)
  wrapped_user_key ← assert_key_wrap body.wrapped_user_key
  wrapped_private_key ← assert_key_wrap body.wrapped_private_key
  wrapped_vault_key ← assert_key_wrap body.wrapped_vault_key
  name ← assert_envelope body.personal_vault_name
  guard (not (text_eq body.public_key [])) (api validation_failed)
  guard (not (any (λ u. text_eq u.email (normalize body.email)) s.auth.accounts)) (api last_owner)
  public_key ← required (base64_url_to_bytes body.public_key) internal
  s1 ←
      found_account digest s now drawn device_label (new_account auth_digest drawn.user_id body)
        (record {
          user_id = drawn.user_id;
          wrapped_user_key = bytes wrapped_user_key;
          public_key = public_key;
          wrapped_private_key = bytes wrapped_private_key;
        })
        wrapped_vault_key name
  ok (record {
    tables = (promote_pending_invitations s1.tables (normalize body.email)).0;
    auth =
        issue_verification digest s1.auth now drawn.verification_id drawn.verification_token
          drawn.user_id;
  })
