-- ===== src/Auth/Account.antt =====
-- backend/src/modules/auth/account.routes.ts: deleting an account, by a mailed token or from a session.
-- Mails and the column deletionRequestedAt, which only the export of personal data reads, are left
-- out, and of the rows that go with a user his templates and his sign-in history.
pub mod Laws
use safe_pass.Base.{
  ℕ, Bool, false, ◌&&◌, not, Option, none, some, List, [], ◌∷◌, ◌++◌, ◌==◌, find, filter, count,
  delete, any, if◌then◌else◌,
}
use safe_pass.Envelope.Base64.{Text, Bytes}
use safe_pass.Errors.{
  Result, ok, api, internal, validation_failed, auth_failed, last_owner, guard, required, ◌>>=◌,
  ◌>>◌,
}
use safe_pass.Json.{normalize}
use safe_pass.Store.{Db, Vault, VaultMembership, ActivityLogEntry, is_live}
use safe_pass.Tables.{text_eq, delete_vault_rows}
use safe_pass.Auth.Store.{AuthDb, Account}
use safe_pass.Auth.Guard.{codes}
use safe_pass.Auth.BackupCodes.{is_candidate}
use safe_pass.Auth.Registration.{System}

-- `digest` of a token, as it is stored among the backup codes.
abbrev pub deletion_digest : (Text → Bytes) → Text → Bytes
deletion_digest sha256 token = sha256 (codes "deletion:" ++ token)

-- The new row of the user that a request for a deletion found, if any.
unfoldable pub store_token : (Text → Bytes) → AuthDb → ℕ → Text → Option Account → Result AuthDb
store_token sha256 db id token none = ok db
store_token sha256 db id token (some u) = do
  guard (not (any (λ c. c.id == id) db.backup_codes)) internal
  ok (record db {
    backup_codes =
        record {
          id = id;
          user_id = u.id;
          code_digest = deletion_digest sha256 token;
          used_at = none;
        }
        ∷ db.backup_codes;
  })

-- `POST /account/deletion-request`, with the id and the token that are drawn.
unfoldable pub deletion_request : (Text → Bytes) → AuthDb → ℕ → Text → Text → Result AuthDb
unfolding store_token
deletion_request sha256 db id token raw_email =
    let email = normalize raw_email in
    store_token sha256 db id token
      (if text_eq email [] then none else find (λ u. text_eq u.email email) db.accounts)

-- A member whom the deletion of the vault would shut out.
abbrev pub is_other_member : ℕ → ℕ → VaultMembership → Bool
is_other_member vault_id user_id m =
    m.vault_id == vault_id && (is_live m.status && not (m.user_id == user_id))

-- The loop of `deleteAccount`, with the memberships as they were read before it.
unfoldable pub delete_owned : ℕ → List VaultMembership → List Vault → Db → Result Db
unfolding delete_vault_rows
delete_owned user_id memberships [] db = ok db
delete_owned user_id memberships (v ∷ owned) db = do
  guard (count (is_other_member v.id user_id) memberships == 0) (api last_owner)
  db1 ← delete_vault_rows v.id db
  delete_owned user_id memberships owned db1

-- An entry of the activity log that a user is the actor of.
abbrev pub acted : ℕ → ActivityLogEntry → Bool
acted user_id a = elim a.actor_id [ none ↦ false | some u ↦ u == user_id ]

-- `tx.user.delete`: owned vaults, sent invitations and started rotations refuse it, and so does the
-- trigger of the activity log, whose entries would lose their actor. The rest goes with the user.
unfoldable pub delete_user : ℕ → System → Result System
delete_user user_id s = do
  guard (not (any (λ v. v.owner_id == user_id) s.tables.vaults)) internal
  guard (not (any (λ i. i.invited_by_id == user_id) s.tables.invitations)) internal
  guard (not (any (λ r. r.started_by_id == user_id) s.tables.rotations)) internal
  guard (not (any (acted user_id) s.tables.activity)) internal
  ok (record {
    tables = record s.tables {
      users = delete (λ u. u.id == user_id) s.tables.users;
      memberships = delete (λ m. m.user_id == user_id) s.tables.memberships;
      wraps =
          delete
            (λ w. any (λ m. m.id == w.membership_id && m.user_id == user_id) s.tables.memberships)
            s.tables.wraps;
    };
    auth = record {
      accounts = delete (λ u. u.id == user_id) s.auth.accounts;
      keyrings = delete (λ k. k.user_id == user_id) s.auth.keyrings;
      verifications = delete (λ v. v.user_id == user_id) s.auth.verifications;
      sessions = delete (λ x. x.user_id == user_id) s.auth.sessions;
      backup_codes = delete (λ c. c.user_id == user_id) s.auth.backup_codes;
      enrolments = delete (λ e. e.user_id == user_id) s.auth.enrolments;
    };
  })

-- `deleteAccount`. The update of the activity log sets no column.
unfoldable pub delete_account : ℕ → System → Result System
unfolding delete_owned delete_user
delete_account user_id s = do
  db1 ←
      delete_owned user_id s.tables.memberships
        (filter (λ v. v.owner_id == user_id) s.tables.vaults) s.tables
  user ← required (find (λ u. u.id == user_id) s.auth.accounts) internal
  delete_user user_id (record s {
    tables = record db1 {
      invitations = delete (λ i. text_eq i.invitee_email user.email) db1.invitations;
    };
  })

-- `POST /account/deletion-confirm`
unfoldable pub deletion_confirm : (Text → Bytes) → System → Text → Text → Result System
unfolding delete_account
deletion_confirm sha256 s raw_email token = do
  guard (not (text_eq (normalize raw_email) []) && not (text_eq token [])) (api validation_failed)
  user ←
      required (find (λ u. text_eq u.email (normalize raw_email)) s.auth.accounts) (api auth_failed)
  _ ←
      required (find (is_candidate user.id (deletion_digest sha256 token)) s.auth.backup_codes)
        (api auth_failed)
  delete_account user.id s
