-- ===== src/Vaults/Sharing.antt =====
-- backend/src/modules/vaults/sharing.routes.ts: inviting a member, and the routes of invitations.
use safe_pass.Base.{
  ℕ, Bool, true, false, ◌&&◌, not, Option, none, some, ◌==◌, find, update, delete, any,
}
use safe_pass.Errors.{
  Result, ok, api, internal, validation_failed, invitation_exists, ◌>>=◌, ◌>>◌, guard, required,
}
use safe_pass.Envelope.{Value, undefined, other, str, assert_key_wrap, bytes}
use safe_pass.Envelope.Base64.{Text}
use safe_pass.Json.{normalize, includes_at, Number}
use safe_pass.Store.{
  Db, User, Role, VaultMembership, owner, invited, invitee_invited, is_live, member_of, log,
}
use safe_pass.Tables.{text_eq, insert_membership, insert_wrap}
use safe_pass.Vaults.Authz.{require_membership, as_role}
use safe_pass.Vaults.Invitations.{
  invited_row, create_pending_invitation, complete_invitation, withdraw_invitation,
}

abbrev pub is_defined : Value → Bool
is_defined undefined = false
is_defined other = true
is_defined (str t) = true

-- An account that has proved its address.
abbrev pub verified : Option User → Option User
verified none = none
verified (some u) = elim u.email_verified_at [ none ↦ none | some _ ↦ some u ]

abbrev pub is_live_member : ℕ → ℕ → VaultMembership → Bool
is_live_member vault_id user_id m = member_of vault_id user_id m && is_live m.status

-- A revoked member who is invited again.
abbrev pub reinvited : Role → ℕ → VaultMembership → VaultMembership
reinvited role actor m = record m {
  role = role;
  status = invited;
  invited_by = some actor;
  revoked_at = none;
}

-- `vaultMembership.upsert` on the vault and the user: the new database and the membership's id.
unfoldable pub upsert_membership : Db → ℕ → ℕ → ℕ → Role → ℕ → Result (Db × ℕ)
unfolding insert_membership
upsert_membership db membership_id vault_id user_id role actor =
    elim (find (member_of vault_id user_id) db.memberships) [
      | some m ↦ ok (
        record db {
          memberships = update (member_of vault_id user_id) (reinvited role actor) db.memberships;
        },
        m.id,
      )
      | none ↦ do
        db1 ← insert_membership (invited_row membership_id vault_id user_id role actor) db
        ok (db1, membership_id)
    ]

-- The branch of the route for a recipient with a verified account.
unfoldable pub invite_recipient : Db → ℕ → ℕ → ℕ → User → Role → Value → Result Db
unfolding log upsert_membership insert_wrap
invite_recipient db membership_id actor vault_id recipient role raw = do
  guard (not (any (is_live_member vault_id recipient.id) db.memberships)) (api invitation_exists)
  wrapped_vault_key ← assert_key_wrap raw
  vault ← required (find (λ v. v.id == vault_id) db.vaults) internal
  up ← upsert_membership db membership_id vault_id recipient.id role actor
  db2 ←
      insert_wrap
        (record {
          membership_id = up.1;
          key_version = vault.key_version;
          wrapped_vault_key = bytes wrapped_vault_key;
        })
        (record (up.0) { wraps = delete (λ w. w.membership_id == up.1) ((up.0).wraps) })
  ok (
      log
        (record {
          vault_id = vault_id;
          actor_id = some actor;
          subject_id = some recipient.id;
          action = invitee_invited;
        })
        db2)

pub record InviteMember : Type 0 where
  pub email : Text
  pub role : Value
  pub wrapped_vault_key : Value

-- `POST /vaults/:vaultId/members`; `new_id` is the id of the row that is created.
unfoldable pub invite_member : Db → ℕ → ℕ → ℕ → ℕ → InviteMember → Result Db
unfolding invite_recipient create_pending_invitation
invite_member db now new_id actor vault_id body = do
  _ ← require_membership db vault_id actor owner
  let email = normalize body.email
  role ← as_role body.role
  guard (includes_at email) (api validation_failed)
  elim (verified (find (λ u. text_eq u.email email) db.users)) [
    | none ↦ create_pending_invitation db now new_id (record {
      vault_id = vault_id;
      invitee_email = email;
      role = role;
      invited_by_id = actor;
      supplied_key_material = is_defined body.wrapped_vault_key;
    })
    | some recipient ↦
        invite_recipient db new_id actor vault_id recipient role body.wrapped_vault_key
  ]

-- `POST /vaults/:vaultId/invitations/:invitationId/complete`
unfoldable pub complete : Db → ℕ → ℕ → ℕ → ℕ → ℕ → Value → Number → Result Db
unfolding complete_invitation
complete db now membership_id actor vault_id invitation_id raw key_version = do
  _ ← require_membership db vault_id actor owner
  wrapped ← assert_key_wrap raw
  complete_invitation db now membership_id vault_id invitation_id actor (bytes wrapped) key_version

-- `DELETE /vaults/:vaultId/invitations/:invitationId`
unfoldable pub withdraw : Db → ℕ → ℕ → ℕ → Result Db
unfolding withdraw_invitation
withdraw db actor vault_id invitation_id = do
  _ ← require_membership db vault_id actor owner
  withdraw_invitation db vault_id invitation_id actor
