-- ===== src/Vaults/Invitations.antt =====
-- backend/src/modules/vaults/invitation.service.ts and invitation.expiry.ts: invitations to
-- addresses without an account. The mails that the code sends are left out.
pub mod Expiry
use safe_pass.Base.{
  ℕ, ◌+◌, ◌*◌, Bool, true, false, ◌&&◌, not, none, some, List, [], ◌∷◌, ◌==◌, find, filter, update,
  ltb, length,
}
use safe_pass.Errors.{
  Result, ok, api, internal, not_found, validation_failed, invitation_exists, invitation_not_ready,
  key_version_stale, ◌>>=◌, ◌>>◌, guard, required,
}
use safe_pass.Envelope.Base64.{Text, Bytes}
use safe_pass.Json.{normalize, Number, number_is}
use safe_pass.Store.{
  Db, Role, VaultMembership, VaultInvitation, InvitationState, pending, ready, completed, withdrawn,
  expired, invited, invitee_invited, invitation_ready, invitation_completed, invitation_withdrawn,
  invitation_expired, is_outstanding, log,
}
use safe_pass.Tables.{text_eq, insert_invitation, insert_membership, insert_wrap}

-- `INVITATION_DAYS` in milliseconds.
abbrev pub invitation_ms : ℕ
invitation_ms = 14 * 24 * 60 * 60 * 1000

abbrev pub is_pending : InvitationState → Bool
is_pending pending = true
is_pending _ = false

abbrev is_ready : InvitationState → Bool
is_ready ready = true
is_ready _ = false

abbrev pub outstanding_for : ℕ → Text → VaultInvitation → Bool
outstanding_for vault_id email i =
    i.vault_id == vault_id && (text_eq i.invitee_email email && is_outstanding i.state)

pub record PendingInvitation : Type 0 where
  pub vault_id : ℕ
  pub invitee_email : Text
  pub role : Role
  pub invited_by_id : ℕ
  pub supplied_key_material : Bool

-- `createPendingInvitation`
unfoldable pub create_pending_invitation : Db → ℕ → ℕ → PendingInvitation → Result Db
unfolding log insert_invitation
create_pending_invitation db now id params = do
  guard (not params.supplied_key_material) (api validation_failed)
  let email = normalize params.invitee_email
  guard
      (elim (find (outstanding_for params.vault_id email) db.invitations) [
        | none ↦ true
        | some _ ↦ false
      ])
      (api invitation_exists)
  db1 ←
      insert_invitation
        (record {
          id = id;
          vault_id = params.vault_id;
          invitee_email = email;
          role = params.role;
          invited_by_id = params.invited_by_id;
          state = pending;
          expires_at = now + invitation_ms;
          completed_at = none;
          membership_id = none;
        })
        db
  ok (
      log
        (record {
          vault_id = params.vault_id;
          actor_id = some params.invited_by_id;
          subject_id = none;
          action = invitee_invited;
        })
        db1)

-- The transaction for one waiting invitation in `promotePendingInvitations`.
unfoldable pub promote : VaultInvitation → Db → Db
unfolding log
promote i db =
    log
      (record {
        vault_id = i.vault_id;
        actor_id = none;
        subject_id = none;
        action = invitation_ready;
      })
      (record db {
        invitations = update (λ x. x.id == i.id) (λ x. record x { state = ready }) db.invitations;
      })

unfoldable pub promote_all : List VaultInvitation → Db → Db
unfolding promote
promote_all [] db = db
promote_all (i ∷ rest) db = promote_all rest (promote i db)

-- `promotePendingInvitations`
unfoldable pub promote_pending_invitations : Db → Text → Db × ℕ
unfolding promote_all
promote_pending_invitations db email =
    let waiting =
      filter (λ i. text_eq i.invitee_email (normalize email) && is_pending i.state)
        db.invitations in
    (promote_all waiting db, length waiting)

-- The row of somebody who has been invited and has not answered.
abbrev pub invited_row : ℕ → ℕ → ℕ → Role → ℕ → VaultMembership
invited_row id vault_id user_id role actor = record {
  id = id;
  vault_id = vault_id;
  user_id = user_id;
  role = role;
  status = invited;
  invited_by = some actor;
  accepted_at = none;
  revoked_at = none;
}

-- `completeInvitation`, with the id of the membership that the database client draws.
unfoldable pub complete_invitation : Db → ℕ → ℕ → ℕ → ℕ → ℕ → Bytes → Number → Result Db
unfolding log insert_membership insert_wrap
complete_invitation db now membership_id vault_id invitation_id actor wrapped key_version = do
  invitation ←
      required (find (λ i. i.id == invitation_id && i.vault_id == vault_id) db.invitations)
        (api not_found)
  guard (is_ready invitation.state) (api invitation_not_ready)
  vault ← required (find (λ v. v.id == vault_id) db.vaults) internal
  guard (number_is key_version vault.key_version) (api key_version_stale)
  recipient ←
      required (find (λ u. text_eq u.email invitation.invitee_email) db.users)
        (api invitation_not_ready)
  db1 ← insert_membership (invited_row membership_id vault_id recipient.id invitation.role actor) db
  db2 ←
      insert_wrap
        (record {
          membership_id = membership_id;
          key_version = vault.key_version;
          wrapped_vault_key = wrapped;
        })
        db1
  ok (
      log
        (record {
          vault_id = vault_id;
          actor_id = some actor;
          subject_id = some recipient.id;
          action = invitation_completed;
        })
        (record db2 {
          invitations =
              update (λ i. i.id == invitation.id)
                (λ i. record i {
                  state = completed;
                  completed_at = some now;
                  membership_id = some membership_id;
                })
                db2.invitations;
        }))

-- `withdrawInvitation`
unfoldable pub withdraw_invitation : Db → ℕ → ℕ → ℕ → Result Db
unfolding log
withdraw_invitation db vault_id invitation_id actor = do
  invitation ←
      required (find (λ i. i.id == invitation_id && i.vault_id == vault_id) db.invitations)
        (api not_found)
  guard (is_outstanding invitation.state) (api invitation_exists)
  ok (
      log
        (record {
          vault_id = vault_id;
          actor_id = some actor;
          subject_id = none;
          action = invitation_withdrawn;
        })
        (record db {
          invitations =
              update (λ i. i.id == invitation.id) (λ i. record i { state = withdrawn })
                db.invitations;
        }))

-- The transaction for one stale invitation.
unfoldable pub expire : VaultInvitation → Db → Db
unfolding log
expire i db =
    log
      (record {
        vault_id = i.vault_id;
        actor_id = none;
        subject_id = none;
        action = invitation_expired;
      })
      (record db {
        invitations = update (λ x. x.id == i.id) (λ x. record x { state = expired }) db.invitations;
      })

unfoldable pub expire_all : List VaultInvitation → Db → Db
unfolding expire
expire_all [] db = db
expire_all (i ∷ rest) db = expire_all rest (expire i db)

abbrev pub is_stale : ℕ → VaultInvitation → Bool
is_stale now i = is_outstanding i.state && ltb i.expires_at now

-- `expireStaleInvitations`
unfoldable pub expire_stale_invitations : Db → ℕ → Db × ℕ
unfolding expire_all
expire_stale_invitations db now =
    let stale = filter (is_stale now) db.invitations in (expire_all stale db, length stale)
