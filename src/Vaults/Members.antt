-- ===== src/Vaults/Members.antt =====
-- backend/src/modules/vaults/vaults.routes.ts, the membership routes, and revoke.ts.
pub mod Revoked
use safe_pass.Base.{
  ℕ, Bool, true, false, ◌&&◌, not, ◌||◌, Option, none, some, List, ◌==◌, find, count, update,
  delete,
}
use safe_pass.Errors.{Result, ok, api, not_found, last_owner, ◌>>=◌, ◌>>◌, guard, required, when}
use safe_pass.Envelope.{Value}
use safe_pass.Store.{
  Db, Role, VaultMembership, MembershipStatus, owner, active, invited, revoked, accepted, declined,
  member_revoked, role_changed, is_owner, is_active, is_invited, is_live, member_of,
  is_active_owner, log,
}
use safe_pass.Tables.{delete_membership}
use safe_pass.Vaults.Authz.{require_membership, as_role}

-- Another owner who can manage the vault.
abbrev pub is_other_owner : ℕ → ℕ → VaultMembership → Bool
is_other_owner vault_id user_id m = is_active_owner vault_id m && not (m.user_id == user_id)

-- `assertNotLastOwner`
unfoldable pub assert_not_last_owner : Db → ℕ → ℕ → Result (Unit {0})
assert_not_last_owner db vault_id user_id =
    guard (not (count (is_other_owner vault_id user_id) db.memberships == 0)) (api last_owner)

abbrev pub is_invitee : ℕ → ℕ → VaultMembership → Bool
is_invitee vault_id user_id m = member_of vault_id user_id m && is_invited m.status

-- `POST /vaults/:vaultId/members/accept`
unfoldable pub accept : Db → ℕ → ℕ → ℕ → Result Db
unfolding log
accept db now user_id vault_id = do
  membership ← required (find (is_invitee vault_id user_id) db.memberships) (api not_found)
  ok (
      log
        (record {
          vault_id = vault_id;
          actor_id = some user_id;
          subject_id = some user_id;
          action = accepted;
        })
        (record db {
          memberships =
              update (λ m. m.id == membership.id)
                (λ m. record m { status = active; accepted_at = some now }) db.memberships;
        }))

-- `POST /vaults/:vaultId/members/decline`
unfoldable pub decline : Db → ℕ → ℕ → Result Db
unfolding log delete_membership
decline db user_id vault_id = do
  membership ← required (find (is_invitee vault_id user_id) db.memberships) (api not_found)
  ok (
      log
        (record {
          vault_id = vault_id;
          actor_id = some user_id;
          subject_id = some user_id;
          action = declined;
        })
        (delete_membership membership.id db))

-- `PATCH /vaults/:vaultId/members/:userId`
unfoldable pub change_role : Db → ℕ → ℕ → ℕ → Value → Result Db
unfolding log assert_not_last_owner
change_role db actor vault_id user_id raw = do
  _ ← require_membership db vault_id actor owner
  role ← as_role raw
  membership ← required (find (member_of vault_id user_id) db.memberships) (api not_found)
  when (is_owner membership.role && not (is_owner role)) (assert_not_last_owner db vault_id user_id)
  ok (
      log
        (record {
          vault_id = vault_id;
          actor_id = some actor;
          subject_id = some user_id;
          action = role_changed;
        })
        (record db {
          memberships =
              update (λ m. m.id == membership.id) (λ m. record m { role = role }) db.memberships;
        }))

-- `revokeMember` of revoke.ts: the membership is revoked and every wrap that it held is deleted.
unfoldable pub revoke_member : Db → ℕ → ℕ → ℕ → ℕ → Result Db
unfolding log
revoke_member db now vault_id user_id actor = do
  membership ← required (find (member_of vault_id user_id) db.memberships) (api not_found)
  guard (is_live membership.status) (api not_found)
  when (is_owner membership.role)
      (guard (not (count (is_other_owner vault_id user_id) db.memberships == 0)) (api last_owner))
  ok (
      log
        (record {
          vault_id = vault_id;
          actor_id = some actor;
          subject_id = some user_id;
          action = member_revoked;
        })
        (record db {
          memberships =
              update (λ m. m.id == membership.id)
                (λ m. record m { status = revoked; revoked_at = some now }) db.memberships;
          wraps = delete (λ w. w.membership_id == membership.id) db.wraps;
        }))

-- `DELETE /vaults/:vaultId/members/:userId` of sharing.routes.ts
unfoldable pub revoke : Db → ℕ → ℕ → ℕ → ℕ → Result Db
unfolding revoke_member
revoke db now actor vault_id user_id = do
  _ ← require_membership db vault_id actor owner
  revoke_member db now vault_id user_id actor
