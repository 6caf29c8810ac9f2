-- ===== src/Vaults/Lifecycle.antt =====
-- backend/src/modules/vaults/vaults.routes.ts: creating, renaming and deleting a vault.
use safe_pass.Base.{ℕ, Bool, ◌&&◌, not, none, some, ◌==◌, find, count, update}
use safe_pass.Errors.{Result, ok, api, last_owner, internal, ◌>>=◌, ◌>>◌, guard, required}
use safe_pass.Envelope.{Value, assert_envelope, assert_key_wrap, bytes}
use safe_pass.Envelope.Base64.{Text}
use safe_pass.Store.{
  Db, Vault, standard, VaultMembership, owner, active, vault_created, is_live, is_personal, log,
}
use safe_pass.Tables.{insert_vault, insert_membership, insert_wrap, delete_vault_rows}
use safe_pass.Vaults.Authz.{require_membership}

pub record CreateVault : Type 0 where
  pub name : Value
  pub wrapped_vault_key : Value

abbrev pub new_vault : ℕ → ℕ → Text → Vault
new_vault vault_id user_id name = record {
  id = vault_id;
  owner_id = user_id;
  name = bytes name;
  kind = standard;
  key_version = 1;
  name_key_version = 1;
}

abbrev pub founder : ℕ → ℕ → ℕ → ℕ → VaultMembership
founder membership_id vault_id user_id now = record {
  id = membership_id;
  vault_id = vault_id;
  user_id = user_id;
  role = owner;
  status = active;
  invited_by = none;
  accepted_at = some now;
  revoked_at = none;
}

-- `POST /vaults`, with the ids that the database client draws.
unfoldable pub create_vault : Db → ℕ → ℕ → ℕ → ℕ → CreateVault → Result Db
unfolding insert_vault insert_membership insert_wrap log
create_vault db now user_id vault_id membership_id body = do
  name ← assert_envelope body.name
  wrapped_vault_key ← assert_key_wrap body.wrapped_vault_key
  db1 ← insert_vault (new_vault vault_id user_id name) db
  db2 ← insert_membership (founder membership_id vault_id user_id now) db1
  db3 ←
      insert_wrap
        (record {
          membership_id = membership_id;
          key_version = 1;
          wrapped_vault_key = bytes wrapped_vault_key;
        })
        db2
  ok (
      log
        (record {
          vault_id = vault_id;
          actor_id = some user_id;
          subject_id = none;
          action = vault_created;
        })
        db3)

-- `PATCH /vaults/:vaultId`
unfoldable pub rename_vault : Db → ℕ → ℕ → Value → Result Db
rename_vault db actor vault_id raw = do
  _ ← require_membership db vault_id actor owner
  name ← assert_envelope raw
  vault ← required (find (λ v. v.id == vault_id) db.vaults) internal
  ok (record db {
    vaults =
        update (λ v. v.id == vault_id)
          (λ v. record v { name = bytes name; name_key_version = vault.key_version }) db.vaults;
  })

-- The other members whose access a deletion would destroy.
abbrev other_live_members : ℕ → ℕ → VaultMembership → Bool
other_live_members vault_id user_id m =
    m.vault_id == vault_id && (is_live m.status && not (m.user_id == user_id))

-- `DELETE /vaults/:vaultId`
unfoldable pub delete_vault : Db → ℕ → ℕ → Result Db
unfolding delete_vault_rows
delete_vault db actor vault_id = do
  _ ← require_membership db vault_id actor owner
  vault ← required (find (λ v. v.id == vault_id) db.vaults) internal
  guard (not (is_personal vault.kind)) (api last_owner)
  guard (count (other_live_members vault_id actor) db.memberships == 0) (api last_owner)
  delete_vault_rows vault_id db
