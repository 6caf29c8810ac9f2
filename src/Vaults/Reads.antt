-- ===== src/Vaults/Reads.antt =====
-- The routes of one vault that only read it, of backend/src/modules/vaults/vaults.routes.ts,
-- sharing.routes.ts, rotation.routes.ts and of backend/src/modules/secrets. A reply is the rows that
-- it shows; what it leaves out of them, their order and their dates are not modelled.
use safe_pass.Base.{ℕ, ◌&&◌, List, ◌==◌, find, filter, take}
use safe_pass.Errors.{Result, ok, api, not_found, required, ◌>>=◌}
use safe_pass.Store.{
  Db, VaultMembership, VaultInvitation, VaultRotation, Secret, Folder, Tag, ActivityLogEntry, owner,
  viewer, is_outstanding, running_in,
}
use safe_pass.Vaults.Authz.{require_membership}

-- `GET /vaults/:vaultId/secrets`, `…/folders` and `…/tags`
unfoldable pub list_secrets : Db → ℕ → ℕ → Result (List Secret)
list_secrets db user_id vault_id = do
  _ ← require_membership db vault_id user_id viewer
  ok (filter (λ s. s.vault_id == vault_id) db.secrets)

unfoldable pub list_folders : Db → ℕ → ℕ → Result (List Folder)
list_folders db user_id vault_id = do
  _ ← require_membership db vault_id user_id viewer
  ok (filter (λ f. f.vault_id == vault_id) db.folders)

unfoldable pub list_tags : Db → ℕ → ℕ → Result (List Tag)
list_tags db user_id vault_id = do
  _ ← require_membership db vault_id user_id viewer
  ok (filter (λ t. t.vault_id == vault_id) db.tags)

-- `GET /vaults/:vaultId/rotation`
unfoldable pub get_rotation : Db → ℕ → ℕ → Result VaultRotation
get_rotation db user_id vault_id = do
  _ ← require_membership db vault_id user_id viewer
  required (find (running_in vault_id) db.rotations) (api not_found)

-- `GET /vaults/:vaultId/secrets/:secretId`
unfoldable pub get_secret : Db → ℕ → ℕ → ℕ → Result Secret
get_secret db user_id vault_id secret_id = do
  _ ← require_membership db vault_id user_id viewer
  required (find (λ s. s.id == secret_id && s.vault_id == vault_id) db.secrets) (api not_found)

-- `GET /vaults/:vaultId/members`
unfoldable pub list_members : Db → ℕ → ℕ → Result (List VaultMembership)
list_members db user_id vault_id = do
  _ ← require_membership db vault_id user_id owner
  ok (filter (λ m. m.vault_id == vault_id) db.memberships)

-- `GET /vaults/:vaultId/invitations`
unfoldable pub list_invitations : Db → ℕ → ℕ → Result (List VaultInvitation)
list_invitations db user_id vault_id = do
  _ ← require_membership db vault_id user_id owner
  ok (filter (λ i. i.vault_id == vault_id && is_outstanding i.state) db.invitations)

-- `GET /vaults/:vaultId/activity`: the log has its latest entry first.
unfoldable pub list_activity : Db → ℕ → ℕ → Result (List ActivityLogEntry)
list_activity db user_id vault_id = do
  _ ← require_membership db vault_id user_id viewer
  ok (take 200 (filter (λ a. a.vault_id == vault_id) db.activity))

-- A request that reads one vault, and its reply.
pub data VaultRead : Type 0 where
  secrets folders tags progress members invitations activity : VaultRead
  secret : ℕ → VaultRead

pub data Shown : Type 0 where
  shown_secrets : List Secret → Shown
  shown_folders : List Folder → Shown
  shown_tags : List Tag → Shown
  shown_progress : VaultRotation → Shown
  shown_members : List VaultMembership → Shown
  shown_invitations : List VaultInvitation → Shown
  shown_activity : List ActivityLogEntry → Shown
  shown_secret : Secret → Shown

unfoldable pub read_vault : Db → ℕ → ℕ → VaultRead → Result Shown
unfolding list_secrets list_folders list_tags get_rotation get_secret list_members list_invitations
    list_activity
read_vault db user_id v secrets = list_secrets db user_id v >>= λ rows. ok (shown_secrets rows)
read_vault db user_id v folders = list_folders db user_id v >>= λ rows. ok (shown_folders rows)
read_vault db user_id v tags = list_tags db user_id v >>= λ rows. ok (shown_tags rows)
read_vault db user_id v progress = get_rotation db user_id v >>= λ row. ok (shown_progress row)
read_vault db user_id v members = list_members db user_id v >>= λ rows. ok (shown_members rows)
read_vault db user_id v invitations =
    list_invitations db user_id v >>= λ rows. ok (shown_invitations rows)
read_vault db user_id v activity = list_activity db user_id v >>= λ rows. ok (shown_activity rows)
read_vault db user_id v (secret id) = get_secret db user_id v id >>= λ row. ok (shown_secret row)
