-- ===== src/Requests.antt =====
-- The requests of backend/src/modules/vaults, backend/src/modules/secrets and of the export of
-- backend/src/modules/backup that change vault data, as backend/src/server.ts registers their routes,
-- and what the server makes of one. Registration, import and the deletion of an account are not among
-- them. A failed request leaves the database as it was: each handler writes in one transaction, after
-- its checks.
pub mod Owners
pub mod Authority
pub mod Visits
use safe_pass.Base.{ℕ, Bool, true, false, Option, none, some, List, [], ◌∷◌}
use safe_pass.Errors.{Result, ok, err, ◌>>=◌}
use safe_pass.Envelope.{Value}
use safe_pass.Json.{Number}
use safe_pass.Store.{Db, Role, owner, editor}
use safe_pass.Vaults.Lifecycle.{CreateVault, create_vault, rename_vault, delete_vault}
use safe_pass.Vaults.Members.{accept, decline, change_role, revoke}
use safe_pass.Vaults.Sharing.{InviteMember, invite_member, complete, withdraw}
use safe_pass.Vaults.Export.{Backup, export_vault}
use safe_pass.Vaults.Rotation.{
  OpenRotation, RotationBatch, open_rotation, rotation_batch, close_rotation,
}
use safe_pass.Secrets.{
  CreateSecret, UpdateSecret, TagIds, create_secret, update_secret, remove_secret,
}
use safe_pass.Organise.{
  Disposition, create_folder, rename_folder, delete_folder, create_tag, delete_tag, set_tags,
}

-- A request to one vault that asks for a role in it and writes, with its path parameters and body. The
-- routes that only read are in Vaults/Reads.antt; the two answers to an invitation are of `Request`.
pub data VaultRequest : Type 0 where
  rename : Value → VaultRequest
  delete : VaultRequest
  role_change : ℕ → Value → VaultRequest
  revocation : ℕ → VaultRequest
  invitation : InviteMember → VaultRequest
  completion : ℕ → Value → Number → VaultRequest
  withdrawal : ℕ → VaultRequest
  rotation : OpenRotation → VaultRequest
  batch : RotationBatch → VaultRequest
  close : VaultRequest
  new_secret : CreateSecret → VaultRequest
  save_secret : ℕ → UpdateSecret → VaultRequest
  secret_removal : ℕ → VaultRequest
  new_folder : Value → VaultRequest
  folder_name : ℕ → Value → VaultRequest
  folder_removal : ℕ → Disposition → VaultRequest
  new_tag : Value → VaultRequest
  tag_removal : ℕ → VaultRequest
  secret_tags : ℕ → TagIds → VaultRequest
  exporting : VaultRequest

pub data Request : Type 0 where
  found : CreateVault → Request
  acceptance : ℕ → Request
  refusal : ℕ → Request
  to_vault : ℕ → VaultRequest → Request

-- What a request meets: the time, the ids that the database client draws for new rows, and the user
-- of its session.
pub record Context : Type 0 where
  pub now : ℕ
  pub new_id : ℕ
  pub second_id : ℕ
  pub actor : ℕ

unfoldable pub handle_vault : Context → ℕ → VaultRequest → Db → Result Db
handle_vault c v (rename raw) db = rename_vault db c.actor v raw
handle_vault c v delete db = delete_vault db c.actor v
handle_vault c v (role_change u raw) db = change_role db c.actor v u raw
handle_vault c v (revocation u) db = revoke db c.now c.actor v u
handle_vault c v (invitation body) db = invite_member db c.now c.new_id c.actor v body
handle_vault c v (completion i raw n) db = complete db c.now c.new_id c.actor v i raw n
handle_vault c v (withdrawal i) db = withdraw db c.actor v i
handle_vault c v (rotation body) db = open_rotation db c.new_id c.actor v body
handle_vault c v (batch body) db = rotation_batch db c.actor v body
handle_vault c v close db = close_rotation db c.now c.actor v
handle_vault c v (new_secret body) db = create_secret db c.new_id c.actor v body
handle_vault c v (save_secret s body) db = update_secret db c.actor v s body
handle_vault c v (secret_removal s) db = remove_secret db c.actor v s
handle_vault c v (new_folder raw) db = create_folder db c.new_id c.actor v raw
handle_vault c v (folder_name f raw) db = rename_folder db c.actor v f raw
handle_vault c v (folder_removal f d) db = delete_folder db c.actor v f d
handle_vault c v (new_tag raw) db = create_tag db c.new_id c.actor v raw
handle_vault c v (tag_removal t) db = delete_tag db c.actor v t
handle_vault c v (secret_tags s ts) db = set_tags db c.actor v s ts
handle_vault c v exporting db = export_vault db c.actor v >>= λ (out : Db × Backup). ok out.0

unfoldable pub handle : Context → Request → Db → Result Db
handle c (found body) db = create_vault db c.now c.actor c.new_id c.second_id body
handle c (acceptance v) db = accept db c.now c.actor v
handle c (refusal v) db = decline db c.actor v
handle c (to_vault v r) db = handle_vault c v r db

-- The role that the route of a request asks for.
unfoldable pub needs : VaultRequest → Role
needs (rename raw) = owner
needs delete = owner
needs (role_change u raw) = owner
needs (revocation u) = owner
needs (invitation body) = owner
needs (completion i raw n) = owner
needs (withdrawal i) = owner
needs (rotation body) = owner
needs (batch body) = owner
needs close = owner
needs (new_secret body) = editor
needs (save_secret s body) = editor
needs (secret_removal s) = editor
needs (new_folder raw) = editor
needs (folder_name f raw) = editor
needs (folder_removal f d) = editor
needs (new_tag raw) = editor
needs (tag_removal t) = editor
needs (secret_tags s ts) = editor
needs exporting = owner
