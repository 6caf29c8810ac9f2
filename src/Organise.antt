-- ===== src/Organise.antt =====
-- backend/src/modules/secrets/organise.routes.ts: folders and tags.
use safe_pass.Base.{
  ℕ, Bool, true, false, ◌&&◌, none, some, List, [], ◌∷◌, ◌==◌, find, filter, any, update, delete,
  length,
}
use safe_pass.Errors.{
  Result, ok, api, err, internal, not_found, validation_failed, ◌>>=◌, ◌>>◌, guard, required,
}
use safe_pass.Envelope.{Value, assert_envelope, bytes}
use safe_pass.Store.{Db, Secret, editor, secret_deleted, log}
use safe_pass.Tables.{insert_folder, insert_tag, insert_secret_tags}
use safe_pass.Secrets.{valid_tags, TagIds, omitted, malformed, ids}
use safe_pass.Vaults.Authz.{require_membership}

-- `POST /vaults/:vaultId/folders`
unfoldable pub create_folder : Db → ℕ → ℕ → ℕ → Value → Result Db
unfolding insert_folder
create_folder db folder_id actor vault_id raw = do
  _ ← require_membership db vault_id actor editor
  name ← assert_envelope raw
  vault ← required (find (λ v. v.id == vault_id) db.vaults) internal
  insert_folder
      (record {
        id = folder_id;
        vault_id = vault_id;
        name = bytes name;
        key_version = vault.key_version;
      })
      db

-- `PUT /vaults/:vaultId/folders/:folderId`
unfoldable pub rename_folder : Db → ℕ → ℕ → ℕ → Value → Result Db
rename_folder db actor vault_id folder_id raw = do
  _ ← require_membership db vault_id actor editor
  name ← assert_envelope raw
  _ ← required (find (λ f. f.id == folder_id && f.vault_id == vault_id) db.folders) (api not_found)
  vault ← required (find (λ v. v.id == vault_id) db.vaults) internal
  ok (record db {
    folders =
        update (λ f. f.id == folder_id)
          (λ f. record f { name = bytes name; key_version = vault.key_version }) db.folders;
  })

-- The query parameter `disposition`.
pub data Disposition : Type 0 where
  orphan cascade unstated : Disposition

abbrev pub in_folder : ℕ → Secret → Bool
in_folder folder_id s = elim s.folder_id [ none ↦ false | some f ↦ f == folder_id ]

-- An entry for each secret that a cascade destroyed.
unfoldable pub log_deletions : ℕ → ℕ → List Secret → Db → Db
unfolding log
log_deletions vault_id actor [] db = db
log_deletions vault_id actor (s ∷ rest) db = log_deletions vault_id actor rest (
    log
      (record {
        vault_id = vault_id;
        actor_id = some actor;
        subject_id = some s.id;
        action = secret_deleted;
      })
      db)

-- The secrets of the folder go, with their tags.
abbrev pub without_contents : Db → ℕ → Db
without_contents db folder_id = record db {
  secrets = delete (in_folder folder_id) db.secrets;
  secret_tags =
      delete (λ x. any (λ s. s.id == x.secret_id && in_folder folder_id s) db.secrets)
        db.secret_tags;
}

unfoldable pub cascade_folder : Db → ℕ → ℕ → ℕ → Db
unfolding log_deletions
cascade_folder db actor vault_id folder_id =
    log_deletions vault_id actor (filter (in_folder folder_id) db.secrets)
      (without_contents db folder_id)

-- The secrets of the folder stay, unfiled.
unfoldable pub orphan_folder : Db → ℕ → Db
orphan_folder db folder_id = record db {
  secrets = update (in_folder folder_id) (λ s. record s { folder_id = none }) db.secrets;
}

abbrev drop_folder : ℕ → Db → Db
drop_folder folder_id db = record db { folders = delete (λ f. f.id == folder_id) db.folders }

-- `DELETE /vaults/:vaultId/folders/:folderId`
unfoldable pub delete_folder : Db → ℕ → ℕ → ℕ → Disposition → Result Db
unfolding cascade_folder orphan_folder
delete_folder db actor vault_id folder_id disposition = do
  _ ← require_membership db vault_id actor editor
  guard (elim disposition [ orphan ↦ true | cascade ↦ true | unstated ↦ false ])
      (api validation_failed)
  _ ← required (find (λ f. f.id == folder_id && f.vault_id == vault_id) db.folders) (api not_found)
  ok (
      drop_folder folder_id (elim disposition [
        | cascade ↦ cascade_folder db actor vault_id folder_id
        | orphan ↦ orphan_folder db folder_id
        | unstated ↦ orphan_folder db folder_id
      ]))

-- `POST /vaults/:vaultId/tags`
unfoldable pub create_tag : Db → ℕ → ℕ → ℕ → Value → Result Db
unfolding insert_tag
create_tag db tag_id actor vault_id raw = do
  _ ← require_membership db vault_id actor editor
  name ← assert_envelope raw
  vault ← required (find (λ v. v.id == vault_id) db.vaults) internal
  insert_tag
      (record {
        id = tag_id;
        vault_id = vault_id;
        name = bytes name;
        key_version = vault.key_version;
      })
      db

-- `DELETE /vaults/:vaultId/tags/:tagId`
unfoldable pub delete_tag : Db → ℕ → ℕ → ℕ → Result Db
delete_tag db actor vault_id tag_id = do
  _ ← require_membership db vault_id actor editor
  _ ← required (find (λ t. t.id == tag_id && t.vault_id == vault_id) db.tags) (api not_found)
  ok (record db {
    tags = delete (λ t. t.id == tag_id) db.tags;
    secret_tags = delete (λ x. x.tag_id == tag_id) db.secret_tags;
  })

abbrev array : TagIds → Result (List ℕ)
array omitted = err (api validation_failed)
array malformed = err (api validation_failed)
array (ids is) = ok is

-- `PUT /vaults/:vaultId/secrets/:secretId/tags`
unfoldable pub set_tags : Db → ℕ → ℕ → ℕ → TagIds → Result Db
unfolding insert_secret_tags
set_tags db actor vault_id secret_id raw = do
  _ ← require_membership db vault_id actor editor
  tag_ids ← array raw
  _ ← required (find (λ s. s.id == secret_id && s.vault_id == vault_id) db.secrets) (api not_found)
  let valid = valid_tags db vault_id tag_ids
  guard (length valid == length tag_ids) (api validation_failed)
  insert_secret_tags secret_id valid
      (record db { secret_tags = delete (λ x. x.secret_id == secret_id) db.secret_tags })
