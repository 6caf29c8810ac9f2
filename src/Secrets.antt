-- ===== src/Secrets.antt =====
-- backend/src/modules/secrets/secrets.routes.ts: creating, updating and deleting a secret.
pub mod Concurrency
use safe_pass.Base.{
  ℕ, ◌+◌, Bool, true, false, ◌&&◌, ◌||◌, not, Option, none, some, List, [], ◌∷◌, ◌==◌, find, filter,
  any, count, update, delete, map, length, if◌then◌else◌,
}
use safe_pass.Errors.{
  Result, ok, err, api, internal, not_found, validation_failed, revision_conflict, ◌>>=◌, ◌>>◌,
  guard, required, when,
}
use safe_pass.Envelope.{Value, assert_envelope, bytes}
use safe_pass.Envelope.Base64.{Text}
use safe_pass.Json.{Number, natural, negative, not_integer}
use safe_pass.Store.{Db, Secret, editor, secret_deleted, log}
use safe_pass.Tables.{insert_secret, insert_secret_tags, delete_secret}
use safe_pass.Vaults.Authz.{require_membership}

-- The entries of `fieldValues`, in order: every one is an envelope.
unfoldable pub assert_entries : List (Text × Value) → Result (List (Text × Text))
assert_entries [] = ok []
assert_entries ((field, v) ∷ rest) = do
  value ← assert_envelope v
  others ← assert_entries rest
  ok ((field, value) ∷ others)

-- `assertFieldValues`; none if the field is not an object.
unfoldable pub assert_field_values : Option (List (Text × Value)) → Result (List (Text × Text))
unfolding assert_entries
assert_field_values raw = do entries ← required raw (api validation_failed); assert_entries entries

-- The `tagIds` of a body: absent, not an array of strings, or ids.
pub data TagIds : Type 0 where
  omitted malformed : TagIds
  ids : List ℕ → TagIds

-- The ids of the vault's own tags among those that are asked for.
unfoldable pub valid_tags : Db → ℕ → List ℕ → List ℕ
valid_tags db vault_id raw =
    map (λ t. t.id) (filter (λ t. t.vault_id == vault_id && any (λ i. i == t.id) raw) db.tags)

-- `resolveTagIds`
unfoldable pub resolve_tag_ids : Db → ℕ → TagIds → Result (Option (List ℕ))
unfolding valid_tags
resolve_tag_ids db vault_id omitted = ok none
resolve_tag_ids db vault_id malformed = err (api validation_failed)
resolve_tag_ids db vault_id (ids []) = ok (some [])
resolve_tag_ids db vault_id (ids (i ∷ is)) = do
  let valid = valid_tags db vault_id (i ∷ is)
  guard (length valid == length (i ∷ is)) (api validation_failed)
  ok (some valid)

pub record CreateSecret : Type 0 where
  pub title : Value
  pub field_values : Option (List (Text × Value))
  -- none if it is absent or empty
  pub template_version_id : Option ℕ
  pub folder_id : Option ℕ
  pub tag_ids : TagIds

abbrev tags_or_none : Option (List ℕ) → List ℕ
tags_or_none none = []
tags_or_none (some ts) = ts

-- `POST /vaults/:vaultId/secrets`
unfoldable pub create_secret : Db → ℕ → ℕ → ℕ → CreateSecret → Result Db
unfolding insert_secret insert_secret_tags
create_secret db secret_id actor vault_id body = do
  _ ← require_membership db vault_id actor editor
  title ← assert_envelope body.title
  field_values ← assert_field_values body.field_values
  template_version_id ← required body.template_version_id (api validation_failed)
  vault ← required (find (λ v. v.id == vault_id) db.vaults) internal
  tag_ids ← resolve_tag_ids db vault_id body.tag_ids
  db1 ←
      insert_secret
        (record {
          id = secret_id;
          vault_id = vault_id;
          template_version_id = template_version_id;
          title = bytes title;
          folder_id = body.folder_id;
          field_values = field_values;
          key_version = vault.key_version;
          revision = 1;
        })
        db
  insert_secret_tags secret_id (tags_or_none tag_ids) db1

pub record UpdateSecret : Type 0 where
  pub title : Value
  pub field_values : Option (List (Text × Value))
  pub revision : Number
  pub folder_id : Option ℕ
  pub tag_ids : TagIds

-- What a save carries into its transaction, after the body has been checked.
pub record Save : Type 0 where
  pub vault_id : ℕ
  pub secret_id : ℕ
  -- none for a negative revision, which no row has
  pub revision : Option ℕ
  pub title : Text
  pub field_values : List (Text × Text)
  pub folder_id : Option ℕ
  pub tag_ids : Option (List ℕ)

abbrev integer : Number → Result (Option ℕ)
integer (natural n) = ok (some n)
integer negative = ok none
integer not_integer = err (api validation_failed)

-- The part of `PUT /vaults/:vaultId/secrets/:secretId` before its transaction.
unfoldable pub prepare_save : Db → ℕ → ℕ → ℕ → UpdateSecret → Result Save
prepare_save db actor vault_id secret_id body = do
  _ ← require_membership db vault_id actor editor
  title ← assert_envelope body.title
  field_values ← assert_field_values body.field_values
  revision ← integer body.revision
  _ ← required (find (λ s. s.id == secret_id && s.vault_id == vault_id) db.secrets) (api not_found)
  tag_ids ← resolve_tag_ids db vault_id body.tag_ids
  ok (record {
    vault_id = vault_id;
    secret_id = secret_id;
    revision = revision;
    title = title;
    field_values = field_values;
    folder_id = body.folder_id;
    tag_ids = tag_ids;
  })

abbrev pub revision_is : Option ℕ → ℕ → Bool
revision_is none n = false
revision_is (some r) n = n == r

-- The rows that the write names: `where: { id, vaultId, revision }`.
abbrev pub matches : Save → Secret → Bool
matches save s =
    s.id == save.secret_id && s.vault_id == save.vault_id && revision_is save.revision s.revision

abbrev pub write_save : Save → Secret → Secret
write_save save s = record s {
  title = bytes save.title;
  field_values = save.field_values;
  folder_id = save.folder_id;
  revision = s.revision + 1;
}

-- Sending a set of tags replaces the old one.
unfoldable pub replace_tags : ℕ → Option (List ℕ) → Db → Result Db
unfolding insert_secret_tags
replace_tags secret_id none db = ok db
replace_tags secret_id (some ts) db =
    insert_secret_tags secret_id ts
      (record db { secret_tags = delete (λ x. x.secret_id == secret_id) db.secret_tags })

-- The transaction: the revision is checked by the write itself.
unfoldable pub commit_save : Db → Save → Result Db
unfolding replace_tags
commit_save db save =
    if not (count (matches save) db.secrets == 1)
    then (do
      _ ←
          required (find (λ s. s.id == save.secret_id && s.vault_id == save.vault_id) db.secrets)
            internal
      err (api revision_conflict))
    else (do
      guard (elim save.folder_id [ none ↦ true | some f ↦ any (λ x. x.id == f) db.folders ])
          internal
      replace_tags save.secret_id save.tag_ids
          (record db { secrets = update (matches save) (write_save save) db.secrets }))

-- `PUT /vaults/:vaultId/secrets/:secretId` with nothing between its reads and its transaction.
unfoldable pub update_secret : Db → ℕ → ℕ → ℕ → UpdateSecret → Result Db
unfolding prepare_save commit_save
update_secret db actor vault_id secret_id body = do
  save ← prepare_save db actor vault_id secret_id body
  commit_save db save

-- `DELETE /vaults/:vaultId/secrets/:secretId`
unfoldable pub remove_secret : Db → ℕ → ℕ → ℕ → Result Db
unfolding log delete_secret
remove_secret db actor vault_id secret_id = do
  _ ← require_membership db vault_id actor editor
  _ ← required (find (λ s. s.id == secret_id && s.vault_id == vault_id) db.secrets) (api not_found)
  ok (
      log
        (record {
          vault_id = vault_id;
          actor_id = some actor;
          subject_id = some secret_id;
          action = secret_deleted;
        })
        (delete_secret secret_id db))
