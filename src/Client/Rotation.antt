-- ===== src/Client/Rotation.antt =====
-- frontend/src/vault/rotation-worker.ts, with the routes that it reads from
-- (backend/src/modules/secrets/secrets.routes.ts, organise.routes.ts and
-- backend/src/modules/vaults/rotation.routes.ts). The worker calls the server's handlers on the
-- database, nothing else happens in between, and progress reports are left out.
pub mod Left
pub mod Batches
pub mod Sealed
pub mod Runs
pub mod Closes
pub mod Completes
pub mod Whole
use safe_pass.Base.{
  ℕ, zero, suc, ◌+◌, Bool, true, false, ◌&&◌, not, Option, none, some, List, [], ◌∷◌, ◌==◌, find,
  filter, map, length, take, drop, map_get, ◌⊎◌, inl, inr, if◌then◌else◌,
}
use safe_pass.Errors.{Result, ok, err, api, internal, not_found, ◌>>=◌, ◌>>◌, guard, required}
use safe_pass.Envelope.{Value, undefined, str}
use safe_pass.Envelope.Base64.{Text, Bytes, bytes_to_base64_url}
use safe_pass.Json.{natural}
use safe_pass.Store.{
  Db, Secret, Folder, Tag, VaultMembership, VaultRotation, owner, viewer, is_live, running_in,
}
use safe_pass.Vaults.Authz.{require_membership}
use safe_pass.Vaults.Rotation.{
  SecretRow, NamedRow, RotationBatch, OpenRotation, MemberKey, rotation_batch, close_rotation,
  open_rotation,
}
use safe_pass.Vaults.Reads.{list_secrets, list_folders, list_tags}
use safe_pass.Vaults.Sharing.{is_defined}
use safe_pass.Client.Crypto.{
  WebCrypto, encrypt, decrypt, wrap_vault_key_for_member, unwrap_vault_key_for_member,
  unwrap_vault_key_symmetric, import_public_key,
}
use safe_pass.Client.Keyring.{
  KeyringError, Keyring, add_symmetric_vault_key, add_member_vault_key, vault_key_for, read,
}

-- `BATCH_SIZE`
abbrev pub batch_size : ℕ
batch_size = 50

-- The entry of one vault in `GET /vaults`: its name, the generation of the name, and the key wraps
-- of the caller's membership.
pub record VaultView : Type 0 where
  pub name : Text
  pub name_key_version : ℕ
  pub key_wraps : List (ℕ × Text)

unfoldable pub vault_view : Db → ℕ → ℕ → Option VaultView
vault_view db user_id vault_id =
    elim (find (λ m. m.user_id == user_id && is_live m.status && m.vault_id == vault_id)
      db.memberships) [
        | none ↦ none
        | some m ↦ elim (find (λ v. v.id == vault_id) db.vaults) [
          | none ↦ none
          | some v ↦ some (record {
            name = bytes_to_base64_url v.name;
            name_key_version = v.name_key_version;
            key_wraps =
                map (λ w. (w.key_version, bytes_to_base64_url w.wrapped_vault_key))
                  (filter (λ w. w.membership_id == m.id) db.wraps);
          })
        ]
      ]

-- What is re-encrypted: each place draws a nonce of its own.
pub data Place : Type 0 where
  title_of folder_name tag_name : ℕ → Place
  field_of : ℕ → Text → Place
  name_of_vault : Place

abbrev pub is_empty {ℓ} : {A : Type ℓ} → List A → Bool
is_empty [] = true
is_empty (x ∷ xs) = false

-- The last batch, which is not sent if it would be empty.
unfoldable pub send_metadata : ℕ → ℕ → ℕ → List NamedRow → List NamedRow → Value → Db → Result Db
send_metadata actor vault_id to_version folders tags vault_name db =
    if is_empty folders && is_empty tags && not (is_defined vault_name)
    then ok db
    else rotation_batch db actor vault_id (record {
      to_version = natural to_version;
      secrets = [];
      folders = folders;
      tags = tags;
      vault_name = vault_name;
    })

module _ {PublicKey PrivateKey : Type 0} (c : WebCrypto PublicKey PrivateKey) (draw : Place → Bytes)
    (old_key new_key : Bytes) where
  -- `encrypt(newKey, await decrypt(oldKey, envelope))`
  unfoldable pub reencrypt : Place → Text → Result Text
  reencrypt place envelope = do
    plaintext ← decrypt c old_key envelope
    encrypt c (draw place) new_key plaintext

  unfoldable pub reencrypt_fields : ℕ → List (Text × Text) → Result (List (Text × Text))
  unfolding reencrypt
  reencrypt_fields id [] = ok []
  reencrypt_fields id ((field_id, envelope) ∷ fields) = do
    value ← reencrypt (field_of id field_id) envelope
    rest ← reencrypt_fields id fields
    ok ((field_id, value) ∷ rest)

  -- The rows of one batch.
  unfoldable pub secret_rows : List Secret → Result (List SecretRow)
  unfolding reencrypt reencrypt_fields
  secret_rows [] = ok []
  secret_rows (s ∷ slice) = do
    field_values ← reencrypt_fields s.id s.field_values
    title ← reencrypt (title_of s.id) (bytes_to_base64_url s.title)
    rest ← secret_rows slice
    ok (record { id = s.id; title = str title; field_values = field_values } ∷ rest)

  unfoldable pub folder_rows : List Folder → Result (List NamedRow)
  unfolding reencrypt
  folder_rows [] = ok []
  folder_rows (f ∷ folders) = do
    name ← reencrypt (folder_name f.id) (bytes_to_base64_url f.name)
    rest ← folder_rows folders
    ok (record { id = f.id; name = str name } ∷ rest)

  unfoldable pub tag_rows : List Tag → Result (List NamedRow)
  unfolding reencrypt
  tag_rows [] = ok []
  tag_rows (t ∷ tags) = do
    name ← reencrypt (tag_name t.id) (bytes_to_base64_url t.name)
    rest ← tag_rows tags
    ok (record { id = t.id; name = str name } ∷ rest)

  -- The vault's name for the last batch: absent if the server shows no vault, or if its name has
  -- left the old generation.
  unfoldable pub vault_name_value : Option VaultView → ℕ → Result Value
  unfolding reencrypt
  vault_name_value none from_version = ok undefined
  vault_name_value (some v) from_version =
      if v.name_key_version == from_version
      then (reencrypt name_of_vault v.name >>= λ name. ok (str name))
      else ok undefined

  -- The loop over the stale secrets, for at most the given number of batches.
  unfoldable pub send_secrets : ℕ → ℕ → ℕ → ℕ → List Secret → Db → Result Db
  unfolding secret_rows
  send_secrets zero actor vault_id to_version stale db = ok db
  send_secrets (suc rounds) actor vault_id to_version [] db = ok db
  send_secrets (suc rounds) actor vault_id to_version (s ∷ stale) db = do
    batch ← secret_rows (take batch_size (s ∷ stale))
    db1 ← rotation_batch db actor vault_id (record {
      to_version = natural to_version;
      secrets = batch;
      folders = [];
      tags = [];
      vault_name = undefined;
    })
    send_secrets rounds actor vault_id to_version (drop batch_size (s ∷ stale)) db1

  -- `runRotation`, with the key of the old generation. A batch takes one secret at least, so there
  -- are no more batches than secrets.
  unfoldable pub run_rotation : Db → ℕ → ℕ → ℕ → ℕ → ℕ → Result Db
  unfolding list_secrets list_folders list_tags send_secrets send_metadata folder_rows tag_rows
      vault_view vault_name_value
  run_rotation db now actor vault_id from_version to_version = do
    secrets ← list_secrets db actor vault_id
    let stale = filter (λ s. s.key_version == from_version) secrets
    folders ← list_folders db actor vault_id
    tags ← list_tags db actor vault_id
    db1 ← send_secrets (length stale) actor vault_id to_version stale db
    folders' ← folder_rows (filter (λ f. f.key_version == from_version) folders)
    tags' ← tag_rows (filter (λ t. t.key_version == from_version) tags)
    name ← vault_name_value (vault_view db1 actor vault_id) from_version
    db2 ← send_metadata actor vault_id to_version folders' tags' name db1
    close_rotation db2 now actor vault_id
