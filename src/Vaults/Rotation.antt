-- ===== src/Vaults/Rotation.antt =====
-- backend/src/modules/vaults/rotation.routes.ts: opening a rotation, rewriting rows in batches, and
-- closing it.
pub mod Loops
pub mod Close
pub mod Open
use safe_pass.Base.{
  ℕ, suc, ◌+◌, Bool, true, false, ◌&&◌, ◌||◌, not, Option, none, some, List, [], ◌∷◌, ◌==◌, find,
  filter, any, count, update, delete, if◌then◌else◌,
}
use safe_pass.Errors.{
  Result, ok, api, internal, not_found, validation_failed, rotation_in_progress, key_version_stale,
  ◌>>=◌, ◌>>◌, guard, required, when,
}
use safe_pass.Envelope.{Value, assert_envelope, assert_key_wrap, bytes}
use safe_pass.Envelope.Base64.{Text}
use safe_pass.Json.{Number, number_is}
use safe_pass.Store.{
  Db, VaultMembership, VaultRotation, Secret, owner, running, finished, rotation_started,
  rotation_completed, is_live, running_in, log,
}
use safe_pass.Tables.{insert_rotation, insert_wrap}
use safe_pass.Vaults.Authz.{require_membership}
use safe_pass.Vaults.Sharing.{is_defined}

pub record Outstanding : Type 0 where
  pub secrets : ℕ
  pub folders : ℕ
  pub tags : ℕ
  pub vault_name : ℕ
  pub total : ℕ

-- `outstanding`: the rows that are still encrypted under the old generation, of all four kinds.
unfoldable pub outstanding : Db → ℕ → ℕ → Result Outstanding
outstanding db vault_id from_version = do
  vault ← required (find (λ v. v.id == vault_id) db.vaults) internal
  let secrets = count (λ s. s.vault_id == vault_id && s.key_version == from_version) db.secrets
  let folders = count (λ f. f.vault_id == vault_id && f.key_version == from_version) db.folders
  let tags = count (λ t. t.vault_id == vault_id && t.key_version == from_version) db.tags
  let vault_name : ℕ = if vault.name_key_version == from_version then 1 else 0
  ok (record {
    secrets = secrets;
    folders = folders;
    tags = tags;
    vault_name = vault_name;
    total = secrets + folders + tags + vault_name;
  })

pub record MemberKey : Type 0 where
  pub user_id : ℕ
  pub wrapped_vault_key : Value

-- The body of the opening request; `member_keys` is none if it is not an array.
pub record OpenRotation : Type 0 where
  pub to_version : Number
  pub member_keys : Option (List MemberKey)

-- The loop over the supplied keys: a wrap for each that belongs to a remaining member.
unfoldable pub add_wraps : List VaultMembership → ℕ → List MemberKey → Db → Result Db
unfolding insert_wrap
add_wraps members to_version [] db = ok db
add_wraps members to_version (k ∷ ks) db =
    let rest = add_wraps members to_version ks in
    elim (find (λ m. m.user_id == k.user_id) members) [
      | none ↦ rest db
      | some m ↦ do
        wrapped ← assert_key_wrap k.wrapped_vault_key
        db1 ←
            insert_wrap
              (record {
                membership_id = m.id;
                key_version = to_version;
                wrapped_vault_key = bytes wrapped;
              })
              db
        rest db1
    ]

abbrev pub is_remaining : ℕ → VaultMembership → Bool
is_remaining vault_id m = m.vault_id == vault_id && is_live m.status

-- `POST /vaults/:vaultId/rotation`
unfoldable pub open_rotation : Db → ℕ → ℕ → ℕ → OpenRotation → Result Db
unfolding log outstanding insert_rotation
open_rotation db rotation_id actor vault_id body = do
  _ ← require_membership db vault_id actor owner
  member_keys ← required body.member_keys (api validation_failed)
  guard (elim (find (running_in vault_id) db.rotations) [ none ↦ true | some _ ↦ false ])
      (api rotation_in_progress)
  vault ← required (find (λ v. v.id == vault_id) db.vaults) internal
  guard (number_is body.to_version (suc vault.key_version)) (api key_version_stale)
  let to_version = suc vault.key_version
  let members = filter (is_remaining vault_id) db.memberships
  guard (count (λ m. not (any (λ k. k.user_id == m.user_id) member_keys)) members == 0)
      (api validation_failed)
  total ← outstanding db vault_id vault.key_version
  db1 ←
      insert_rotation
        (record {
          id = rotation_id;
          vault_id = vault_id;
          from_version = vault.key_version;
          to_version = to_version;
          state = running;
          cursor = none;
          total_count = total.total;
          done_count = 0;
          started_by_id = actor;
          completed_at = none;
        })
        db
  db2 ← add_wraps members to_version member_keys db1
  ok (
      log
        (record {
          vault_id = vault_id;
          actor_id = some actor;
          subject_id = none;
          action = rotation_started;
        })
        (record db2 {
          vaults =
              update (λ v. v.id == vault_id) (λ v. record v { key_version = to_version })
                db2.vaults;
        }))

pub record SecretRow : Type 0 where
  pub id : ℕ
  pub title : Value
  pub field_values : List (Text × Text)

pub record NamedRow : Type 0 where
  pub id : ℕ
  pub name : Value

pub record RotationBatch : Type 0 where
  pub to_version : Number
  pub secrets : List SecretRow
  pub folders : List NamedRow
  pub tags : List NamedRow
  pub vault_name : Value

-- What the loops of a batch carry.
pub record Progress : Type 0 where
  pub db : Db
  pub cursor : Option ℕ
  pub done : ℕ

-- The three loops. A row is named by its id alone; an id that no row has is an internal error.
unfoldable pub batch_secrets : ℕ → List SecretRow → Progress → Result Progress
batch_secrets to_version [] p = ok p
batch_secrets to_version (row ∷ rest) p = do
  title ← assert_envelope row.title
  guard (any (λ s. s.id == row.id) (p.db).secrets) internal
  batch_secrets to_version rest (record {
    db = record (p.db) {
      secrets =
          update (λ s. s.id == row.id)
            (λ s. record s {
              title = bytes title;
              field_values = row.field_values;
              key_version = to_version;
            })
            (p.db).secrets;
    };
    cursor = some row.id;
    done = p.done + 1;
  })

unfoldable pub batch_folders : ℕ → List NamedRow → Progress → Result Progress
batch_folders to_version [] p = ok p
batch_folders to_version (row ∷ rest) p = do
  name ← assert_envelope row.name
  guard (any (λ f. f.id == row.id) (p.db).folders) internal
  batch_folders to_version rest (record p {
    db = record (p.db) {
      folders =
          update (λ f. f.id == row.id)
            (λ f. record f { name = bytes name; key_version = to_version }) (p.db).folders;
    };
    done = p.done + 1;
  })

unfoldable pub batch_tags : ℕ → List NamedRow → Progress → Result Progress
batch_tags to_version [] p = ok p
batch_tags to_version (row ∷ rest) p = do
  name ← assert_envelope row.name
  guard (any (λ t. t.id == row.id) (p.db).tags) internal
  batch_tags to_version rest (record p {
    db = record (p.db) {
      tags =
          update (λ t. t.id == row.id)
            (λ t. record t { name = bytes name; key_version = to_version }) (p.db).tags;
    };
    done = p.done + 1;
  })

-- The vault's own name, if the batch carries it.
unfoldable pub batch_vault_name : ℕ → ℕ → Value → Progress → Result Progress
batch_vault_name vault_id to_version raw p =
    if is_defined raw
    then (do
      name ← assert_envelope raw
      guard (any (λ v. v.id == vault_id) (p.db).vaults) internal
      ok (record p {
        db = record (p.db) {
          vaults =
              update (λ v. v.id == vault_id)
                (λ v. record v { name = bytes name; name_key_version = to_version }) (p.db).vaults;
        };
        done = p.done + 1;
      }))
    else ok p

abbrev is_empty {ℓ} : {A : Type ℓ} → List A → Bool
is_empty [] = true
is_empty (x ∷ xs) = false

-- `POST /vaults/:vaultId/rotation/batch`
unfoldable pub rotation_batch : Db → ℕ → ℕ → RotationBatch → Result Db
unfolding batch_vault_name
rotation_batch db actor vault_id body = do
  _ ← require_membership db vault_id actor owner
  rotation ← required (find (running_in vault_id) db.rotations) (api not_found)
  guard (number_is body.to_version rotation.to_version) (api key_version_stale)
  guard
      (not (
        is_empty body.secrets
        && is_empty body.folders
        && is_empty body.tags
        && not (is_defined body.vault_name)))
      (api validation_failed)
  p1 ←
      batch_secrets rotation.to_version body.secrets
        (record { db = db; cursor = rotation.cursor; done = 0 })
  p2 ← batch_folders rotation.to_version body.folders p1
  p3 ← batch_tags rotation.to_version body.tags p2
  p4 ← batch_vault_name vault_id rotation.to_version body.vault_name p3
  ok (record (p4.db) {
    rotations =
        update (λ r. r.id == rotation.id)
          (λ r. record r { cursor = p4.cursor; done_count = r.done_count + p4.done })
          (p4.db).rotations;
  })

-- `POST /vaults/:vaultId/rotation/close`
unfoldable pub close_rotation : Db → ℕ → ℕ → ℕ → Result Db
unfolding log outstanding
close_rotation db now actor vault_id = do
  _ ← require_membership db vault_id actor owner
  rotation ← required (find (running_in vault_id) db.rotations) (api not_found)
  remaining ← outstanding db vault_id rotation.from_version
  guard (remaining.total == 0) (api rotation_in_progress)
  ok (
      log
        (record {
          vault_id = vault_id;
          actor_id = some actor;
          subject_id = none;
          action = rotation_completed;
        })
        (record db {
          wraps =
              delete
                (λ w.
                  w.key_version == rotation.from_version
                  && any (λ m. m.id == w.membership_id && m.vault_id == vault_id) db.memberships)
                db.wraps;
          rotations =
              update (λ r. r.id == rotation.id)
                (λ r. record r { state = finished; completed_at = some now }) db.rotations;
        }))
