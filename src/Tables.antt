-- ===== src/Tables.antt =====
-- Inserts under the constraints of backend/src/db/schema.prisma and of the constraints migration,
-- and deletes with their cascades. A violated constraint is an internal error.
pub mod Inserts
use safe_pass.Base.{
  ℕ, suc, Bool, true, false, ◌&&◌, ◌||◌, not, none, some, List, [], ◌∷◌, ◌==◌, any, delete,
}
use safe_pass.Errors.{Result, ok, internal, guard, ◌>>◌}
use safe_pass.Envelope.Base64.{Text}
use safe_pass.Store.{
  Db, Vault, VaultMembership, VaultKeyWrap, VaultInvitation, VaultRotation, Secret, Folder, Tag,
  is_personal, is_outstanding, is_running, member_of, running_in,
}

-- Equality of text.
unfoldable pub text_eq : Text → Text → Bool
text_eq [] [] = true
text_eq (a ∷ s) (b ∷ t) = a == b && text_eq s t
text_eq _ _ = false

-- The primary key, and one personal vault for each owner.
unfoldable pub insert_vault : Vault → Db → Result Db
insert_vault v db = do
  guard (not (any (λ w. w.id == v.id) db.vaults)) internal
  guard
      (not
        (is_personal v.kind && any (λ w. w.owner_id == v.owner_id && is_personal w.kind) db.vaults))
      internal
  ok (record db { vaults = v ∷ db.vaults })

-- The primary key, and one membership for each vault and user.
unfoldable pub insert_membership : VaultMembership → Db → Result Db
insert_membership m db = do
  guard (not (any (λ x. x.id == m.id) db.memberships)) internal
  guard (not (any (member_of m.vault_id m.user_id) db.memberships)) internal
  ok (record db { memberships = m ∷ db.memberships })

-- One wrap for each membership and generation, and generations from 1.
unfoldable pub insert_wrap : VaultKeyWrap → Db → Result Db
insert_wrap w db = do
  guard
      (not
        (any (λ x. x.membership_id == w.membership_id && x.key_version == w.key_version) db.wraps))
      internal
  guard (not (w.key_version == 0)) internal
  ok (record db { wraps = w ∷ db.wraps })

-- The primary key, and one outstanding invitation for each vault and address.
unfoldable pub insert_invitation : VaultInvitation → Db → Result Db
insert_invitation i db = do
  guard (not (any (λ x. x.id == i.id) db.invitations)) internal
  guard
      (not (
        is_outstanding i.state
        && any
            (λ x.
              x.vault_id == i.vault_id
              && (text_eq x.invitee_email i.invitee_email && is_outstanding x.state))
            db.invitations))
      internal
  ok (record db { invitations = i ∷ db.invitations })

-- The primary key, one running rotation for each vault, and adjacent generations.
unfoldable pub insert_rotation : VaultRotation → Db → Result Db
insert_rotation r db = do
  guard (not (any (λ x. x.id == r.id) db.rotations)) internal
  guard (not (is_running r.state && any (running_in r.vault_id) db.rotations)) internal
  guard (r.to_version == suc r.from_version) internal
  ok (record db { rotations = r ∷ db.rotations })

-- The primary key, and the references to a template version and to a folder of any vault.
unfoldable pub insert_secret : Secret → Db → Result Db
insert_secret s db = do
  guard (not (any (λ x. x.id == s.id) db.secrets)) internal
  guard (any (λ t. t == s.template_version_id) db.template_versions) internal
  guard (elim s.folder_id [ none ↦ true | some f ↦ any (λ x. x.id == f) db.folders ]) internal
  ok (record db { secrets = s ∷ db.secrets })

unfoldable pub insert_folder : Folder → Db → Result Db
insert_folder f db = do
  guard (not (any (λ x. x.id == f.id) db.folders)) internal
  ok (record db { folders = f ∷ db.folders })

unfoldable pub insert_tag : Tag → Db → Result Db
insert_tag t db = do
  guard (not (any (λ x. x.id == t.id) db.tags)) internal
  ok (record db { tags = t ∷ db.tags })

-- `createMany` of the tags of one secret; a pair that is there already is a violation.
unfoldable pub insert_secret_tags : ℕ → List ℕ → Db → Result Db
insert_secret_tags secret_id [] db = ok db
insert_secret_tags secret_id (t ∷ ts) db = do
  guard (not (any (λ x. x.secret_id == secret_id && x.tag_id == t) db.secret_tags)) internal
  insert_secret_tags secret_id ts
      (record db { secret_tags = record { secret_id = secret_id; tag_id = t } ∷ db.secret_tags })

-- A membership goes with its wraps.
unfoldable pub delete_membership : ℕ → Db → Db
delete_membership id db = record db {
  memberships = delete (λ m. m.id == id) db.memberships;
  wraps = delete (λ w. w.membership_id == id) db.wraps;
}

-- A secret goes with its tags.
unfoldable pub delete_secret : ℕ → Db → Db
delete_secret id db = record db {
  secrets = delete (λ s. s.id == id) db.secrets;
  secret_tags = delete (λ t. t.secret_id == id) db.secret_tags;
}

-- A vault goes with all rows that belong to it. The trigger of the append-only migration raises an
-- exception before any row of the activity log is deleted, a cascade's included.
unfoldable pub delete_vault_rows : ℕ → Db → Result Db
delete_vault_rows id db = do
  guard (not (any (λ a. a.vault_id == id) db.activity)) internal
  ok (record db {
    vaults = delete (λ v. v.id == id) db.vaults;
    memberships = delete (λ m. m.vault_id == id) db.memberships;
    wraps =
        delete (λ w. any (λ m. m.id == w.membership_id && m.vault_id == id) db.memberships)
          db.wraps;
    invitations = delete (λ i. i.vault_id == id) db.invitations;
    rotations = delete (λ r. r.vault_id == id) db.rotations;
    secrets = delete (λ s. s.vault_id == id) db.secrets;
    folders = delete (λ f. f.vault_id == id) db.folders;
    tags = delete (λ t. t.vault_id == id) db.tags;
    secret_tags =
        delete
          (λ x.
            any (λ s. s.id == x.secret_id && s.vault_id == id) db.secrets
            || any (λ t. t.id == x.tag_id && t.vault_id == id) db.tags)
          db.secret_tags;
  })
