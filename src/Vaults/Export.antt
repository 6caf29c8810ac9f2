-- ===== src/Vaults/Export.antt =====
-- backend/src/modules/backup/export.route.ts: the export of a vault. The template versions of the
-- reply and its dates are left out.
use safe_pass.Base.{ℕ, none, some, List, [], ◌∷◌, ◌==◌, find, filter, leb, if◌then◌else◌}
use safe_pass.Envelope.Base64.{Bytes}
use safe_pass.Errors.{Result, ok, internal, required, ◌>>=◌}
use safe_pass.Store.{
  Db, VaultKind, VaultKeyWrap, Secret, Folder, Tag, owner, exported, is_personal, log,
}
use safe_pass.Vaults.Authz.{require_membership}

-- The reply, with the rows in place of their text.
pub record Backup : Type 0 where
  pub name : Bytes
  pub kind : VaultKind
  pub key_version : ℕ
  pub key_wraps : List VaultKeyWrap
  pub secrets : List Secret
  pub folders : List Folder
  pub tags : List Tag

abbrev pub insert_ascending : VaultKeyWrap → List VaultKeyWrap → List VaultKeyWrap
insert_ascending w [] = w ∷ []
insert_ascending w (x ∷ xs) =
    let rest = insert_ascending w xs in
    if leb w.key_version x.key_version then w ∷ x ∷ xs else x ∷ rest

-- `orderBy: { keyVersion: 'asc' }`
unfoldable pub ascending : List VaultKeyWrap → List VaultKeyWrap
ascending [] = []
ascending (w ∷ ws) = insert_ascending w (ascending ws)

-- `GET /vaults/:vaultId/export`: the database, in which the export of a shared vault is recorded, and
-- the reply.
unfoldable pub export_vault : Db → ℕ → ℕ → Result (Db × Backup)
unfolding ascending log
export_vault db actor vault_id = do
  membership ← require_membership db vault_id actor owner
  vault ← required (find (λ v. v.id == vault_id) db.vaults) internal
  ok (
    (if is_personal vault.kind
        then db
        else log
            (record {
              vault_id = vault_id;
              actor_id = some actor;
              subject_id = none;
              action = exported;
            })
            db),
    record {
      name = vault.name;
      kind = vault.kind;
      key_version = vault.key_version;
      key_wraps = ascending (filter (λ w. w.membership_id == membership.id) db.wraps);
      secrets = filter (λ s. s.vault_id == vault_id) db.secrets;
      folders = filter (λ f. f.vault_id == vault_id) db.folders;
      tags = filter (λ t. t.vault_id == vault_id) db.tags;
    },
  )
