-- ===== src/Vaults/Rotation/Loops.antt =====
-- What the loops of the rotation routes touch: one table each.
use safe_pass.Base.{ℕ, ◌≡◌, ap, List, [], ◌∷◌, ◌==◌, find, Option-cases, inl, inr}
use safe_pass.Errors.{ok, ok-injective, on_bind, on_guard}
use safe_pass.Store.{Db, VaultMembership, VaultKeyWrap, Secret, Folder, Tag}
use safe_pass.Tables.Inserts.{insert_wrap-eq-ok}
use safe_pass.Vaults.Rotation.{
  MemberKey, SecretRow, NamedRow, Progress, add_wraps, batch_secrets, batch_folders, batch_tags,
}

pub add_wraps-eq-ok :
    (members : List VaultMembership) (to_version : ℕ) (ks : List MemberKey) (db : Db) {db' : Db}
    → add_wraps members to_version ks db ≡ ok db'
    → (rows : List VaultKeyWrap) × (record db { wraps = rows } ≡ db')
unfolding add_wraps
add_wraps-eq-ok members to_version [] db e = (db.wraps, ok-injective e)
add_wraps-eq-ok members to_version (k ∷ ks) db {db'} e =
    elim (Option-cases (find (λ m. m.user_id == k.user_id) members)) [
      | inl skip ↦ add_wraps-eq-ok members to_version ks db (rw (skip, add_wraps) at e)
      | inr (m, found) ↦ on_bind _ _ (rw (found, add_wraps) at e) λ _ _ e1.
          on_bind _ _ e1 λ db1 made e2.
            let (rows, same) = add_wraps-eq-ok members to_version ks db1 e2 in
            (rows, rw (← insert_wrap-eq-ok _ made) at same)
    ]

pub batch_secrets-eq-ok :
    (to_version : ℕ) (rows : List SecretRow) (p : Progress) {p' : Progress}
    → batch_secrets to_version rows p ≡ ok p'
    → (ss : List Secret) × (record (p.db) { secrets = ss } ≡ p'.db)
unfolding batch_secrets
batch_secrets-eq-ok to_version [] p e = ((p.db).secrets, ap (λ q. q.db) (ok-injective e))
batch_secrets-eq-ok to_version (row ∷ rest) p e =
    on_bind _ _ e λ _ _ e1. on_guard _ _ _ e1 λ _ e2. batch_secrets-eq-ok to_version rest _ e2

pub batch_folders-eq-ok :
    (to_version : ℕ) (rows : List NamedRow) (p : Progress) {p' : Progress}
    → batch_folders to_version rows p ≡ ok p'
    → (fs : List Folder) × (record (p.db) { folders = fs } ≡ p'.db)
unfolding batch_folders
batch_folders-eq-ok to_version [] p e = ((p.db).folders, ap (λ q. q.db) (ok-injective e))
batch_folders-eq-ok to_version (row ∷ rest) p e =
    on_bind _ _ e λ _ _ e1. on_guard _ _ _ e1 λ _ e2. batch_folders-eq-ok to_version rest _ e2

pub batch_tags-eq-ok :
    (to_version : ℕ) (rows : List NamedRow) (p : Progress) {p' : Progress}
    → batch_tags to_version rows p ≡ ok p'
    → (ts : List Tag) × (record (p.db) { tags = ts } ≡ p'.db)
unfolding batch_tags
batch_tags-eq-ok to_version [] p e = ((p.db).tags, ap (λ q. q.db) (ok-injective e))
batch_tags-eq-ok to_version (row ∷ rest) p e =
    on_bind _ _ e λ _ _ e1. on_guard _ _ _ e1 λ _ e2. batch_tags-eq-ok to_version rest _ e2
