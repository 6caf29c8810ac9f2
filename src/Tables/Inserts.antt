-- ===== src/Tables/Inserts.antt =====
-- What a successful insert or delete has checked, and the rows that it leaves.
use safe_pass.Base.{ℕ, ◌≡◌, refl, Bool, true, false, not, List, [], ◌∷◌, ◌==◌, any}
use safe_pass.Errors.{ok, ok-injective, >>-eq-ok}
use safe_pass.Store.{
  Db, Vault, VaultMembership, VaultKeyWrap, VaultInvitation, VaultRotation, Secret, SecretTag,
  Folder, Tag, member_of,
}
use safe_pass.Tables.{
  insert_vault, insert_membership, insert_wrap, insert_invitation, insert_rotation, insert_secret,
  insert_folder, insert_tag, insert_secret_tags,
}

not-true : (b : Bool) → not b ≡ true → b ≡ false
not-true true h = cc
not-true false h = refl

pub insert_vault-eq-ok :
    (v : Vault) {db db' : Db}
    → insert_vault v db ≡ ok db'
    → (any (λ w. w.id == v.id) db.vaults ≡ false) × (record db { vaults = v ∷ db.vaults } ≡ db')
unfolding insert_vault
insert_vault-eq-ok v e =
    let (fresh, e1) = >>-eq-ok _ _ _ e in
    let (_, e2) = >>-eq-ok _ _ _ e1 in (not-true _ fresh, ok-injective e2)

pub insert_membership-eq-ok :
    (m : VaultMembership) {db db' : Db}
    → insert_membership m db ≡ ok db'
    → (any (λ x. x.id == m.id) db.memberships ≡ false)
      × (any (member_of m.vault_id m.user_id) db.memberships ≡ false)
      × (record db { memberships = m ∷ db.memberships } ≡ db')
unfolding insert_membership
insert_membership-eq-ok m e =
    let (fresh, e1) = >>-eq-ok _ _ _ e in
    let (single, e2) = >>-eq-ok _ _ _ e1 in (not-true _ fresh, not-true _ single, ok-injective e2)

pub insert_wrap-eq-ok :
    (w : VaultKeyWrap) {db db' : Db}
    → insert_wrap w db ≡ ok db'
    → record db { wraps = w ∷ db.wraps } ≡ db'
unfolding insert_wrap
insert_wrap-eq-ok w e =
    let (_, e1) = >>-eq-ok _ _ _ e in let (_, e2) = >>-eq-ok _ _ _ e1 in ok-injective e2

pub insert_invitation-eq-ok :
    (i : VaultInvitation) {db db' : Db}
    → insert_invitation i db ≡ ok db'
    → record db { invitations = i ∷ db.invitations } ≡ db'
unfolding insert_invitation
insert_invitation-eq-ok i e =
    let (_, e1) = >>-eq-ok _ _ _ e in let (_, e2) = >>-eq-ok _ _ _ e1 in ok-injective e2

pub insert_rotation-eq-ok :
    (r : VaultRotation) {db db' : Db}
    → insert_rotation r db ≡ ok db'
    → (any (λ x. x.id == r.id) db.rotations ≡ false)
      × (record db { rotations = r ∷ db.rotations } ≡ db')
unfolding insert_rotation
insert_rotation-eq-ok r e =
    let (fresh, e1) = >>-eq-ok _ _ _ e in
    let (_, e2) = >>-eq-ok _ _ _ e1 in
    let (_, e3) = >>-eq-ok _ _ _ e2 in (not-true _ fresh, ok-injective e3)

pub insert_secret-eq-ok :
    (s : Secret) {db db' : Db}
    → insert_secret s db ≡ ok db'
    → (any (λ x. x.id == s.id) db.secrets ≡ false) × (record db { secrets = s ∷ db.secrets } ≡ db')
unfolding insert_secret
insert_secret-eq-ok s e =
    let (fresh, e1) = >>-eq-ok _ _ _ e in
    let (_, e2) = >>-eq-ok _ _ _ e1 in
    let (_, e3) = >>-eq-ok _ _ _ e2 in (not-true _ fresh, ok-injective e3)

pub insert_folder-eq-ok :
    (f : Folder) {db db' : Db}
    → insert_folder f db ≡ ok db'
    → record db { folders = f ∷ db.folders } ≡ db'
unfolding insert_folder
insert_folder-eq-ok f e = let (_, e1) = >>-eq-ok _ _ _ e in ok-injective e1

pub insert_tag-eq-ok :
    (t : Tag) {db db' : Db} → insert_tag t db ≡ ok db' → record db { tags = t ∷ db.tags } ≡ db'
unfolding insert_tag
insert_tag-eq-ok t e = let (_, e1) = >>-eq-ok _ _ _ e in ok-injective e1

-- Tagging a secret touches the table of tags alone.
pub insert_secret_tags-eq-ok :
    (secret_id : ℕ) (ts : List ℕ) (db : Db) {db' : Db}
    → insert_secret_tags secret_id ts db ≡ ok db'
    → (rows : List SecretTag) × (record db { secret_tags = rows } ≡ db')
unfolding insert_secret_tags
insert_secret_tags-eq-ok secret_id [] db e = (db.secret_tags, ok-injective e)
insert_secret_tags-eq-ok secret_id (t ∷ ts) db e =
    let (_, e1) = >>-eq-ok _ _ _ e in insert_secret_tags-eq-ok secret_id ts _ e1
