-- ===== src/Requests/Owners.antt =====
-- A vault is never left without an owner who can manage it: what each request keeps.
use safe_pass.Base.{
  ℕ, ◌≡◌, refl, sym, ap, ◌∙◌, Option, none, some, List, [], ◌∷◌, Bool-cases, inl, inr, count, ◌==◌,
  filter,
}
use mathlib.Core.Path.{subst}
use safe_pass.Errors.{ok, ok-injective, on_bind, on_required, on_guard, ◌>>=◌}
use safe_pass.Envelope.{Value}
use safe_pass.Store.{Db, Secret, is_personal, log}
use safe_pass.Tables.Inserts.{
  insert_secret-eq-ok, insert_folder-eq-ok, insert_tag-eq-ok, insert_secret_tags-eq-ok,
}
use safe_pass.Secrets.{
  CreateSecret, UpdateSecret, TagIds, Save, create_secret, update_secret, remove_secret,
  commit_save, replace_tags, matches,
}
use safe_pass.Organise.{
  Disposition, orphan, cascade, unstated, create_folder, rename_folder, delete_folder, create_tag,
  delete_tag, set_tags, log_deletions, cascade_folder, orphan_folder, without_contents, in_folder,
}
use safe_pass.Vaults.Export.{Backup, export_vault}
use safe_pass.Vaults.Owners.{
  IsOwned, frame-IsOwned, accept-IsOwned, decline-IsOwned, change_role-IsOwned, revoke-IsOwned,
}
use safe_pass.Vaults.Owners.Growth.{
  create_vault-IsOwned, rename_vault-IsOwned, delete_vault-IsOwned,
}
use safe_pass.Vaults.Owners.Routes.{
  invite_member-IsOwned, complete-IsOwned, withdraw-IsOwned, open_rotation-IsOwned,
  rotation_batch-IsOwned, close_rotation-IsOwned,
}
use safe_pass.Requests.{
  Context, VaultRequest, rename, delete, role_change, revocation, invitation, completion,
  withdrawal, rotation, batch, close, new_secret, save_secret, secret_removal, new_folder,
  folder_name, folder_removal, new_tag, tag_removal, secret_tags, exporting, Request, found,
  acceptance, refusal, to_vault, handle_vault, handle,
}

-- A step that changes neither memberships nor vaults.
abbrev Frames : Db → Db → Type 0
Frames db db' = (db'.memberships ≡ db.memberships) × (db'.vaults ≡ db.vaults)

create_secret-Frames :
    (db : Db) (id actor v : ℕ) (body : CreateSecret) {db' : Db}
    → create_secret db id actor v body ≡ ok db'
    → Frames db db'
unfolding create_secret
create_secret-Frames db id actor v body e = on_bind _ _ e λ _ _ e1. on_bind _ _ e1 λ _ _ e2.
    on_bind _ _ e2 λ _ _ e3. on_required _ _ _ e3 λ _ _ e4. on_required _ _ _ e4 λ _ _ e5.
      on_bind _ _ e5 λ _ _ e6. on_bind _ _ e6 λ db1 made e7.
        let (_, one) = insert_secret-eq-ok _ made in
        let (_, two) = insert_secret_tags-eq-ok _ _ db1 e7 in
        (rw (← two, ← one) refl, rw (← two, ← one) refl)

replace_tags-Frames :
    (s : ℕ) (ts : Option (List ℕ)) (db : Db) {db' : Db}
    → replace_tags s ts db ≡ ok db'
    → Frames db db'
unfolding replace_tags
replace_tags-Frames s none db e =
    (ap (λ d. d.memberships) (sym (ok-injective e)), ap (λ d. d.vaults) (sym (ok-injective e)))
replace_tags-Frames s (some ts) db e =
    let (_, one) = insert_secret_tags-eq-ok _ _ _ e in (rw (← one) refl, rw (← one) refl)

commit_save-Frames :
    (db : Db) (save : Save) {db' : Db} → commit_save db save ≡ ok db' → Frames db db'
unfolding commit_save
commit_save-Frames db save e = elim (Bool-cases (count (matches save) db.secrets == 1)) [
  | inl one ↦ on_guard _ _ _ (rw one at e) λ _ e1. replace_tags-Frames _ _ _ e1
  | inr none' ↦ on_required _ _ _ (rw none' at e) λ _ _ e1. cc
]

update_secret-Frames :
    (db : Db) (actor v s : ℕ) (body : UpdateSecret) {db' : Db}
    → update_secret db actor v s body ≡ ok db'
    → Frames db db'
unfolding update_secret
update_secret-Frames db actor v s body e = on_bind _ _ e λ save _ e1. commit_save-Frames db save e1

log_deletions-Frames :
    (v actor : ℕ) (ss : List Secret) (db : Db) → Frames db (log_deletions v actor ss db)
unfolding log_deletions
log_deletions-Frames v actor [] db = (refl, refl)
log_deletions-Frames v actor (s ∷ ss) db = log_deletions-Frames v actor ss _

cascade_folder-Frames : (db : Db) (actor v f : ℕ) → Frames db (cascade_folder db actor v f)
unfolding cascade_folder
cascade_folder-Frames db actor v f =
    log_deletions-Frames v actor (filter (in_folder f) db.secrets) (without_contents db f)

delete_folder-Frames :
    (db : Db) (actor v f : ℕ) (d : Disposition) {db' : Db}
    → delete_folder db actor v f d ≡ ok db'
    → Frames db db'
unfolding delete_folder
delete_folder-Frames db actor v f d e = on_bind _ _ e λ _ _ e1.
    on_guard _ _ _ e1
      λ _ e2. on_required _ _ _ e2 λ _ _ e3. subst (Frames db) (ok-injective e3) (left d)
  where
    left :
        (d' : Disposition)
        → Frames db (elim d' [
          | cascade ↦ cascade_folder db actor v f
          | orphan ↦ orphan_folder db f
          | unstated ↦ orphan_folder db f
        ])
    left cascade = cascade_folder-Frames db actor v f
    left orphan = (refl, refl)
    left unstated = (refl, refl)

set_tags-Frames :
    (db : Db) (actor v s : ℕ) (ts : TagIds) {db' : Db}
    → set_tags db actor v s ts ≡ ok db'
    → Frames db db'
unfolding set_tags
set_tags-Frames db actor v s ts e = on_bind _ _ e λ _ _ e1. on_bind _ _ e1 λ _ _ e2.
    on_required _ _ _ e2 λ _ _ e3.
      on_guard _ _ _ e3 λ _ e4.
        let (_, one) = insert_secret_tags-eq-ok _ _ _ e4 in (rw (← one) refl, rw (← one) refl)

create_folder-Frames :
    (db : Db) (id actor v : ℕ) (raw : Value) {db' : Db}
    → create_folder db id actor v raw ≡ ok db'
    → Frames db db'
unfolding create_folder
create_folder-Frames db id actor v raw e = on_bind _ _ e λ _ _ e1. on_bind _ _ e1 λ _ _ e2.
    on_required _ _ _ e2
      λ _ _ e3. let one = insert_folder-eq-ok _ e3 in (rw (← one) refl, rw (← one) refl)

create_tag-Frames :
    (db : Db) (id actor v : ℕ) (raw : Value) {db' : Db}
    → create_tag db id actor v raw ≡ ok db'
    → Frames db db'
unfolding create_tag
create_tag-Frames db id actor v raw e = on_bind _ _ e λ _ _ e1. on_bind _ _ e1 λ _ _ e2.
    on_required _ _ _ e2
      λ _ _ e3. let one = insert_tag-eq-ok _ e3 in (rw (← one) refl, rw (← one) refl)

rename_folder-Frames :
    (db : Db) (actor v f : ℕ) (raw : Value) {db' : Db}
    → rename_folder db actor v f raw ≡ ok db'
    → Frames db db'
unfolding rename_folder
rename_folder-Frames db actor v f raw e = on_bind _ _ e λ _ _ e1. on_bind _ _ e1 λ _ _ e2.
    on_required _ _ _ e2
      λ _ _ e3. on_required _ _ _ e3 λ _ _ e4. subst (Frames db) (ok-injective e4) (refl, refl)

remove_secret-Frames :
    (db : Db) (actor v s : ℕ) {db' : Db} → remove_secret db actor v s ≡ ok db' → Frames db db'
unfolding remove_secret
remove_secret-Frames db actor v s e =
    on_bind _ _ e
      λ _ _ e1. on_required _ _ _ e1 λ _ _ e2. subst (Frames db) (ok-injective e2) (refl, refl)

delete_tag-Frames :
    (db : Db) (actor v t : ℕ) {db' : Db} → delete_tag db actor v t ≡ ok db' → Frames db db'
unfolding delete_tag
delete_tag-Frames db actor v t e =
    on_bind _ _ e
      λ _ _ e1. on_required _ _ _ e1 λ _ _ e2. subst (Frames db) (ok-injective e2) (refl, refl)

export_vault-Frames :
    (db : Db) (actor v : ℕ) {db' : Db}
    → (export_vault db actor v >>= λ (out : Db × Backup). ok out.0) ≡ ok db'
    → Frames db db'
unfolding export_vault log
export_vault-Frames db actor v e = on_bind _ _ e λ _ made e1. on_bind _ _ made λ _ _ m1.
    on_required _ _ _ m1 λ vault _ m2.
      let same = ap (λ (out : Db × Backup). out.0) (ok-injective m2) ∙ ok-injective e1 in
      subst (Frames db) same (elim (Bool-cases (is_personal vault.kind)) [
        | inl own ↦ rw own (refl, refl)
        | inr shared ↦ rw shared (refl, refl)
      ])

framed : {db db' : Db} → IsOwned db → Frames db db' → IsOwned db'
framed {db' = d} o (ms, vs) = frame-IsOwned d o ms vs

handle_vault-IsOwned :
    (c : Context) (v : ℕ) (r : VaultRequest) (db : Db) {db' : Db}
    → IsOwned db
    → handle_vault c v r db ≡ ok db'
    → IsOwned db'
unfolding handle_vault
handle_vault-IsOwned c v (rename raw) db o e = rename_vault-IsOwned _ _ _ o e
handle_vault-IsOwned c v delete db o e = delete_vault-IsOwned _ _ o e
handle_vault-IsOwned c v (role_change u raw) db o e = change_role-IsOwned _ _ _ _ o e
handle_vault-IsOwned c v (revocation u) db o e = revoke-IsOwned _ _ _ _ o e
handle_vault-IsOwned c v (invitation body) db o e = invite_member-IsOwned _ _ _ _ _ o e
handle_vault-IsOwned c v (completion i raw n) db o e = complete-IsOwned _ _ _ _ _ _ _ o e
handle_vault-IsOwned c v (withdrawal i) db o e = withdraw-IsOwned _ _ _ o e
handle_vault-IsOwned c v (rotation body) db o e = open_rotation-IsOwned _ _ _ _ o e
handle_vault-IsOwned c v (batch body) db o e = rotation_batch-IsOwned _ _ _ o e
handle_vault-IsOwned c v close db o e = close_rotation-IsOwned _ _ _ o e
handle_vault-IsOwned c v (new_secret body) db o e = framed o (create_secret-Frames _ _ _ _ _ e)
handle_vault-IsOwned c v (save_secret s body) db o e = framed o (update_secret-Frames _ _ _ _ _ e)
handle_vault-IsOwned c v (secret_removal s) db o e = framed o (remove_secret-Frames _ _ _ _ e)
handle_vault-IsOwned c v (new_folder raw) db o e = framed o (create_folder-Frames _ _ _ _ _ e)
handle_vault-IsOwned c v (folder_name f raw) db o e = framed o (rename_folder-Frames _ _ _ _ _ e)
handle_vault-IsOwned c v (folder_removal f d) db o e = framed o (delete_folder-Frames _ _ _ _ _ e)
handle_vault-IsOwned c v (new_tag raw) db o e = framed o (create_tag-Frames _ _ _ _ _ e)
handle_vault-IsOwned c v (tag_removal t) db o e = framed o (delete_tag-Frames _ _ _ _ e)
handle_vault-IsOwned c v (secret_tags s ts) db o e = framed o (set_tags-Frames _ _ _ _ _ e)
handle_vault-IsOwned c v exporting db o e = framed o (export_vault-Frames db c.actor v e)

pub handle-IsOwned :
    (c : Context) (r : Request) (db : Db) {db' : Db}
    → IsOwned db
    → handle c r db ≡ ok db'
    → IsOwned db'
unfolding handle
handle-IsOwned c (found body) db o e = create_vault-IsOwned _ _ _ _ _ o e
handle-IsOwned c (acceptance v) db o e = accept-IsOwned _ _ _ o e
handle-IsOwned c (refusal v) db o e = decline-IsOwned _ _ o e
handle-IsOwned c (to_vault v r) db o e = handle_vault-IsOwned c v r db o e
