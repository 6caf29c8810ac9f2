-- ===== src/Vaults/Rotation/Close.antt =====
-- The close precondition: the old generation is retired only when nothing needs it any more.
use safe_pass.Base.{
  ℕ, ◌+◌, ◌≡◌, ◌≢◌, ap, ◌∙◌, Bool, false, ◌&&◌, some, ◌==◌, find, count, any, any-count, All, ◌||◌,
  if◌then◌else◌, true, All-delete_strict, count-zero_All, count-delete, All-intro, arith,
}
use mathlib.Core.Path.{subst}
use safe_pass.Errors.{
  ok, err, api, rotation_in_progress, ok-injective, on_bind, on_required, on_guard, ◌>>=◌, ◌>>◌,
  guard, required,
}
use safe_pass.Store.{
  Db, Secret, Folder, Tag, owner, Vault, VaultMembership, VaultKeyWrap, VaultRotation, running_in,
}
use safe_pass.Vaults.Authz.{require_membership}
use safe_pass.Vaults.Rotation.{Outstanding, outstanding, close_rotation}

-- Nothing of the vault is encrypted under the generation: no secret, no folder or tag name, and not
-- the vault's own name.
pub record IsRetirable (db : Db) (vault_id from : ℕ) : Type 0 where
  pub secrets : All (λ s. (s.vault_id == vault_id && s.key_version == from) ≡ false) db.secrets
  pub folders : All (λ f. (f.vault_id == vault_id && f.key_version == from) ≡ false) db.folders
  pub tags : All (λ t. (t.vault_id == vault_id && t.key_version == from) ≡ false) db.tags
  pub vault : Vault
  pub present : find (λ v. v.id == vault_id) db.vaults ≡ some vault
  pub name : vault.name_key_version ≢ from

outstanding-zero :
    (db : Db) (vault_id from : ℕ) (o : Outstanding)
    → outstanding db vault_id from ≡ ok o
    → o.total ≡ 0
    → IsRetirable db vault_id from
unfolding outstanding
outstanding-zero db vault_id from o e z = on_required _ _ _ e λ v found e1.
    let total = ap (λ (x : Outstanding). x.total) (ok-injective e1) ∙ z in
    record {
      secrets = count-zero_All _ db.secrets (omega arith);
      folders = count-zero_All _ db.folders (omega arith);
      tags = count-zero_All _ db.tags (omega arith);
      vault = v;
      present = found;
      name = ground arith;
    }

-- The wraps of a generation that members of the vault hold.
abbrev pub retired_wrap : Db → ℕ → ℕ → VaultKeyWrap → Bool
retired_wrap db vault_id from w =
    w.key_version == from
    && any (λ m. m.id == w.membership_id && m.vault_id == vault_id) db.memberships

-- A close that succeeds had an open rotation, and leaves nothing of the vault encrypted under its
-- old generation: no secret, folder name or tag name, nor the vault's own name. No member of the
-- vault holds a wrap of that generation afterwards.
pub close_rotation_sound :
    (db : Db) (now actor vault_id : ℕ) {db' : Db}
    → close_rotation db now actor vault_id ≡ ok db'
    → (r : VaultRotation) × (find (running_in vault_id) db.rotations ≡ some r)
      × IsRetirable db' vault_id r.from_version
      × All (λ w. retired_wrap db' vault_id r.from_version w ≡ false) db'.wraps
unfolding close_rotation
close_rotation_sound db now actor vault_id {db'} e = on_bind _ _ e λ _ _ e1.
    on_required _ _ _ e1 λ r running e2. on_bind _ _ e2 λ o counted e3.
      on_guard _ _ _ e3 λ zero' e4.
        let old = outstanding-zero db vault_id r.from_version o counted (ground arith) in
        (
          r,
          running,
          subst (λ d. IsRetirable d vault_id r.from_version) (ok-injective e4)
              (record {
                secrets = old.secrets;
                folders = old.folders;
                tags = old.tags;
                vault = old.vault;
                present = old.present;
                name = old.name;
              }),
          subst (λ d. All (λ w. retired_wrap d vault_id r.from_version w ≡ false) d.wraps)
              (ok-injective e4) (All-delete_strict _ _ db.wraps (λ w h. h)),
        )

-- A close retires nothing else: as many wraps of another generation are held as before, by anybody.
pub close_rotation-keeps :
    (db : Db) (now actor vault_id membership_id version : ℕ) (r : VaultRotation) {db' : Db}
    → find (running_in vault_id) db.rotations ≡ some r
    → version ≢ r.from_version
    → close_rotation db now actor vault_id ≡ ok db'
    → count (λ w. w.membership_id == membership_id && w.key_version == version) db'.wraps
      ≡ count (λ w. w.membership_id == membership_id && w.key_version == version) db.wraps
unfolding close_rotation
close_rotation-keeps db now actor vault_id membership_id version r running other e =
    on_bind _ _ e λ _ _ e1. on_required _ _ _ e1 λ r' running' e2. on_bind _ _ e2 λ o counted e3.
      on_guard _ _ _ e3 λ _ e4.
        let same : r' ≡ r = cc in
        subst
          (λ d.
            count (λ w. w.membership_id == membership_id && w.key_version == version) d.wraps
            ≡ count (λ w. w.membership_id == membership_id && w.key_version == version) db.wraps)
          (ok-injective e4)
          (count-delete _ _ db.wraps (All-intro _ (λ w held. ground arith) db.wraps))

-- While anything of the vault is encrypted under the old generation, be it a secret, a folder, a tag
-- or the vault's own name, an owner's close of the running rotation is refused with
-- ROTATION_IN_PROGRESS.
pub close_rotation-refuses :
    (db : Db) (now actor vault_id : ℕ) (m : VaultMembership) (r : VaultRotation) (v : Vault)
    → require_membership db vault_id actor owner ≡ ok m
    → find (running_in vault_id) db.rotations ≡ some r
    → find (λ x. x.id == vault_id) db.vaults ≡ some v
    → (any (λ s. s.vault_id == vault_id && s.key_version == r.from_version) db.secrets
        || any (λ f. f.vault_id == vault_id && f.key_version == r.from_version) db.folders
        || any (λ t. t.vault_id == vault_id && t.key_version == r.from_version) db.tags
        || v.name_key_version == r.from_version)
      ≡ true
    → close_rotation db now actor vault_id ≡ err (api rotation_in_progress)
unfolding close_rotation outstanding ◌>>=◌ ◌>>◌ guard required
close_rotation-refuses db now actor vault_id m r v entered running found left =
    let old_secret = λ (s : Secret). s.vault_id == vault_id && s.key_version == r.from_version in
    let old_folder = λ (f : Folder). f.vault_id == vault_id && f.key_version == r.from_version in
    let old_tag = λ (t : Tag). t.vault_id == vault_id && t.key_version == r.from_version in
    let some_left : (count old_secret db.secrets
            + count old_folder db.folders
            + count old_tag db.tags
            + (if v.name_key_version == r.from_version then 1 else 0)
          == 0)
        ≡ false =
      ground (
        arith,
        any-count old_secret db.secrets,
        any-count old_folder db.folders,
        any-count old_tag db.tags,
      ) in
    rw (entered, running, found, some_left)
