-- ===== src/Client/Rotation/Closes.antt =====
-- The last steps of an uninterrupted run: what the server shows an owner, the last batch, the close.
use safe_pass.Base.{
  ℕ, ◌≡◌, ◌≢◌, refl, true, false, ◌&&◌, some, List, [], ◌∷◌, ◌==◌, ◌⊎◌, filter, find, map, count,
  All, ltb, inl, inr, find_mono, arith,
}
use safe_pass.Errors.{ok, is_ok-eq, guard, required, ◌>>=◌, ◌>>◌, on_required, on_guard}
use safe_pass.Envelope.{Value, undefined}
use safe_pass.Envelope.Base64.{bytes_to_base64_url}
use safe_pass.Store.{
  Db, Folder, Tag, Vault, VaultMembership, VaultRotation, owner, viewer, is_live, is_active_member,
}
use safe_pass.Vaults.Authz.{require_membership, rank}
use safe_pass.Vaults.Rotation.{NamedRow, close_rotation, outstanding}
use safe_pass.Vaults.Sharing.{is_defined}
use safe_pass.Client.Rotation.{VaultView, vault_view, send_metadata}
use safe_pass.Client.Rotation.Left.{AreListed, AreRows}
use safe_pass.Client.Rotation.Batches.{IsSendable, old_secret, old_folder, old_tag}
use safe_pass.Client.Rotation.Runs.{IsRunning, send_metadata-sends}

-- An owner may read.
pub require_membership-viewer :
    (db : Db) (vault_id actor : ℕ) {m : VaultMembership}
    → require_membership db vault_id actor owner ≡ ok m
    → require_membership db vault_id actor viewer ≡ ok m
unfolding require_membership required guard ◌>>=◌ ◌>>◌
require_membership-viewer db vault_id actor {m} e =
    on_required {A = VaultMembership} (find (is_active_member vault_id actor) db.memberships) _ _ e
      λ n found e1.
        on_guard _ _ _ e1
          λ _ e2. let test : ltb (rank n.role) 0 ≡ false = ground arith in rw (found, test) e2

-- The server shows an owner the vault.
pub vault_view-shown :
    (db : Db) (vault_id actor : ℕ) {m : VaultMembership} {v : Vault}
    → require_membership db vault_id actor owner ≡ ok m
    → find (λ w. w.id == vault_id) db.vaults ≡ some v
    → (w : VaultView) × (vault_view db actor vault_id ≡ some w)
      × (w.name ≡ bytes_to_base64_url v.name)
      × (w.name_key_version ≡ v.name_key_version)
unfolding require_membership vault_view
vault_view-shown db vault_id actor {v = v} e found =
    on_required {A = VaultMembership} _ _ _ e λ n member _.
      let (n', shown) =
        find_mono (is_active_member vault_id actor)
          (λ m. m.user_id == actor && is_live m.status && m.vault_id == vault_id) db.memberships
          (λ y active. ground arith) member in
      (
        record {
          name = bytes_to_base64_url v.name;
          name_key_version = v.name_key_version;
          key_wraps =
              map (λ w. (w.key_version, bytes_to_base64_url w.wrapped_vault_key))
                (filter (λ w. w.membership_id == n'.id) db.wraps);
        },
        rw (shown, vault_view, found) refl,
        refl,
        refl,
      )

-- With nothing left in any table, the close is accepted.
pub close_rotation-runs :
    (db : Db) (now actor vault_id from to : ℕ) {m : VaultMembership} {v : Vault}
    → require_membership db vault_id actor owner ≡ ok m
    → IsRunning vault_id from to db.rotations
    → find (λ w. w.id == vault_id) db.vaults ≡ some v
    → v.name_key_version ≢ from
    → count (old_secret vault_id from) db.secrets ≡ 0
    → count (old_folder vault_id from) db.folders ≡ 0
    → count (old_tag vault_id from) db.tags ≡ 0
    → (db' : Db) × (close_rotation db now actor vault_id ≡ ok db')
unfolding close_rotation outstanding required guard ◌>>=◌ ◌>>◌
close_rotation-runs db now actor vault_id from to {v = v} entered run found left z1 z2 z3 =
    let name : (v.name_key_version == from) ≡ false = ground arith in
    is_ok-eq (close_rotation db now actor vault_id)
      (rw (entered, run.found, run.starts, found, z1, z2, z3, name) refl)

module _ (actor vault_id from to : ℕ) (apart : to ≢ from) {m : VaultMembership} where
  -- The last batch, whether it is sent or not.
  pub send_metadata-runs :
      (folders tags : List NamedRow) (name : Value) (db : Db) (v : Vault)
      → require_membership db vault_id actor owner ≡ ok m
      → IsRunning vault_id from to db.rotations
      → find (λ w. w.id == vault_id) db.vaults ≡ some v
      → All (λ r. IsSendable r.name) folders
      → All (λ r. IsSendable r.name) tags
      → (IsSendable name × (is_defined name ≡ true))
        ⊎ ((name ≡ undefined) × (v.name_key_version ≢ from))
      → AreListed
          (λ (f : Folder). f.id)
          (old_folder vault_id from)
          (map (λ (r : NamedRow). r.id) folders)
          db.folders
      → AreRows (λ (f : Folder). f.id) (map (λ (r : NamedRow). r.id) folders) db.folders
      → AreListed
          (λ (t : Tag). t.id)
          (old_tag vault_id from)
          (map (λ (r : NamedRow). r.id) tags)
          db.tags
      → AreRows (λ (t : Tag). t.id) (map (λ (r : NamedRow). r.id) tags) db.tags
      → (fs : List Folder) × (ts : List Tag) × (vs : List Vault) × (rs : List VaultRotation)
        × (v' : Vault) × (send_metadata actor vault_id to folders tags name db
            ≡ ok (record db { folders = fs; tags = ts; vaults = vs; rotations = rs }))
        × AreListed (λ (f : Folder). f.id) (old_folder vault_id from) [] fs
        × AreListed (λ (t : Tag). t.id) (old_tag vault_id from) [] ts
        × (find (λ w. w.id == vault_id) vs ≡ some v')
        × (v'.name_key_version ≢ from)
        × IsRunning vault_id from to rs
  unfolding send_metadata
  send_metadata-runs [] [] name db v entered run found good_f good_t (inr (absent, left)) listed_f
        there_f listed_t there_t =
      (
        db.folders,
        db.tags,
        db.vaults,
        db.rotations,
        v,
        rw absent refl,
        listed_f,
        listed_t,
        found,
        left,
        run,
      )
  send_metadata-runs [] [] name db v entered run found good_f good_t (inl (good, carried)) listed_f
        there_f listed_t there_t =
      send_metadata-sends actor vault_id from to apart [] [] name db v (rw carried refl) entered run
        found good_f good_t (inl (good, carried)) listed_f there_f listed_t there_t
  send_metadata-runs [] (t ∷ tags) name db v entered run found good_f good_t good_n listed_f there_f
        listed_t there_t =
      send_metadata-sends actor vault_id from to apart [] (t ∷ tags) name db v refl entered run
        found good_f good_t good_n listed_f there_f listed_t there_t
  send_metadata-runs (f ∷ folders) tags name db v entered run found good_f good_t good_n listed_f
        there_f listed_t there_t =
      send_metadata-sends actor vault_id from to apart (f ∷ folders) tags name db v refl entered run
        found good_f good_t good_n listed_f there_f listed_t there_t
