-- ===== src/Client/Rotation/Batches.antt =====
-- What the server makes of the worker's batches.
use safe_pass.Base.{
  ℕ, ◌+◌, ◌≡◌, ◌≢◌, refl, ◌∙◌, Bool, true, ◌&&◌, Option, some, List, [], ◌∷◌, ◌++◌, ◌==◌, update,
  find, map, All, find-update, find_sound, any-find, ◌⊎◌, inl, inr, arith,
}
use safe_pass.Errors.{ok, guard, ◌>>=◌, ◌>>◌}
use safe_pass.Envelope.{Value, undefined, assert_envelope, bytes}
use safe_pass.Envelope.Base64.{Text}
use safe_pass.Store.{Secret, Folder, Tag, Vault}
use safe_pass.Vaults.Rotation.{
  SecretRow, NamedRow, Progress, batch_secrets, batch_folders, batch_tags, batch_vault_name,
}
use safe_pass.Vaults.Sharing.{is_defined}
use safe_pass.Client.Rotation.Left.{AreListed, AreRows, AreListed-update, AreRows-update}

abbrev pub IsSendable : Value → Type 0
IsSendable v = (t : Text) × (assert_envelope v ≡ ok t)

-- Secrets, folders or tags of a vault that are still under a generation.
abbrev pub old_secret : ℕ → ℕ → Secret → Bool
old_secret vault_id from s = s.vault_id == vault_id && s.key_version == from

abbrev pub old_folder : ℕ → ℕ → Folder → Bool
old_folder vault_id from f = f.vault_id == vault_id && f.key_version == from

abbrev pub old_tag : ℕ → ℕ → Tag → Bool
old_tag vault_id from t = t.vault_id == vault_id && t.key_version == from

-- A batch succeeds on rows that are there, and takes their ids off the list of what is left.
module _ (vault_id from to : ℕ) (apart : to ≢ from) where
  pub batch_secrets-runs :
      (rows : List SecretRow) (rest : List ℕ) (p : Progress)
      → All (λ r. IsSendable r.title) rows
      → AreListed
          (λ (s : Secret). s.id)
          (old_secret vault_id from)
          (map (λ r. r.id) rows ++ rest)
          p.db.secrets
      → AreRows (λ (s : Secret). s.id) (map (λ r. r.id) rows ++ rest) p.db.secrets
      → (ss : List Secret) × (cursor : Option ℕ) × (done : ℕ) × (batch_secrets to rows p
          ≡ ok (record { db = record (p.db) { secrets = ss }; cursor = cursor; done = done }))
        × AreListed (λ (s : Secret). s.id) (old_secret vault_id from) rest ss
        × AreRows (λ (s : Secret). s.id) rest ss
  unfolding batch_secrets guard ◌>>=◌ ◌>>◌
  batch_secrets-runs [] rest p good listed there =
      (p.db.secrets, p.cursor, p.done, refl, listed, there)
  batch_secrets-runs (row ∷ rows) rest p ((t, good), goods) listed (here, there) =
      let f : Secret → Secret =
        λ s. record s { title = bytes t; field_values = row.field_values; key_version = to } in
      let ids = map (λ (r : SecretRow). r.id) rows ++ rest in
      let next : Progress = record {
        db = record (p.db) { secrets = update (λ s. s.id == row.id) f p.db.secrets };
        cursor = some row.id;
        done = p.done + 1;
      } in
      let (ss, cursor, done, ran, listed', there') =
        batch_secrets-runs rows rest next goods
          (AreListed-update _ _ f row.id ids p.db.secrets (λ x. ground arith) listed)
          (AreRows-update _ f row.id ids p.db.secrets (λ x. refl) there) in
      (ss, cursor, done, rw (good, here) ran, listed', there')

  pub batch_folders-runs :
      (rows : List NamedRow) (rest : List ℕ) (p : Progress)
      → All (λ r. IsSendable r.name) rows
      → AreListed
          (λ (x : Folder). x.id)
          (old_folder vault_id from)
          (map (λ r. r.id) rows ++ rest)
          p.db.folders
      → AreRows (λ (x : Folder). x.id) (map (λ r. r.id) rows ++ rest) p.db.folders
      → (xs : List Folder) × (done : ℕ) × (batch_folders to rows p
          ≡ ok (record { db = record (p.db) { folders = xs }; cursor = p.cursor; done = done }))
        × AreListed (λ (x : Folder). x.id) (old_folder vault_id from) rest xs
  unfolding batch_folders guard ◌>>=◌ ◌>>◌
  batch_folders-runs [] rest p good listed there = (p.db.folders, p.done, refl, listed)
  batch_folders-runs (row ∷ rows) rest p ((t, good), goods) listed (here, there) =
      let f : Folder → Folder = λ x. record x { name = bytes t; key_version = to } in
      let ids = map (λ (r : NamedRow). r.id) rows ++ rest in
      let next : Progress = record p {
        db = record (p.db) { folders = update (λ x. x.id == row.id) f p.db.folders };
        done = p.done + 1;
      } in
      let (xs, done, ran, listed') =
        batch_folders-runs rows rest next goods
          (AreListed-update _ _ f row.id ids p.db.folders (λ x. ground arith) listed)
          (AreRows-update _ f row.id ids p.db.folders (λ x. refl) there) in
      (xs, done, rw (good, here) ran, listed')

  pub batch_tags-runs :
      (rows : List NamedRow) (rest : List ℕ) (p : Progress)
      → All (λ r. IsSendable r.name) rows
      → AreListed
          (λ (x : Tag). x.id)
          (old_tag vault_id from)
          (map (λ r. r.id) rows ++ rest)
          p.db.tags
      → AreRows (λ (x : Tag). x.id) (map (λ r. r.id) rows ++ rest) p.db.tags
      → (xs : List Tag) × (done : ℕ) × (batch_tags to rows p
          ≡ ok (record { db = record (p.db) { tags = xs }; cursor = p.cursor; done = done }))
        × AreListed (λ (x : Tag). x.id) (old_tag vault_id from) rest xs
  unfolding batch_tags guard ◌>>=◌ ◌>>◌
  batch_tags-runs [] rest p good listed there = (p.db.tags, p.done, refl, listed)
  batch_tags-runs (row ∷ rows) rest p ((t, good), goods) listed (here, there) =
      let f : Tag → Tag = λ x. record x { name = bytes t; key_version = to } in
      let ids = map (λ (r : NamedRow). r.id) rows ++ rest in
      let next : Progress = record p {
        db = record (p.db) { tags = update (λ x. x.id == row.id) f p.db.tags };
        done = p.done + 1;
      } in
      let (xs, done, ran, listed') =
        batch_tags-runs rows rest next goods
          (AreListed-update _ _ f row.id ids p.db.tags (λ x. ground arith) listed)
          (AreRows-update _ f row.id ids p.db.tags (λ x. refl) there) in
      (xs, done, rw (good, here) ran, listed')

  -- The vault's name leaves the old generation, if the batch carries it wherever it has to.
  pub batch_vault_name-runs :
      (raw : Value) (p : Progress) (v : Vault)
      → find (λ w. w.id == vault_id) p.db.vaults ≡ some v
      → (IsSendable raw × (is_defined raw ≡ true))
        ⊎ ((raw ≡ undefined) × (v.name_key_version ≢ from))
      → (vs : List Vault) × (done : ℕ) × (v' : Vault) × (batch_vault_name vault_id to raw p
          ≡ ok (record { db = record (p.db) { vaults = vs }; cursor = p.cursor; done = done }))
        × (find (λ w. w.id == vault_id) vs ≡ some v')
        × (v'.name_key_version ≢ from)
  unfolding batch_vault_name guard ◌>>=◌ ◌>>◌
  batch_vault_name-runs raw p v found (inr (absent, left)) =
      (p.db.vaults, p.done, v, rw absent refl, found, left)
  batch_vault_name-runs raw p v found (inl ((t, good), there)) =
      let f : Vault → Vault = λ w. record w { name = bytes t; name_key_version = to } in
      let row = any-find (λ (w : Vault). w.id == vault_id) p.db.vaults found in
      let own = find_sound (λ (w : Vault). w.id == vault_id) p.db.vaults found in
      let after =
        find-update (λ (w : Vault). w.id == vault_id) (λ w. w.id == vault_id) f p.db.vaults
          (λ y. refl) found in
      (
        update (λ w. w.id == vault_id) f p.db.vaults,
        p.done + 1,
        f v,
        rw (there, good, row) refl,
        after ∙ rw own refl,
        apart,
      )
