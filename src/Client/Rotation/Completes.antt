-- ===== src/Client/Rotation/Completes.antt =====
-- An uninterrupted run of the worker ends with the old generation retired.
use safe_pass.Base.{
  ℕ, ◌≡◌, ◌≢◌, refl, sym, ap, ◌∙◌, true, false, some, List, [], ◌==◌, ◌⊎◌, filter, find, map,
  length, All, Bool-cases, inl, inr, arith,
}
use mathlib.Core.Path.{subst}
use mathlib.Core.Option.{some-injective}
use safe_pass.Errors.{ok, ◌>>=◌}
use safe_pass.Envelope.{Value, str, undefined}
use safe_pass.Envelope.Base64.{Bytes, bytes_to_base64_url}
use safe_pass.Store.{
  Db, Secret, Folder, Tag, Vault, VaultMembership, VaultRotation, owner, viewer, running_in,
}
use safe_pass.Vaults.Authz.{require_membership}
use safe_pass.Vaults.Rotation.{NamedRow, close_rotation}
use safe_pass.Vaults.Rotation.Close.{IsRetirable, retired_wrap, close_rotation_sound}
use safe_pass.Vaults.Sharing.{is_defined}
use safe_pass.Vaults.Reads.{list_secrets, list_folders, list_tags}
use safe_pass.Client.Crypto.{WebCrypto}
use safe_pass.Client.Rotation.{
  Place, name_of_vault, VaultView, vault_name_value, send_secrets, send_metadata, folder_rows,
  tag_rows, vault_view, run_rotation,
}
use safe_pass.Client.Rotation.Left.{
  AreListed, AreRows, AreListed-filter, AreListed-none, AreRows-filter, filter-filter,
}
use safe_pass.Client.Rotation.Batches.{IsSendable, old_secret, old_folder, old_tag}
use safe_pass.Client.Rotation.Sealed.{
  IsReady, Opens, SecretOpens, reencrypt-runs, folder_rows-runs, tag_rows-runs,
}
use safe_pass.Client.Rotation.Runs.{IsRunning, send_secrets-runs}
use safe_pass.Client.Rotation.Closes.{
  require_membership-viewer, vault_view-shown, close_rotation-runs, send_metadata-runs,
}

-- What the close leaves of a rotation from a generation.
abbrev pub IsRetired : Db → ℕ → ℕ → Type 0
IsRetired db vault_id from =
    IsRetirable db vault_id from × All (λ w. retired_wrap db vault_id from w ≡ false) db.wraps

close_rotation-retires :
    (db : Db) (now actor vault_id from to : ℕ) {db' : Db}
    → IsRunning vault_id from to db.rotations
    → close_rotation db now actor vault_id ≡ ok db'
    → IsRetired db' vault_id from
close_rotation-retires db now actor vault_id from to {db'} run closed =
    let (r, running, retired, gone) = close_rotation_sound db now actor vault_id closed in
    let same : r ≡ run.rotation = some-injective _ _ (sym running ∙ run.found) in
    subst (IsRetired db' vault_id) (ap (λ (x : VaultRotation). x.from_version) same ∙ run.starts)
      (retired, gone)

-- The run after its loop over the secrets.
metadata-completes :
    (now actor vault_id from to : ℕ) (folders tags : List NamedRow) (name : Value) (db : Db)
    {m : VaultMembership} {v : Vault}
    → to ≢ from
    → require_membership db vault_id actor owner ≡ ok m
    → IsRunning vault_id from to db.rotations
    → find (λ w. w.id == vault_id) db.vaults ≡ some v
    → AreListed (λ (s : Secret). s.id) (old_secret vault_id from) [] db.secrets
    → All (λ r. IsSendable r.name) folders
    → All (λ r. IsSendable r.name) tags
    → (IsSendable name × (is_defined name ≡ true))
      ⊎ ((name ≡ undefined) × (v.name_key_version ≢ from))
    → map (λ (r : NamedRow). r.id) folders
      ≡ map (λ (f : Folder). f.id) (filter (old_folder vault_id from) db.folders)
    → map (λ (r : NamedRow). r.id) tags
      ≡ map (λ (t : Tag). t.id) (filter (old_tag vault_id from) db.tags)
    → (db' : Db) × ((send_metadata actor vault_id to folders tags name db >>= λ db2.
          close_rotation db2 now actor vault_id)
        ≡ ok db')
      × IsRetired db' vault_id from
unfolding require_membership ◌>>=◌
metadata-completes now actor vault_id from to folders tags name db {m} {v} apart entered run found
      none' good_f good_t good_n ids_f ids_t =
    let (fs, ts, vs, rs, v', sent, none_f, none_t, found', left, run') =
      send_metadata-runs actor vault_id from to apart {m = m} folders tags name db v entered run
        found good_f good_t good_n
        (subst (λ l. AreListed (λ (f : Folder). f.id) (old_folder vault_id from) l db.folders)
          (sym ids_f)
          (AreListed-filter (λ (f : Folder). f.id) (old_folder vault_id from)
            (old_folder vault_id from) db.folders (λ x h. h)))
        (subst (λ l. AreRows (λ (f : Folder). f.id) l db.folders) (sym ids_f)
          (AreRows-filter (λ (f : Folder). f.id) (old_folder vault_id from) db.folders))
        (subst (λ l. AreListed (λ (t : Tag). t.id) (old_tag vault_id from) l db.tags) (sym ids_t)
          (AreListed-filter (λ (t : Tag). t.id) (old_tag vault_id from) (old_tag vault_id from)
            db.tags (λ x h. h)))
        (subst (λ l. AreRows (λ (t : Tag). t.id) l db.tags) (sym ids_t)
          (AreRows-filter (λ (t : Tag). t.id) (old_tag vault_id from) db.tags)) in
    let db2 : Db = record db { folders = fs; tags = ts; vaults = vs; rotations = rs } in
    let (db', closed) =
      close_rotation-runs db2 now actor vault_id from to entered run' found' left
        (AreListed-none (λ (s : Secret). s.id) (old_secret vault_id from) db.secrets none')
        (AreListed-none (λ (f : Folder). f.id) (old_folder vault_id from) fs none_f)
        (AreListed-none (λ (t : Tag). t.id) (old_tag vault_id from) ts none_t) in
    (db', rw sent closed, close_rotation-retires db2 now actor vault_id from to run' closed)

module _ {PublicKey PrivateKey : Type 0} (c : WebCrypto PublicKey PrivateKey) (draw : Place → Bytes)
    (old_key new_key : Bytes) where
  vault_name_value-runs :
      (w : VaultView) (from : ℕ)
      → IsReady c draw old_key new_key
      → (Opens c draw old_key new_key w.name ⊎ (w.name_key_version ≢ from))
      → (name : Value) × (vault_name_value c draw old_key new_key (some w) from ≡ ok name)
        × ((IsSendable name × (is_defined name ≡ true))
            ⊎ ((name ≡ undefined) × (w.name_key_version ≢ from)))
  unfolding vault_name_value ◌>>=◌
  vault_name_value-runs w from ready (inl opens) = elim (Bool-cases (w.name_key_version == from)) [
    | inl stale ↦
        let (e, sealed, good) =
          reencrypt-runs c draw old_key new_key name_of_vault w.name ready opens in
        (str e, rw (stale, sealed) refl, inl (good, refl))
    | inr fresh ↦ (undefined, rw fresh refl, inr (refl, ground arith))
  ]
  vault_name_value-runs w from ready (inr left) =
      let fresh : (w.name_key_version == from) ≡ false = ground arith in
      (undefined, rw fresh refl, inr (refl, left))

  -- The run, once the lists of the server have been read.
  run_rotation-reads :
      (db : Db) (now actor vault_id from to : ℕ) {m : VaultMembership}
      → require_membership db vault_id actor viewer ≡ ok m
      → run_rotation c draw old_key new_key db now actor vault_id from to ≡ (
          send_secrets c draw old_key new_key
            (length (filter (old_secret vault_id from) db.secrets))
            actor
            vault_id
            to
            (filter (old_secret vault_id from) db.secrets)
            db
          >>= λ db1.
              folder_rows c draw old_key new_key (filter (old_folder vault_id from) db.folders)
              >>= λ folders.
                  tag_rows c draw old_key new_key (filter (old_tag vault_id from) db.tags)
                  >>= λ tags.
                      vault_name_value c draw old_key new_key (vault_view db1 actor vault_id) from
                      >>= λ name. send_metadata actor vault_id to folders tags name db1 >>= λ db2.
                          close_rotation db2 now actor vault_id)
  unfolding run_rotation list_secrets list_folders list_tags ◌>>=◌
  run_rotation-reads db now actor vault_id from to reads =
      rw
        (
          reads,
          filter-filter (λ (s : Secret). s.vault_id == vault_id) (λ s. s.key_version == from)
              db.secrets,
          filter-filter (λ (f : Folder). f.vault_id == vault_id) (λ f. f.key_version == from)
              db.folders,
          filter-filter (λ (t : Tag). t.vault_id == vault_id) (λ t. t.key_version == from) db.tags,
        )
        refl

  -- What the worker can open: everything of the vault that is still under the old generation, its
  -- name included unless that has left the generation.
  pub record AllOpens (db : Db) (vault_id from : ℕ) (v : Vault) : Type 0 where
    pub secrets :
        All (SecretOpens c draw old_key new_key) (filter (old_secret vault_id from) db.secrets)
    pub folders :
        All
          (λ f. Opens c draw old_key new_key (bytes_to_base64_url f.name))
          (filter (old_folder vault_id from) db.folders)
    pub tags :
        All
          (λ t. Opens c draw old_key new_key (bytes_to_base64_url t.name))
          (filter (old_tag vault_id from) db.tags)
    pub name :
        Opens c draw old_key new_key (bytes_to_base64_url v.name) ⊎ (v.name_key_version ≢ from)

  -- An owner who runs the worker on a running rotation, from its start or after any of its batches,
  -- with a key that opens everything that is still under the old generation and with nothing else
  -- happening, gets to the end: every batch is accepted and the
  -- close succeeds, after which nothing of the vault is under the old generation and no member holds
  -- a wrap of it.
  pub run_rotation-completes :
      (db : Db) (now actor vault_id : ℕ) {m : VaultMembership} {v : Vault} {r : VaultRotation}
      → IsReady c draw old_key new_key
      → require_membership db vault_id actor owner ≡ ok m
      → find (running_in vault_id) db.rotations ≡ some r
      → r.to_version ≢ r.from_version
      → find (λ w. w.id == vault_id) db.vaults ≡ some v
      → AllOpens db vault_id r.from_version v
      → (db' : Db) × (run_rotation c draw old_key new_key db now actor vault_id r.from_version
            r.to_version
          ≡ ok db')
        × IsRetired db' vault_id r.from_version
  unfolding require_membership ◌>>=◌
  run_rotation-completes db now actor vault_id {m} {v} {r} ready entered running apart found opens =
      let from = r.from_version in
      let to = r.to_version in
      let reads = require_membership-viewer db vault_id actor entered in
      let run : IsRunning vault_id from to db.rotations = record {
        rotation = r;
        found = running;
        starts = refl;
        ends = refl;
      } in
      let stale = filter (old_secret vault_id from) db.secrets in
      let (ss, rs, sent, none', run1) =
        send_secrets-runs c draw old_key new_key actor vault_id from to apart {m = m} (length stale)
          stale db ready (omega arith) entered run opens.secrets
          (AreListed-filter (λ (s : Secret). s.id) (old_secret vault_id from)
            (old_secret vault_id from) db.secrets (λ x h. h))
          (AreRows-filter (λ (s : Secret). s.id) (old_secret vault_id from) db.secrets) in
      let (folders, made_f, good_f, ids_f) =
        folder_rows-runs c draw old_key new_key (filter (old_folder vault_id from) db.folders) ready
          opens.folders in
      let (tags, made_t, good_t, ids_t) =
        tag_rows-runs c draw old_key new_key (filter (old_tag vault_id from) db.tags) ready
          opens.tags in
      let db1 : Db = record db { secrets = ss; rotations = rs } in
      let (w, shown, named, version) = vault_view-shown db1 vault_id actor entered found in
      let (name, made_n, good_n) = vault_name_value-runs w from ready (elim opens.name [
        | inl o ↦ inl (subst (Opens c draw old_key new_key) (sym named) o)
        | inr left ↦ inr (subst (λ n. n ≢ from) (sym version) left)
      ]) in
      let (db', done, retired) =
        metadata-completes now actor vault_id from to folders tags name db1 {v = v} apart entered
          run1 found none' good_f good_t
          (subst
            (λ n. (IsSendable name × (is_defined name ≡ true)) ⊎ ((name ≡ undefined) × (n ≢ from)))
            version good_n)
          ids_f ids_t in
      (
        db',
        run_rotation-reads db now actor vault_id from to reads
            ∙ rw (sent, made_f, made_t, shown, made_n) done,
        retired,
      )
