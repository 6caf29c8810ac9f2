-- ===== src/Client/Rotation/Runs.antt =====
-- The batches of an uninterrupted run: the server accepts every one, and the rotation is running still.
use safe_pass.Base.{
  ℕ, zero, suc, ◌+◌, ◌≤◌, ◌≡◌, ◌≢◌, refl, sym, ap, ◌∙◌, true, false, ◌&&◌, not, Option, some, List,
  [], ◌∷◌, ◌++◌, ◌==◌, update, find, map, length, take, drop, All, ==_refl, Bool-cases, inl, inr,
  ◌⊎◌, find-update, arith,
}
use mathlib.Core.Path.{subst}
use safe_pass.Errors.{ok, guard, required, ◌>>=◌, ◌>>◌}
use safe_pass.Envelope.{Value, undefined}
use safe_pass.Envelope.Base64.{Bytes}
use safe_pass.Json.{natural}
use safe_pass.Store.{
  Db, Secret, Folder, Tag, Vault, VaultMembership, VaultRotation, owner, running_in,
}
use safe_pass.Vaults.Authz.{require_membership}
use safe_pass.Vaults.Rotation.{
  SecretRow, NamedRow, RotationBatch, Progress, rotation_batch, batch_secrets, batch_folders,
  batch_tags, batch_vault_name,
}
use safe_pass.Vaults.Sharing.{is_defined}
use safe_pass.Client.Crypto.{WebCrypto}
use safe_pass.Client.Rotation.{Place, batch_size, is_empty, send_secrets, send_metadata}
use safe_pass.Client.Rotation.Left.{
  AreListed, AreRows, All-take, All-drop, take-drop, map-append, append-nil, length-drop-le,
}
use safe_pass.Client.Rotation.Batches.{
  IsSendable, old_secret, old_folder, old_tag, batch_secrets-runs, batch_folders-runs,
  batch_tags-runs, batch_vault_name-runs,
}
use safe_pass.Client.Rotation.Sealed.{IsReady, SecretOpens, secret_rows-runs}

-- A rotation of the vault between the two generations is running.
pub record IsRunning (vault_id from to : ℕ) (rotations : List VaultRotation) : Type 0 where
  pub rotation : VaultRotation
  pub found : find (running_in vault_id) rotations ≡ some rotation
  pub starts : rotation.from_version ≡ from
  pub ends : rotation.to_version ≡ to

IsRunning-update :
    (vault_id from to id : ℕ) (cursor : Option ℕ) (done : ℕ) (rs : List VaultRotation)
    → IsRunning vault_id from to rs
    → IsRunning vault_id from to (
        update
          (λ r. r.id == id)
          (λ r. record r { cursor = cursor; done_count = r.done_count + done })
          rs)
IsRunning-update vault_id from to id cursor done rs run =
    let r = run.rotation in
    let after =
      find-update (running_in vault_id) (λ (r : VaultRotation). r.id == id)
        (λ r. record r { cursor = cursor; done_count = r.done_count + done }) rs (λ y. refl)
        run.found in
    elim (Bool-cases (r.id == id)) [
      | inl hit ↦ record {
        rotation = record r { cursor = cursor; done_count = r.done_count + done };
        found = after ∙ rw hit refl;
        starts = run.starts;
        ends = run.ends;
      }
      | inr miss ↦ record {
        rotation = r;
        found = after ∙ rw miss refl;
        starts = run.starts;
        ends = run.ends;
      }
    ]

module _ (actor vault_id from to : ℕ) {m : VaultMembership} where
  -- A batch whose loops succeed is accepted, and the rotation is running still.
  rotation_batch-runs :
      (db : Db) (body : RotationBatch) (p1 p2 p3 p4 : Progress)
      → require_membership db vault_id actor owner ≡ ok m
      → (run : IsRunning vault_id from to db.rotations) → body.to_version ≡ natural to
      → (is_empty body.secrets
          && is_empty body.folders
          && is_empty body.tags
          && not (is_defined body.vault_name))
        ≡ false
      → batch_secrets to body.secrets (record { db = db; cursor = run.rotation.cursor; done = 0 })
        ≡ ok p1
      → batch_folders to body.folders p1 ≡ ok p2
      → batch_tags to body.tags p2 ≡ ok p3
      → batch_vault_name vault_id to body.vault_name p3 ≡ ok p4
      → rotation_batch db actor vault_id body
        ≡ ok (record (p4.db) {
          rotations =
              update
                (λ r. r.id == run.rotation.id)
                (λ r. record r { cursor = p4.cursor; done_count = r.done_count + p4.done })
                (p4.db).rotations;
        })
  unfolding rotation_batch required guard ◌>>=◌ ◌>>◌
  rotation_batch-runs db body p1 p2 p3 p4 entered run number more e1 e2 e3 e4 =
      rw (entered, run.found, number, run.ends, ==_refl to, more, e1, e2, e3, e4) refl

module _ {PublicKey PrivateKey : Type 0} (c : WebCrypto PublicKey PrivateKey) (draw : Place → Bytes)
    (old_key new_key : Bytes) (actor vault_id from to : ℕ) (apart : to ≢ from)
    {m : VaultMembership} where
  -- With a round for every secret, the loop over the stale secrets leaves none.
  pub send_secrets-runs :
      (rounds : ℕ) (stale : List Secret) (db : Db)
      → IsReady c draw old_key new_key
      → length stale ≤ rounds
      → require_membership db vault_id actor owner ≡ ok m
      → IsRunning vault_id from to db.rotations
      → All (SecretOpens c draw old_key new_key) stale
      → AreListed
          (λ (s : Secret). s.id)
          (old_secret vault_id from)
          (map (λ (s : Secret). s.id) stale)
          db.secrets
      → AreRows (λ (s : Secret). s.id) (map (λ (s : Secret). s.id) stale) db.secrets
      → (ss : List Secret) × (rs : List VaultRotation) × (send_secrets c draw old_key new_key rounds
            actor vault_id to stale db
          ≡ ok (record db { secrets = ss; rotations = rs }))
        × AreListed (λ (s : Secret). s.id) (old_secret vault_id from) [] ss
        × IsRunning vault_id from to rs
  unfolding send_secrets batch_folders batch_tags batch_vault_name require_membership ◌>>=◌
  send_secrets-runs zero [] db ready enough entered run opens listed there =
      (db.secrets, db.rotations, refl, listed, run)
  send_secrets-runs zero (s ∷ stale) db ready enough entered run opens listed there =
      absurd (omega arith)
  send_secrets-runs (suc rounds) [] db ready enough entered run opens listed there =
      (db.secrets, db.rotations, refl, listed, run)
  send_secrets-runs (suc rounds) (s ∷ stale) db ready enough entered run opens listed there =
      let id : Secret → ℕ = λ s. s.id in
      let later = drop batch_size (s ∷ stale) in
      let (rows, made, goods, ids, more) =
        secret_rows-runs c draw old_key new_key (take batch_size (s ∷ stale)) ready
          (All-take _ batch_size (s ∷ stale) opens) in
      let all' : map (λ (r : SecretRow). r.id) rows ++ map id later ≡ map id (s ∷ stale) =
        ap (λ (l : List ℕ). l ++ map id later) ids
        ∙ sym (map-append id (take batch_size (s ∷ stale)) later)
        ∙ ap (map id) (take-drop batch_size (s ∷ stale)) in
      let (ss, cursor, done, ran, listed', there') =
        batch_secrets-runs vault_id from to apart rows (map id later)
          (record { db = db; cursor = run.rotation.cursor; done = 0 }) goods
          (subst (λ l. AreListed id (old_secret vault_id from) l db.secrets) (sym all') listed)
          (subst (λ l. AreRows id l db.secrets) (sym all') there) in
      let p : Progress = record { db = record db { secrets = ss }; cursor = cursor; done = done } in
      let accepted =
        rotation_batch-runs actor vault_id from to {m = m} db
          (record {
            to_version = natural to;
            secrets = rows;
            folders = [];
            tags = [];
            vault_name = undefined;
          })
          p p p p entered run refl (rw more refl) ran refl refl refl in
      let (ss', rs', rest, none', run') =
        send_secrets-runs rounds later
          (record db {
            secrets = ss;
            rotations =
                update (λ r. r.id == run.rotation.id)
                  (λ r. record r { cursor = cursor; done_count = r.done_count + done })
                  db.rotations;
          })
          ready (ground (arith, length-drop-le 49 stale)) entered
          (IsRunning-update vault_id from to run.rotation.id cursor done db.rotations run)
          (All-drop _ batch_size (s ∷ stale) opens) listed' there' in
      (ss', rs', rw (made, accepted) rest, none', run')

module _ (actor vault_id from to : ℕ) (apart : to ≢ from) {m : VaultMembership} where
  -- The last batch, when it carries something.
  pub send_metadata-sends :
      (folders tags : List NamedRow) (name : Value) (db : Db) (v : Vault)
      → (is_empty folders && is_empty tags && not (is_defined name)) ≡ false
      → require_membership db vault_id actor owner ≡ ok m
      → IsRunning vault_id from to db.rotations
      → find (λ w. w.id == vault_id) db.vaults ≡ some v
      → All (λ r. IsSendable r.name) folders
      → All (λ r. IsSendable r.name) tags
      → (IsSendable name × (is_defined name ≡ true))
        ⊎ ((name ≡ undefined) × (v.name_key_version ≢ from))
      → AreListed
          (λ (f : Folder). f.id)
          (old_folder vault_id from)
          (map (λ (r : NamedRow). r.id) folders)
          db.folders
      → AreRows (λ (f : Folder). f.id) (map (λ (r : NamedRow). r.id) folders) db.folders
      → AreListed
          (λ (t : Tag). t.id)
          (old_tag vault_id from)
          (map (λ (r : NamedRow). r.id) tags)
          db.tags
      → AreRows (λ (t : Tag). t.id) (map (λ (r : NamedRow). r.id) tags) db.tags
      → (fs : List Folder) × (ts : List Tag) × (vs : List Vault) × (rs : List VaultRotation)
        × (v' : Vault) × (send_metadata actor vault_id to folders tags name db
            ≡ ok (record db { folders = fs; tags = ts; vaults = vs; rotations = rs }))
        × AreListed (λ (f : Folder). f.id) (old_folder vault_id from) [] fs
        × AreListed (λ (t : Tag). t.id) (old_tag vault_id from) [] ts
        × (find (λ w. w.id == vault_id) vs ≡ some v')
        × (v'.name_key_version ≢ from)
        × IsRunning vault_id from to rs
  unfolding send_metadata batch_secrets
  send_metadata-sends folders tags name db v more entered run found good_f good_t good_n listed_f
        there_f listed_t there_t =
      let nil : List ℕ = [] in
      let p : Progress = record { db = db; cursor = run.rotation.cursor; done = 0 } in
      let (fs, n1, ran1, none1) =
        batch_folders-runs vault_id from to apart folders nil p good_f
          (subst (λ l. AreListed (λ (f : Folder). f.id) (old_folder vault_id from) l db.folders)
            (sym (append-nil (map (λ (r : NamedRow). r.id) folders))) listed_f)
          (subst (λ l. AreRows (λ (f : Folder). f.id) l db.folders)
            (sym (append-nil (map (λ (r : NamedRow). r.id) folders))) there_f) in
      let p1 : Progress = record {
        db = record db { folders = fs };
        cursor = run.rotation.cursor;
        done = n1;
      } in
      let (ts, n2, ran2, none2) =
        batch_tags-runs vault_id from to apart tags nil p1 good_t
          (subst (λ l. AreListed (λ (t : Tag). t.id) (old_tag vault_id from) l db.tags)
            (sym (append-nil (map (λ (r : NamedRow). r.id) tags))) listed_t)
          (subst (λ l. AreRows (λ (t : Tag). t.id) l db.tags)
            (sym (append-nil (map (λ (r : NamedRow). r.id) tags))) there_t) in
      let p2 : Progress = record {
        db = record db { folders = fs; tags = ts };
        cursor = run.rotation.cursor;
        done = n2;
      } in
      let (vs, n3, v', ran3, found', left) =
        batch_vault_name-runs vault_id from to apart name p2 v found good_n in
      let p3 : Progress = record {
        db = record db { folders = fs; tags = ts; vaults = vs };
        cursor = run.rotation.cursor;
        done = n3;
      } in
      (
        fs,
        ts,
        vs,
        update (λ r. r.id == run.rotation.id)
            (λ r. record r { cursor = run.rotation.cursor; done_count = r.done_count + n3 })
            db.rotations,
        v',
        rw more (
            rotation_batch-runs actor vault_id from to {m = m} db
              (record {
                to_version = natural to;
                secrets = [];
                folders = folders;
                tags = tags;
                vault_name = name;
              })
              p p1 p2 p3 entered run refl more refl ran1 ran2 ran3),
        none1,
        none2,
        found',
        left,
        IsRunning-update vault_id from to run.rotation.id run.rotation.cursor n3 db.rotations run,
      )
