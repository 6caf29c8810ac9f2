-- ===== src/Client/Rotation/Sealed.antt =====
-- What the worker can open it can re-encrypt, and the server lets it through.
use safe_pass.Base.{ℕ, ◌≡◌, refl, ap, List, [], ◌∷◌, map, length, All}
use safe_pass.Errors.{ok, ◌>>=◌}
use safe_pass.Envelope.{str, assert_envelope}
use safe_pass.Envelope.Base64.{Text, Bytes, bytes_to_base64_url}
use safe_pass.Store.{Secret, Folder, Tag}
use safe_pass.Vaults.Rotation.{SecretRow, NamedRow}
use safe_pass.Client.Crypto.{WebCrypto, encrypt, decrypt}
use safe_pass.Client.Crypto.Laws.{decrypt_bytes-encrypt_bytes}
use safe_pass.Client.Session.Laws.{IsPlatform, IsNonce}
use safe_pass.Client.Rotation.{
  Place, title_of, field_of, folder_name, tag_name, reencrypt, reencrypt_fields, secret_rows,
  folder_rows, tag_rows, is_empty,
}
use safe_pass.Client.Rotation.Batches.{IsSendable}

module _ {PublicKey PrivateKey : Type 0} (c : WebCrypto PublicKey PrivateKey) (draw : Place → Bytes)
    (old_key new_key : Bytes) where
  -- The worker's key and nonces are as its generators return them.
  pub record IsReady : Type 0 where
    pub platform : IsPlatform c
    pub key : length new_key ≡ 32
    pub nonces : (place : Place) → IsNonce (draw place)

  -- An envelope opens under the old key.
  abbrev pub Opens : Text → Type 0
  Opens t = (plaintext : Text) × (decrypt c old_key t ≡ ok plaintext)

  abbrev pub SecretOpens : Secret → Type 0
  SecretOpens s = Opens (bytes_to_base64_url s.title) × All (λ f. Opens f.1) s.field_values

  pub reencrypt-runs :
      (place : Place) (t : Text)
      → IsReady
      → Opens t
      → (e : Text) × (reencrypt c draw old_key new_key place t ≡ ok e) × IsSendable (str e)
  unfolding reencrypt encrypt assert_envelope ◌>>=◌
  reencrypt-runs place t ready (plaintext, opened) =
      let (e, sealed, _, good, _) =
        decrypt_bytes-encrypt_bytes c (draw place) new_key (c.utf8 plaintext) ready.platform.cipher
          ready.key (ready.nonces place).0 (ready.nonces place).1
          (ready.platform.in_bytes plaintext) in
      (e, rw (opened, sealed) refl, (e, rw good refl))

  reencrypt_fields-runs :
      (id : ℕ) (fields : List (Text × Text))
      → IsReady
      → All (λ f. Opens f.1) fields
      → (out : List (Text × Text)) × (reencrypt_fields c draw old_key new_key id fields ≡ ok out)
  unfolding reencrypt_fields ◌>>=◌
  reencrypt_fields-runs id [] ready opens = ([], refl)
  reencrypt_fields-runs id ((f, t) ∷ fields) ready (here, opens) =
      let (e, sealed, _) = reencrypt-runs (field_of id f) t ready here in
      let (out, rest) = reencrypt_fields-runs id fields ready opens in
      ((f, e) ∷ out, rw (sealed, rest) refl)

  pub secret_rows-runs :
      (slice : List Secret)
      → IsReady
      → All SecretOpens slice
      → (rows : List SecretRow) × (secret_rows c draw old_key new_key slice ≡ ok rows)
        × All (λ r. IsSendable r.title) rows
        × (map (λ (r : SecretRow). r.id) rows ≡ map (λ (s : Secret). s.id) slice)
        × (is_empty rows ≡ is_empty slice)
  unfolding secret_rows ◌>>=◌
  secret_rows-runs [] ready opens = ([], refl, tt, refl, refl)
  secret_rows-runs (s ∷ slice) ready ((title, fields), opens) =
      let (fs, fields') = reencrypt_fields-runs s.id s.field_values ready fields in
      let (e, sealed, good) = reencrypt-runs (title_of s.id) _ ready title in
      let (rows, rest, goods, ids, _) = secret_rows-runs slice ready opens in
      (
        record { id = s.id; title = str e; field_values = fs } ∷ rows,
        rw (fields', sealed, rest) refl,
        (good, goods),
        ap (λ (l : List ℕ). s.id ∷ l) ids,
        refl,
      )

  pub folder_rows-runs :
      (folders : List Folder)
      → IsReady
      → All (λ f. Opens (bytes_to_base64_url f.name)) folders
      → (rows : List NamedRow) × (folder_rows c draw old_key new_key folders ≡ ok rows)
        × All (λ r. IsSendable r.name) rows
        × (map (λ (r : NamedRow). r.id) rows ≡ map (λ (f : Folder). f.id) folders)
  unfolding folder_rows ◌>>=◌
  folder_rows-runs [] ready opens = ([], refl, tt, refl)
  folder_rows-runs (f ∷ folders) ready (name, opens) =
      let (e, sealed, good) = reencrypt-runs (folder_name f.id) _ ready name in
      let (rows, rest, goods, ids) = folder_rows-runs folders ready opens in
      (
        record { id = f.id; name = str e } ∷ rows,
        rw (sealed, rest) refl,
        (good, goods),
        ap (λ (l : List ℕ). f.id ∷ l) ids,
      )

  pub tag_rows-runs :
      (tags : List Tag)
      → IsReady
      → All (λ t. Opens (bytes_to_base64_url t.name)) tags
      → (rows : List NamedRow) × (tag_rows c draw old_key new_key tags ≡ ok rows)
        × All (λ r. IsSendable r.name) rows
        × (map (λ (r : NamedRow). r.id) rows ≡ map (λ (t : Tag). t.id) tags)
  unfolding tag_rows ◌>>=◌
  tag_rows-runs [] ready opens = ([], refl, tt, refl)
  tag_rows-runs (t ∷ tags) ready (name, opens) =
      let (e, sealed, good) = reencrypt-runs (tag_name t.id) _ ready name in
      let (rows, rest, goods, ids) = tag_rows-runs tags ready opens in
      (
        record { id = t.id; name = str e } ∷ rows,
        rw (sealed, rest) refl,
        (good, goods),
        ap (λ (l : List ℕ). t.id ∷ l) ids,
      )
