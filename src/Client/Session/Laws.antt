-- ===== src/Client/Session/Laws.antt =====
-- The chain of keys from the master password to a name in the vault.
use safe_pass.Base.{
  ℕ, ◌≤◌, ◌<◌, ◌≡◌, refl, true, false, some, [], ◌∷◌, inr, length, ltb, ==_refl, All, map_get,
  map_set, arith,
}
use safe_pass.Errors.{ok, guard, required, ◌>>=◌, ◌>>◌}
use safe_pass.Envelope.Base64.{Text, Bytes, bytes_to_base64_url}
use safe_pass.Json.{normalize}
use safe_pass.Client.Keyring.{
  Keyring, unlock, install, notify, receive_key, same_state, add_key, address, versions_of,
  require_state, vault_key_for, read, add_symmetric_vault_key,
}
use safe_pass.Client.Keyring.Refinement.{empty, held_key}
use safe_pass.Client.Crypto.{
  WebCrypto, Argon2Options, default_kdf_params, personal_name, encrypt, decrypt, decrypt_bytes,
  wrap_user_key, unwrap_user_key, generate_keypair, unwrap_private_key, wrap_vault_key_symmetric,
  unwrap_vault_key_symmetric, argon2id_raw, derive_stretched_master_key, derive_master_key,
  derive_auth_hash,
}
use safe_pass.Client.Crypto.Laws.{AreBytes, IsCipher, decrypt_bytes-encrypt_bytes}
use safe_pass.Client.Crypto.Stretch.{length-derive_stretched_master_key}
use safe_pass.Client.Session.{
  Draws, RegisterRequest, WrappedKeyring, build_registration_request, unlock_from_keyring,
  load_vaults, load_wraps, then_keyring, change_request, require_acceptable_master_password,
}

-- What the client relies on of its platform: a cipher, an HMAC that is not empty, a SHA-256 of eight
-- bytes at least, and the encoding of text.
pub record IsPlatform {P S : Type 0} (c : WebCrypto P S) : Type 0 where
  pub cipher : IsCipher c
  pub grows : (key message : Bytes) → 0 < length (c.hmac key message)
  pub salted : (message : Bytes) → 8 ≤ length (c.sha256 message)
  pub in_bytes : (t : Text) → AreBytes (c.utf8 t)
  pub ascii : (t : Text) → All (λ u. u < 128) t → c.from_utf8 (c.utf8 t) ≡ t

abbrev pub IsNonce : Bytes → Type 0
IsNonce n = (length n ≡ 12) × AreBytes n

abbrev IsKey : Bytes → Type 0
IsKey k = (length k ≡ 32) × AreBytes k

-- What the generators of the runtime return.
pub record AreDrawn (d : Draws) : Type 0 where
  pub user_key : IsKey d.user_key
  pub vault_key : IsKey d.vault_key
  pub pkcs8 : AreBytes d.pkcs8
  pub pair_nonce : IsNonce d.pair_nonce
  pub user_nonce : IsNonce d.user_nonce
  pub vault_nonce : IsNonce d.vault_nonce
  pub name_nonce : IsNonce d.name_nonce

module _ {PublicKey PrivateKey : Type 0} (c : WebCrypto PublicKey PrivateKey) where
  argon2id_raw-is_ok :
      (opts : Argon2Options) → 8 ≤ length opts.salt → argon2id_raw c opts ≡ ok (c.argon2id opts)
  unfolding argon2id_raw guard ◌>>=◌ ◌>>◌
  argon2id_raw-is_ok opts long =
      let test : ltb (length opts.salt) 8 ≡ false = ground arith in rw test refl

  -- The master key depends on the e-mail address through its normal form alone.
  pub derive_master_key-is_ok :
      IsPlatform c
      → (password email email' : Text) → normalize email' ≡ normalize email
      → (k : Bytes) × (derive_master_key c password email default_kdf_params ≡ ok k)
        × (derive_master_key c password email' default_kdf_params ≡ ok k)
  unfolding derive_master_key
  derive_master_key-is_ok p password email email' same =
      let here = argon2id_raw-is_ok _ (p.salted _) in (_, here, rw same here)

  derive_auth_hash-is_ok :
      IsPlatform c
      → (master_key : Bytes) (password : Text)
      → (h : Bytes) × (derive_auth_hash c master_key password ≡ ok h)
  unfolding derive_auth_hash
  derive_auth_hash-is_ok p master_key password = (_, argon2id_raw-is_ok _ (p.salted _))

  unlock-opens :
      (keyring : WrappedKeyring) (password email : Text) (ring : Keyring PrivateKey) (k : Bytes)
      {user_key pkcs8 : Bytes} {private_key : PrivateKey}
      → derive_master_key c password email default_kdf_params ≡ ok k
      → decrypt_bytes c (derive_stretched_master_key c k) keyring.wrapped_user_key ≡ ok user_key
      → decrypt_bytes c user_key keyring.wrapped_private_key ≡ ok pkcs8
      → c.import_pkcs8 pkcs8 ≡ some private_key
      → unlock_from_keyring c password email keyring ring ≡ inr (install user_key private_key ring)
  unfolding unlock_from_keyring unlock unwrap_user_key unwrap_private_key required ◌>>=◌
  unlock-opens keyring password email ring k derived opens_user opens_pair imported =
      rw (derived, unlock_from_keyring, opens_user, unlock, opens_pair, imported) refl

  load-opens :
      (vault_id : ℕ) (wrapped : Text) (user_key vault_key : Bytes) (private_key : PrivateKey)
      → decrypt_bytes c user_key wrapped ≡ ok vault_key
      → load_vaults c
          (record { id = vault_id; personal = true; key_wraps = (1, wrapped) ∷ [] } ∷ [])
          (install user_key private_key empty)
        ≡ inr (receive_key 0 vault_id 1 vault_key (install user_key private_key empty))
  unfolding load_vaults load_wraps then_keyring add_symmetric_vault_key unwrap_vault_key_symmetric
      require_state read install notify
  load-opens vault_id wrapped user_key vault_key private_key opens =
      rw (opens, add_symmetric_vault_key) refl

  -- The request of a registration is built; with its wrapped keys the password and the second
  -- address unlock an empty keyring; its personal vault loads into the keyring, where the vault's key
  -- is held; and that key opens the vault's name.
  abbrev pub AccountOpens : Draws → Text → Text → Text → ℕ → Type 0
  AccountOpens d password email email' vault_id =
      (r : RegisterRequest) × (ring1 ring2 : Keyring PrivateKey) × (build_registration_request c d
          email password default_kdf_params
        ≡ ok r)
      × (unlock_from_keyring c password email'
            (record {
              wrapped_user_key = r.wrapped_user_key;
              wrapped_private_key = r.wrapped_private_key;
              public_key = r.public_key;
            })
            empty
          ≡ inr ring1)
      × (load_vaults c
            (record { id = vault_id; personal = true; key_wraps = (1, r.wrapped_vault_key) ∷ [] }
              ∷ [])
            ring1
          ≡ inr ring2)
      × (held_key ring2 vault_id 1 ≡ some d.vault_key)
      × (decrypt c d.vault_key r.personal_vault_name ≡ ok personal_name)

  -- An account that has just been registered opens on any device: with the same password and any
  -- spelling of the same address, the wrapped keys of the request unlock a keyring, in which the
  -- personal vault's key is held, and that key opens the vault's name.
  pub build_registration_request-opens :
      (d : Draws) (password email email' : Text) (vault_id : ℕ) {private_key : PrivateKey}
      → IsPlatform c
      → AreDrawn d
      → c.import_pkcs8 d.pkcs8 ≡ some private_key
      → normalize email' ≡ normalize email
      → AccountOpens d password email email' vault_id
  unfolding build_registration_request generate_keypair wrap_user_key wrap_vault_key_symmetric
      encrypt unlock_from_keyring unlock unwrap_user_key unwrap_private_key required install notify
      load_vaults load_wraps then_keyring add_symmetric_vault_key unwrap_vault_key_symmetric
      require_state read receive_key same_state add_key versions_of map_get map_set held_key
      vault_key_for address decrypt ◌>>=◌
  build_registration_request-opens d password email email' vault_id {private_key} p w imported
        same =
      let (k, here, there) = derive_master_key-is_ok p password email email' same in
      let stretched = derive_stretched_master_key c k in
      let (h, hashed) = derive_auth_hash-is_ok p k password in
      let long : length stretched ≡ 32 = length-derive_stretched_master_key c k (p.grows k) in
      let (pair, sealed_pair, opens_pair, _, _) =
        decrypt_bytes-encrypt_bytes c d.pair_nonce d.user_key d.pkcs8 p.cipher w.user_key.0
          w.pair_nonce.0 w.pair_nonce.1 w.pkcs8 in
      let (user, sealed_user, opens_user, _, _) =
        decrypt_bytes-encrypt_bytes c d.user_nonce stretched d.user_key p.cipher long w.user_nonce.0
          w.user_nonce.1 w.user_key.1 in
      let (vault, sealed_vault, opens_vault, _, _) =
        decrypt_bytes-encrypt_bytes c d.vault_nonce d.user_key d.vault_key p.cipher w.user_key.0
          w.vault_nonce.0 w.vault_nonce.1 w.vault_key.1 in
      let (name, sealed_name, opens_name, _, _) =
        decrypt_bytes-encrypt_bytes c d.name_nonce d.vault_key (c.utf8 personal_name) p.cipher
          w.vault_key.0 w.name_nonce.0 w.name_nonce.1 (p.in_bytes personal_name) in
      let ring1 : Keyring PrivateKey = install d.user_key private_key empty in
      (
        record {
          email = normalize email;
          auth_hash = bytes_to_base64_url h;
          kdf_params = default_kdf_params;
          wrapped_user_key = user;
          public_key = bytes_to_base64_url d.spki;
          wrapped_private_key = pair;
          wrapped_vault_key = vault;
          personal_vault_name = name;
          recovery_acknowledged = true;
        },
        ring1,
        receive_key 0 vault_id 1 d.vault_key ring1,
        rw (here, hashed, sealed_pair, sealed_user, sealed_vault, sealed_name) refl,
        unlock-opens
            (record {
              wrapped_user_key = user;
              wrapped_private_key = pair;
              public_key = bytes_to_base64_url d.spki;
            })
            password email' empty k there opens_user opens_pair imported,
        load-opens vault_id vault d.user_key d.vault_key private_key opens_vault,
        rw (==_refl vault_id, held_key) refl,
        rw (opens_name, p.ascii personal_name (omega arith)) refl,
      )

  unlock-same :
      (wrapped wrapped' wrapped_private public_key password password' email : Text)
      (ring : Keyring PrivateKey) (k k' user_key : Bytes)
      → derive_master_key c password email default_kdf_params ≡ ok k
      → derive_master_key c password' email default_kdf_params ≡ ok k'
      → decrypt_bytes c (derive_stretched_master_key c k) wrapped ≡ ok user_key
      → decrypt_bytes c (derive_stretched_master_key c k') wrapped' ≡ ok user_key
      → unlock_from_keyring c password' email
          (record {
            wrapped_user_key = wrapped';
            wrapped_private_key = wrapped_private;
            public_key = public_key;
          })
          ring
        ≡ unlock_from_keyring c password email
            (record {
              wrapped_user_key = wrapped;
              wrapped_private_key = wrapped_private;
              public_key = public_key;
            })
            ring
  unfolding unlock_from_keyring unlock unwrap_user_key
  unlock-same wrapped wrapped' private public password password' email ring k k' uk old new opens
        opens' =
      rw (new, unlock_from_keyring, opens', unlock, old, opens) refl

  -- A change of the master password to an acceptable one, from a password that opens the account,
  -- succeeds, and unlocking with the new password and the new wrap does exactly what unlocking with
  -- the old ones did.
  pub change_request-opens :
      (score : Text → ℕ) (nonce : Bytes)
      (email password password' wrapped wrapped_private public_key : Text)
      (ring : Keyring PrivateKey) (k user_key : Bytes)
      → IsPlatform c
      → IsNonce nonce
      → AreBytes user_key
      → require_acceptable_master_password score password' ≡ ok tt
      → derive_master_key c password email default_kdf_params ≡ ok k
      → decrypt_bytes c (derive_stretched_master_key c k) wrapped ≡ ok user_key
      → (old_hash new_hash wrapped' : Text) × (change_request c score nonce email password password'
            wrapped
          ≡ ok (old_hash, new_hash, wrapped'))
        × (unlock_from_keyring c password' email
              (record {
                wrapped_user_key = wrapped';
                wrapped_private_key = wrapped_private;
                public_key = public_key;
              })
              ring
            ≡ unlock_from_keyring c password email
                (record {
                  wrapped_user_key = wrapped;
                  wrapped_private_key = wrapped_private;
                  public_key = public_key;
                })
                ring)
  unfolding change_request unwrap_user_key wrap_user_key ◌>>=◌ ◌>>◌
  change_request-opens score nonce email password password' wrapped private public ring k uk p n bs
        strong derived opens =
      let (k', derived', _) = derive_master_key-is_ok p password' email email refl in
      let (h, hashed) = derive_auth_hash-is_ok p k password in
      let (h', hashed') = derive_auth_hash-is_ok p k' password' in
      let (wrapped', sealed, opens', _, _) =
        decrypt_bytes-encrypt_bytes c nonce (derive_stretched_master_key c k') uk p.cipher
          (length-derive_stretched_master_key c k' (p.grows k')) n.0 n.1 bs in
      (
        bytes_to_base64_url h,
        bytes_to_base64_url h',
        wrapped',
        rw (strong, derived, derived', opens, hashed, hashed', sealed) refl,
        unlock-same wrapped wrapped' private public password password' email ring k k' uk derived
            derived' opens opens',
      )
