-- ===== src/Client/Session.antt =====
-- frontend/src/crypto/enrolment.ts, frontend/src/crypto/password-strength.ts and
-- frontend/src/vault/session.ts: what registering, signing in and a change of the password compute.
-- The server's replies, the estimate of zxcvbn and random bytes are arguments.
pub mod Laws
pub mod SignUp
use safe_pass.Base.{
  ℕ, ◌+◌, Bool, true, false, not, Option, none, some, List, [], ◌∷◌, ◌++◌, ◌⊎◌, inl, inr, ◌==◌,
  length, ltb, if◌then◌else◌,
}
use safe_pass.Errors.{Result, ok, err, internal, guard, required, ◌>>=◌, ◌>>◌}
use safe_pass.Envelope.Base64.{Text, Bytes, bytes_to_base64_url}
use safe_pass.Json.{normalize}
use safe_pass.Auth.Store.{KdfParams}
use safe_pass.Client.Keyring.{
  KeyringError, unwrap_failed, Keyring, unlock, add_symmetric_vault_key, add_member_vault_key, lock,
}
use safe_pass.Client.Crypto.{
  WebCrypto, default_kdf_params, personal_name, encrypt, wrap_user_key, unwrap_user_key,
  generate_keypair, unwrap_private_key, wrap_vault_key_symmetric, unwrap_vault_key_symmetric,
  unwrap_vault_key_for_member, derive_stretched_master_key, derive_master_key, derive_auth_hash,
}

pub record LoginRequest : Type 0 where
  pub email : Text
  pub auth_hash : Text

pub record RegisterRequest : Type 0 where
  pub email : Text
  pub auth_hash : Text
  pub kdf_params : KdfParams
  pub wrapped_user_key : Text
  pub public_key : Text
  pub wrapped_private_key : Text
  pub wrapped_vault_key : Text
  pub personal_vault_name : Text
  pub recovery_acknowledged : Bool

-- What a registration draws: the two keys, the exported key pair, and a nonce for each encryption.
pub record Draws : Type 0 where
  pub user_key : Bytes
  pub vault_key : Bytes
  pub spki : Bytes
  pub pkcs8 : Bytes
  pub pair_nonce : Bytes
  pub user_nonce : Bytes
  pub vault_nonce : Bytes
  pub name_nonce : Bytes

-- The keyring as the server sends it.
pub record WrappedKeyring : Type 0 where
  pub wrapped_user_key : Text
  pub wrapped_private_key : Text
  pub public_key : Text

-- The reply to a login: the keyring, or a demand for the second factor.
pub data SignInReply : Type 0 where
  challenged : SignInReply
  admitted : WrappedKeyring → SignInReply

-- A vault of the reply to `GET /vaults`, as far as its keys go.
pub record VaultWithWraps : Type 0 where
  pub id : ℕ
  pub personal : Bool
  pub key_wraps : List (ℕ × Text)

abbrev pub min_length : ℕ
min_length = 12

abbrev pub min_score : ℕ
min_score = 3

-- The problems that a password may have.
pub data Problem : Type 0 where
  too_short too_guessable : Problem

abbrev is_empty {ℓ} : {A : Type ℓ} → List A → Bool
is_empty [] = true
is_empty (x ∷ xs) = false

-- `assessMasterPassword`, with the score of zxcvbn: the problems found.
unfoldable pub assess_master_password : (Text → ℕ) → Text → List Problem
assess_master_password score password =
    let short = if ltb (length password) min_length then too_short ∷ [] else [] in
    let weak = if ltb (score password) min_score then too_guessable ∷ [] else [] in short ++ weak

unfoldable pub require_acceptable_master_password : (Text → ℕ) → Text → Result (Unit {0})
unfolding assess_master_password
require_acceptable_master_password score password =
    guard (is_empty (assess_master_password score password)) internal

-- An addition to the keyring after which the loop goes on, or throws.
unfoldable pub then_keyring {ℓ} :
    {A B : Type ℓ} → KeyringError ⊎ A → (A → KeyringError ⊎ B) → KeyringError ⊎ B
then_keyring (inl e) next = inl e
then_keyring (inr a) next = next a

module _ {PublicKey PrivateKey : Type 0} (c : WebCrypto PublicKey PrivateKey) where
  unfoldable pub build_login_request : Text → Text → KdfParams → Result LoginRequest
  build_login_request email master_password params = do
    master_key ← derive_master_key c master_password email params
    auth_hash ← derive_auth_hash c master_key master_password
    ok (record { email = normalize email; auth_hash = bytes_to_base64_url auth_hash })

  unfoldable pub build_registration_request :
      Draws → Text → Text → KdfParams → Result RegisterRequest
  build_registration_request d email master_password params = do
    master_key ← derive_master_key c master_password email params
    let stretched = derive_stretched_master_key c master_key
    auth_hash ← derive_auth_hash c master_key master_password
    keypair ← generate_keypair c d.pair_nonce d.user_key d.spki d.pkcs8
    wrapped_user_key ← wrap_user_key c d.user_nonce stretched d.user_key
    wrapped_vault_key ← wrap_vault_key_symmetric c d.vault_nonce d.user_key d.vault_key
    personal_vault_name ← encrypt c d.name_nonce d.vault_key personal_name
    ok (record {
      email = normalize email;
      auth_hash = bytes_to_base64_url auth_hash;
      kdf_params = params;
      wrapped_user_key = wrapped_user_key;
      public_key = keypair.0;
      wrapped_private_key = keypair.1;
      wrapped_vault_key = wrapped_vault_key;
      personal_vault_name = personal_vault_name;
      recovery_acknowledged = true;
    })

  -- `unlockFromKeyring`, before it restarts the countdown and loads the vaults.
  unfoldable pub unlock_from_keyring :
      Text → Text → WrappedKeyring → Keyring PrivateKey → KeyringError ⊎ Keyring PrivateKey
  unlock_from_keyring master_password email keyring ring =
      elim (derive_master_key c master_password email default_kdf_params) [
        | err e ↦ inl unwrap_failed
        | ok master_key ↦
            unlock (unwrap_user_key c) (unwrap_private_key c)
              (derive_stretched_master_key c master_key) keyring.wrapped_user_key
              keyring.wrapped_private_key ring
      ]

  -- The inner and the outer loop of `loadVaults`.
  unfoldable pub load_wraps :
      VaultWithWraps → List (ℕ × Text) → Keyring PrivateKey → KeyringError ⊎ Keyring PrivateKey
  unfolding then_keyring
  load_wraps vault [] ring = inr ring
  load_wraps vault ((key_version, wrapped) ∷ rest) ring =
      then_keyring
        (if vault.personal
          then add_symmetric_vault_key (unwrap_vault_key_symmetric c) vault.id key_version wrapped
              ring
          else add_member_vault_key (unwrap_vault_key_for_member c) vault.id key_version wrapped
              ring)
        (λ ring1. load_wraps vault rest ring1)

  unfoldable pub load_vaults :
      List VaultWithWraps → Keyring PrivateKey → KeyringError ⊎ Keyring PrivateKey
  unfolding load_wraps then_keyring
  load_vaults [] ring = inr ring
  load_vaults (vault ∷ rest) ring =
      then_keyring (load_wraps vault vault.key_wraps ring) (λ ring1. load_vaults rest ring1)

  -- `signIn`, with what the server replies to the login and to the request for the challenge: the
  -- keyring, and the user key if a second factor is outstanding.
  unfoldable pub sign_in :
      (LoginRequest → Result SignInReply)
      → Result Text
      → Text
      → Text
      → Keyring PrivateKey
      → KeyringError ⊎ (Keyring PrivateKey × Option Bytes)
  unfolding then_keyring unlock_from_keyring build_login_request
  sign_in login challenge email master_password ring =
      elim (build_login_request email master_password default_kdf_params >>= login) [
        | err e ↦ inl unwrap_failed
        | ok (admitted keyring) ↦
            then_keyring (unlock_from_keyring master_password email keyring ring)
              (λ ring1. inr (ring1, none))
        | ok challenged ↦
            let opened : Result Bytes =
              derive_master_key c master_password email default_kdf_params >>= λ master_key.
              challenge >>= λ wrapped.
              unwrap_user_key c (derive_stretched_master_key c master_key) wrapped in
            elim opened [ err e ↦ inl unwrap_failed | ok user_key ↦ inr (ring, some user_key) ]
      ]

  -- `register`, up to its request.
  unfoldable pub register : (Text → ℕ) → Draws → Text → Text → Result RegisterRequest
  unfolding require_acceptable_master_password build_registration_request
  register score d email master_password = do
    require_acceptable_master_password score master_password
    build_registration_request d email master_password default_kdf_params

  -- The body that `changeMasterPassword` sends: the two authentication hashes and the new wrap.
  unfoldable pub change_request :
      (Text → ℕ) → Bytes → Text → Text → Text → Text → Result (Text × Text × Text)
  unfolding require_acceptable_master_password
  change_request score nonce email current_password new_password current_wrapped_user_key = do
    require_acceptable_master_password score new_password
    old_master ← derive_master_key c current_password email default_kdf_params
    new_master ← derive_master_key c new_password email default_kdf_params
    user_key ← unwrap_user_key c (derive_stretched_master_key c old_master) current_wrapped_user_key
    current_auth_hash ← derive_auth_hash c old_master current_password
    new_auth_hash ← derive_auth_hash c new_master new_password
    new_wrapped_user_key ← wrap_user_key c nonce (derive_stretched_master_key c new_master) user_key
    ok (
      bytes_to_base64_url current_auth_hash,
      bytes_to_base64_url new_auth_hash,
      new_wrapped_user_key,
    )
