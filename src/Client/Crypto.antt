-- ===== src/Client/Crypto.antt =====
-- frontend/src/crypto: envelope.ts, user-key.ts, vault-key.ts, master-key.ts, kdf.ts and enrolment.ts.
-- The primitives of the runtime and of hash-wasm are the fields of `WebCrypto`; random bytes are
-- arguments.
pub mod Laws
pub mod Stretch
use safe_pass.Base.{
  ℕ, zero, suc, ◌+◌, ◌-◌, ◌%◌, Bool, true, false, not, Option, none, some, List, [], ◌∷◌, ◌++◌,
  ◌==◌, length, take, map_get, max_key, ltb, min, if◌then◌else◌,
}
use safe_pass.Errors.{Result, ok, err, internal, guard, required, ◌>>=◌, ◌>>◌}
use safe_pass.Envelope.{
  alg_rsa_oaep, frame_envelope, unframe_envelope, frame_key_wrap, unframe_key_wrap,
}
use safe_pass.Envelope.Base64.{Text, Bytes, bytes_to_base64_url, base64_url_to_bytes}
use safe_pass.Json.{normalize}
use safe_pass.Auth.Store.{KdfParams, argon2id, pbkdf2}

pub record Argon2Options : Type 0 where
  pub password : Bytes
  pub salt : Bytes
  pub parallelism : ℕ
  pub memory_kib : ℕ
  pub iterations : ℕ
  pub output_len : ℕ

-- WebCrypto, TextEncoder and TextDecoder, and the hashes of hash-wasm, whose hexadecimal output
-- `fromHex` turns back into bytes.
pub record WebCrypto (PublicKey PrivateKey : Type 0) : Type 0 where
  pub aes_encrypt : (key nonce plaintext : Bytes) → Bytes
  pub aes_decrypt : (key nonce ciphertext_with_tag : Bytes) → Option Bytes
  pub rsa_encrypt : (seed : Bytes) → PublicKey → Bytes → Bytes
  pub rsa_decrypt : PrivateKey → Bytes → Option Bytes
  pub import_spki : Bytes → Option PublicKey
  pub import_pkcs8 : Bytes → Option PrivateKey
  pub hmac : (key message : Bytes) → Bytes
  pub utf8 : Text → Bytes
  pub from_utf8 : Bytes → Text
  pub sha256 : Bytes → Bytes
  pub argon2id : Argon2Options → Bytes
  pub pbkdf2 : (password salt : Bytes) → (iterations : ℕ) → Bytes

abbrev pub default_kdf_params : KdfParams
default_kdf_params = record {
  algorithm = argon2id;
  memory_kib = 65536;
  iterations = 3;
  parallelism = 1;
}

-- `keyForVersion`
unfoldable pub key_for_version : List (ℕ × Bytes) → ℕ → Result Bytes
unfolding map_get
key_for_version keys row_key_version = required (map_get row_key_version keys) internal

-- `highestVersion`
unfoldable pub highest_version : List (ℕ × Bytes) → Result ℕ
unfolding max_key
highest_version [] = err internal
highest_version (k ∷ keys) = ok (max_key (k ∷ keys))

-- The code units of "pm:v1:stretch", "pm:v1:mksalt:", "pm:v1:authsalt:" and "Personal".
abbrev pub stretch_info : Text
stretch_info = 112 ∷ 109 ∷ 58 ∷ 118 ∷ 49 ∷ 58 ∷ 115 ∷ 116 ∷ 114 ∷ 101 ∷ 116 ∷ 99 ∷ 104 ∷ []

abbrev mksalt : Text
mksalt = 112 ∷ 109 ∷ 58 ∷ 118 ∷ 49 ∷ 58 ∷ 109 ∷ 107 ∷ 115 ∷ 97 ∷ 108 ∷ 116 ∷ 58 ∷ []

abbrev authsalt : Text
authsalt = 112 ∷ 109 ∷ 58 ∷ 118 ∷ 49 ∷ 58 ∷ 97 ∷ 117 ∷ 116 ∷ 104 ∷ 115 ∷ 97 ∷ 108 ∷ 116 ∷ 58 ∷ []

abbrev pub personal_name : Text
personal_name = 80 ∷ 101 ∷ 114 ∷ 115 ∷ 111 ∷ 110 ∷ 97 ∷ 108 ∷ []

module _ {PublicKey PrivateKey : Type 0} (c : WebCrypto PublicKey PrivateKey) where
  -- With the length test of `importAesKey`.
  unfoldable pub aes_gcm_encrypt_raw : Bytes → Bytes → Bytes → Result Bytes
  aes_gcm_encrypt_raw key nonce plaintext = do
    guard (length key == 32) internal
    ok (c.aes_encrypt key nonce plaintext)

  unfoldable pub aes_gcm_decrypt_raw : Bytes → Bytes → Bytes → Result Bytes
  aes_gcm_decrypt_raw key nonce ciphertext_with_tag = do
    guard (length key == 32) internal
    required (c.aes_decrypt key nonce ciphertext_with_tag) internal

  unfoldable pub encrypt_bytes : Bytes → Bytes → Bytes → Result Text
  unfolding aes_gcm_encrypt_raw
  encrypt_bytes nonce key plaintext = do
    ciphertext_with_tag ← aes_gcm_encrypt_raw key nonce plaintext
    frame_envelope nonce ciphertext_with_tag

  unfoldable pub decrypt_bytes : Bytes → Text → Result Bytes
  unfolding aes_gcm_decrypt_raw
  decrypt_bytes key envelope = do
    parts ← unframe_envelope envelope
    aes_gcm_decrypt_raw key parts.nonce parts.ciphertext_with_tag

  unfoldable pub encrypt : Bytes → Bytes → Text → Result Text
  unfolding encrypt_bytes
  encrypt nonce key plaintext = encrypt_bytes nonce key (c.utf8 plaintext)

  unfoldable pub decrypt : Bytes → Text → Result Text
  unfolding decrypt_bytes
  decrypt key envelope = do plaintext ← decrypt_bytes key envelope; ok (c.from_utf8 plaintext)

  unfoldable pub wrap_user_key : Bytes → Bytes → Bytes → Result Text
  unfolding encrypt_bytes
  wrap_user_key nonce stretched_master_key user_key =
      encrypt_bytes nonce stretched_master_key user_key

  unfoldable pub unwrap_user_key : Bytes → Text → Result Bytes
  unfolding decrypt_bytes
  unwrap_user_key stretched_master_key wrapped = decrypt_bytes stretched_master_key wrapped

  -- `generateKeypair`, of a generated pair in its exported formats: the public key and the wrapped
  -- private key.
  unfoldable pub generate_keypair : Bytes → Bytes → Bytes → Bytes → Result (Text × Text)
  unfolding encrypt_bytes
  generate_keypair nonce user_key spki pkcs8 = do
    wrapped_private_key ← encrypt_bytes nonce user_key pkcs8
    ok (bytes_to_base64_url spki, wrapped_private_key)

  unfoldable pub import_public_key : Text → Result PublicKey
  import_public_key spki_base64_url = do
    spki ← required (base64_url_to_bytes spki_base64_url) internal
    required (c.import_spki spki) internal

  unfoldable pub unwrap_private_key : Bytes → Text → Result PrivateKey
  unfolding decrypt_bytes
  unwrap_private_key user_key wrapped = do
    pkcs8 ← decrypt_bytes user_key wrapped
    required (c.import_pkcs8 pkcs8) internal

  unfoldable pub wrap_vault_key_symmetric : Bytes → Bytes → Bytes → Result Text
  unfolding encrypt_bytes
  wrap_vault_key_symmetric nonce user_key vault_key = encrypt_bytes nonce user_key vault_key

  unfoldable pub unwrap_vault_key_symmetric : Bytes → Text → Result Bytes
  unfolding decrypt_bytes
  unwrap_vault_key_symmetric user_key wrapped = decrypt_bytes user_key wrapped

  unfoldable pub wrap_vault_key_for_member : Bytes → PublicKey → Bytes → Text
  wrap_vault_key_for_member seed member_public_key vault_key =
      frame_key_wrap alg_rsa_oaep (c.rsa_encrypt seed member_public_key vault_key)

  unfoldable pub unwrap_vault_key_for_member : PrivateKey → Text → Result Bytes
  unwrap_vault_key_for_member private_key wrapped = do
    parts ← unframe_key_wrap wrapped
    guard (parts.algorithm == alg_rsa_oaep) internal
    required (c.rsa_decrypt private_key parts.payload) internal

  -- The loop of `hkdfExpand`: what is still to come of the output after `previous`, for at most the
  -- given number of rounds. The counter is a byte.
  unfoldable pub hkdf_rounds : ℕ → Bytes → Bytes → Bytes → ℕ → ℕ → Bytes
  hkdf_rounds zero prk info previous counter left = []
  hkdf_rounds (suc rounds) prk info previous counter left =
      let block = c.hmac prk (previous ++ info ++ counter % 256 ∷ []) in
      let n = min (length block) left in
      let rest = hkdf_rounds rounds prk info block (suc counter) (left - n) in
      if ltb 0 left then take n block ++ rest else []

  -- `hkdfExpand`. Every round adds a byte at least, so there are no more rounds than bytes.
  unfoldable pub hkdf_expand : Bytes → Bytes → ℕ → Bytes
  unfolding hkdf_rounds
  hkdf_expand prk info len = hkdf_rounds len prk info [] 1 len

  unfoldable pub derive_stretched_master_key : Bytes → Bytes
  unfolding hkdf_expand
  derive_stretched_master_key master_key = hkdf_expand master_key (c.utf8 stretch_info) 32

  unfoldable pub argon2id_raw : Argon2Options → Result Bytes
  argon2id_raw opts = do guard (not (ltb (length opts.salt) 8)) internal; ok (c.argon2id opts)

  unfoldable pub derive_master_key : Text → Text → KdfParams → Result Bytes
  unfolding argon2id_raw
  derive_master_key master_password email params =
      let salt = c.sha256 (c.utf8 (mksalt ++ normalize email)) in
      elim params.algorithm [
        | pbkdf2 ↦ ok (c.pbkdf2 (c.utf8 master_password) salt params.iterations)
        | argon2id ↦ argon2id_raw (record {
          password = c.utf8 master_password;
          salt = salt;
          parallelism = params.parallelism;
          memory_kib = params.memory_kib;
          iterations = params.iterations;
          output_len = 32;
        })
      ]

  unfoldable pub derive_auth_hash : Bytes → Text → Result Bytes
  unfolding argon2id_raw
  derive_auth_hash master_key master_password = argon2id_raw (record {
    password = master_key;
    salt = c.sha256 (c.utf8 (authsalt ++ master_password));
    parallelism = 1;
    memory_kib = 65536;
    iterations = 1;
    output_len = 32;
  })
