-- ===== src/Client/Crypto/Laws.antt =====
-- What the client encrypts or wraps it opens again, and the server lets it through.
use safe_pass.Base.{
  ◌≤◌, ◌<◌, ◌≡◌, refl, ap, ◌∙◌, true, false, some, ◌∷◌, ◌++◌, length, ltb, All, arith,
}
use mathlib.Core.Path.{subst}
use safe_pass.Errors.{is_ok, ok, ok-injective, on_bind, on_guard, guard, required, ◌>>=◌, ◌>>◌}
use safe_pass.Envelope.{
  str, alg_rsa_oaep, alg_aes_256_gcm, envelope_version, frame_envelope, is_well_formed_envelope,
  is_well_formed_key_wrap, bytes,
}
use safe_pass.Envelope.KeyWrap.{
  envelope-is_well_formed_key_wrap, unframe_key_wrap-frame_key_wrap,
  is_well_formed_key_wrap-frame_key_wrap,
}
use safe_pass.Envelope.Base64.{Text, Bytes, bytes_to_base64_url}
use safe_pass.Envelope.Framing.{
  is_well_formed_envelope-unframe_envelope, unframe_envelope-frame_envelope, bytes-frame_envelope,
}
use safe_pass.Client.Crypto.{
  WebCrypto, aes_gcm_encrypt_raw, aes_gcm_decrypt_raw, encrypt_bytes, decrypt_bytes,
  wrap_vault_key_for_member, unwrap_vault_key_for_member,
}

abbrev pub AreBytes : Bytes → Type 0
AreBytes bs = All (λ b. b < 256) bs

-- What the client relies on of AES-GCM: decryption undoes encryption, a ciphertext has a tag of 16
-- bytes at least, and it is made of bytes.
pub record IsCipher {PublicKey PrivateKey : Type 0} (c : WebCrypto PublicKey PrivateKey)
    : Type 0 where
  pub opens :
      (key nonce plaintext : Bytes)
      → c.aes_decrypt key nonce (c.aes_encrypt key nonce plaintext) ≡ some plaintext
  pub tagged : (key nonce plaintext : Bytes) → 16 ≤ length (c.aes_encrypt key nonce plaintext)
  pub in_bytes :
      (key nonce plaintext : Bytes)
      → AreBytes plaintext
      → AreBytes (c.aes_encrypt key nonce plaintext)

frame_envelope-is_ok :
    (nonce ciphertext : Bytes)
    → length nonce ≡ 12
    → 16 ≤ length ciphertext
    → (t : Text) × (frame_envelope nonce ciphertext ≡ ok t)
unfolding frame_envelope guard ◌>>=◌ ◌>>◌
frame_envelope-is_ok nonce ciphertext twelve long =
    let long' : ltb (length ciphertext) 16 ≡ false = ground arith in
    (
      bytes_to_base64_url (envelope_version ∷ alg_aes_256_gcm ∷ (nonce ++ ciphertext)),
      rw (twelve, long') refl,
    )

module _ {PublicKey PrivateKey : Type 0} (c : WebCrypto PublicKey PrivateKey) where
  -- Bytes that are encrypted under a key of 32 bytes, with a nonce of 12, give an envelope that
  -- opens to the same bytes under the same key, and that the server's checks of an envelope and of a
  -- key wrap both let through.
  pub decrypt_bytes-encrypt_bytes :
      (nonce key plaintext : Bytes)
      → IsCipher c
      → length key ≡ 32
      → length nonce ≡ 12
      → AreBytes nonce
      → AreBytes plaintext
      → (t : Text) × (encrypt_bytes c nonce key plaintext ≡ ok t)
        × (decrypt_bytes c key t ≡ ok plaintext)
        × (is_well_formed_envelope (str t) ≡ true)
        × (is_well_formed_key_wrap (str t) ≡ true)
  unfolding encrypt_bytes decrypt_bytes aes_gcm_encrypt_raw aes_gcm_decrypt_raw guard required ◌>>=◌
      ◌>>◌
  decrypt_bytes-encrypt_bytes nonce key plaintext sound long twelve bn bp =
      let ciphertext = c.aes_encrypt key nonce plaintext in
      let (t, framed) =
        frame_envelope-is_ok nonce ciphertext twelve (sound.tagged key nonce plaintext) in
      let opened =
        unframe_envelope-frame_envelope nonce ciphertext t bn
          (sound.in_bytes key nonce plaintext bp) framed in
      let well = is_well_formed_envelope-unframe_envelope t ∙ ap is_ok opened in
      (
        t,
        rw (long, framed) refl,
        rw (opened, decrypt_bytes, long, sound.opens key nonce plaintext) refl,
        well,
        envelope-is_well_formed_key_wrap (str t) well,
      )

  -- The text of an encryption comes back from the bytes that the server stores of it.
  pub bytes-encrypt_bytes :
      (nonce key plaintext : Bytes) (t : Text)
      → IsCipher c
      → AreBytes nonce
      → AreBytes plaintext
      → encrypt_bytes c nonce key plaintext ≡ ok t
      → bytes_to_base64_url (bytes t) ≡ t
  unfolding encrypt_bytes aes_gcm_encrypt_raw
  bytes-encrypt_bytes nonce key plaintext t sound bn bp e = on_bind _ _ e λ sealed made framed.
      on_guard _ _ _ made λ _ same.
        bytes-frame_envelope nonce sealed t bn
          (subst AreBytes (ok-injective same) (sound.in_bytes key nonce plaintext bp)) framed

  -- A vault key that is wrapped to a member's public key is what the private key of the pair
  -- unwraps, and the server's check of a key wrap lets the wrap through.
  pub unwrap-wrap_vault_key_for_member :
      (seed vault_key : Bytes) (public_key : PublicKey) (private_key : PrivateKey)
      → c.rsa_decrypt private_key (c.rsa_encrypt seed public_key vault_key) ≡ some vault_key
      → AreBytes (c.rsa_encrypt seed public_key vault_key)
      → 0 < length (c.rsa_encrypt seed public_key vault_key)
      → (unwrap_vault_key_for_member c private_key
            (wrap_vault_key_for_member c seed public_key vault_key)
          ≡ ok vault_key)
        × (is_well_formed_key_wrap (str (wrap_vault_key_for_member c seed public_key vault_key))
            ≡ true)
  unfolding wrap_vault_key_for_member unwrap_vault_key_for_member guard required ◌>>=◌ ◌>>◌
  unwrap-wrap_vault_key_for_member seed vault_key public_key private_key opens in_bytes more =
      let payload = c.rsa_encrypt seed public_key vault_key in
      (
        rw (unframe_key_wrap-frame_key_wrap alg_rsa_oaep payload (omega arith) in_bytes more, opens)
            refl,
        is_well_formed_key_wrap-frame_key_wrap payload in_bytes more,
      )
