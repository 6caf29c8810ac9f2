-- ===== src/Tests/Envelopes.antt =====
-- Runs of the envelope codec.
use safe_pass.Base.{◌≡◌, refl, some, [], ◌∷◌, ◌++◌, arith}
use safe_pass.Auth.Guard.{codes}
use safe_pass.Errors.{is_ok, ok, guard, ◌>>=◌, ◌>>◌}
use safe_pass.Envelope.{
  str, frame_envelope, unframe_envelope, is_well_formed_envelope, envelope_version, alg_aes_256_gcm,
}
use safe_pass.Envelope.Base64.{Bytes, bytes_to_base64_url, base64_url_to_bytes}
use safe_pass.Envelope.Base64.RoundTrip.{base64_url_to_bytes-bytes_to_base64_url}
use safe_pass.Envelope.Framing.{
  is_well_formed_envelope-unframe_envelope, unframe_envelope-frame_envelope,
}

base64_url_to_bytes-bytes_to_base64_url_example :
    base64_url_to_bytes (bytes_to_base64_url (255 ∷ 238 ∷ 0 ∷ 7 ∷ []))
    ≡ some (255 ∷ 238 ∷ 0 ∷ 7 ∷ [])
base64_url_to_bytes-bytes_to_base64_url_example =
    base64_url_to_bytes-bytes_to_base64_url (255 ∷ 238 ∷ 0 ∷ 7 ∷ [])
      (omega arith, (omega arith, (omega arith, (omega arith, tt))))

is_well_formed_envelope-unframe_envelope_example :
    is_well_formed_envelope (str (codes "AQEAAAAA")) ≡ is_ok (unframe_envelope (codes "AQEAAAAA"))
is_well_formed_envelope-unframe_envelope_example =
    is_well_formed_envelope-unframe_envelope (codes "AQEAAAAA")

abbrev nonce : Bytes
nonce = 1 ∷ 2 ∷ 3 ∷ 4 ∷ 5 ∷ 6 ∷ 7 ∷ 8 ∷ 9 ∷ 10 ∷ 11 ∷ 12 ∷ []

abbrev sealed : Bytes
sealed = 200 ∷ nonce ++ nonce

unframe_envelope-frame_envelope_example :
    unframe_envelope (bytes_to_base64_url (1 ∷ 1 ∷ (nonce ++ sealed)))
    ≡ ok (record {
      version = envelope_version;
      algorithm = alg_aes_256_gcm;
      nonce = nonce;
      ciphertext_with_tag = sealed;
    })
unfolding frame_envelope guard ◌>>=◌ ◌>>◌
unframe_envelope-frame_envelope_example =
    unframe_envelope-frame_envelope nonce sealed (bytes_to_base64_url (1 ∷ 1 ∷ (nonce ++ sealed)))
      (ground arith) (ground arith) refl
