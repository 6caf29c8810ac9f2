-- ===== src/Tests/Enrolment.antt =====
-- Runs of registration, of a change of the password, and of the rotation worker.
use safe_pass.Base.{◌≡◌, refl, [], ◌∷◌, ◌++◌, inl, replicate, find, filter, any, arith}
use safe_pass.Errors.{ok, guard, required, ◌>>=◌, ◌>>◌}
use safe_pass.Envelope.Base64.{Text, Bytes, bytes_to_base64_url, base64_url_to_bytes}
use safe_pass.Json.{normalize, trim_start, trim_end, to_lower, is_white_space}
use safe_pass.Store.{Db, owner}
use safe_pass.Client.Crypto.{
  derive_master_key, derive_stretched_master_key, decrypt_bytes, decrypt, argon2id_raw, hkdf_expand,
  hkdf_rounds, aes_gcm_decrypt_raw,
}
use safe_pass.Envelope.{unframe_envelope}
use safe_pass.Vaults.Authz.{require_membership}
use safe_pass.Tests.{world, vault, secret, member, rotation_row}
use safe_pass.Client.Rotation.{Place, run_rotation}
use safe_pass.Client.Rotation.Sealed.{IsReady}
use safe_pass.Client.Rotation.Completes.{IsRetired, run_rotation-completes}
use safe_pass.Client.Keyring.Refinement.{empty}
use safe_pass.Client.Session.{
  Draws, change_request, unlock_from_keyring, require_acceptable_master_password,
  assess_master_password,
}
use safe_pass.Client.Session.Laws.{
  AreDrawn, AccountOpens, build_registration_request-opens, change_request-opens,
}
use safe_pass.Tests.Platform.{toy, toy-IsPlatform}

abbrev pub draws : Draws
draws = record {
  user_key = replicate 32 3;
  vault_key = replicate 32 4;
  spki = 5 ∷ [];
  pkcs8 = 6 ∷ [];
  pair_nonce = replicate 12 1;
  user_nonce = replicate 12 2;
  vault_nonce = replicate 12 3;
  name_nonce = replicate 12 4;
}

pub draws-AreDrawn : AreDrawn draws
draws-AreDrawn = record {
  user_key = (refl, omega arith);
  vault_key = (refl, omega arith);
  pkcs8 = omega arith;
  pair_nonce = (refl, omega arith);
  user_nonce = (refl, omega arith);
  vault_nonce = (refl, omega arith);
  name_nonce = (refl, omega arith);
}

-- The address "a" in the other case.
build_registration_request-opens_example :
    AccountOpens toy draws (112 ∷ 119 ∷ []) (97 ∷ []) (65 ∷ []) 5
unfolding normalize trim_start trim_end to_lower is_white_space any
build_registration_request-opens_example =
    build_registration_request-opens toy draws (112 ∷ 119 ∷ []) (97 ∷ []) (65 ∷ []) 5
      {private_key = tt} toy-IsPlatform draws-AreDrawn refl refl

-- The envelope of some bytes under the cipher of the runs.
abbrev envelope : Bytes → Bytes
envelope plaintext = 1 ∷ 1 ∷ (replicate 12 4 ++ replicate 16 0 ++ plaintext)

abbrev wrapped : Text
wrapped = bytes_to_base64_url (envelope (7 ∷ []))

opener : Unit {0}
unfolding decrypt_bytes derive_master_key derive_stretched_master_key hkdf_expand hkdf_rounds
    argon2id_raw aes_gcm_decrypt_raw unframe_envelope guard required ◌>>=◌ ◌>>◌ normalize trim_start
    trim_end to_lower is_white_space any bytes_to_base64_url base64_url_to_bytes
    require_acceptable_master_password assess_master_password filter decrypt
opener = tt

change_request-opens_example :
    (old_hash new_hash wrapped' : Text) × (change_request toy
        (λ p. 4)
        (replicate 12 1)
        (97 ∷ [])
        (112 ∷ [])
        (replicate 12 113)
        wrapped
      ≡ ok (old_hash, new_hash, wrapped'))
    × (unlock_from_keyring toy
          (replicate 12 113)
          (97 ∷ [])
          (record { wrapped_user_key = wrapped'; wrapped_private_key = wrapped; public_key = [] })
          empty
        ≡ unlock_from_keyring toy
            (112 ∷ [])
            (97 ∷ [])
            (record { wrapped_user_key = wrapped; wrapped_private_key = wrapped; public_key = [] })
            empty)
unfolding opener
change_request-opens_example =
    change_request-opens toy (λ p. 4) (replicate 12 1) (97 ∷ []) (112 ∷ []) (replicate 12 113)
      wrapped wrapped [] empty (112 ∷ []) (7 ∷ []) toy-IsPlatform (refl, omega arith) (omega arith)
      refl refl refl

-- A vault whose rotation has rewritten nothing yet: a secret, a folder and the name are left.
abbrev unrotated : Db
unrotated = record world {
  vaults = record vault { name = envelope (65 ∷ []); name_key_version = 1 } ∷ [];
  secrets =
      record secret {
        title = envelope (66 ∷ []);
        field_values = (1 ∷ [], bytes_to_base64_url (envelope (67 ∷ []))) ∷ [];
        key_version = 1;
      }
      ∷ [];
  folders = record { id = 70; vault_id = 10; name = envelope (68 ∷ []); key_version = 1 } ∷ [];
}

abbrev draw : Place → Bytes
draw place = replicate 12 9

abbrev old_key : Bytes
old_key = replicate 32 1

abbrev new_key : Bytes
new_key = replicate 32 2

ready : IsReady toy draw old_key new_key
ready = record { platform = toy-IsPlatform; key = refl; nonces = λ place. (refl, omega arith) }

run_rotation-completes_example :
    (db' : Db) × (run_rotation toy draw old_key new_key unrotated 9 1 10 1 2 ≡ ok db')
    × IsRetired db' 10 1
unfolding opener require_membership find
run_rotation-completes_example =
    run_rotation-completes toy draw old_key new_key unrotated 9 1 10 {m = member 100 1 owner}
      {v = record vault { name = envelope (65 ∷ []); name_key_version = 1 }} {r = rotation_row}
      ready refl refl (omega arith) refl
      (record {
        secrets = (((66 ∷ [], refl), ((67 ∷ [], refl), tt)), tt);
        folders = ((68 ∷ [], refl), tt);
        tags = tt;
        name = inl (65 ∷ [], refl);
      })
