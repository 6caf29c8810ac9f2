-- ===== src/Tests/SignUp.antt =====
-- A run of a registration, a sign-in and the unlocking of the keyring.
use safe_pass.Base.{refl, true, none, [], ◌∷◌, find, filter, any}
use safe_pass.Envelope.{
  assert_key_wrap, assert_envelope, is_well_formed_key_wrap, is_well_formed_envelope,
  key_wrap_bytes_ok, envelope_bytes_ok, frame_envelope,
}
use safe_pass.Envelope.Base64.{Text, base64_url_to_bytes, bytes_to_base64_url}
use safe_pass.Errors.{Result, ok, err, ◌>>=◌, ◌>>◌, guard, required}
use safe_pass.Json.{normalize, trim_start, trim_end, to_lower, is_white_space, includes_at}
use safe_pass.Store.{log}
use safe_pass.Tables.{text_eq, insert_vault, insert_membership, insert_wrap}
use safe_pass.Vaults.Invitations.{promote_pending_invitations, promote_all}
use safe_pass.Auth.Guard.{codes}
use safe_pass.Auth.Session.{issue_session}
use safe_pass.Auth.Totp.{confirmed_enrolment}
use safe_pass.Auth.Verification.{issue_verification}
use safe_pass.Auth.Registration.{System, register, found_account, create_user}
use safe_pass.Client.Crypto.{
  default_kdf_params, encrypt, encrypt_bytes, aes_gcm_encrypt_raw, generate_keypair, wrap_user_key,
  wrap_vault_key_symmetric, derive_master_key, derive_auth_hash, derive_stretched_master_key,
  argon2id_raw, hkdf_expand, hkdf_rounds,
}
use safe_pass.Client.Session.{RegisterRequest, build_registration_request}
use safe_pass.Client.Session.SignUp.{body_of, SignsIn, register-SignsIn}
use safe_pass.Tests.Platform.{toy, toy-IsPlatform}
use safe_pass.Tests.Enrolment.{draws, draws-AreDrawn}
use safe_pass.Tests.Accounts.{start, drawn, plain, or_start}

abbrev password : Text
password = codes "pw"

abbrev blank : RegisterRequest
blank = record {
  email = [];
  auth_hash = [];
  kdf_params = default_kdf_params;
  wrapped_user_key = [];
  public_key = [];
  wrapped_private_key = [];
  wrapped_vault_key = [];
  personal_vault_name = [];
  recovery_acknowledged = true;
}

abbrev or_blank : Result RegisterRequest → RegisterRequest
or_blank (ok r) = r
or_blank (err e) = blank

abbrev request : RegisterRequest
request = or_blank (build_registration_request toy draws (codes "C@d") password default_kdf_params)

abbrev registered : System
registered = or_start (register plain plain start 9 drawn none (body_of request))

enrolled : Unit {0}
unfolding register found_account create_user insert_vault insert_membership insert_wrap log
    issue_session issue_verification promote_pending_invitations promote_all normalize trim_start
    trim_end to_lower is_white_space includes_at any find filter text_eq assert_key_wrap
    assert_envelope is_well_formed_key_wrap is_well_formed_envelope key_wrap_bytes_ok
    envelope_bytes_ok base64_url_to_bytes bytes_to_base64_url frame_envelope guard required ◌>>=◌
    ◌>>◌ confirmed_enrolment build_registration_request encrypt encrypt_bytes aes_gcm_encrypt_raw
    generate_keypair wrap_user_key wrap_vault_key_symmetric derive_master_key derive_auth_hash
    derive_stretched_master_key argon2id_raw hkdf_expand hkdf_rounds
enrolled = tt

register-SignsIn_example :
    SignsIn toy plain plain registered.auth 20 61 (6 ∷ []) none password (codes " c@D") request
unfolding enrolled
register-SignsIn_example =
    register-SignsIn toy draws password (codes "C@d") (codes " c@D") request plain plain start 9
      drawn none registered 20 61 (6 ∷ []) {private_key = tt} toy-IsPlatform draws-AreDrawn refl
      refl refl refl refl refl refl
