-- ===== src/Tests/Accounts.antt =====
-- Runs of the registration and of the deletion of accounts.
use safe_pass.Base.{suc, ◌≡◌, ◌≢◌, refl, true, none, [], ◌∷◌, find, filter, count, delete, any}
use safe_pass.Envelope.{
  assert_key_wrap, assert_envelope, is_well_formed_key_wrap, is_well_formed_envelope,
  key_wrap_bytes_ok, envelope_bytes_ok,
}
use safe_pass.Envelope.Base64.{Text, Bytes, base64_url_to_bytes}
use safe_pass.Errors.{Result, ok, err, ◌>>=◌, ◌>>◌, guard, required}
use safe_pass.Json.{normalize, trim_start, trim_end, to_lower, is_white_space, includes_at}
use safe_pass.Store.{log}
use safe_pass.Tables.{text_eq, insert_vault, insert_membership, insert_wrap, delete_vault_rows}
use safe_pass.Vaults.Invitations.{promote_pending_invitations, promote_all}
use safe_pass.Auth.Store.{AuthDb, Account}
use safe_pass.Auth.Session.{issue_session}
use safe_pass.Auth.Guard.{codes}
use safe_pass.Auth.Totp.{confirmed_enrolment}
use safe_pass.Auth.BackupCodes.{remaining_backup_codes}
use safe_pass.Auth.Verification.{issue_verification}
use safe_pass.Auth.Login.{default_params}
use safe_pass.Auth.Registration.{
  System, Registration, Drawn, register, found_account, create_user, personal_vault,
}
use safe_pass.Auth.Account.{
  delete_account, delete_owned, delete_user, deletion_request, store_token,
}
use safe_pass.Auth.Account.Laws.{register-undeletable, deletion_request-remaining}
use safe_pass.Tests.{world, vault, sealed}

-- A digest for the runs below.
abbrev pub plain : Text → Bytes
plain t = t

abbrev account : Account
account = record {
  id = 2;
  email = codes "a@b";
  auth_hash_digest = 3 ∷ [];
  email_verified_at = none;
  kdf = default_params;
}

-- The user 2 edits the vault 10 of the user 1 and owns the vault 12.
abbrev pub start : System
start = record {
  tables = record world { vaults = personal_vault 12 2 [] ∷ vault ∷ [] };
  auth = record {
    accounts = account ∷ [];
    keyrings = [];
    verifications = [];
    sessions = [];
    backup_codes = [];
    enrolments = [];
  };
}

abbrev pub body : Registration
body = record {
  recovery_acknowledged = true;
  email = codes " C@d ";
  auth_hash = 7 ∷ [];
  wrapped_user_key = sealed;
  wrapped_private_key = sealed;
  wrapped_vault_key = sealed;
  personal_vault_name = sealed;
  public_key = codes "AAAA";
  kdf_params = none;
}

abbrev pub drawn : Drawn
drawn = record {
  user_id = 5;
  vault_id = 11;
  membership_id = 102;
  session_id = 60;
  session_token = 8 ∷ [];
  verification_id = 80;
  verification_token = 9 ∷ [];
}

abbrev pub or_start : Result System → System
or_start (ok s) = s
or_start (err e) = start

abbrev registered : System
registered = or_start (register plain plain start 9 drawn none body)

registry : Unit {0}
unfolding register found_account create_user insert_vault insert_membership insert_wrap
    delete_vault_rows log issue_session issue_verification promote_pending_invitations promote_all
    normalize trim_start trim_end to_lower is_white_space includes_at any find filter count delete
    text_eq assert_key_wrap assert_envelope is_well_formed_key_wrap is_well_formed_envelope
    key_wrap_bytes_ok envelope_bytes_ok base64_url_to_bytes guard required ◌>>=◌ ◌>>◌
    confirmed_enrolment delete_account delete_owned delete_user deletion_request store_token
registry = tt

register-undeletable_example : delete_account 5 registered ≢ ok start
unfolding registry
register-undeletable_example =
    register-undeletable plain plain start 9 drawn none body registered start refl

abbrev requested : AuthDb
requested = record start.auth {
  backup_codes =
      record { id = 70; user_id = 2; code_digest = codes "deletion:x"; used_at = none } ∷ [];
}

deletion_request-remaining_example :
    remaining_backup_codes requested 2 ≡ suc (remaining_backup_codes start.auth 2)
unfolding registry
deletion_request-remaining_example =
    deletion_request-remaining plain start.auth requested 70 (codes "x") (codes "A@b ") account refl
      refl refl
