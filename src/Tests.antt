-- ===== src/Tests.antt =====
-- A small database, on which the theorems about the backend's routes are applied.
mod Vaults
mod Sessions
mod Envelopes
mod Templates
mod Client
mod Platform
mod Enrolment
mod Accounts
mod Search
mod SignUp
use safe_pass.Base.{ℕ, true, false, Option, none, some, List, [], ◌∷◌}
use safe_pass.Envelope.{Value, str, undefined}
use safe_pass.Auth.Guard.{codes}
use safe_pass.Auth.Store.{AuthDb, Session, BackupCode, TotpEnrolment, EmailVerification, Account}
use safe_pass.Store.{
  Db, User, Vault, VaultMembership, VaultKeyWrap, VaultRotation, Secret, Role, owner, editor,
  active, standard, running,
}
use safe_pass.Requests.{Context}

abbrev pub member : ℕ → ℕ → Role → VaultMembership
member id user_id role = record {
  id = id;
  vault_id = 10;
  user_id = user_id;
  role = role;
  status = active;
  invited_by = none;
  accepted_at = some 5;
  revoked_at = none;
}

abbrev pub wrap : ℕ → ℕ → VaultKeyWrap
wrap membership_id key_version = record {
  membership_id = membership_id;
  key_version = key_version;
  wrapped_vault_key = 1 ∷ 1 ∷ [];
}

-- A vault in the middle of a rotation from generation 1 to 2.
abbrev pub vault : Vault
vault = record {
  id = 10;
  owner_id = 1;
  name = 1 ∷ [];
  kind = standard;
  key_version = 2;
  name_key_version = 2;
}

abbrev pub rotation_row : VaultRotation
rotation_row = record {
  id = 30;
  vault_id = 10;
  from_version = 1;
  to_version = 2;
  state = running;
  cursor = none;
  total_count = 2;
  done_count = 2;
  started_by_id = 1;
  completed_at = none;
}

abbrev pub secret : Secret
secret = record {
  id = 40;
  vault_id = 10;
  template_version_id = 50;
  title = 1 ∷ [];
  folder_id = none;
  field_values = [];
  key_version = 2;
  revision = 3;
}

-- An owner, 1, and an editor, 2, of the vault 10.
abbrev pub world : Db
world = record {
  users = [];
  vaults = vault ∷ [];
  memberships = member 100 1 owner ∷ member 101 2 editor ∷ [];
  wraps = wrap 100 1 ∷ wrap 100 2 ∷ wrap 101 1 ∷ wrap 101 2 ∷ [];
  invitations = [];
  rotations = rotation_row ∷ [];
  secrets = secret ∷ [];
  folders = [];
  tags = [];
  secret_tags = [];
  template_versions = 50 ∷ [];
  activity = [];
}

abbrev pub by : ℕ → Context
by actor = record { now = 9; new_id = 200; second_id = 201; actor = actor }

abbrev pub viewer_text : Value
viewer_text = str (codes "viewer")

-- An envelope: 28 bytes after the version and the algorithm, all zero.
abbrev pub sealed : Value
sealed = str (codes "AQEAAAAAAAAAAAAAAAAAAAAAAAAAAAAAAAAAAAAA")
