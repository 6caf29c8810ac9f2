-- ===== src/Store.antt =====
-- backend/src/db/schema.prisma and the constraints migration: the tables of vault data that the
-- routes read and write, as lists of rows. Row ids are opaque and stand as numbers; times are
-- milliseconds. A new id or the present time enters an operation as an argument.
use safe_pass.Base.{ℕ, Bool, true, false, ◌&&◌, Option, List, ◌∷◌, ◌==◌}
use safe_pass.Envelope.Base64.{Text, Bytes}

pub data Role : Type 0 where
  owner editor viewer : Role

pub data VaultKind : Type 0 where
  personal standard : VaultKind

pub data MembershipStatus : Type 0 where
  invited active revoked : MembershipStatus

pub data InvitationState : Type 0 where
  pending ready completed withdrawn expired : InvitationState

pub data RotationState : Type 0 where
  running finished failed : RotationState

-- `Action` of modules/activity/record.ts
pub data Action : Type 0 where
  vault_created vault_deleted invitee_invited invitation_ready invitation_completed : Action
  invitation_withdrawn invitation_expired accepted declined member_revoked role_changed : Action
  rotation_started rotation_completed secret_deleted exported : Action

pub record User : Type 0 where
  pub id : ℕ
  pub email : Text
  pub email_verified_at : Option ℕ

pub record Vault : Type 0 where
  pub id : ℕ
  pub owner_id : ℕ
  pub name : Bytes
  pub kind : VaultKind
  pub key_version : ℕ
  pub name_key_version : ℕ

pub record VaultMembership : Type 0 where
  pub id : ℕ
  pub vault_id : ℕ
  pub user_id : ℕ
  pub role : Role
  pub status : MembershipStatus
  pub invited_by : Option ℕ
  pub accepted_at : Option ℕ
  pub revoked_at : Option ℕ

pub record VaultKeyWrap : Type 0 where
  pub membership_id : ℕ
  pub key_version : ℕ
  pub wrapped_vault_key : Bytes

pub record VaultInvitation : Type 0 where
  pub id : ℕ
  pub vault_id : ℕ
  pub invitee_email : Text
  pub role : Role
  pub invited_by_id : ℕ
  pub state : InvitationState
  pub expires_at : ℕ
  pub completed_at : Option ℕ
  pub membership_id : Option ℕ

pub record VaultRotation : Type 0 where
  pub id : ℕ
  pub vault_id : ℕ
  pub from_version : ℕ
  pub to_version : ℕ
  pub state : RotationState
  pub cursor : Option ℕ
  pub total_count : ℕ
  pub done_count : ℕ
  pub started_by_id : ℕ
  pub completed_at : Option ℕ

pub record Secret : Type 0 where
  pub id : ℕ
  pub vault_id : ℕ
  pub template_version_id : ℕ
  pub title : Bytes
  pub folder_id : Option ℕ
  pub field_values : List (Text × Text)
  pub key_version : ℕ
  pub revision : ℕ

pub record Folder : Type 0 where
  pub id : ℕ
  pub vault_id : ℕ
  pub name : Bytes
  pub key_version : ℕ

pub record Tag : Type 0 where
  pub id : ℕ
  pub vault_id : ℕ
  pub name : Bytes
  pub key_version : ℕ

pub record SecretTag : Type 0 where
  pub secret_id : ℕ
  pub tag_id : ℕ

-- The metadata of an entry (role names, counts, generations) is left out: nothing reads it.
pub record ActivityLogEntry : Type 0 where
  pub vault_id : ℕ
  pub actor_id : Option ℕ
  pub subject_id : Option ℕ
  pub action : Action

pub record Db : Type 0 where
  pub users : List User
  pub vaults : List Vault
  pub memberships : List VaultMembership
  pub wraps : List VaultKeyWrap
  pub invitations : List VaultInvitation
  pub rotations : List VaultRotation
  pub secrets : List Secret
  pub folders : List Folder
  pub tags : List Tag
  pub secret_tags : List SecretTag
  -- the ids of the template versions, which other routes write
  pub template_versions : List ℕ
  pub activity : List ActivityLogEntry

abbrev pub is_owner : Role → Bool
is_owner owner = true
is_owner _ = false

abbrev pub is_active : MembershipStatus → Bool
is_active active = true
is_active _ = false

abbrev pub is_invited : MembershipStatus → Bool
is_invited invited = true
is_invited _ = false

-- `status: { in: ['active', 'invited'] }`
abbrev pub is_live : MembershipStatus → Bool
is_live revoked = false
is_live _ = true

abbrev pub is_personal : VaultKind → Bool
is_personal personal = true
is_personal standard = false

-- `state: { in: ['pending', 'ready'] }`
abbrev pub is_outstanding : InvitationState → Bool
is_outstanding pending = true
is_outstanding ready = true
is_outstanding _ = false

abbrev pub is_running : RotationState → Bool
is_running running = true
is_running _ = false

abbrev pub member_of : ℕ → ℕ → VaultMembership → Bool
member_of vault_id user_id m = m.vault_id == vault_id && m.user_id == user_id

abbrev pub is_active_member : ℕ → ℕ → VaultMembership → Bool
is_active_member vault_id user_id m = member_of vault_id user_id m && is_active m.status

-- A membership by which somebody can manage the vault.
abbrev pub is_active_owner : ℕ → VaultMembership → Bool
is_active_owner vault_id m = m.vault_id == vault_id && (is_owner m.role && is_active m.status)

abbrev pub running_in : ℕ → VaultRotation → Bool
running_in vault_id r = r.vault_id == vault_id && is_running r.state

-- `record` of modules/activity/record.ts
unfoldable pub log : ActivityLogEntry → Db → Db
log entry db = record db { activity = entry ∷ db.activity }
