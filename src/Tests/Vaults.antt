-- ===== src/Tests/Vaults.antt =====
-- Runs of the vault routes, and what their theorems say of them.
use safe_pass.Base.{
  true, suc, ℕ, ◌≤◌, ◌≡◌, ◌≢◌, refl, false, ◌&&◌, none, some, List, [], ◌∷◌, All, ◌==◌, find,
  filter, count, update, delete, any, arith, replicate, ◌⊎◌,
}
use safe_pass.Envelope.{assert_envelope, assert_key_wrap, bytes}
use safe_pass.Envelope.Base64.{base64_url_to_bytes}
use safe_pass.Auth.Guard.{codes}
use safe_pass.Errors.{
  ok, err, api, rotation_in_progress, last_owner, revision_conflict, ◌>>=◌, ◌>>◌, guard, required,
  when,
}
use safe_pass.Tables.{text_eq}
use safe_pass.Store.{
  Vault, VaultKeyWrap, rotation_started, pending, Db, VaultMembership, VaultRotation, owner, editor,
  revoked, finished, running_in, is_active_member, rotation_completed, vault_created,
  member_revoked,
}
use safe_pass.Vaults.Authz.{rank, require_membership, as_role}
use safe_pass.Vaults.Lifecycle.{CreateVault, create_vault, delete_vault, new_vault, founder}
use safe_pass.Vaults.Deletion.{create_vault-undeletable}
use safe_pass.Vaults.Members.{revoke, change_role}
use safe_pass.Vaults.Members.Revoked.{revoke-shuts_out}
use safe_pass.Vaults.Owners.{IsOwned}
use safe_pass.Vaults.Rotation.Open.{holds, open_rotation-holds}
use safe_pass.Tables.{insert_rotation, insert_wrap}
use safe_pass.Json.{natural}
use safe_pass.Vaults.Rotation.{OpenRotation, open_rotation, add_wraps, outstanding, close_rotation}
use safe_pass.Vaults.Rotation.Close.{
  IsRetirable, retired_wrap, close_rotation_sound, close_rotation-refuses,
}
use safe_pass.Secrets.{Save, commit_save, write_save}
use safe_pass.Secrets.Concurrency.{
  IsSaved, accepted_saves, accepted_saves-le, commit_save-decides, commit_save-key_version,
}
use safe_pass.Requests.{acceptance, to_vault, role_change, revocation, close, handle_vault, needs}
use safe_pass.Requests.Visits.{Visit, signs_up, asks, serve_visits, serve_visits-IsOwned}
use safe_pass.Auth.Registration.{System}
use safe_pass.Tests.Accounts.{start, drawn, body as registration_body, plain}
use safe_pass.Requests.Authority.{IsShutOut, handle_vault_sound, handle_vault-stranger}
use safe_pass.Vaults.Reads.{secrets}
use safe_pass.Tests.{member, wrap, vault, rotation_row, secret, world, by, viewer_text, sealed}

router : Unit {0}
unfolding handle_vault needs change_role require_membership as_role revoke close_rotation
    outstanding commit_save ◌>>=◌ ◌>>◌ guard required when text_eq find filter count update delete
    any
router = tt

world-IsOwned : IsOwned world
unfolding count
world-IsOwned = record { ids = ((omega arith, tt), (tt, tt)); owners = (omega arith, tt) }

-- Somebody registers; the only owner of the vault tries to become a viewer and removes the editor,
-- who tries to come back.
abbrev visits : List Visit
visits =
    signs_up 9 drawn none registration_body
    ∷ asks (by 1) (to_vault 10 (role_change 1 viewer_text))
    ∷ asks (by 1) (to_vault 10 (revocation 2))
    ∷ asks (by 2) (acceptance 10)
    ∷ []

abbrev system : System
system = record start { tables = world }

serve_visits-IsOwned_example : IsOwned (serve_visits plain plain visits system).tables
serve_visits-IsOwned_example = serve_visits-IsOwned plain plain visits system world-IsOwned

last_owner_test : handle_vault (by 1) 10 (role_change 1 viewer_text) world ≡ err (api last_owner)
unfolding router
last_owner_test = refl

handle_vault_sound_example :
    (m : VaultMembership) × (find (is_active_member 10 1) world.memberships ≡ some m)
    × (rank owner ≤ rank m.role)
unfolding router
handle_vault_sound_example = handle_vault_sound (by 1) 10 (role_change 2 viewer_text) world refl

handle_vault-stranger_example : IsShutOut (by 3) 10 close secrets world
unfolding router
handle_vault-stranger_example = handle_vault-stranger (by 3) 10 close world secrets refl

-- The vault after its rotation is closed: the wraps of generation 1 are gone.
abbrev closed : Db
closed = record world {
  wraps = wrap 100 2 ∷ wrap 101 2 ∷ [];
  rotations = record rotation_row { state = finished; completed_at = some 9 } ∷ [];
  activity =
      record { vault_id = 10; actor_id = some 1; subject_id = none; action = rotation_completed }
      ∷ [];
}

close_rotation_sound_example :
    (r : VaultRotation) × (find (running_in 10) world.rotations ≡ some r)
    × IsRetirable closed 10 r.from_version
    × All (λ w. retired_wrap closed 10 r.from_version w ≡ false) closed.wraps
unfolding router
close_rotation_sound_example = close_rotation_sound world 9 1 10 {db' = closed} refl

-- A secret that the old generation still encrypts.
abbrev unfinished : Db
unfinished = record world { secrets = record secret { key_version = 1 } ∷ [] }

close_rotation-refuses_example : close_rotation unfinished 9 1 10 ≡ err (api rotation_in_progress)
unfolding router
close_rotation-refuses_example =
    close_rotation-refuses unfinished 9 1 10 (member 100 1 owner) rotation_row vault refl refl refl
      refl

-- The vault after the editor has been revoked.
abbrev without_editor : Db
without_editor = record world {
  memberships =
      member 100 1 owner
      ∷ record (member 101 2 editor) { status = revoked; revoked_at = some 9 }
      ∷ [];
  wraps = wrap 100 1 ∷ wrap 100 2 ∷ [];
  activity =
      record { vault_id = 10; actor_id = some 1; subject_id = some 2; action = member_revoked }
      ∷ [];
}

revoke-shuts_out_example : IsShutOut (by 2) 10 close secrets without_editor
unfolding router
revoke-shuts_out_example =
    revoke-shuts_out world 9 1 10 2 {db' = without_editor} (by 2) close secrets refl
      ((refl, tt), (tt, tt)) refl

abbrev save : ℕ → Save
save revision = record {
  vault_id = 10;
  secret_id = 40;
  revision = some revision;
  title = codes "AQEAAAAAAAAAAAAAAAAAAAAAAAAAAAAAAAAAAAAA";
  field_values = [];
  folder_id = none;
  tag_ids = none;
}

accepted_saves-le_example : accepted_saves (save 3 ∷ save 3 ∷ []) world ≤ 1
accepted_saves-le_example =
    accepted_saves-le 10 40 3 (save 3 ∷ save 3 ∷ []) world
      ((refl, refl, refl), ((refl, refl, refl), tt))

commit_save-decides_example :
    (((save 3).revision ≡ some secret.revision)
      × (db' : Db) × (commit_save world (save 3) ≡ ok db')
      × IsSaved world (save 3) secret db')
    ⊎ (((save 3).revision ≢ some secret.revision)
        × (commit_save world (save 3) ≡ err (api revision_conflict)))
unfolding count find
commit_save-decides_example = commit_save-decides world (save 3) secret refl refl refl refl

-- The vault after a save of the secret, which its generation 1 still labels.
abbrev saved : Db
saved = record unfinished { secrets = write_save (save 3) (record secret { key_version = 1 }) ∷ [] }

commit_save-key_version_example :
    count (λ s. s.id == 40 && s.key_version == 1) saved.secrets
    ≡ count (λ s. s.id == 40 && s.key_version == 1) unfinished.secrets
unfolding router
commit_save-key_version_example = commit_save-key_version unfinished (save 3) 1 {db' = saved} refl

abbrev body : CreateVault
body = record { name = sealed; wrapped_vault_key = sealed }

-- What the creation of a vault 11 makes of the database.
abbrev created : Db
created = record world {
  vaults = new_vault 11 1 (codes "AQEAAAAAAAAAAAAAAAAAAAAAAAAAAAAAAAAAAAAA") ∷ vault ∷ [];
  memberships = founder 200 11 1 9 ∷ world.memberships;
  wraps =
      record { membership_id = 200; key_version = 1; wrapped_vault_key = 1 ∷ 1 ∷ replicate 28 0 }
      ∷ world.wraps;
  activity =
      record { vault_id = 11; actor_id = some 1; subject_id = none; action = vault_created } ∷ [];
}

create_vault-undeletable_example : delete_vault created 1 11 ≢ ok world
unfolding router create_vault assert_envelope base64_url_to_bytes assert_key_wrap bytes
create_vault-undeletable_example =
    create_vault-undeletable world 9 1 11 200 1 body created world refl

-- The vault before its rotation, and what opens one.
abbrev settled : Db
settled = record world {
  vaults = record vault { key_version = 1; name_key_version = 1 } ∷ [];
  wraps = wrap 100 1 ∷ wrap 101 1 ∷ [];
  rotations = [];
}

abbrev opening : OpenRotation
opening = record {
  to_version = natural 2;
  member_keys = some (
      record { user_id = 1; wrapped_vault_key = sealed }
      ∷ record { user_id = 2; wrapped_vault_key = sealed }
      ∷ []);
}

abbrev sealed_wrap : ℕ → VaultKeyWrap
sealed_wrap membership_id = record {
  membership_id = membership_id;
  key_version = 2;
  wrapped_vault_key = 1 ∷ 1 ∷ replicate 28 0;
}

abbrev opened : Db
opened = record settled {
  vaults = record vault { key_version = 2; name_key_version = 1 } ∷ [];
  wraps = sealed_wrap 101 ∷ sealed_wrap 100 ∷ settled.wraps;
  rotations = record rotation_row { total_count = 1; done_count = 0 } ∷ [];
  activity =
      record { vault_id = 10; actor_id = some 1; subject_id = none; action = rotation_started }
      ∷ [];
}

open_rotation-holds_example :
    (v : Vault) × (find (λ x. x.id == 10) settled.vaults ≡ some v)
    × (holds 101 (suc v.key_version) opened.wraps ≡ true)
unfolding router open_rotation insert_rotation add_wraps insert_wrap assert_key_wrap
    base64_url_to_bytes bytes
open_rotation-holds_example =
    open_rotation-holds settled 30 1 10 opening (member 101 2 editor) {db' = opened} refl refl

abbrev late : Db
late = record world {
  invitations =
      record {
        id = 70;
        vault_id = 10;
        invitee_email = [];
        role = editor;
        invited_by_id = 1;
        state = pending;
        expires_at = 4;
        completed_at = none;
        membership_id = none;
      }
      ∷ [];
}
