-- ===== src/Requests/Authority.antt =====
-- Who may change a vault: what the routes ask of the membership of the caller, before anything else.
use safe_pass.Base.{ℕ, ◌≤◌, ◌<◌, ◌≡◌, refl, true, none, some, find, find-none_mono, ltb, arith}
use safe_pass.Errors.{
  Result, ok, err, api, not_found, role_insufficient, on_bind, on_required, on_guard, required,
  ◌>>=◌, ◌>>◌, guard,
}
use safe_pass.Store.{Db, VaultMembership, is_active_member}
use safe_pass.Vaults.Authz.{rank, require_membership}
use safe_pass.Vaults.Export.{export_vault}
use safe_pass.Vaults.Lifecycle.{rename_vault, delete_vault}
use safe_pass.Vaults.Members.{change_role, revoke, accept, decline, is_invitee}
use safe_pass.Vaults.Sharing.{is_live_member, invite_member, complete, withdraw}
use safe_pass.Vaults.Rotation.{open_rotation, rotation_batch, close_rotation}
use safe_pass.Vaults.Reads.{
  VaultRead, secrets, folders, tags, progress, members, invitations, activity, secret, read_vault,
  list_secrets, list_folders, list_tags, get_rotation, get_secret, list_members, list_invitations,
  list_activity,
}
use safe_pass.Secrets.{create_secret, prepare_save, update_secret, remove_secret}
use safe_pass.Organise.{
  create_folder, rename_folder, delete_folder, create_tag, delete_tag, set_tags,
}
use safe_pass.Requests.{
  Context, VaultRequest, save_secret, exporting, acceptance, refusal, needs, handle_vault, handle,
}

-- The gate that stands first in each route.
gate : Context → ℕ → VaultRequest → Db → Result VaultMembership
gate c v r db = require_membership db v c.actor (needs r)

bind_assoc :
    {A B C : Type 0} (m : Result A) (f : A → Result B) (g : B → Result C)
    → ((m >>= f) >>= g) ≡ (m >>= λ a. f a >>= g)
unfolding ◌>>=◌
bind_assoc (ok a) f g = refl
bind_assoc (err x) f g = refl

-- Each route is its gate and what follows.
gated :
    (c : Context) (v : ℕ) (r : VaultRequest) (db : Db)
    → (rest : VaultMembership → Result Db) × (handle_vault c v r db ≡ (gate c v r db >>= rest))
unfolding gate needs handle_vault
gated c v (save_secret s body) db = unfold update_secret prepare_save in (_, bind_assoc _ _ _)
gated c v exporting db = unfold export_vault in (_, bind_assoc _ _ _)
gated c v r db =
    unfold rename_vault delete_vault change_role revoke invite_member complete withdraw
      open_rotation rotation_batch close_rotation create_secret remove_secret create_folder
      rename_folder delete_folder create_tag delete_tag set_tags in
    (_, refl)

-- Whoever changes a vault by one of its routes, other than by accepting or declining an invitation of
-- his own, is an active member of it, with a role at least as high as the one that the route asks
-- for: owner to rename, delete or export it, to invite, revoke or change roles, and to rotate its key;
-- editor to write secrets, folders and tags.
pub handle_vault_sound :
    (c : Context) (v : ℕ) (r : VaultRequest) (db : Db) {db' : Db}
    → handle_vault c v r db ≡ ok db'
    → (m : VaultMembership) × (find (is_active_member v c.actor) db.memberships ≡ some m)
      × (rank (needs r) ≤ rank m.role)
unfolding gate require_membership
handle_vault_sound c v r db e =
    let (rest, same) = gated c v r db in
    on_bind _ _ (rw same at e) λ _ entered _.
      on_required _ _ _ entered λ m found e1. on_guard _ _ _ e1 λ high _. (m, found, ground arith)

-- A route that only reads asks for a role too.
read_vault-inactive :
    (db : Db) (user_id v : ℕ) (q : VaultRead)
    → find (is_active_member v user_id) db.memberships ≡ none
    → read_vault db user_id v q ≡ err (api not_found)
unfolding read_vault list_secrets list_folders list_tags get_rotation get_secret list_members
    list_invitations list_activity require_membership required ◌>>=◌
read_vault-inactive db user_id v secrets inactive = rw inactive refl
read_vault-inactive db user_id v folders inactive = rw inactive refl
read_vault-inactive db user_id v tags inactive = rw inactive refl
read_vault-inactive db user_id v progress inactive = rw inactive refl
read_vault-inactive db user_id v members inactive = rw inactive refl
read_vault-inactive db user_id v invitations inactive = rw inactive refl
read_vault-inactive db user_id v activity inactive = rw inactive refl
read_vault-inactive db user_id v (secret id) inactive = rw inactive refl

-- Every route of a vault answers NOT_FOUND: those that write, those that read, and the two answers to
-- an invitation.
abbrev pub IsShutOut : Context → ℕ → VaultRequest → VaultRead → Db → Type 0
IsShutOut c v r q db =
    (handle_vault c v r db ≡ err (api not_found))
    × (read_vault db c.actor v q ≡ err (api not_found))
    × (handle c (acceptance v) db ≡ err (api not_found))
    × (handle c (refusal v) db ≡ err (api not_found))

module _ (c : Context) (v : ℕ) (r : VaultRequest) (db : Db) where
  handle_vault-inactive :
      find (is_active_member v c.actor) db.memberships ≡ none
      → handle_vault c v r db ≡ err (api not_found)
  unfolding gate require_membership required ◌>>=◌
  handle_vault-inactive inactive = let (rest, same) = gated c v r db in rw (same, gate, inactive)

  -- A user who is neither an active nor an invited member of a vault gets NOT_FOUND from each of its
  -- routes, be it one that writes, one that reads, or an answer to an invitation, whatever the request
  -- asks and whether the vault exists or not.
  pub handle_vault-stranger :
      (q : VaultRead) → find (is_live_member v c.actor) db.memberships ≡ none → IsShutOut c v r q db
  unfolding handle accept decline required ◌>>=◌
  handle_vault-stranger q stranger =
      let inactive : find (is_active_member v c.actor) db.memberships ≡ none =
        find-none_mono _ (is_live_member v c.actor) db.memberships (λ m h. ground arith) stranger in
      let uninvited : find (is_invitee v c.actor) db.memberships ≡ none =
        find-none_mono _ (is_live_member v c.actor) db.memberships (λ m h. ground arith) stranger in
      (
        handle_vault-inactive inactive,
        read_vault-inactive db c.actor v q inactive,
        rw uninvited refl,
        rw uninvited refl,
      )

  -- An active member whose role is too low gets ROLE_INSUFFICIENT.
  pub handle_vault-outranked :
      (m : VaultMembership)
      → find (is_active_member v c.actor) db.memberships ≡ some m
      → rank m.role < rank (needs r)
      → handle_vault c v r db ≡ err (api role_insufficient)
  unfolding gate require_membership required guard ◌>>=◌ ◌>>◌
  handle_vault-outranked m found low =
      let (rest, same) = gated c v r db in
      let test : ltb (rank m.role) (rank (needs r)) ≡ true = ground arith in
      rw (same, gate, found, test)
