-- ===== src/Vaults/Authz.antt =====
-- backend/src/modules/vaults/authz.ts: membership is resolved before any data is loaded, and then
-- the role is checked.
use safe_pass.Base.{ℕ, List, find, ltb, not, [], ◌∷◌, if◌then◌else◌}
use safe_pass.Errors.{
  Result, ok, err, api, not_found, role_insufficient, validation_failed, ◌>>=◌, ◌>>◌, guard,
  required,
}
use safe_pass.Envelope.{Value, undefined, other, str}
use safe_pass.Store.{Db, Role, owner, editor, viewer, VaultMembership, is_active_member}
use safe_pass.Tables.{text_eq}

-- `RANK`
abbrev pub rank : Role → ℕ
rank viewer = 0
rank editor = 1
rank owner = 2

unfoldable pub require_membership : Db → ℕ → ℕ → Role → Result VaultMembership
require_membership db vault_id user_id minimum = do
  membership ← required (find (is_active_member vault_id user_id) db.memberships) (api not_found)
  guard (not (ltb (rank membership.role) (rank minimum))) (api role_insufficient)
  ok membership

-- `asRole` of the vault and sharing routes, on the code units of the three role names.
unfoldable pub as_role : Value → Result Role
as_role undefined = err (api validation_failed)
as_role other = err (api validation_failed)
as_role (str t) =
    let is = λ (name : List ℕ). text_eq t name in
    if is (111 ∷ 119 ∷ 110 ∷ 101 ∷ 114 ∷ [])
    then ok owner
    else if is (101 ∷ 100 ∷ 105 ∷ 116 ∷ 111 ∷ 114 ∷ [])
    then ok editor
    else if is (118 ∷ 105 ∷ 101 ∷ 119 ∷ 101 ∷ 114 ∷ [])
    then ok viewer
    else err (api validation_failed)
