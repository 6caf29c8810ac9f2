-- ===== src/Vaults/Deletion.antt =====
-- What the append-only activity log makes of the deletion of a vault.
use safe_pass.Base.{ℕ, ◌≡◌, ◌≢◌, true, ◌==◌, any, arith}
use mathlib.Core.Path.{subst}
use safe_pass.Errors.{ok, ok-injective, on_bind, on_required, on_guard}
use safe_pass.Store.{Db, log}
use safe_pass.Tables.{delete_vault_rows}
use safe_pass.Vaults.Lifecycle.{CreateVault, create_vault, delete_vault}

logged-undeletable :
    (db : Db) (actor v : ℕ) (d : Db)
    → any (λ a. a.vault_id == v) db.activity ≡ true
    → delete_vault db actor v ≢ ok d
unfolding delete_vault delete_vault_rows
logged-undeletable db actor v d has e = on_bind _ _ e λ _ _ e1. on_required _ _ _ e1 λ _ _ e2.
    on_guard _ _ _ e2
      λ _ e3. on_guard _ _ _ e3 λ _ e4. on_guard _ _ _ e4 λ free _. absurd (ground arith)

-- On the database that the creation of a vault leaves, no deletion of that vault succeeds, whoever
-- asks for it.
pub create_vault-undeletable :
    (db : Db) (now user_id vault_id membership_id actor : ℕ) (body : CreateVault) (db' d : Db)
    → create_vault db now user_id vault_id membership_id body ≡ ok db'
    → delete_vault db' actor vault_id ≢ ok d
unfolding create_vault log any
create_vault-undeletable db now user_id vault_id membership_id actor body db' d e =
    on_bind _ _ e λ _ _ e1. on_bind _ _ e1 λ _ _ e2. on_bind _ _ e2 λ _ _ e3.
      on_bind _ _ e3 λ _ _ e4. on_bind _ _ e4 λ _ _ e5. logged-undeletable db' actor vault_id d (
        subst (λ (x : Db). any (λ a. a.vault_id == vault_id) x.activity ≡ true) (ok-injective e5)
          (ground arith))
