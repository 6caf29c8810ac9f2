-- ===== src/Vaults/Owners/Growth.antt =====
-- A vault is never left without an owner who can manage it: what creating, renaming and deleting
-- vaults, inviting, and rotations keep.
use safe_pass.Base.{
  ℕ, ◌≡◌, refl, Bool, true, false, ◌==◌, ◌∷◌, find, count, update, any, All-map, All-update,
  All-delete_keep, IsUnique-delete, IsUnique-cons, count-delete, All-intro, inl, inr, arith,
  Option-cases, count-update-le, any-false,
}
use mathlib.Core.Path.{subst}
use safe_pass.Errors.{ok, ok-injective, on_bind, on_required, on_guard}
use safe_pass.Envelope.{Value}
use safe_pass.Store.{Db, User, Role, Vault, VaultMembership, is_active_owner, member_of}
use safe_pass.Tables.Inserts.{
  insert_vault-eq-ok, insert_membership-eq-ok, insert_wrap-eq-ok, insert_invitation-eq-ok,
}
use safe_pass.Vaults.Lifecycle.{
  CreateVault, new_vault, founder, create_vault, rename_vault, delete_vault,
}
use safe_pass.Vaults.Invitations.{PendingInvitation, create_pending_invitation, invited_row}
use safe_pass.Vaults.Sharing.{reinvited, upsert_membership, invite_recipient, is_live_member}
use safe_pass.Vaults.Owners.{IsOwned, frame-IsOwned, insert-IsOwned, rows-IsOwned}

-- A renamed or re-keyed vault keeps its id.
pub vaults-IsOwned :
    {db : Db} (p : Vault → Bool) (f : Vault → Vault) (db' : Db)
    → IsOwned db
    → ((v : Vault) → (f v).id ≡ v.id)
    → db'.memberships ≡ db.memberships
    → db'.vaults ≡ update p f db.vaults
    → IsOwned db'
vaults-IsOwned {db} p f db' o same ms vs = record {
  ids = rw ms o.ids;
  owners =
      rw (ms, vs) (All-update _ _ p f db.vaults o.owners (λ v _ h. rw (same v) h) (λ v _ h. h));
}

-- A new vault with a membership of an active owner, whose key is free.
pub found-IsOwned :
    {db : Db} (v : Vault) (m : VaultMembership) (db' : Db)
    → IsOwned db
    → any (λ x. x.id == m.id) db.memberships ≡ false
    → is_active_owner v.id m ≡ true
    → db'.memberships ≡ m ∷ db.memberships
    → db'.vaults ≡ v ∷ db.vaults
    → IsOwned db'
unfolding count
found-IsOwned {db} v m db' o fresh manages ms vs = record {
  ids = rw ms (IsUnique-cons (λ x. x.id) m db.memberships fresh o.ids);
  owners =
      rw (ms, vs) ((rw manages (omega arith)), All-map _ _ (λ w h. omega arith) db.vaults o.owners);
}

pub create_vault-IsOwned :
    {db db' : Db} (now user_id vault_id membership_id : ℕ) (body : CreateVault)
    → IsOwned db
    → create_vault db now user_id vault_id membership_id body ≡ ok db'
    → IsOwned db'
unfolding create_vault
create_vault-IsOwned {db} now user_id vault_id membership_id body o e = on_bind _ _ e λ name _ e1.
    on_bind _ _ e1 λ _ _ e2. on_bind _ _ e2 λ db1 made e3. on_bind _ _ e3 λ db2 joined e4.
      on_bind _ _ e4 λ db3 wrapped e5.
        let one = (insert_vault-eq-ok _ made).1 in
        let (fresh, _, two) = insert_membership-eq-ok _ joined in
        let three = insert_wrap-eq-ok _ wrapped in
        subst IsOwned (ok-injective e5) (
          found-IsOwned (new_vault vault_id user_id name)
            (founder membership_id vault_id user_id now) _ o (rw (← one) at fresh) (ground arith)
            (rw (← three, ← two, ← one) refl) (rw (← three, ← two, ← one) refl))

pub rename_vault-IsOwned :
    {db db' : Db} (actor vault_id : ℕ) (raw : Value)
    → IsOwned db
    → rename_vault db actor vault_id raw ≡ ok db'
    → IsOwned db'
unfolding rename_vault
rename_vault-IsOwned {db} actor vault_id raw o e = on_bind _ _ e λ _ _ e1. on_bind _ _ e1 λ _ _ e2.
    on_required _ _ _ e2
      λ _ _ e3. subst IsOwned (ok-injective e3) (vaults-IsOwned _ _ _ o (λ v. refl) refl refl)

pub delete_vault-IsOwned :
    {db db' : Db} (actor vault_id : ℕ)
    → IsOwned db
    → delete_vault db actor vault_id ≡ ok db'
    → IsOwned db'
unfolding delete_vault
delete_vault-IsOwned {db} actor vault_id o e = on_bind _ _ e λ _ _ e1.
    on_required _ _ _ e1 λ _ _ e2. on_guard _ _ _ e2 λ _ e3. on_guard _ _ _ e3 λ _ e4.
      on_guard _ _ _ e4 λ _ e5. subst IsOwned (ok-injective e5) (record {
        ids = IsUnique-delete (λ m. m.id) _ db.memberships o.ids;
        owners =
            All-delete_keep _ _ (λ v. v.id == vault_id) db.vaults o.owners
              (λ v other h.
                rw
                  (count-delete (λ m. m.vault_id == vault_id) (is_active_owner v.id) db.memberships
                    (All-intro _ (λ m t. ground arith) db.memberships))
                  h);
      })

-- Inviting somebody with an account makes a row or rewrites a revoked one.
upsert-IsOwned :
    {db : Db} (membership_id vault_id user_id actor : ℕ) (role : Role) (up : Db × ℕ)
    → IsOwned db
    → any (is_live_member vault_id user_id) db.memberships ≡ false
    → upsert_membership db membership_id vault_id user_id role actor ≡ ok up
    → IsOwned up.0 × (up.0.vaults ≡ db.vaults)
unfolding upsert_membership
upsert-IsOwned {db} membership_id vault_id user_id actor role up o dead e =
    elim (Option-cases (find (member_of vault_id user_id) db.memberships)) [
      | inl new ↦ on_bind _ _ (rw (new, upsert_membership) at e) λ db1 made e1.
          let (fresh, _, one) = insert_membership-eq-ok _ made in
          subst (λ p. IsOwned p.0 × (p.0.vaults ≡ db.vaults)) (ok-injective e1)
            (
              insert-IsOwned (invited_row membership_id vault_id user_id role actor) db1 o fresh
                  (rw (← one) refl) (rw (← one) refl),
              rw (← one) refl,
            )
      | inr (m, found) ↦
          subst (λ p. IsOwned p.0 × (p.0.vaults ≡ db.vaults))
            (ok-injective (rw (found, upsert_membership) at e))
            (
              rows-IsOwned (reinvited role actor) (member_of vault_id user_id) _ o (λ x. refl) refl
                  refl
                  (λ v h. omega (
                    arith,
                    h,
                    count-update-le (member_of vault_id user_id) (is_active_owner v)
                        (reinvited role actor) db.memberships
                        (All-map _ _ (λ x not_live p q. ground arith) db.memberships
                          (any-false _ db.memberships dead)),
                  )),
              refl,
            )
    ]

pub invite_recipient-IsOwned :
    {db db' : Db} (membership_id actor vault_id : ℕ) (recipient : User) (role : Role) (raw : Value)
    → IsOwned db
    → invite_recipient db membership_id actor vault_id recipient role raw ≡ ok db'
    → IsOwned db'
unfolding invite_recipient
invite_recipient-IsOwned {db} membership_id actor vault_id recipient role raw o e =
    on_guard _ _ _ e λ dead e1. on_bind _ _ e1 λ _ _ e2. on_required _ _ _ e2 λ _ _ e3.
      on_bind _ _ e3 λ up made e4. on_bind _ _ e4 λ db2 wrapped e5.
        let (o1, vs) =
          upsert-IsOwned membership_id vault_id recipient.id actor role up o (ground arith) made in
        let two = insert_wrap-eq-ok _ wrapped in
        subst IsOwned (ok-injective e5) (frame-IsOwned _ o1 (rw (← two) refl) (rw (← two) refl))

pub create_pending_invitation-IsOwned :
    {db db' : Db} (now id : ℕ) (params : PendingInvitation)
    → IsOwned db
    → create_pending_invitation db now id params ≡ ok db'
    → IsOwned db'
unfolding create_pending_invitation
create_pending_invitation-IsOwned {db} now id params o e = on_guard _ _ _ e λ _ e1.
    on_guard _ _ _ e1 λ _ e2. on_bind _ _ e2 λ db1 made e3.
      let one = insert_invitation-eq-ok _ made in
      subst IsOwned (ok-injective e3) (frame-IsOwned _ o (rw (← one) refl) (rw (← one) refl))
