-- ===== src/Vaults/Owners/Routes.antt =====
-- A vault is never left without an owner who can manage it: the routes of sharing and rotation.
use safe_pass.Base.{ℕ, ◌≡◌, refl, find, Option-cases, Bool-cases, inl, inr}
use mathlib.Core.Path.{subst}
use safe_pass.Errors.{ok, ok-injective, on_bind, on_required, on_guard}
use safe_pass.Envelope.{Value}
use safe_pass.Json.{Number, normalize}
use safe_pass.Store.{Db}
use safe_pass.Tables.{text_eq}
use safe_pass.Tables.Inserts.{insert_membership-eq-ok, insert_wrap-eq-ok, insert_rotation-eq-ok}
use safe_pass.Vaults.Invitations.{invited_row}
use safe_pass.Vaults.Sharing.{InviteMember, verified, invite_member, complete, withdraw, is_defined}
use safe_pass.Vaults.Rotation.{
  OpenRotation, RotationBatch, Progress, open_rotation, batch_vault_name, rotation_batch,
  close_rotation,
}
use safe_pass.Vaults.Rotation.Loops.{
  add_wraps-eq-ok, batch_secrets-eq-ok, batch_folders-eq-ok, batch_tags-eq-ok,
}
use safe_pass.Vaults.Owners.{IsOwned, frame-IsOwned, insert-IsOwned}
use safe_pass.Vaults.Owners.Growth.{
  vaults-IsOwned, invite_recipient-IsOwned, create_pending_invitation-IsOwned,
}

pub invite_member-IsOwned :
    {db db' : Db} (now new_id actor vault_id : ℕ) (body : InviteMember)
    → IsOwned db
    → invite_member db now new_id actor vault_id body ≡ ok db'
    → IsOwned db'
unfolding invite_member
invite_member-IsOwned {db} {db'} now new_id actor vault_id body o e = on_bind _ _ e λ _ _ e1.
    on_bind _ _ e1 λ role _ e2. on_guard _ _ _ e2 λ _ e3.
      elim (Option-cases (verified (find (λ u. text_eq u.email (normalize body.email)) db.users))) [
        | inl unknown ↦ create_pending_invitation-IsOwned _ _ _ o (rw unknown at e3)
        | inr (r, known) ↦ invite_recipient-IsOwned _ _ _ r _ _ o (rw known at e3)
      ]

pub complete-IsOwned :
    {db db' : Db} (now membership_id actor vault_id invitation_id : ℕ) (raw : Value) (n : Number)
    → IsOwned db
    → complete db now membership_id actor vault_id invitation_id raw n ≡ ok db'
    → IsOwned db'
unfolding complete
complete-IsOwned {db} now membership_id actor vault_id invitation_id raw n o e =
    on_bind _ _ e λ _ _ e1. on_bind _ _ e1 λ _ _ e2. on_required _ _ _ e2 λ i _ e3.
      on_guard _ _ _ e3 λ _ e4. on_required _ _ _ e4 λ _ _ e5. on_guard _ _ _ e5 λ _ e6.
        on_required _ _ _ e6 λ r _ e7. on_bind _ _ e7 λ db1 joined e8.
          on_bind _ _ e8 λ db2 wrapped e9.
            let (fresh, _, one) = insert_membership-eq-ok _ joined in
            let two = insert_wrap-eq-ok _ wrapped in
            subst IsOwned (ok-injective e9) (
              insert-IsOwned (invited_row membership_id vault_id r.id i.role actor) _ o fresh
                (rw (← two, ← one) refl) (rw (← two, ← one) refl))

pub withdraw-IsOwned :
    {db db' : Db} (actor vault_id invitation_id : ℕ)
    → IsOwned db
    → withdraw db actor vault_id invitation_id ≡ ok db'
    → IsOwned db'
unfolding withdraw
withdraw-IsOwned actor vault_id invitation_id o e = on_bind _ _ e λ _ _ e1.
    on_required _ _ _ e1 λ _ _ e2.
      on_guard _ _ _ e2 λ _ e3. subst IsOwned (ok-injective e3) (frame-IsOwned _ o refl refl)

pub open_rotation-IsOwned :
    {db db' : Db} (rotation_id actor vault_id : ℕ) (body : OpenRotation)
    → IsOwned db
    → open_rotation db rotation_id actor vault_id body ≡ ok db'
    → IsOwned db'
unfolding open_rotation
open_rotation-IsOwned {db} rotation_id actor vault_id body o e = on_bind _ _ e λ _ _ e1.
    on_required _ _ _ e1 λ _ _ e2. on_guard _ _ _ e2 λ _ e3. on_required _ _ _ e3 λ _ _ e4.
      on_guard _ _ _ e4 λ _ e5. on_guard _ _ _ e5 λ _ e6. on_bind _ _ e6 λ _ _ e7.
        on_bind _ _ e7 λ db1 made e8. on_bind _ _ e8 λ db2 wrapped e9.
          let (_, one) = insert_rotation-eq-ok _ made in
          let (ws, two) = add_wraps-eq-ok _ _ _ db1 wrapped in
          let o2 : IsOwned db2 =
            frame-IsOwned db2 o (rw (← two, ← one) refl) (rw (← two, ← one) refl) in
          subst IsOwned (ok-injective e9) (vaults-IsOwned _ _ _ o2 (λ v. refl) refl refl)

batch_vault_name-IsOwned :
    (vault_id to_version : ℕ) (raw : Value) (p : Progress) {p' : Progress}
    → IsOwned p.db
    → batch_vault_name vault_id to_version raw p ≡ ok p'
    → IsOwned p'.db
unfolding batch_vault_name
batch_vault_name-IsOwned vault_id to_version raw p o e = elim (Bool-cases (is_defined raw)) [
  | inl given ↦ on_bind _ _ (rw given at e) λ _ _ e1. on_guard _ _ _ e1 λ _ e2.
      subst (λ q. IsOwned q.db) (ok-injective e2) (vaults-IsOwned _ _ _ o (λ v. refl) refl refl)
  | inr absent ↦ subst (λ q. IsOwned q.db) (ok-injective (rw absent at e)) o
]

pub rotation_batch-IsOwned :
    {db db' : Db} (actor vault_id : ℕ) (body : RotationBatch)
    → IsOwned db
    → rotation_batch db actor vault_id body ≡ ok db'
    → IsOwned db'
unfolding rotation_batch
rotation_batch-IsOwned {db} actor vault_id body o e = on_bind _ _ e λ _ _ e1.
    on_required _ _ _ e1 λ _ _ e2. on_guard _ _ _ e2 λ _ e3. on_guard _ _ _ e3 λ _ e4.
      on_bind _ _ e4 λ p1 s e5. on_bind _ _ e5 λ p2 f e6. on_bind _ _ e6 λ p3 t e7.
        on_bind _ _ e7 λ p4 n e8.
          let (_, one) = batch_secrets-eq-ok _ _ _ s in
          let (_, two) = batch_folders-eq-ok _ _ p1 f in
          let (_, three) = batch_tags-eq-ok _ _ p2 t in
          let o3 : IsOwned p3.db =
            frame-IsOwned (p3.db) o (rw (← three, ← two, ← one) refl)
              (rw (← three, ← two, ← one) refl) in
          let o4 : IsOwned p4.db = batch_vault_name-IsOwned _ _ _ p3 o3 n in
          subst IsOwned (ok-injective e8) (frame-IsOwned _ o4 refl refl)

pub close_rotation-IsOwned :
    {db db' : Db} (now actor vault_id : ℕ)
    → IsOwned db
    → close_rotation db now actor vault_id ≡ ok db'
    → IsOwned db'
unfolding close_rotation
close_rotation-IsOwned now actor vault_id o e = on_bind _ _ e λ _ _ e1.
    on_required _ _ _ e1 λ _ _ e2. on_bind _ _ e2 λ _ _ e3.
      on_guard _ _ _ e3 λ _ e4. subst IsOwned (ok-injective e4) (frame-IsOwned _ o refl refl)
