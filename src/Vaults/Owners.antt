-- ===== src/Vaults/Owners.antt =====
-- A vault is never left without an owner who can manage it: what the membership operations keep.
pub mod Growth
pub mod Routes
use safe_pass.Base.{
  ℕ, ◌+◌, ◌≤◌, ◌<◌, ◌≡◌, refl, sym, ap, ◌∙◌, Bool, true, false, ◌&&◌, not, Option, none, some, List,
  ◌==◌, ◌∷◌, find, count, update, delete, any, All, All-map, All-update, All-delete, IsUnique,
  IsUnique-update, IsUnique-delete, IsUnique-cons, count-update_row, count-delete_row, count_mono,
  count-update-le, All-intro, find_sound, count_pos_of_find, find-none-All, inl, inr, ◌⊎◌,
  Bool-cases, arith,
}
use mathlib.Core.Path.{subst}
use safe_pass.Errors.{
  Result, ok, ok-injective, >>=-eq-ok, >>-eq-ok, required-eq-ok, when-eq-ok, required-then,
  guard-eq-ok, guard, required, when,
}
use safe_pass.Envelope.{Value}
use safe_pass.Store.{
  Db, Vault, VaultMembership, owner, active, is_owner, is_active, is_active_owner, member_of, log,
}
use safe_pass.Vaults.Members.{
  accept, decline, change_role, revoke_member, revoke, assert_not_last_owner, is_other_owner,
}

-- Membership ids are unique, and each vault has an active owner.
pub record IsOwned (db : Db) : Type 0 where
  pub ids : IsUnique (λ m. m.id) db.memberships
  pub owners : All (λ v. 0 < count (is_active_owner v.id) db.memberships) db.vaults

module _ (f : VaultMembership → VaultMembership) (ms : List VaultMembership) where
  -- A change of one row that keeps active owners active owners.
  pub owner_kept :
      (p : VaultMembership → Bool) (v : ℕ)
      → ((x : VaultMembership)
          → p x ≡ true
          → is_active_owner v x ≡ true
          → is_active_owner v (f x) ≡ true)
      → 0 < count (is_active_owner v) ms
      → 0 < count (is_active_owner v) (update p f ms)
  owner_kept p v keep h =
      omega (arith, count-update-le p (is_active_owner v) f ms (All-intro _ keep ms))

  module _ {m : VaultMembership} (unique : IsUnique (λ x. x.id) ms) where
    -- A change of one row that is no active owner.
    owner_elsewhere :
        (p : VaultMembership → Bool) (v : ℕ)
        → find p ms ≡ some m
        → is_active_owner v m ≡ false
        → 0 < count (is_active_owner v) ms
        → 0 < count (is_active_owner v) (update (λ x. x.id == m.id) f ms)
    owner_elsewhere p v found no_owner h =
        omega (arith, count-update_row (λ x. x.id) p (is_active_owner v) f ms unique found no_owner)

    -- A change of one row of a vault that has another active owner.
    owner_left :
        (vault_id user_id v : ℕ)
        → find (member_of vault_id user_id) ms ≡ some m
        → not (count (is_other_owner vault_id user_id) ms == 0) ≡ true
        → 0 < count (is_active_owner v) ms
        → 0 < count (is_active_owner v) (update (λ x. x.id == m.id) f ms)
    owner_left vault_id user_id v found others h =
        let here : member_of vault_id user_id m ≡ true = find_sound _ ms found in
        elim (Bool-cases (v == vault_id)) [
          | inl same ↦
              let own : is_other_owner vault_id user_id m ≡ false = ground arith in
              let pos : 0 < count (is_other_owner vault_id user_id) ms = ground arith in
              let v_eq : v ≡ vault_id = ground arith in
              omega (
                arith,
                count-update_row (λ x. x.id) (member_of vault_id user_id)
                    (is_other_owner vault_id user_id) f ms unique found own,
                count_mono (is_other_owner vault_id user_id) (is_active_owner v)
                    (update (λ x. x.id == m.id) f ms) (All-intro _ (λ x t. ground arith) _),
              )
          | inr other_vault ↦ owner_elsewhere (member_of vault_id user_id) v found (ground arith) h
        ]

-- What leaves the memberships and the vaults alone.
pub frame-IsOwned :
    {db : Db} (db' : Db)
    → IsOwned db
    → db'.memberships ≡ db.memberships
    → db'.vaults ≡ db.vaults
    → IsOwned db'
frame-IsOwned db' o ms vs = record { ids = rw ms o.ids; owners = rw (ms, vs) o.owners }

-- A new row of the table of memberships, whose key is free.
pub insert-IsOwned :
    {db : Db} (m : VaultMembership) (db' : Db)
    → IsOwned db
    → any (λ x. x.id == m.id) db.memberships ≡ false
    → db'.memberships ≡ m ∷ db.memberships
    → db'.vaults ≡ db.vaults
    → IsOwned db'
unfolding count
insert-IsOwned {db} m db' o fresh ms vs = record {
  ids = rw ms (IsUnique-cons (λ x. x.id) m db.memberships fresh o.ids);
  owners = rw (ms, vs) (All-map _ _ (λ v h. omega arith) db.vaults o.owners);
}

-- Preservation, from what a membership operation does to the rows.
pub rows-IsOwned :
    {db : Db} (f : VaultMembership → VaultMembership) (p : VaultMembership → Bool) (db' : Db)
    → IsOwned db
    → ((x : VaultMembership) → (f x).id ≡ x.id)
    → db'.memberships ≡ update p f db.memberships
    → db'.vaults ≡ db.vaults
    → ((v : ℕ)
        → 0 < count (is_active_owner v) db.memberships
        → 0 < count (is_active_owner v) (update p f db.memberships))
    → IsOwned db'
rows-IsOwned {db} f p db' o same ms vs keep = record {
  ids = rw ms (IsUnique-update (λ m. m.id) p f db.memberships same o.ids);
  owners = rw (ms, vs) (All-map _ _ (λ v h. keep v.id h) db.vaults o.owners);
}

pub accept-IsOwned :
    {db db' : Db} (now user_id vault_id : ℕ)
    → IsOwned db
    → accept db now user_id vault_id ≡ ok db'
    → IsOwned db'
unfolding accept
accept-IsOwned {db} now user_id vault_id o e =
    let (m, found, e1) = required-then _ _ _ e in
    subst IsOwned (ok-injective e1) (
      rows-IsOwned _ _ _ o (λ x. refl) refl refl
        (λ v. owner_kept _ db.memberships _ v (λ x _ t. ground arith)))

pub decline-IsOwned :
    {db db' : Db} (user_id vault_id : ℕ)
    → IsOwned db
    → decline db user_id vault_id ≡ ok db'
    → IsOwned db'
unfolding decline
decline-IsOwned {db} user_id vault_id o e =
    let (m, found, e1) = required-then _ _ _ e in
    let invitee = find_sound _ db.memberships found in
    subst IsOwned (ok-injective e1) (record {
      ids = IsUnique-delete (λ x. x.id) _ db.memberships o.ids;
      owners =
          All-map _ _
            (λ v h.
              rw
                (count-delete_row (λ x. x.id) _ (is_active_owner v.id) db.memberships o.ids found
                  (ground arith))
                h)
            db.vaults o.owners;
    })

pub change_role-IsOwned :
    {db db' : Db} (actor vault_id user_id : ℕ) (raw : Value)
    → IsOwned db
    → change_role db actor vault_id user_id raw ≡ ok db'
    → IsOwned db'
unfolding change_role
change_role-IsOwned {db} actor vault_id user_id raw o e =
    let (_, _, e1) = >>=-eq-ok _ _ e in
    let (role, _, e2) = >>=-eq-ok _ _ e1 in
    let (m, found, e3) = required-then _ _ _ e2 in
    let (checked, e4) = when-eq-ok _ _ _ e3 in
    subst IsOwned (ok-injective e4) (
      rows-IsOwned _ _ _ o (λ x. refl) refl refl
        (λ v h. elim checked [
          | inl stays ↦ elim (Bool-cases (is_owner m.role)) [
            | inl was ↦ owner_kept _ db.memberships _ v (λ x _ t. ground arith) h
            | inr not_owner ↦ owner_elsewhere _ db.memberships o.ids _ v found (ground arith) h
          ]
          | inr others ↦
              owner_left _ db.memberships o.ids vault_id user_id v found (guard-eq-ok _ _ others) h
        ]))

pub revoke-IsOwned :
    {db db' : Db} (now actor vault_id user_id : ℕ)
    → IsOwned db
    → revoke db now actor vault_id user_id ≡ ok db'
    → IsOwned db'
unfolding revoke
revoke-IsOwned {db} now actor vault_id user_id o e =
    let (_, _, e1) = >>=-eq-ok _ _ e in
    let (m, found, e2) = required-then _ _ _ e1 in
    let (_, e3) = >>-eq-ok _ _ _ e2 in
    let (checked, e4) = when-eq-ok _ _ _ e3 in
    subst IsOwned (ok-injective e4) (
      rows-IsOwned _ _ _ o (λ x. refl) refl refl
        (λ v h. elim checked [
          | inl not_owner ↦ owner_elsewhere _ db.memberships o.ids _ v found (ground arith) h
          | inr others ↦
              owner_left _ db.memberships o.ids vault_id user_id v found (guard-eq-ok _ _ others) h
        ]))
