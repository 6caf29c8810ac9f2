-- ===== src/Vaults/Rotation/Open.antt =====
-- Opening a rotation locks nobody out.
use safe_pass.Base.{
  ℕ, suc, ◌≡◌, refl, Bool, true, ◌&&◌, not, some, List, [], ◌∷◌, ◌==◌, find, any, count-zero_All,
  filter, All-find, Bool-cases, Option-cases, inl, inr, arith,
}
use mathlib.Core.Path.{subst}
use safe_pass.Errors.{ok, ok-injective, on_bind, on_required, on_guard}
use safe_pass.Store.{Db, Vault, VaultMembership, VaultKeyWrap, log}
use safe_pass.Tables.{insert_wrap}
use safe_pass.Vaults.Rotation.{MemberKey, OpenRotation, add_wraps, is_remaining, open_rotation}

-- Somebody holds a wrap of the generation.
abbrev pub holds : ℕ → ℕ → List VaultKeyWrap → Bool
holds membership_id version wraps =
    any (λ w. w.membership_id == membership_id && w.key_version == version) wraps

-- Each wrap that was there stays.
add_wraps-keeps :
    (members : List VaultMembership) (to id : ℕ) (ks : List MemberKey) (db : Db) {db' : Db}
    → add_wraps members to ks db ≡ ok db'
    → holds id to db.wraps ≡ true
    → holds id to db'.wraps ≡ true
unfolding add_wraps insert_wrap any
add_wraps-keeps members to id [] db e h = subst (λ d. holds id to d.wraps ≡ true) (ok-injective e) h
add_wraps-keeps members to id (k ∷ ks) db e h =
    elim (Option-cases (find (λ m. m.user_id == k.user_id) members)) [
      | inl skip ↦ add_wraps-keeps members to id ks db (rw (skip, add_wraps) at e) h
      | inr (m, found) ↦ on_bind _ _ (rw (found, add_wraps) at e) λ _ _ e1.
          on_bind _ _ e1 λ db1 made e2. on_guard _ _ _ made λ _ m1. on_guard _ _ _ m1 λ _ m2.
            add_wraps-keeps members to id ks db1 e2
              (subst (λ d. holds id to d.wraps ≡ true) (ok-injective m2) (ground arith))
    ]

-- A member that the list of members finds first for its user, and for whom there is a key, gets a wrap.
add_wraps-holds :
    (members : List VaultMembership) (to : ℕ) (m : VaultMembership) (ks : List MemberKey) (db : Db)
    {db' : Db}
    → find (λ x. x.user_id == m.user_id) members ≡ some m
    → any (λ k. k.user_id == m.user_id) ks ≡ true
    → add_wraps members to ks db ≡ ok db'
    → holds m.id to db'.wraps ≡ true
unfolding add_wraps insert_wrap any
add_wraps-holds members to m [] db first has e = cc
add_wraps-holds members to m (k ∷ ks) db first has e = elim (Bool-cases (k.user_id == m.user_id)) [
  | inl hit ↦
      let same : k.user_id ≡ m.user_id = ground arith in
      let found : find (λ x. x.user_id == k.user_id) members ≡ some m = rw (same, first) refl in
      on_bind _ _ (rw (found, add_wraps) at e) λ _ _ e1. on_bind _ _ e1 λ db1 made e2.
        on_guard _ _ _ made λ _ m1. on_guard _ _ _ m1 λ _ m2.
          add_wraps-keeps members to m.id ks db1 e2
            (subst (λ d. holds m.id to d.wraps ≡ true) (ok-injective m2) (ground arith))
  | inr miss ↦
      let rest : any (λ k. k.user_id == m.user_id) ks ≡ true = ground arith in
      elim (Option-cases (find (λ x. x.user_id == k.user_id) members)) [
        | inl skip ↦ add_wraps-holds members to m ks db first rest (rw (skip, add_wraps) at e)
        | inr (x, found) ↦
            on_bind _ _ (rw (found, add_wraps) at e)
              λ _ _ e1. on_bind _ _ e1 λ db1 _ e2. add_wraps-holds members to m ks db1 first rest e2
      ]
]

-- When a rotation has been opened, the active or invited membership of any user in the vault, the
-- first if there were several, holds a wrap of the next generation of the vault.
pub open_rotation-holds :
    (db : Db) (rotation_id actor vault_id : ℕ) (body : OpenRotation) (m : VaultMembership)
    {db' : Db}
    → open_rotation db rotation_id actor vault_id body ≡ ok db'
    → find (λ x. x.user_id == m.user_id) (filter (is_remaining vault_id) db.memberships) ≡ some m
    → (vault : Vault) × (find (λ v. v.id == vault_id) db.vaults ≡ some vault)
      × (holds m.id (suc vault.key_version) db'.wraps ≡ true)
unfolding open_rotation log
open_rotation-holds db rotation_id actor vault_id body m e first = on_bind _ _ e λ _ _ e1.
    on_required _ _ _ e1 λ keys given e2. on_guard _ _ _ e2 λ _ e3.
      on_required _ _ _ e3 λ vault found e4. on_guard _ _ _ e4 λ _ e5.
        on_guard _ _ _ e5 λ complete e6. on_bind _ _ e6 λ _ _ e7. on_bind _ _ e7 λ db1 _ e8.
          on_bind _ _ e8 λ db2 added e9.
            let members = filter (is_remaining vault_id) db.memberships in
            let all_supplied =
              count-zero_All (λ (x : VaultMembership). not (any (λ k. k.user_id == x.user_id) keys))
                members (ground arith) in
            let supplied = All-find _ _ members all_supplied first in
            (
              vault,
              found,
              subst (λ d. holds m.id (suc vault.key_version) d.wraps ≡ true) (ok-injective e9)
                  (add_wraps-holds members (suc vault.key_version) m keys db1 first (ground arith)
                    added),
            )
