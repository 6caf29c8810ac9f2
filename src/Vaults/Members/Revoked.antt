-- ===== src/Vaults/Members/Revoked.antt =====
-- What a revocation leaves: nothing that opens the vault, and nobody who may use it.
use safe_pass.Base.{
  ℕ, ◌≡◌, false, none, some, List, [], ◌∷◌, ◌==◌, find, find-none, update, All, All-update,
  All-delete_strict, arith, inl, inr, Bool-cases,
}
use mathlib.Core.Path.{subst}
use safe_pass.Errors.{ok, ok-injective, on_bind, on_required, on_guard, when-eq-ok}
use safe_pass.Store.{Db, VaultMembership, member_of}
use safe_pass.Vaults.Members.{revoke}
use safe_pass.Vaults.Reads.{VaultRead}
use safe_pass.Requests.{Context, VaultRequest}
use safe_pass.Vaults.Sharing.{is_live_member}
use safe_pass.Requests.Authority.{IsShutOut, handle_vault-stranger}

-- No two memberships are of the same vault and user, as a unique index of the schema keeps it.
abbrev pub IsSingle : List VaultMembership → Type 0
IsSingle [] = Unit
IsSingle (m ∷ ms) = All (λ x. member_of m.vault_id m.user_id x ≡ false) ms × IsSingle ms

-- With the one row of a vault and user revoked, that user is no live member.
revoked-none :
    (v u : ℕ) (f : VaultMembership → VaultMembership) (ms : List VaultMembership)
    (m : VaultMembership)
    → ((x : VaultMembership) → is_live_member v u (f x) ≡ false)
    → IsSingle ms
    → find (member_of v u) ms ≡ some m
    → All (λ x. is_live_member v u x ≡ false) (update (λ x. x.id == m.id) f ms)
unfolding find update
revoked-none v u f [] m off single e = tt
revoked-none v u f (x ∷ xs) m off (apart, single) e = elim (Bool-cases (member_of v u x)) [
  | inl hit ↦
      let same : x ≡ m = ground arith in
      (
        ground (arith, off x),
        All-update (λ y. member_of x.vault_id x.user_id y ≡ false) _ (λ y. y.id == m.id) f xs apart
            (λ y _ _. off y) (λ y _ far. ground arith),
      )
  | inr miss ↦ (ground (arith, off x), revoked-none v u f xs m off single (ground arith))
]

module _ (db : Db) (now actor vault_id user_id : ℕ) {db' : Db} where
  -- A revocation that succeeds leaves no wrap of the revoked membership, of any generation.
  pub revoke-wraps :
      revoke db now actor vault_id user_id ≡ ok db'
      → (m : VaultMembership) × (find (member_of vault_id user_id) db.memberships ≡ some m)
        × All (λ w. (w.membership_id == m.id) ≡ false) db'.wraps
  unfolding revoke
  revoke-wraps e = on_bind _ _ e λ _ _ e1. on_required _ _ _ e1 λ m found e2.
      on_guard _ _ _ e2 λ _ e3.
        let (_, e4) = when-eq-ok _ _ _ e3 in
        (
          m,
          found,
          subst (λ d. All (λ w. (w.membership_id == m.id) ≡ false) d.wraps) (ok-injective e4)
              (All-delete_strict _ _ db.wraps (λ w h. h)),
        )

  revoke-none :
      IsSingle db.memberships
      → revoke db now actor vault_id user_id ≡ ok db'
      → find (is_live_member vault_id user_id) db'.memberships ≡ none
  unfolding revoke
  revoke-none single e = on_bind _ _ e λ _ _ e1. on_required _ _ _ e1 λ m found e2.
      on_guard _ _ _ e2 λ _ e3.
        let (_, e4) = when-eq-ok _ _ _ e3 in
        subst (λ d. find (is_live_member vault_id user_id) d.memberships ≡ none) (ok-injective e4)
          (find-none _ _
            (revoked-none vault_id user_id _ db.memberships m (λ x. ground arith) single found))

  -- Where no two memberships are of one vault and user, a revoked member gets NOT_FOUND from each
  -- route of the vault as soon as the revocation has succeeded: from those that write, from those that
  -- read, and from both answers to an invitation.
  pub revoke-shuts_out :
      (c : Context) (r : VaultRequest) (q : VaultRead)
      → c.actor ≡ user_id
      → IsSingle db.memberships
      → revoke db now actor vault_id user_id ≡ ok db'
      → IsShutOut c vault_id r q db'
  revoke-shuts_out c r q who single e =
      handle_vault-stranger c vault_id r db' q (rw who (revoke-none single e))
