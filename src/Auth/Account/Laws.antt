-- ===== src/Auth/Account/Laws.antt =====
-- What refuses the deletion of an account, and what its token is stored as.
use safe_pass.Base.{
  ℕ, suc, ◌≡◌, ◌≢◌, refl, ap, ◌∙◌, Bool, true, false, ◌&&◌, Option, none, some, List, [], ◌∷◌, ◌==◌,
  find, filter, count, any, if◌then◌else◌, arith,
}
use mathlib.Core.Path.{subst}
use safe_pass.Envelope.Base64.{Text, Bytes}
use safe_pass.Errors.{ok, ok-injective, on_bind, on_guard, on_required}
use safe_pass.Json.{normalize}
use safe_pass.Store.{Db, Vault, VaultMembership, VaultInvitation, log, ActivityLogEntry}
use safe_pass.Tables.{delete_vault_rows, text_eq}
use safe_pass.Vaults.Invitations.{promote_pending_invitations, promote_all, promote, is_pending}
use safe_pass.Auth.Store.{AuthDb, Account}
use safe_pass.Auth.BackupCodes.{remaining_backup_codes}
use safe_pass.Auth.Session.{is_none}
use safe_pass.Auth.Registration.{System, Registration, Drawn, register, found_account}
use safe_pass.Auth.Account.{
  delete_owned, acted, delete_user, delete_account, store_token, deletion_request,
}

-- The activity log is the same after the loop.
delete_owned-activity :
    (user_id : ℕ) (ms : List VaultMembership) (owned : List Vault) (db db' : Db)
    → delete_owned user_id ms owned db ≡ ok db'
    → db.activity ≡ db'.activity
unfolding delete_owned delete_vault_rows
delete_owned-activity user_id ms [] db db' e = ap (λ x. x.activity) (ok-injective e)
delete_owned-activity user_id ms (v ∷ owned) db db' e = on_guard _ _ _ e λ _ e1.
    on_bind _ _ e1 λ db1 d e2. on_guard _ _ _ d λ _ d1.
      ap (λ x. x.activity) (ok-injective d1) ∙ delete_owned-activity user_id ms owned db1 db' e2

-- A user who is the actor of an entry of the activity log cannot be deleted.
delete_account-acted :
    (user_id : ℕ) (s s1 : System)
    → any (acted user_id) s.tables.activity ≡ true
    → delete_account user_id s ≢ ok s1
unfolding delete_account delete_user
delete_account-acted user_id s s1 has e = on_bind _ _ e λ db looped e1.
    on_required _ _ _ e1 λ u _ e2. on_guard _ _ _ e2 λ _ e3. on_guard _ _ _ e3 λ _ e4.
      on_guard _ _ _ e4 λ _ e5. on_guard _ _ _ e5 λ free _.
        let same = delete_owned-activity user_id s.tables.memberships _ s.tables db looped in
        let still : any (acted user_id) db.activity ≡ true =
          subst (λ xs. any (acted user_id) xs ≡ true) same has in
        absurd (ground arith)

promote_all-any :
    (is : List VaultInvitation) (p : ActivityLogEntry → Bool) (db : Db)
    → any p db.activity ≡ true
    → any p (promote_all is db).activity ≡ true
unfolding promote_all promote log any
promote_all-any [] p db h = h
promote_all-any (i ∷ is) p db h = promote_all-any is p (promote i db) (ground arith)

promote_pending_invitations-any :
    (email : Text) (p : ActivityLogEntry → Bool) (db : Db)
    → any p db.activity ≡ true
    → any p (promote_pending_invitations db email).0.activity ≡ true
unfolding promote_pending_invitations
promote_pending_invitations-any email p db h =
    promote_all-any
      (filter (λ i. text_eq i.invitee_email (normalize email) && is_pending i.state) db.invitations)
      p db h

-- On the database that a registration leaves, the deletion of the new account does not succeed.
pub register-undeletable :
    (auth_digest digest : Text → Bytes) (s : System) (now : ℕ) (drawn : Drawn)
    (device : Option Text) (body : Registration) (s1 s2 : System)
    → register auth_digest digest s now drawn device body ≡ ok s1
    → delete_account drawn.user_id s1 ≢ ok s2
unfolding register found_account log any
register-undeletable auth_digest digest s now drawn device body s1 s2 e = on_guard _ _ _ e λ _ e1.
    on_guard _ _ _ e1 λ _ e2. on_guard _ _ _ e2 λ _ e3. on_bind _ _ e3 λ _ _ e4.
      on_bind _ _ e4 λ _ _ e5. on_bind _ _ e5 λ _ _ e6. on_bind _ _ e6 λ _ _ e7.
        on_guard _ _ _ e7 λ _ e8. on_guard _ _ _ e8 λ _ e9. on_required _ _ _ e9 λ _ _ e10.
          on_bind _ _ e10 λ t made e11. on_bind _ _ made λ _ _ m1. on_bind _ _ m1 λ _ _ m2.
            on_bind _ _ m2 λ _ _ m3. on_bind _ _ m3 λ _ _ m4. on_bind _ _ m4 λ _ _ m5.
              let logged : any (acted drawn.user_id) t.tables.activity ≡ true =
                subst (λ (x : System). any (acted drawn.user_id) x.tables.activity ≡ true)
                  (ok-injective m5) (ground arith) in
              delete_account-acted drawn.user_id s1 s2 (
                subst (λ (x : System). any (acted drawn.user_id) x.tables.activity ≡ true)
                  (ok-injective e11)
                  (promote_pending_invitations-any (normalize body.email) (acted drawn.user_id)
                    t.tables logged))

-- A request for a deletion, which needs no session, adds one to the backup codes that the user of the
-- address is told to have left.
pub deletion_request-remaining :
    (sha256 : Text → Bytes) (db db1 : AuthDb) (id : ℕ) (token email : Text) (u : Account)
    → deletion_request sha256 db id token email ≡ ok db1
    → text_eq (normalize email) [] ≡ false
    → find (λ x. text_eq x.email (normalize email)) db.accounts ≡ some u
    → remaining_backup_codes db1 u.id ≡ suc (remaining_backup_codes db u.id)
unfolding deletion_request store_token remaining_backup_codes count
deletion_request-remaining sha256 db db1 id token email u e named found =
    let mail = normalize email in
    let chosen : (if text_eq mail [] then none else find (λ x. text_eq x.email mail) db.accounts)
        ≡ some u =
      rw (named, found) refl in
    let stored = subst (λ o. store_token sha256 db id token o ≡ ok db1) chosen e in
    on_guard _ _ _ stored λ _ e1.
      subst
        (λ (x : AuthDb).
          count (λ c. c.user_id == u.id && is_none c.used_at) x.backup_codes
          ≡ suc (count (λ c. c.user_id == u.id && is_none c.used_at) db.backup_codes))
        (ok-injective e1) (ground arith)
