-- ===== src/Requests/Visits.antt =====
-- Histories of registrations, of backend/src/modules/auth/auth.routes.ts, and of the requests of the
-- users. A registration writes the tables of the vaults too. Import and the deletion of an account
-- are not in these histories.
use safe_pass.Base.{ℕ, ◌≡◌, refl, Option, List, [], ◌∷◌, filter, ◌&&◌, arith}
use mathlib.Core.Path.{subst}
use safe_pass.Envelope.Base64.{Text, Bytes}
use safe_pass.Errors.{Result, ok, err, ok-injective, on_bind, on_required, on_guard, ◌>>=◌}
use safe_pass.Json.{normalize}
use safe_pass.Store.{Db, VaultInvitation, log}
use safe_pass.Tables.{text_eq}
use safe_pass.Tables.Inserts.{insert_vault-eq-ok, insert_membership-eq-ok, insert_wrap-eq-ok}
use safe_pass.Vaults.Lifecycle.{founder}
use safe_pass.Vaults.Invitations.{is_pending, promote, promote_all, promote_pending_invitations}
use safe_pass.Vaults.Owners.{IsOwned, frame-IsOwned}
use safe_pass.Vaults.Owners.Growth.{found-IsOwned}
use safe_pass.Auth.Store.{Account, UserKeyring}
use safe_pass.Auth.Registration.{
  System, Registration, Drawn, register, found_account, create_user, personal_vault,
}
use safe_pass.Requests.{Context, Request, handle}
use safe_pass.Requests.Owners.{handle-IsOwned}

-- A registration, or a request of somebody who is signed in.
pub data Visit : Type 0 where
  signs_up : (now : ℕ) (drawn : Drawn) (device_label : Option Text) (body : Registration) → Visit
  asks : Context → Request → Visit

-- What a request leaves: its result, or what there was if it fails.
abbrev after : Result System → System → System
after (ok t) s = t
after (err e) s = s

module _ (auth_digest digest : Text → Bytes) where
  unfoldable pub visit : Visit → System → Result System
  visit (signs_up now drawn device_label body) s =
      register auth_digest digest s now drawn device_label body
  visit (asks c r) s = handle c r s.tables >>= λ db. ok (record s { tables = db })

  unfoldable pub serve_visits : List Visit → System → System
  unfolding visit
  serve_visits [] s = s
  serve_visits (v ∷ rest) s = serve_visits rest (after (visit v s) s)

promote_all-IsOwned :
    (is : List VaultInvitation) (db : Db) → IsOwned db → IsOwned (promote_all is db)
unfolding promote_all promote log
promote_all-IsOwned [] db o = o
promote_all-IsOwned (i ∷ is) db o =
    promote_all-IsOwned is (promote i db) (frame-IsOwned (promote i db) o refl refl)

promote_pending_invitations-IsOwned :
    (email : Text) (db : Db) → IsOwned db → IsOwned (promote_pending_invitations db email).0
unfolding promote_pending_invitations
promote_pending_invitations-IsOwned email db o =
    promote_all-IsOwned
      (filter (λ i. text_eq i.invitee_email (normalize email) && is_pending i.state) db.invitations)
      db o

found_account-IsOwned :
    (digest : Text → Bytes) (s : System) (now : ℕ) (drawn : Drawn) (device : Option Text)
    (u : Account) (k : UserKeyring) (key name : Text) {s1 : System}
    → IsOwned s.tables
    → found_account digest s now drawn device u k key name ≡ ok s1
    → IsOwned s1.tables
unfolding found_account create_user log
found_account-IsOwned digest s now drawn device u k key name o e = on_bind _ _ e λ s0 made e1.
    on_guard _ _ _ made λ _ m1. on_guard _ _ _ m1 λ _ m2. on_guard _ _ _ m2 λ _ m3.
      on_bind _ _ e1 λ db1 built e2. on_bind _ _ e2 λ db2 joined e3.
        on_bind _ _ e3 λ db3 wrapped e4. on_bind _ _ e4 λ auth1 _ e5.
          let o0 : IsOwned s0.tables =
            subst (λ (x : System). IsOwned x.tables) (ok-injective m3)
              (frame-IsOwned _ o refl refl) in
          let one = (insert_vault-eq-ok _ built).1 in
          let (fresh, _, two) = insert_membership-eq-ok _ joined in
          let three = insert_wrap-eq-ok _ wrapped in
          subst (λ (x : System). IsOwned x.tables) (ok-injective e5)
            (found-IsOwned (personal_vault drawn.vault_id u.id name)
              (founder drawn.membership_id drawn.vault_id u.id now) _ o0 (rw (← one) at fresh)
              (ground arith) (rw (← three, ← two, ← one) refl) (rw (← three, ← two, ← one) refl))

register-IsOwned :
    (auth_digest digest : Text → Bytes) (s : System) (now : ℕ) (drawn : Drawn)
    (device : Option Text) (body : Registration) {s1 : System}
    → IsOwned s.tables
    → register auth_digest digest s now drawn device body ≡ ok s1
    → IsOwned s1.tables
unfolding register
register-IsOwned auth_digest digest s now drawn device body o e = on_guard _ _ _ e λ _ e1.
    on_guard _ _ _ e1 λ _ e2. on_guard _ _ _ e2 λ _ e3. on_bind _ _ e3 λ _ _ e4.
      on_bind _ _ e4 λ _ _ e5. on_bind _ _ e5 λ _ _ e6. on_bind _ _ e6 λ _ _ e7.
        on_guard _ _ _ e7 λ _ e8. on_guard _ _ _ e8 λ _ e9. on_required _ _ _ e9 λ _ _ e10.
          on_bind _ _ e10 λ t made e11.
            subst (λ (x : System). IsOwned x.tables) (ok-injective e11)
              (promote_pending_invitations-IsOwned (normalize body.email) t.tables
                (found_account-IsOwned digest s now drawn device _ _ _ _ o made))

visit-IsOwned :
    (auth_digest digest : Text → Bytes) (v : Visit) (s : System) {s1 : System}
    → IsOwned s.tables
    → visit auth_digest digest v s ≡ ok s1
    → IsOwned s1.tables
unfolding visit
visit-IsOwned auth_digest digest (signs_up now drawn device body) s o e =
    register-IsOwned auth_digest digest s now drawn device body o e
visit-IsOwned auth_digest digest (asks c r) s o e = on_bind _ _ e λ db done e1.
    subst (λ (x : System). IsOwned x.tables) (ok-injective e1) (handle-IsOwned c r s.tables o done)

after-IsOwned :
    (r : Result System) (s : System)
    → IsOwned s.tables
    → ((t : System) → r ≡ ok t → IsOwned t.tables)
    → IsOwned (after r s).tables
after-IsOwned (ok t) s o kept = kept t refl
after-IsOwned (err e) s o kept = o

-- If membership ids are unique and each vault has an owner with an active membership, that is so
-- after any sequence of registrations and of requests by any users that create a vault, answer an
-- invitation, or go to one of the other writing routes of a vault, whatever their bodies and whether
-- they succeed. Import and the deletion of accounts are not among these requests.
pub serve_visits-IsOwned :
    (auth_digest digest : Text → Bytes) (visits : List Visit) (s : System)
    → IsOwned s.tables
    → IsOwned (serve_visits auth_digest digest visits s).tables
unfolding serve_visits
serve_visits-IsOwned auth_digest digest [] s o = o
serve_visits-IsOwned auth_digest digest (v ∷ rest) s o =
    serve_visits-IsOwned auth_digest digest rest (after (visit auth_digest digest v s) s) (
      after-IsOwned (visit auth_digest digest v s) s o
        (λ t done. visit-IsOwned auth_digest digest v s o done))
