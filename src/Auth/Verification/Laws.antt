-- ===== src/Auth/Verification/Laws.antt =====
-- A mailed token verifies one address once, and only the newest one does.
use safe_pass.Base.{
  ℕ, ◌+◌, ◌≤◌, ◌≡◌, refl, sym, ◌∙◌, Bool, true, false, ◌&&◌, not, some, List, [], ◌∷◌, ◌==◌, ltb,
  any, find, update, filter, count, All, All-update, All-intro, count-zero, count-delete_zero,
  Bool-cases, inl, inr, arith,
}
use mathlib.Core.Path.{subst}
use safe_pass.Envelope.Base64.{Text, Bytes}
use safe_pass.Errors.{
  Result, ok, err, api, validation_failed, ok-injective, Result-cases, on_bind, on_guard,
  required-eq-ok, guard, ◌>>=◌, ◌>>◌,
}
use safe_pass.Tables.{text_eq}
use safe_pass.Auth.Store.{AuthDb, Account, EmailVerification}
use safe_pass.Auth.Session.{is_none}
use safe_pass.Auth.Verification.{
  issue_verification, select_verification, commit_verification, verify_email, is_live,
}

accepted : Result AuthDb → ℕ
accepted (ok db) = 1
accepted (err x) = 0

left : Result AuthDb → AuthDb → AuthDb
left (ok db') db = db'
left (err x) db = db

-- The successes among clicks that had all found the same row.
unfoldable pub accepted_clicks : List ℕ → EmailVerification → AuthDb → ℕ
unfolding accepted left
accepted_clicks [] row db = 0
accepted_clicks (now ∷ later) row db =
    accepted (commit_verification db now row)
    + accepted_clicks later row (left (commit_verification db now row) db)

abbrev pub IsUsed : EmailVerification → AuthDb → Type 0
IsUsed row db = All (λ v. (v.id == row.id && is_none v.used_at) ≡ false) db.verifications

commit_verification-IsUsed :
    (db : AuthDb) (now : ℕ) (row : EmailVerification) {db' : AuthDb}
    → commit_verification db now row ≡ ok db'
    → IsUsed row db'
unfolding commit_verification
commit_verification-IsUsed db now row e = on_guard _ _ _ e λ _ e1. on_guard _ _ _ e1 λ _ e2.
    subst (IsUsed row) (ok-injective e2) (
      All-update (λ _. Unit {0}) _ (λ (v : EmailVerification). v.id == row.id && is_none v.used_at)
        _ db.verifications (All-intro _ (λ x. tt) db.verifications) (λ x hit _. ground arith)
        (λ x miss _. miss))

used-fails :
    (db : AuthDb) (now : ℕ) (row : EmailVerification)
    → IsUsed row db
    → commit_verification db now row ≡ err (api validation_failed)
unfolding commit_verification guard ◌>>=◌ ◌>>◌
used-fails db now row used = rw (
    count-zero (λ (v : EmailVerification). v.id == row.id && is_none v.used_at) db.verifications
      used)

accepted_clicks-used :
    (nows : List ℕ) (row : EmailVerification) (db : AuthDb)
    → IsUsed row db
    → accepted_clicks nows row db ≡ 0
unfolding accepted_clicks
accepted_clicks-used [] row db used = refl
accepted_clicks-used (now ∷ later) row db used =
    rw (used-fails db now row used) (omega (arith, accepted_clicks-used later row db used))

-- Of any number of clicks that reach the transaction with one row, at most one succeeds.
pub accepted_clicks-le :
    (nows : List ℕ) (row : EmailVerification) (db : AuthDb) → accepted_clicks nows row db ≤ 1
unfolding accepted_clicks
accepted_clicks-le [] row db = omega arith
accepted_clicks-le (now ∷ later) row db = elim (Result-cases (commit_verification db now row)) [
  | inl (d, done) ↦
      rw done (
        omega
          (arith, accepted_clicks-used later row d (commit_verification-IsUsed db now row done)))
  | inr (x, failed) ↦ rw failed (omega (arith, accepted_clicks-le later row db))
]

-- Issuing a token leaves the user exactly one unused token, whatever was outstanding before.
pub issue_verification-newest :
    (digest : Text → Bytes) (db : AuthDb) (now id : ℕ) (token : Text) (user_id : ℕ)
    → count
        (λ v. v.user_id == user_id && is_none v.used_at)
        (issue_verification digest db now id token user_id).verifications
      ≡ 1
unfolding issue_verification count
issue_verification-newest digest db now id token user_id = ground (
  arith,
  count-delete_zero (λ (v : EmailVerification). v.user_id == user_id && is_none v.used_at)
      (λ v. v.user_id == user_id && is_none v.used_at) db.verifications (λ x h. h),
)

commit_verification-accounts :
    (db : AuthDb) (now : ℕ) (row : EmailVerification) {db' : AuthDb}
    → commit_verification db now row ≡ ok db'
    → All (λ u. (u.id == row.user_id && is_none u.email_verified_at) ≡ false) db'.accounts
unfolding commit_verification
commit_verification-accounts db now row e = on_guard _ _ _ e λ _ e1. on_guard _ _ _ e1 λ _ e2.
    subst (λ d. All (λ u. (u.id == row.user_id && is_none u.email_verified_at) ≡ false) d.accounts)
      (ok-injective e2)
      (All-update (λ _. Unit {0}) _ (λ (u : Account). u.id == row.user_id) _ db.accounts
        (All-intro _ (λ x. tt) db.accounts) (λ x hit _. ground arith) (λ x miss _. ground arith))

find-filter :
    {A : Type 0} (p q : A → Bool) (xs : List A) → find p (filter q xs) ≡ find (λ x. q x && p x) xs
unfolding find filter
find-filter p q [] = refl
find-filter p q (x ∷ xs) = elim (Bool-cases (q x)) [
  | inl kept ↦ rw (kept, find-filter p q xs) refl
  | inr gone ↦ rw (gone, find-filter p q xs) refl
]

-- An account of the user with a verified address.
abbrev is_verified : ℕ → Account → Bool
is_verified user_id u = u.id == user_id && not (is_none u.email_verified_at)

any-verified :
    (user_id now : ℕ) (us : List Account)
    → any (λ u. u.id == user_id) us ≡ true
    → any
        (is_verified user_id)
        (update (λ u. u.id == user_id) (λ u. record u { email_verified_at = some now }) us)
      ≡ true
unfolding any update
any-verified user_id now [] h = cc
any-verified user_id now (u ∷ us) h = ground (arith, any-verified user_id now us)

commit_verification-verifies :
    (db : AuthDb) (now : ℕ) (row : EmailVerification) {db' : AuthDb}
    → commit_verification db now row ≡ ok db'
    → any (is_verified row.user_id) db'.accounts ≡ true
unfolding commit_verification
commit_verification-verifies db now row e = on_guard _ _ _ e λ _ e1. on_guard _ _ _ e1 λ has e2.
    subst (λ (d : AuthDb). any (is_verified row.user_id) d.accounts ≡ true) (ok-injective e2)
      (any-verified row.user_id now db.accounts has)

-- A verification that succeeds has found a row of the table, the first one whose digest is that of the
-- token and that was neither used nor expired. Afterwards that row is used, its user has an account
-- with a verified address, and no account of that user without one.
pub verify_email_sound :
    (digest : Text → Bytes) (db : AuthDb) (now : ℕ) (token : Text) {db' : AuthDb}
    → verify_email digest db now token ≡ ok db'
    → (v : EmailVerification) × (find
          (λ x.
            (is_none x.used_at && ltb now x.expires_at) && text_eq x.token_digest (digest token))
          db.verifications
        ≡ some v)
      × IsUsed v db'
      × (any (is_verified v.user_id) db'.accounts ≡ true)
      × All (λ u. (u.id == v.user_id && is_none u.email_verified_at) ≡ false) db'.accounts
unfolding verify_email select_verification
verify_email_sound digest db now token {db'} e = on_bind _ _ e λ row selected e1.
    on_guard _ _ _ selected λ _ s1. (
      row,
      sym (find-filter (λ x. text_eq x.token_digest (digest token)) (is_live now) db.verifications)
          ∙ required-eq-ok _ _ s1,
      commit_verification-IsUsed db now row e1,
      commit_verification-verifies db now row e1,
      commit_verification-accounts db now row e1,
    )
