-- ===== src/Auth/Totp/Laws.antt =====
-- Replay protection of the second factor, and what its removal leaves.
use safe_pass.Base.{
  ℕ, suc, ◌≤◌, ◌<◌, ◌≡◌, refl, sym, ◌∙◌, false, Option, none, some, List, [], ◌∷◌, ◌++◌, ◌==◌, find,
  find-update, find_sound, find-none, All, count-delete_zero, All-delete_strict, Option-cases, inl,
  inr, arith,
}
use mathlib.Core.Option.{some-injective}
use mathlib.Core.Path.{subst}
use safe_pass.Envelope.Base64.{Text, Bytes}
use safe_pass.Errors.{
  ok, err, api, not_found, ok-injective, Result-cases, on_bind, on_required, on_guard, required,
  ◌>>=◌,
}
use safe_pass.Json.{Number, natural, negative, not_integer}
use safe_pass.Auth.Store.{AuthDb, Session, TotpEnrolment}
use safe_pass.Auth.BackupCodes.{redeem_backup_code, select_code, spend_code, remaining_backup_codes}
use safe_pass.Auth.Totp.{
  accept_step, confirmed_enrolment, record_step, upgrade_session, verify, remove_totp, Proof, step,
  backup_code, is_spent, time_step,
}

-- The last step that the user's enrolment has on record is the given one.
abbrev HasLast : AuthDb → ℕ → ℕ → Type 0
HasLast db user_id last =
    (e : TotpEnrolment) × (find (λ x. x.user_id == user_id) db.enrolments ≡ some e)
    × (e.last_used_step ≡ some last)

accept_step-eq-ok :
    (last : Option ℕ) (now : ℕ) (n : Number) (k : ℕ)
    → accept_step last now n ≡ ok k
    → (n ≡ natural k)
      × (is_spent last k ≡ false)
      × (k ≤ suc (time_step now))
      × (time_step now ≤ suc k)
unfolding accept_step
accept_step-eq-ok last now not_integer k e = cc
accept_step-eq-ok last now negative k e = cc
accept_step-eq-ok last now (natural j) k e = on_guard _ _ _ e λ fresh e1.
    on_guard _ _ _ e1 λ near e2.
      let same : j ≡ k = ok-injective e2 in
      (rw same refl, rw (← same) ground arith, rw (← same) ground arith, rw (← same) ground arith)

-- A step that is accepted is the last one of the user's enrolment afterwards.
verify-HasLast :
    (sha256 : Text → Bytes) (db : AuthDb) (now : ℕ) (s : Session) (n : Number) {db' : AuthDb}
    → verify sha256 db now s (step n) ≡ ok db'
    → (k : ℕ) × (n ≡ natural k)
      × HasLast db' s.user_id k
      × ((b : ℕ) → HasLast db s.user_id b → b < k)
unfolding verify record_step upgrade_session confirmed_enrolment
verify-HasLast sha256 db now s n {db'} e = on_required _ _ _ e λ enrolment found e1.
    on_bind _ _ e1 λ k accepted e2.
      let (which, fresh, _, _) = accept_step-eq-ok _ now n k accepted in
      let there : find (λ (x : TotpEnrolment). x.user_id == s.user_id) db.enrolments
          ≡ some enrolment =
        ground arith in
      let after =
        find-update (λ (x : TotpEnrolment). x.user_id == s.user_id) (λ x. x.user_id == s.user_id)
          (λ x. record x { last_used_step = some k }) db.enrolments (λ y. refl) there in
      let own = find_sound (λ (x : TotpEnrolment). x.user_id == s.user_id) db.enrolments there in
      (
        k,
        which,
        subst (λ d. HasLast d s.user_id k) (ok-injective e2)
            (record enrolment { last_used_step = some k }, after ∙ rw own refl, refl),
        λ b (x, at_x, last).
            let same : x ≡ enrolment = some-injective _ _ (sym at_x ∙ there) in
            ground (arith, last),
      )

redeem_backup_code-enrolments :
    (sha256 : Text → Bytes) (db : AuthDb) (now user_id : ℕ) (code : Text)
    → (redeem_backup_code sha256 db now user_id code).0.enrolments ≡ db.enrolments
unfolding redeem_backup_code spend_code
redeem_backup_code-enrolments sha256 db now user_id code =
    elim (Option-cases (select_code sha256 db user_id code)) [
      | inl absent ↦ rw (absent, redeem_backup_code) refl
      | inr (row, found) ↦ rw (found, redeem_backup_code) refl
    ]

verify-keeps :
    (sha256 : Text → Bytes) (db : AuthDb) (now : ℕ) (s : Session) (code : Text) {db' : AuthDb}
    → verify sha256 db now s (backup_code code) ≡ ok db'
    → db'.enrolments ≡ db.enrolments
unfolding verify upgrade_session
verify-keeps sha256 db now s code e = on_required _ _ _ e λ _ _ e1. on_guard _ _ _ e1 λ _ e2.
    subst (λ d. d.enrolments ≡ db.enrolments) (ok-injective e2)
      (redeem_backup_code-enrolments sha256 db now s.user_id code)

-- The step that a proof claims.
abbrev claimed : Proof → List ℕ
claimed (step (natural k)) = k ∷ []
claimed _ = []

-- The steps that a run of verifications accepts, one after another.
unfoldable pub accepted_steps : (Text → Bytes) → List (ℕ × Session × Proof) → AuthDb → List ℕ
accepted_steps sha256 [] db = []
accepted_steps sha256 ((now, s, p) ∷ rest) db = elim (verify sha256 db now s p) [
  | ok db' ↦ claimed p ++ accepted_steps sha256 rest db'
  | err _ ↦ accepted_steps sha256 rest db
]

-- Each number is above the one before it, and the first above the bound.
abbrev pub IsAbove : ℕ → List ℕ → Type 0
IsAbove bound [] = Unit
IsAbove bound (k ∷ ks) = (bound < k) × IsAbove k ks

abbrev pub IsIncreasing : List ℕ → Type 0
IsIncreasing [] = Unit
IsIncreasing (k ∷ ks) = IsAbove k ks

module _ (sha256 : Text → Bytes) (u : ℕ) where
  accepted_steps-IsAbove :
      (run : List (ℕ × Session × Proof)) (db : AuthDb) (b : ℕ)
      → All (λ (r : ℕ × Session × Proof). r.1.user_id ≡ u) run
      → HasLast db u b
      → IsAbove b (accepted_steps sha256 run db)
  unfolding accepted_steps
  accepted_steps-IsAbove [] db b mine last = tt
  accepted_steps-IsAbove ((now, s, backup_code code) ∷ rest) db b (own, mine) last =
      elim (Result-cases (verify sha256 db now s (backup_code code))) [
        | inl (d, done) ↦
            rw (done, accepted_steps)
              (accepted_steps-IsAbove rest d b mine
                (rw (verify-keeps sha256 db now s code done) last))
        | inr (x, failed) ↦ rw (failed, accepted_steps) (accepted_steps-IsAbove rest db b mine last)
      ]
  accepted_steps-IsAbove ((now, s, step n) ∷ rest) db b (own, mine) last =
      elim (Result-cases (verify sha256 db now s (step n))) [
        | inl (d, done) ↦
            let (k, which, last', above) = verify-HasLast sha256 db now s n done in
            rw (done, which, accepted_steps)
              (above b (rw own last), accepted_steps-IsAbove rest d k mine (rw (← own) last'))
        | inr (x, failed) ↦ rw (failed, accepted_steps) (accepted_steps-IsAbove rest db b mine last)
      ]

  -- In a run of verifications by sessions of one user, by steps and by backup codes mixed, the steps
  -- that are accepted increase strictly: none is ever accepted twice.
  pub accepted_steps-IsIncreasing :
      (run : List (ℕ × Session × Proof)) (db : AuthDb)
      → All (λ (r : ℕ × Session × Proof). r.1.user_id ≡ u) run
      → IsIncreasing (accepted_steps sha256 run db)
  unfolding accepted_steps
  accepted_steps-IsIncreasing [] db mine = tt
  accepted_steps-IsIncreasing ((now, s, backup_code code) ∷ rest) db (own, mine) =
      elim (Result-cases (verify sha256 db now s (backup_code code))) [
        | inl (d, done) ↦ rw (done, accepted_steps) (accepted_steps-IsIncreasing rest d mine)
        | inr (x, failed) ↦ rw (failed, accepted_steps) (accepted_steps-IsIncreasing rest db mine)
      ]
  accepted_steps-IsIncreasing ((now, s, step n) ∷ rest) db (own, mine) =
      elim (Result-cases (verify sha256 db now s (step n))) [
        | inl (d, done) ↦
            let (k, which, last, _) = verify-HasLast sha256 db now s n done in
            rw (done, which, accepted_steps)
              (accepted_steps-IsAbove rest d k mine (rw (← own) last))
        | inr (x, failed) ↦ rw (failed, accepted_steps) (accepted_steps-IsIncreasing rest db mine)
      ]

no_enrolment :
    (db : AuthDb) (u : ℕ)
    → find (λ e. e.user_id == u) db.enrolments ≡ none
    → confirmed_enrolment db u ≡ none
unfolding confirmed_enrolment
no_enrolment db u absent = rw (absent, confirmed_enrolment) refl

verify-unenrolled :
    (sha256 : Text → Bytes) (db : AuthDb) (now : ℕ) (s : Session) (p : Proof)
    → find (λ e. e.user_id == s.user_id) db.enrolments ≡ none
    → verify sha256 db now s p ≡ err (api not_found)
unfolding verify required ◌>>=◌
verify-unenrolled sha256 db now s (backup_code code) absent =
    rw (no_enrolment db s.user_id absent) refl
verify-unenrolled sha256 db now s (step n) absent = rw (no_enrolment db s.user_id absent) refl

-- After the second factor has been removed, the user has neither an enrolment nor a backup code, and
-- no verification by one of the user's sessions succeeds.
pub remove_totp-ends :
    (auth_digest sha256 : Text → Bytes) (db : AuthDb) (now user_id : ℕ) (auth_hash : Text)
    (s : Session) (p : Proof) {db' : AuthDb}
    → remove_totp auth_digest db user_id auth_hash ≡ ok db'
    → s.user_id ≡ user_id
    → (remaining_backup_codes db' user_id ≡ 0) × (verify sha256 db' now s p ≡ err (api not_found))
unfolding remove_totp remaining_backup_codes
remove_totp-ends auth_digest sha256 db now user_id auth_hash s p {db'} e own =
    on_bind _ _ e λ _ _ e1. on_required _ _ _ e1 λ _ _ e2.
      let gone : find (λ e. e.user_id == user_id) db'.enrolments ≡ none =
        subst (λ d. find (λ e. e.user_id == user_id) d.enrolments ≡ none) (ok-injective e2)
          (find-none _ _
            (All-delete_strict _ (λ e. e.user_id == user_id) db.enrolments (λ x h. h))) in
      let none_left : remaining_backup_codes db' user_id ≡ 0 =
        subst (λ d. remaining_backup_codes d user_id ≡ 0) (ok-injective e2)
          (count-delete_zero _ _ db.backup_codes (λ x h. ground arith)) in
      (none_left, verify-unenrolled sha256 db' now s p (rw own gone))
