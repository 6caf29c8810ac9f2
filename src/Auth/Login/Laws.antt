-- ===== src/Auth/Login/Laws.antt =====
-- What a session may do after a sign-in, and after the master password was changed elsewhere.
use safe_pass.Base.{
  ℕ, ◌≡◌, ◌≢◌, refl, sym, ap, ◌∙◌, true, false, not, Option, none, some, [], ◌∷◌, ◌==◌, find,
  find_sound, ◌+◌, arith,
}
use mathlib.Core.Option.{some-injective}
use mathlib.Core.Path.{subst}
use safe_pass.Envelope.{Value}
use safe_pass.Envelope.Base64.{Text, Bytes}
use safe_pass.Errors.{ok, ok-injective, on_bind, on_guard, on_required}
use safe_pass.Tables.{text_eq}
use safe_pass.Auth.Store.{AuthDb, Account, Session, KdfParams}
use safe_pass.Auth.Totp.{confirmed_enrolment}
use safe_pass.Auth.Session.{lifetime_ms, issue_session, is_none}
use safe_pass.Auth.Guard.{session_guard, path_of, has, pending_totp_allowed, reauth_route}
use safe_pass.Auth.Guard.Laws.{session_guard_sound, mark_siblings_for_reauth-stops}
use safe_pass.Auth.Login.{totp_required, login, change_master_password}

pub text_eq_refl : (a : Text) → text_eq a a ≡ true
unfolding text_eq
text_eq_refl [] = refl
text_eq_refl (c ∷ a) = ground (arith, text_eq_refl a)

-- While the second factor is due, the session that a sign-in has issued is let through by the guard
-- to none but the three paths that complete it.
pub login-limits :
    (auth_digest digest : Text → Bytes) (db : AuthDb) (now id : ℕ) (token : Text)
    (device : Option Text) (email auth_hash : Text) (db1 : AuthDb) (later : ℕ) (url : Text)
    (db2 : AuthDb) (s : Session)
    → login auth_digest digest db now id token device email auth_hash ≡ ok (db1, totp_required)
    → has pending_totp_allowed (path_of url) ≡ false
    → session_guard digest db1 later url (some token) ≢ ok (db2, some s)
unfolding login issue_session find
login-limits auth_digest digest db now id token device email auth_hash db1 later url db2 s e outside
      g =
    on_required _ _ _ e λ user found e1. on_required _ _ _ e1 λ keyring held e2.
      on_bind _ _ e2 λ d issued e3. on_guard _ _ _ issued λ fresh i1.
        let a = session_guard_sound digest db1 later url (some token) db2 s g in
        let pairs = ok-injective e3 in
        let due : not (is_none (confirmed_enrolment db user.id)) ≡ true =
          ground (arith, ap (λ p. p.1) pairs) in
        let fresh_session : Session = record {
          id = id;
          user_id = user.id;
          token_digest = digest token;
          device_label = device;
          expires_at = now + lifetime_ms;
          last_seen_at = now;
          revoked_at = none;
          reauth_required_at = none;
          pending_totp = not (is_none (confirmed_enrolment db user.id));
        } in
        let made : d ≡ db1 = ap (λ p. p.0) pairs in
        let head : find (λ y. text_eq y.token_digest (digest token)) db1.sessions
            ≡ some fresh_session =
          subst
            (λ x. find (λ y. text_eq y.token_digest (digest token)) x.sessions ≡ some fresh_session)
            (ok-injective i1 ∙ made) (rw (text_eq_refl (digest token)) refl) in
        let same : token ≡ a.token = ground (arith, a.presented) in
        let read : find (λ y. text_eq y.token_digest (digest token)) db1.sessions ≡ some s =
          subst (λ t. find (λ y. text_eq y.token_digest (digest t)) db1.sessions ≡ some s)
            (sym same) a.stored in
        let value : s ≡ fresh_session = some-injective _ _ (sym read ∙ head) in
        let pending : s.pending_totp ≡ true = rw value due in
        let second = a.second_factor in absurd (ground arith)

-- After a change of the master password, a session of the user that was issued before, other than
-- the one that made the change, is let through to nothing under /api/ but the re-authentication and
-- the public paths.
pub change_master_password-stops :
    (auth_digest digest : Text → Bytes) (db : AuthDb) (now : ℕ) (own : Session)
    (current new_hash : Text) (raw : Value) (params : Option KdfParams) (db1 : AuthDb)
    (token : Text) (s : Session) (later : ℕ) (url : Text) (db2 : AuthDb) (x : Session)
    → change_master_password auth_digest db now own current new_hash raw params ≡ ok db1
    → find (λ y. text_eq y.token_digest (digest token)) db.sessions ≡ some s
    → s.user_id ≡ own.user_id
    → s.id ≢ own.id
    → text_eq (path_of url) reauth_route ≡ false
    → session_guard digest db1 later url (some token) ≢ ok (db2, some x)
unfolding change_master_password
change_master_password-stops auth_digest digest db now own current new_hash raw params db1 token s
      later url db2 x e stored whose other elsewhere g =
    on_required _ _ _ e λ user found e1. on_guard _ _ _ e1 λ _ e2. on_guard _ _ _ e2 λ _ e3.
      on_bind _ _ e3 λ _ _ e4. on_guard _ _ _ e4 λ _ e5.
        let whom : (user.id == own.user_id) ≡ true =
          find_sound (λ (u : Account). u.id == own.user_id) db.accounts found in
        mark_siblings_for_reauth-stops digest _ now later user.id own.id token s stored
          (ground arith) other url db2 x elsewhere
          (subst (λ d. session_guard digest d later url (some token) ≡ ok (db2, some x))
            (sym (ok-injective e5)) g)
