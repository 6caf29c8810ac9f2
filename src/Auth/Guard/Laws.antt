-- ===== src/Auth/Guard/Laws.antt =====
-- What the guard has established about a request that it lets through, and whom it refuses after a
-- password change or a sign-out elsewhere.
use safe_pass.Base.{
  ℕ, ◌<◌, ◌≡◌, ◌≢◌, refl, sym, ◌∙◌, Bool, true, false, ◌&&◌, ◌||◌, not, Option, none, some, find,
  find-update, Bool-cases, inl, inr, arith, if◌then◌else◌,
}
use mathlib.Core.Option.{some-injective}
use mathlib.Core.Path.{subst}
use safe_pass.Envelope.Base64.{Text, Bytes}
use safe_pass.Errors.{ok, ok-injective, on_required, on_guard}
use safe_pass.Tables.{text_eq}
use safe_pass.Auth.Store.{AuthDb, Session}
use safe_pass.Auth.Session.{find_live_session, is_none, is_sibling, mark_siblings_for_reauth}
use safe_pass.Auth.Guard.{
  session_guard, path_of, starts_with, api_prefix, has, public_paths, reauth_route,
  pending_totp_allowed,
}

-- The paths that the guard does not look behind.
abbrev pub is_open : Text → Bool
is_open path = not (starts_with api_prefix path) || has public_paths path

-- What a session must be for a request on the path.
pub record IsAdmitted (digest : Text → Bytes) (db : AuthDb) (now : ℕ) (path : Text)
    (cookie : Option Text) (s : Session) : Type 0 where
  pub token : Text
  pub presented : cookie ≡ some token
  pub stored : find (λ x. text_eq x.token_digest (digest token)) db.sessions ≡ some s
  pub live : s.revoked_at ≡ none
  pub unexpired : now < s.expires_at
  pub current : (is_none s.reauth_required_at || text_eq path reauth_route) ≡ true
  pub second_factor : (not s.pending_totp || has pending_totp_allowed path) ≡ true

pub none_of_is_none : {A : Type 0} (o : Option A) → is_none o ≡ true → o ≡ none
none_of_is_none none h = refl
none_of_is_none (some a) h = cc

module _ (digest : Text → Bytes) (db : AuthDb) (now : ℕ) where
  find_live_session-some :
      (token : Text) (s : Session)
      → find_live_session digest db now token ≡ some s
      → (find (λ x. text_eq x.token_digest (digest token)) db.sessions ≡ some s)
        × (s.revoked_at ≡ none)
        × (now < s.expires_at)
  unfolding find_live_session
  find_live_session-some token s e = (ground arith, ground arith, ground arith)

  -- A request that goes through with a session has presented the token of a session that is neither
  -- revoked nor expired; if the session must authenticate again the path is that of the
  -- re-authentication, and if its second factor is pending the path is one of the three allowed.
  pub session_guard_sound :
      (url : Text) (cookie : Option Text) (db' : AuthDb) (s : Session)
      → session_guard digest db now url cookie ≡ ok (db', some s)
      → IsAdmitted digest db now (path_of url) cookie s
  unfolding session_guard
  session_guard_sound url cookie db' s e =
      elim (Bool-cases (starts_with api_prefix (path_of url))) [
        | inr static ↦ absurd (ground arith)
        | inl api_path ↦ elim (Bool-cases (has public_paths (path_of url))) [
          | inl open_path ↦ absurd (ground arith)
          | inr guarded ↦
              on_required _ _ _ (rw (api_path, guarded, session_guard) at e) λ token given e1.
                on_guard _ _ _ e1 λ _ e2. on_required _ _ _ e2 λ x found e3.
                  on_guard _ _ _ e3 λ fresh e4. on_guard _ _ _ e4 λ second e5.
                    let same : x ≡ s = ground (arith, ok-injective e5) in
                    subst (IsAdmitted digest db now (path_of url) cookie) same (record {
                      token = token;
                      presented = given;
                      stored = (find_live_session-some token x found).0;
                      live = (find_live_session-some token x found).1;
                      unexpired = (find_live_session-some token x found).2;
                      current = ground arith;
                      second_factor = ground arith;
                    })
        ]
      ]

  -- A request that goes through without a session is for a static file or a public path.
  pub session_guard-open :
      (url : Text) (cookie : Option Text) (db' : AuthDb)
      → session_guard digest db now url cookie ≡ ok (db', none)
      → is_open (path_of url) ≡ true
  unfolding session_guard
  session_guard-open url cookie db' e = elim (Bool-cases (starts_with api_prefix (path_of url))) [
    | inr static ↦ ground arith
    | inl api_path ↦ elim (Bool-cases (has public_paths (path_of url))) [
      | inl open_path ↦ ground arith
      | inr guarded ↦
          on_required _ _ _ (rw (api_path, guarded, session_guard) at e) λ token given e1.
            on_guard _ _ _ e1 λ _ e2. on_required _ _ _ e2 λ x found e3.
              on_guard _ _ _ e3
                λ _ e4. on_guard _ _ _ e4 λ _ e5. absurd (ground (arith, ok-injective e5))
    ]
  ]

module _ (digest : Text → Bytes) (db : AuthDb) (at' now user_id keep_id : ℕ) (token : Text)
    (s : Session) (stored : find (λ x. text_eq x.token_digest (digest token)) db.sessions ≡ some s)
    (whose : s.user_id ≡ user_id) (other : s.id ≢ keep_id) where
  -- After a password change in one session, no other session of the user that presents its token is
  -- let through to anything under /api/ but the re-authentication and the public paths.
  pub mark_siblings_for_reauth-stops :
      (url : Text) (d : AuthDb) (x : Session)
      → text_eq (path_of url) reauth_route ≡ false
      → session_guard digest
          (mark_siblings_for_reauth db at' user_id keep_id).0
          now
          url
          (some token)
        ≢ ok (d, some x)
  unfolding mark_siblings_for_reauth
  mark_siblings_for_reauth-stops url d x elsewhere e =
      let a = session_guard_sound digest _ now url (some token) d x e in
      let found =
        find-update (λ y. text_eq y.token_digest (digest token))
          (λ (y : Session). is_sibling user_id keep_id y && is_none y.reauth_required_at)
          (λ y. record y { reauth_required_at = some at' }) db.sessions (λ y. refl) stored in
      let db1 = (mark_siblings_for_reauth db at' user_id keep_id).0 in
      let same : token ≡ a.token = ground (arith, a.presented) in
      let read : find (λ y. text_eq y.token_digest (digest token)) db1.sessions ≡ some x =
        subst (λ t. find (λ y. text_eq y.token_digest (digest t)) db1.sessions ≡ some x) (sym same)
          a.stored in
      let value : x ≡ (
          if is_sibling user_id keep_id s && is_none s.reauth_required_at
          then record s { reauth_required_at = some at' }
          else s) =
        some-injective _ _ (sym read ∙ found) in
      let live = a.live in
      let current = a.current in
      elim (Bool-cases (is_sibling user_id keep_id s && is_none s.reauth_required_at)) [
        | inl stamped ↦
            let stamp : is_none x.reauth_required_at ≡ false = rw (value, stamped) refl in
            absurd (ground arith)
        | inr kept ↦
            let same_session : x ≡ s = rw (value, kept) refl in
            let alive : is_none s.revoked_at ≡ true = rw (← same_session, live) refl in
            let fresh : is_none s.reauth_required_at ≡ true = rw (← same_session) ground arith in
            absurd (ground arith)
      ]
