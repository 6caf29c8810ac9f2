-- ===== src/Auth/Registration/Laws.antt =====
-- What a registration leaves: the rows by which its user can sign in.
use safe_pass.Base.{
  ℕ, ◌≡◌, refl, sym, ap, true, false, ◌&&◌, not, Option, none, some, [], ◌∷◌, ◌==◌, find, any,
  arith,
}
use mathlib.Core.Path.{subst}
use safe_pass.Errors.{
  Result, ok, ok-injective, is_ok-eq, on_bind, on_guard, on_required, ◌>>=◌, ◌>>◌, guard, required,
}
use safe_pass.Envelope.{assert_key_wrap, bytes}
use safe_pass.Envelope.Base64.{Text, Bytes}
use safe_pass.Json.{normalize, includes_at}
use safe_pass.Tables.{text_eq}
use safe_pass.Auth.Store.{AuthDb, Account, UserKeyring}
use safe_pass.Auth.Session.{issue_session}
use safe_pass.Auth.Totp.{confirmed_enrolment}
use safe_pass.Auth.Verification.{issue_verification}
use safe_pass.Auth.Login.{LoginReply, signed_in, login, authenticated}
use safe_pass.Auth.Login.Laws.{text_eq_refl}
use safe_pass.Auth.Registration.{
  System, Registration, Drawn, create_user, new_account, found_account, register,
}

-- The rows of a new user are at the head of their tables.
abbrev HasRows : AuthDb → Account → UserKeyring → AuthDb → Type 0
HasRows before u k after =
    (after.accounts ≡ u ∷ before.accounts) × (after.keyrings ≡ k ∷ before.keyrings)

found_account-rows :
    (digest : Text → Bytes) (s : System) (now : ℕ) (drawn : Drawn) (device : Option Text)
    (u : Account) (k : UserKeyring) (wrap name : Text) (s1 : System)
    → found_account digest s now drawn device u k wrap name ≡ ok s1
    → HasRows s.auth u k s1.auth
unfolding found_account create_user issue_session
found_account-rows digest s now drawn device u k wrap name s1 e = on_bind _ _ e λ t made e1.
    on_bind _ _ e1 λ _ _ e2. on_bind _ _ e2 λ _ _ e3. on_bind _ _ e3 λ _ _ e4.
      on_bind _ _ e4 λ a issued e5. on_guard _ _ _ made λ _ m1. on_guard _ _ _ m1 λ _ m2.
        on_guard _ _ _ m2 λ _ m3. on_guard _ _ _ issued λ _ i1.
          let rows : HasRows s.auth u k t.auth =
            subst (λ (x : System). HasRows s.auth u k x.auth) (ok-injective m3) (refl, refl) in
          subst (λ (x : System). HasRows s.auth u k x.auth) (ok-injective e5)
            (subst (λ (x : AuthDb). HasRows s.auth u k x) (ok-injective i1) rows)

authenticated-head :
    (auth_digest : Text → Bytes) (db old : AuthDb) (email auth_hash : Text) (u : Account)
    (k : UserKeyring)
    → HasRows old u k db
    → u.email ≡ email
    → u.auth_hash_digest ≡ auth_digest auth_hash
    → text_eq email [] ≡ false
    → text_eq auth_hash [] ≡ false
    → authenticated auth_digest db email auth_hash ≡ some u
unfolding authenticated find
authenticated-head auth_digest db old email auth_hash u k (us, ks) mail hash named given =
    let same_mail : text_eq u.email email ≡ true =
      subst (λ x. text_eq u.email x ≡ true) mail (text_eq_refl u.email) in
    let same_hash : text_eq (auth_digest auth_hash) u.auth_hash_digest ≡ true =
      subst (λ x. text_eq x u.auth_hash_digest ≡ true) hash (text_eq_refl u.auth_hash_digest) in
    let found : find (λ x. not (text_eq email []) && text_eq x.email email) db.accounts ≡ some u =
      subst (λ xs. find (λ x. not (text_eq email []) && text_eq x.email email) xs ≡ some u) (sym us)
        (rw (named, same_mail) refl) in
    rw (found, given, same_hash, authenticated) refl

keyring-head :
    (db old : AuthDb) (u : Account) (k : UserKeyring)
    → HasRows old u k db
    → k.user_id ≡ u.id
    → find (λ x. x.user_id == u.id) db.keyrings ≡ some k
unfolding find
keyring-head db old u k (us, ks) same =
    let hit : (k.user_id == u.id) ≡ true = ground arith in rw (ks, hit) refl

-- A sign-in with the address and the hash of the account at the head of the table.
login-head :
    (auth_digest digest : Text → Bytes) (db : AuthDb) (now id : ℕ) (token : Text)
    (device : Option Text) (email auth_hash : Text) (old db1 : AuthDb) (u : Account)
    (k : UserKeyring)
    → HasRows old u k db
    → u.email ≡ normalize email
    → u.auth_hash_digest ≡ auth_digest auth_hash
    → k.user_id ≡ u.id
    → text_eq (normalize email) [] ≡ false
    → text_eq auth_hash [] ≡ false
    → confirmed_enrolment db u.id ≡ none
    → issue_session digest db now id token u.id device false ≡ ok db1
    → login auth_digest digest db now id token device email auth_hash ≡ ok (db1, signed_in k)
unfolding login required ◌>>=◌ issue_session
login-head auth_digest digest db now id token device email auth_hash old db1 u k rows mail hash same
      named given free issued =
    let user =
      authenticated-head auth_digest db old (normalize email) auth_hash u k rows mail hash named
        given in
    let keyring = keyring-head db old u k rows same in
    let the_pair : AuthDb → Result (AuthDb × LoginReply) = λ d. ok (d, signed_in k) in
    rw (user, keyring, free) (ap (λ (r : Result AuthDb). r >>= λ (d : AuthDb). the_pair d) issued)

includes_at-named : (t : Text) → includes_at t ≡ true → text_eq t [] ≡ false
unfolding includes_at any text_eq
includes_at-named [] h = cc
includes_at-named (c ∷ t) h = refl

-- The keyring holds the two wrapped keys of the body.
abbrev pub IsKeyringOf : Registration → UserKeyring → Type 0
IsKeyringOf body k =
    (user_key : Text) × (private_key : Text) × (assert_key_wrap body.wrapped_user_key ≡ ok user_key)
    × (assert_key_wrap body.wrapped_private_key ≡ ok private_key)
    × (k.wrapped_user_key ≡ bytes user_key)
    × (k.wrapped_private_key ≡ bytes private_key)

register-rows :
    (auth_digest digest : Text → Bytes) (s : System) (now : ℕ) (drawn : Drawn)
    (device : Option Text) (body : Registration) (s1 : System)
    → register auth_digest digest s now drawn device body ≡ ok s1
    → (k : UserKeyring) × HasRows s.auth (new_account auth_digest drawn.user_id body) k s1.auth
      × (k.user_id ≡ drawn.user_id)
      × (text_eq (normalize body.email) [] ≡ false)
      × (text_eq body.auth_hash [] ≡ false)
      × IsKeyringOf body k
unfolding register issue_verification
register-rows auth_digest digest s now drawn device body s1 e = on_guard _ _ _ e λ _ e1.
    on_guard _ _ _ e1 λ at e2. on_guard _ _ _ e2 λ given e3. on_bind _ _ e3 λ user_key wraps e4.
      on_bind _ _ e4 λ private_key seals e5. on_bind _ _ e5 λ vault_key _ e6.
        on_bind _ _ e6 λ name _ e7. on_guard _ _ _ e7 λ _ e8. on_guard _ _ _ e8 λ _ e9.
          on_required _ _ _ e9 λ public_key _ e10. on_bind _ _ e10 λ t made e11.
            let k : UserKeyring = record {
              user_id = drawn.user_id;
              wrapped_user_key = bytes user_key;
              public_key = public_key;
              wrapped_private_key = bytes private_key;
            } in
            let u = new_account auth_digest drawn.user_id body in
            let rows = found_account-rows digest s now drawn device u k vault_key name t made in
            (
              k,
              subst (λ (x : System). HasRows s.auth u k x.auth) (ok-injective e11) rows,
              refl,
              includes_at-named (normalize body.email) at,
              ground arith,
              (user_key, private_key, wraps, seals, refl, refl),
            )

-- After a registration that succeeds, a sign-in with the same address and authentication hash
-- answers with a keyring that holds the two wrapped keys of the registration, and a session is
-- issued, provided that the user has enrolled no second factor and that the id and the token drawn
-- for the session are new.
pub register-login :
    (auth_digest digest : Text → Bytes) (s : System) (now : ℕ) (drawn : Drawn)
    (device : Option Text) (body : Registration) (s1 : System) (later id : ℕ) (token : Text)
    → register auth_digest digest s now drawn device body ≡ ok s1
    → confirmed_enrolment s1.auth drawn.user_id ≡ none
    → any (λ x. x.id == id) s1.auth.sessions ≡ false
    → any (λ x. text_eq x.token_digest (digest token)) s1.auth.sessions ≡ false
    → (db : AuthDb) × (k : UserKeyring) × (login auth_digest digest s1.auth later id token device
          body.email body.auth_hash
        ≡ ok (db, signed_in k))
      × IsKeyringOf body k
unfolding issue_session guard ◌>>◌ ◌>>=◌
register-login auth_digest digest s now drawn device body s1 later id token e free fresh unused =
    let (k, rows, same, named, given, held) =
      register-rows auth_digest digest s now drawn device body s1 e in
    let u = new_account auth_digest drawn.user_id body in
    let (db, issued) =
      is_ok-eq (issue_session digest s1.auth later id token drawn.user_id device false)
        (rw (fresh, unused) refl) in
    (
      db,
      k,
      login-head auth_digest digest s1.auth later id token device body.email body.auth_hash s.auth
          db u k rows refl refl same named given free issued,
      held,
    )
